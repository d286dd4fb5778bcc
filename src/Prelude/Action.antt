-- ===== src/Prelude/Action.antt =====
-- An asynchronous method as a state transformer that may throw. What it wrote before a throw stays
-- written until the transaction around it rolls back.
use mathlib.Core.Bool.{Bool, true, false}
use mathlib.Core.Option.{Option, none, some}

-- The error codes of the exceptions that the services throw.
pub data Code : Type 0 where
  sku_not_found order_not_found invoice_not_found tax_rule_not_found resource_not_found : Code
  tenant_not_found booking_not_found no_available_lot insufficient_stock release_exceeds_reserved :
      Code
  consume_exceeds_reserved order_not_returnable no_invoice_to_return refund_method_required : Code
  invoice_already_issued order_not_confirmed invoice_cancelled invalid_amount : Code
  duplicate_payment_reference overpayment capacity_unavailable hold_not_confirmable : Code
  booking_not_cancellable booking_not_confirmed : Code
  webhook_token_not_found credential_not_found sepay_webhook_auth_failed transaction_id_missing :
      Code
  message_id_missing message_fields_missing adapter_not_implemented : Code
  message_not_found message_already_replied : Code
  email_already_registered invalid_credentials email_not_verified account_not_active : Code
  no_tenant_membership invalid_token user_not_found : Code
  supplier_not_found purchase_note_not_found : Code

pub data Failure : Type 0 where
  not_found conflict : Code → Failure
  bad_request tenant_mismatch : Failure
  -- The database refused a statement: a CHECK, UNIQUE or FOREIGN KEY, or a text that is no number.
  refused : Failure
  -- A plain `Error`, thrown where the code calls a state impossible.
  invariant_violation : Failure
  permission_denied unauthorized : Code → Failure
  rate_limited : Failure
  -- What `connectorFetch` throws: no usable answer, or one that no retry improves, with the code
  -- that its body names; and the breaker's own error, with no call made.
  retryable : Failure
  non_retryable : Option Code → Failure
  circuit_open : Failure
  -- The cipher's authentication failed, or the text behind it is no JSON.
  undecryptable : Failure

-- The code that the body of the answer to an exception names.
abbrev pub code_of : Failure → Option Code
code_of (not_found c) = some c
code_of (conflict c) = some c
code_of (permission_denied c) = some c
code_of (unauthorized c) = some c
code_of _ = none

pub data Result (A : Type 0) : Type 0 where
  ok : A → Result A
  err : Failure → Result A

abbrev pub Action : Type 0 → Type 0 → Type 0
Action S A = S → Result A × S

module _ {S A : Type 0} where
  abbrev pub pure : A → Action S A
  pure a s = (ok a, s)

  abbrev pub throw : Failure → Action S A
  throw e s = (err e, s)

  abbrev pub or_throw : Option A → Failure → Action S A
  or_throw none e = throw e
  or_throw (some a) e = pure a

  abbrev pub gets : (S → A) → Action S A
  gets f s = (ok (f s), s)

module _ {S A B : Type 0} where
  abbrev pub follow : Result A → (A → Action S B) → Action S B
  follow (ok a) f s = f a s
  follow (err e) f s = (err e, s)

  infixl 5 ◌>>=◌ ◌>>◌
  abbrev pub ◌>>=◌ : Action S A → (A → Action S B) → Action S B
  ◌>>=◌ m f s = let (r, s') = m s in follow r f s'

  abbrev pub ◌>>◌ : Action S A → Action S B → Action S B
  m >> k = m >>= λ _. k

abbrev pub throw_if : {S : Type 0} → Bool → Failure → Action S (Unit {0})
throw_if true e = throw e
throw_if false e = pure tt

abbrev pub modify : {S : Type 0} → (S → S) → Action S (Unit {0})
modify f s = (ok tt, f s)
