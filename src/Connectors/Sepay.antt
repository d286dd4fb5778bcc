-- ===== src/Connectors/Sepay.antt =====
-- services/connector-hub/src/modules/connectors/sepay/sepay-webhook.controller.ts and
-- src/modules/webhooks/backend-api-payment.client.ts, with the endpoint that they call,
-- services/backend-api/src/modules/payment-reconcile/api/internal-payment.controller.ts.
pub mod Guards
pub mod Landing
pub mod Rows
pub mod Settlement
pub mod Completion
use mathlib.Core.Option
use solodesk.Prelude.{
  ℕ, Bool, true, false, not, ◌&&◌, Option, none, some, List, [], ◌∷◌, ◌++◌, ◌==◌,
}
use solodesk.Prelude.Int.{ℤ, pos}
use solodesk.Prelude.Action.{
  Action, Result, ok, err, Failure, not_found, permission_denied, non_retryable, refused,
  webhook_token_not_found, credential_not_found, sepay_webhook_auth_failed, transaction_id_missing,
  duplicate_payment_reference, throw, throw_if, or_throw, gets, pure, ◌>>=◌, ◌>>◌,
}
use solodesk.Money.{Text}
use solodesk.Sales.{Store, Payment, InvoiceNumber, bank_transfer}
use solodesk.Sales.Payments.{CreatePaymentInput, record_payment_by_invoice_number}
use solodesk.Connectors.{
  Provider, sepay, same_provider, SepayBody, sepay_body, payment_received, WebhookToken, PathToken,
  WebhookEvent, Hub,
}
use solodesk.Connectors.InvoiceNumbers.{extract_invoice_number, number_of}
use solodesk.Connectors.Vault.{
  CredentialPayload, Cipher, get_decrypted_payload, resolve_webhook_token,
}
use solodesk.Connectors.Webhooks.{NormalizedEvent, Recorded, record_event, mark_forwarded, occurred}
use solodesk.Connectors.Resilience.{Link, connector_fetch}

abbrev pub same_text : Text → Text → Bool
same_text [] [] = true
same_text [] (c ∷ t) = false
same_text (c ∷ s) [] = false
same_text (c ∷ s) (d ∷ t) = c == d && same_text s t

-- A field of the decrypted JSON object.
abbrev pub field : Text → CredentialPayload → Option Text
field name [] = none
field name ((k, v) ∷ fields) = elim (same_text k name) [ true ↦ some v | false ↦ field name fields ]

abbrev pub webhook_secret : Text
webhook_secret =
    b'w' ∷ b'e' ∷ b'b' ∷ b'h' ∷ b'o' ∷ b'o' ∷ b'k' ∷ b'S' ∷ b'e' ∷ b'c' ∷ b'r' ∷ b'e' ∷ b't' ∷ []

-- A missing field in a template is the text `undefined`.
abbrev pub in_template : Option Text → Text
in_template none = b'u' ∷ b'n' ∷ b'd' ∷ b'e' ∷ b'f' ∷ b'i' ∷ b'n' ∷ b'e' ∷ b'd' ∷ []
in_template (some s) = s

-- `Apikey ${credentials.webhookSecret}`
unfoldable pub expected_header : CredentialPayload → Text
expected_header credentials =
    b'A' ∷ b'p' ∷ b'i' ∷ b'k' ∷ b'e' ∷ b'y' ∷ b' ' ∷ in_template (field webhook_secret credentials)

abbrev pub is_header : Option Text → Text → Bool
is_header none expected = false
is_header (some s) expected = same_text s expected

pub record ForwardPaymentInput : Type 0 where
  pub tenant : ℕ
  pub invoice_number : Text
  pub amount : ℤ
  pub reference_code : ℕ

-- `POST /internal/payments/by-invoice-number`: the session is the tenant of the body.
unfoldable pub record_by_invoice_number : ℕ → ℕ → ForwardPaymentInput → Action Store Payment
record_by_invoice_number id now input =
    record_payment_by_invoice_number input.tenant id now input.tenant
      (number_of input.invoice_number)
      (record {
        invoice = 0;
        method = bank_transfer;
        amount = input.amount;
        type = none;
        reference_code = some input.reference_code;
      })

abbrev pub is_duplicate : Failure → Bool
is_duplicate (non_retryable (some duplicate_payment_reference)) = true
is_duplicate _ = false

-- The `catch`: a duplicate reference means that an earlier attempt has landed.
abbrev pub landed : Result (Unit {0}) → Result (Unit {0})
landed (ok u) = ok u
landed (err e) = elim (is_duplicate e) [ true ↦ ok tt | false ↦ err e ]

-- What a delivery draws: the ids of the rows it may write, and the time.
pub record Fresh : Type 0 where
  pub event : ℕ
  pub payment : ℕ
  pub now : ℕ

pub record World : Type 0 where
  pub hub : Hub
  pub link : Link Store

module _ {A : Type 0} where
  abbrev pub on_hub : Action Hub A → Action World A
  on_hub m w = let (r, h) = m w.hub in (r, record w { hub = h })

  abbrev pub on_link : Action (Link Store) A → Action World A
  on_link m w = let (r, l) = m w.link in (r, record w { link = l })

pub record Answer : Type 0 where
  pub deduplicated : Bool
  pub forwarded : Bool

abbrev pub is_sepay : Option WebhookToken → Option WebhookToken
is_sepay none = none
is_sepay (some t) = elim (same_provider t.provider sepay) [ true ↦ some t | false ↦ none ]

-- `String(body.referenceCode ?? body.id)`
abbrev pub reference : SepayBody → ℕ → ℕ
reference body id = elim body.reference_code [ none ↦ id | some code ↦ code ]

abbrev pub amount_of : Option ℤ → ℤ
amount_of none = pos 0
amount_of (some amount) = amount

-- The invoice number of an incoming transfer that was not forwarded yet.
abbrev pub to_forward : SepayBody → WebhookEvent → Option Text
to_forward body event = elim (body.is_incoming) [
  | false ↦ none
  | true ↦ elim (event.forwarded_at) [ some at ↦ none | none ↦ extract_invoice_number body.content ]
]

abbrev pub transfer : ℕ → ℕ → ℕ → SepayBody → NormalizedEvent
transfer tenant id occurred_at body = record {
  tenant = tenant;
  provider = sepay;
  provider_event_id = id;
  event_type = payment_received;
  occurred_at = occurred_at;
  payload = sepay_body body;
}

module _ (status : Failure → ℕ)
    (execute : Action (Link Store) (Unit {0}) → Action (Link Store) (Unit {0})) where
  unfoldable pub forward_payment : ℕ → ℕ → ForwardPaymentInput → Action (Link Store) (Unit {0})
  forward_payment id now input l =
      let (r, l') = execute (connector_fetch status (record_by_invoice_number id now input)) l in
      (landed r, l')

  abbrev pub forward_found :
      Fresh → ℕ → SepayBody → ℕ → Recorded → Option Text → Action World Answer
  forward_found fresh tenant body id recorded none =
      pure (record { deduplicated = not recorded.is_new; forwarded = false })
  forward_found fresh tenant body id recorded (some number) = do
    on_link (
        forward_payment fresh.payment fresh.now (record {
          tenant = tenant;
          invoice_number = number;
          amount = amount_of body.transfer_amount;
          reference_code = reference body id;
        }))
    on_hub (mark_forwarded fresh.now recorded.event.id tenant)
    pure (record { deduplicated = not recorded.is_new; forwarded = true })

  -- The part behind the guards.
  unfoldable pub take_transfer : Fresh → ℕ → SepayBody → ℕ → Action World Answer
  take_transfer fresh tenant body id = do
    occurred_at ← or_throw (occurred fresh.now body.transaction_date) refused
    recorded ← on_hub (record_event fresh.event fresh.now (transfer tenant id occurred_at body))
    forward_found fresh tenant body id recorded (to_forward body recorded.event)

  module _ (c : Cipher) where
    unfoldable pub handle : Fresh → PathToken → Option Text → SepayBody → Action World Answer
    handle fresh token header body = do
      found ← on_hub (resolve_webhook_token token)
      resolved ← or_throw (is_sepay found) (not_found webhook_token_not_found)
      stored ← on_hub (get_decrypted_payload c resolved.tenant resolved.tenant sepay)
      credentials ← or_throw stored (not_found credential_not_found)
      throw_if (not (is_header header (expected_header credentials)))
          (permission_denied sepay_webhook_auth_failed)
      id ← or_throw body.id (not_found transaction_id_missing)
      take_transfer fresh resolved.tenant body id
