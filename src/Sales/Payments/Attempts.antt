-- ===== src/Sales/Payments/Attempts.antt =====
-- What one attempt to record a payment with a reference does, errors included.
use mathlib.Core.Path.{subst}
use solodesk.Prelude.{
  ℕ, Bool, true, false, not, ◌&&◌, Option, none, some, List, [], ◌∷◌, ◌==◌, ◌≡◌, find, refl, arith,
  ==_refl, any,
}
use solodesk.Prelude.Int.{ℤ, pos, ◌+ℤ◌, ltb_ℤ, leb_ℤ}
use solodesk.Prelude.Action.{
  Result, Failure, code_of, conflict, not_found, refused, tenant_mismatch, invoice_not_found,
  duplicate_payment_reference, invalid_amount, invoice_cancelled, overpayment, throw_if, or_throw,
}
use solodesk.Prelude.Success.{Concludes, Looks, reading_then, throw_if-Looks}
use solodesk.Tenancy.{assert_tenant_matches_session}
use solodesk.Sales.{Store, Payment, Invoice, InvoiceNumber}
use solodesk.Sales.Invoicing.{
  find_by_invoice_number, find_invoice, get_invoice, get_invoice_by_number, is_cancelled,
}
use solodesk.Sales.Payments.{
  CreatePaymentInput, same_reference, reference_taken, find_by_reference_code, create_payment,
  is_some, check_reference, pay_within, pay_invoice, record_payment,
  record_payment_by_invoice_number, sum_by_invoice,
}

-- The tenant's payment with a reference code.
abbrev pub has_reference : ℕ → ℕ → Payment → Bool
has_reference tenant code p = p.tenant == tenant && same_reference p.reference_code code

abbrev pub IsPaid : ℕ → ℕ → Store → Type 0
IsPaid tenant code s = any (has_reference tenant code) s.payments ≡ true

-- The error that says that the payment is there is right.
abbrev pub Truthful : ℕ → ℕ → Store → Failure → Type 0
Truthful tenant code s e = code_of e ≡ some duplicate_payment_reference → IsPaid tenant code s

-- One payment more, with a reference that the tenant had not used.
abbrev pub Landed : ℕ → ℕ → Store → Payment → Store → Type 0
Landed tenant code s p s' =
    (s' ≡ record s { payments = p ∷ s.payments })
    × (has_reference tenant code p ≡ true)
    × (any (has_reference tenant code) s.payments ≡ false)

find-any : (q : Payment → Bool) (ps : List Payment) → is_some (find q ps) ≡ true → any q ps ≡ true
find-any q [] e = absurd (cc)
find-any q (x ∷ ps) e = ground (arith, find-any q ps)

some_injective : {x y : ℕ} → some x ≡ some y → x ≡ y
some_injective e = cc

refuses :
    (E : Failure → Type 0) (b : Bool) (e : Failure) (s : Store)
    → (b ≡ true → E e)
    → Looks (λ _. Unit {0}) E s (throw_if b e s)
refuses E true e s h = (refl, h refl)
refuses E false e s h = (tt, refl)

finds :
    {A : Type 0} (E : Failure → Type 0) (o : Option A) (e : Failure) (s : Store)
    → E e
    → Looks (λ _. Unit {0}) E s (or_throw o e s)
finds E none e s h = (refl, h)
finds E (some a) e s h = (tt, refl)

module _ (tenant code : ℕ) (s : Store) where
  abbrev pub Attempted : Result Payment × Store → Type 0
  Attempted x = Concludes (Landed tenant code s) (Truthful tenant code s) s x

  module _ (id now : ℕ) (input : CreatePaymentInput)
      (named : input.reference_code ≡ some code) where
    create_payment-Attempted : Attempted (create_payment id now tenant input s)
    unfolding create_payment
    create_payment-Attempted =
        reading_then (λ _. reference_taken tenant input.reference_code s ≡ false)
          (Landed tenant code s) (Truthful tenant code s) _ s
          (λ _ free.
            (refl, ground (arith, named, ==_refl tenant, ==_refl code), (rw named at free)))
          (throw_if (reference_taken tenant input.reference_code s) refused)
          (throw_if-Looks (Truthful tenant code s) (reference_taken tenant input.reference_code s)
            refused s (λ _ e. absurd (cc)))

    pay_within-Attempted :
        (invoice : Invoice) (paid : ℤ) → Attempted (pay_within id now tenant input invoice paid s)
    pay_within-Attempted invoice paid =
        reading_then (λ _. ltb_ℤ invoice.total_amount (paid +ℤ input.amount) ≡ false)
          (Landed tenant code s) (Truthful tenant code s) (λ _. create_payment id now tenant input)
          s (λ _ room. create_payment-Attempted)
          (throw_if (ltb_ℤ invoice.total_amount (paid +ℤ input.amount)) (conflict overpayment))
          (throw_if-Looks (Truthful tenant code s)
            (ltb_ℤ invoice.total_amount (paid +ℤ input.amount)) (conflict overpayment) s
            (λ _ e. absurd (cc)))

    check_reference-Looks :
        (o : Option ℕ)
        → o ≡ some code
        → Looks (λ _. Unit {0}) (Truthful tenant code s) s (check_reference tenant o s)
    unfolding find_by_reference_code
    check_reference-Looks none e = absurd (cc)
    check_reference-Looks (some c) e =
        let q = has_reference tenant c in
        (refuses (Truthful tenant code s) (is_some (find q s.payments))
          (conflict duplicate_payment_reference) s
          (λ taken _.
            subst (λ c. IsPaid tenant c s) (some_injective e) (find-any q s.payments taken)))

    pay_invoice-Attempted :
        (invoice : Invoice) → Attempted (pay_invoice id now tenant input invoice s)
    pay_invoice-Attempted invoice =
        reading_then (λ _. is_cancelled invoice.status ≡ false) (Landed tenant code s)
          (Truthful tenant code s) _ s
          (λ _ live.
            reading_then (λ _. Unit {0}) (Landed tenant code s) (Truthful tenant code s) _ s
              (λ _ _. pay_within-Attempted invoice (sum_by_invoice input.invoice tenant s))
              (check_reference tenant input.reference_code)
              (check_reference-Looks input.reference_code named))
          (throw_if (is_cancelled invoice.status) (conflict invoice_cancelled))
          (throw_if-Looks (Truthful tenant code s) (is_cancelled invoice.status)
            (conflict invoice_cancelled) s (λ _ e. absurd (cc)))

    assert-Looks :
        (session : ℕ)
        → Looks
            (λ _. Unit {0})
            (Truthful tenant code s)
            s
            (assert_tenant_matches_session {S = Store} session tenant s)
    unfolding assert_tenant_matches_session
    assert-Looks session =
        (refuses (Truthful tenant code s) (not (tenant == session)) tenant_mismatch s
          (λ _ e. absurd (cc)))

    get_invoice-Looks :
        (session invoice : ℕ)
        → Looks (λ _. Unit {0}) (Truthful tenant code s) s (get_invoice session invoice tenant s)
    unfolding get_invoice
    get_invoice-Looks session invoice =
        reading_then (λ _. Unit {0}) (λ _ s'. Unit {0} × (s' ≡ s)) (Truthful tenant code s) _ s
          (λ _ _.
            (finds (Truthful tenant code s) (find_invoice invoice tenant s)
              (not_found invoice_not_found) s (λ e. absurd (cc))))
          (assert_tenant_matches_session session tenant) (assert-Looks session)

    pub record_payment-Attempted :
        (session : ℕ) → Attempted (record_payment session id now tenant input s)
    unfolding record_payment
    record_payment-Attempted session =
        reading_then (λ _. Unit {0}) (Landed tenant code s) (Truthful tenant code s) _ s
          (λ _ _.
            reading_then (λ _. leb_ℤ input.amount (pos 0) ≡ false) (Landed tenant code s)
              (Truthful tenant code s) _ s
              (λ _ _.
                reading_then (λ _. Unit {0}) (Landed tenant code s) (Truthful tenant code s)
                  (pay_invoice id now tenant input) s (λ invoice _. pay_invoice-Attempted invoice)
                  (get_invoice session input.invoice tenant)
                  (get_invoice-Looks session input.invoice))
              (throw_if (leb_ℤ input.amount (pos 0)) (conflict invalid_amount))
              (throw_if-Looks (Truthful tenant code s) (leb_ℤ input.amount (pos 0))
                (conflict invalid_amount) s (λ _ e. absurd (cc))))
          (assert_tenant_matches_session session tenant) (assert-Looks session)

-- An attempt to record a payment with a reference through an invoice number writes one payment with
-- it, where the tenant had none, or throws and writes nothing; a duplicate is reported only where
-- there is one.
pub record_payment_by_invoice_number-Attempted :
    (session id now tenant code : ℕ) (number : InvoiceNumber) (input : CreatePaymentInput)
    (s : Store)
    → input.reference_code ≡ some code
    → Attempted tenant code s
        (record_payment_by_invoice_number session id now tenant number input s)
unfolding record_payment_by_invoice_number get_invoice_by_number
record_payment_by_invoice_number-Attempted session id now tenant code number input s named =
    reading_then (λ _. Unit {0}) (Landed tenant code s) (Truthful tenant code s) _ s
      (λ _ _.
        reading_then (λ _. Unit {0}) (Landed tenant code s) (Truthful tenant code s)
          (λ invoice. record_payment session id now tenant (record input { invoice = invoice.id }))
          s
          (λ invoice _.
            record_payment-Attempted tenant code s id now (record input { invoice = invoice.id })
              named session)
          (get_invoice_by_number session tenant number)
          (reading_then (λ _. Unit {0}) (λ _ s'. Unit {0} × (s' ≡ s)) (Truthful tenant code s) _ s
            (λ _ _.
              (finds (Truthful tenant code s) (find_by_invoice_number number tenant s)
                (not_found invoice_not_found) s (λ e. absurd (cc))))
            (assert_tenant_matches_session session tenant)
            (assert-Looks tenant code s id now input named session)))
      (assert_tenant_matches_session session tenant)
      (assert-Looks tenant code s id now input named session)
