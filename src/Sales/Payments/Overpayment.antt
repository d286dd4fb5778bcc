-- ===== src/Sales/Payments/Overpayment.antt =====
-- `recordPayment`: what it lets in, and what the invoice has been paid after it.
use mathlib.Core.Path.{subst}
use solodesk.Prelude.{
  ℕ, true, false, Option, none, not, some, ◌∷◌, ◌==◌, ◌≡◌, refl, ap, sym, arith, select_keeps,
  ==_refl,
}
use solodesk.Prelude.Int.{ℤ, pos, ◌+ℤ◌, ◌≤ℤ◌, ◌<ℤ◌, ltb_ℤ, leb_ℤ, int_laws}
use solodesk.Prelude.Tables.{total}
use solodesk.Prelude.Action.{
  conflict, invalid_amount, invoice_cancelled, duplicate_payment_reference, overpayment, refused,
  not_found, invoice_not_found, throw_if, tenant_mismatch,
}
use solodesk.Prelude.Success.{Ends, Reads, ensures_after, throw_if-Reads, or_throw-Reads}
use solodesk.Tenancy.{assert_tenant_matches_session}
use solodesk.Sales.{Store, Invoice, Payment, PaymentType, payment, refund}
use solodesk.Sales.Invoicing.{find_invoice, get_invoice, is_cancelled}
use solodesk.Sales.Payments.{
  CreatePaymentInput, find_by_reference_code, of_invoice, list_by_invoice, net, sum_by_invoice,
  new_payment, create_payment, is_some, check_reference, pay_invoice, record_payment,
  reference_taken,
}

-- What a recorded payment is.
pub record Paid (id now tenant : ℕ) (input : CreatePaymentInput) (s : Store) (p : Payment)
    (s' : Store) : Type 0 where
  pub invoice : Invoice
  pub found : find_invoice input.invoice tenant s ≡ some invoice
  pub live : is_cancelled invoice.status ≡ false
  pub positive : pos 0 <ℤ input.amount
  pub new_reference :
      (code : ℕ) → input.reference_code ≡ some code → find_by_reference_code tenant code s ≡ none
  pub recorded : p ≡ new_payment id now tenant input
  pub listed : list_by_invoice input.invoice tenant s' ≡ p ∷ list_by_invoice input.invoice tenant s
  pub within : sum_by_invoice input.invoice tenant s' ≤ℤ invoice.total_amount

ltb_ℤ→≤ : (a b : ℤ) → ltb_ℤ a b ≡ false → b ≤ℤ a
ltb_ℤ→≤ a b h = ground arith

leb_ℤ→> : (a b : ℤ) → leb_ℤ a b ≡ false → b <ℤ a
leb_ℤ→> a b h = ground arith

net_bound :
    (type : PaymentType) (amount before limit : ℤ)
    → pos 0 <ℤ amount
    → before +ℤ amount ≤ℤ limit
    → net type amount +ℤ before ≤ℤ limit
net_bound payment amount before limit h k = omega (int_laws, h, k)
net_bound refund amount before limit h k = omega (int_laws, h, k)

module _ (session id now tenant : ℕ) (input : CreatePaymentInput) (s : Store) where
  some_injective : {x y : ℕ} → some x ≡ some y → x ≡ y
  some_injective e = cc

  own : of_invoice input.invoice tenant (new_payment id now tenant input) ≡ true
  own = ground (arith, ==_refl input.invoice, ==_refl tenant)

  after : Store
  after = record s { payments = new_payment id now tenant input ∷ s.payments }

  list_by_invoice-after :
      list_by_invoice input.invoice tenant after
      ≡ new_payment id now tenant input ∷ list_by_invoice input.invoice tenant s
  unfolding after list_by_invoice
  list_by_invoice-after =
      select_keeps (of_invoice input.invoice tenant) (new_payment id now tenant input) s.payments
        own

  sum_by_invoice-after :
      sum_by_invoice input.invoice tenant after
      ≡ net (new_payment id now tenant input).type input.amount
        +ℤ sum_by_invoice input.invoice tenant s
  unfolding after list_by_invoice sum_by_invoice
  sum_by_invoice-after = ap (total (λ (p : Payment). net p.type p.amount)) list_by_invoice-after

  abbrev NewReference : Type 0
  NewReference =
      (code : ℕ) → input.reference_code ≡ some code → find_by_reference_code tenant code s ≡ none

  create_payment-Paid :
      (invoice : Invoice)
      → find_invoice input.invoice tenant s ≡ some invoice
      → is_cancelled invoice.status ≡ false
      → pos 0 <ℤ input.amount
      → NewReference
      → sum_by_invoice input.invoice tenant s +ℤ input.amount ≤ℤ invoice.total_amount
      → Ends (Paid id now tenant input s) s (create_payment id now tenant input s)
  unfolding create_payment after
  create_payment-Paid invoice found live positive new_reference room =
      ensures_after (λ _. reference_taken tenant input.reference_code s ≡ false)
        (Paid id now tenant input s) _ s
        (λ _ free. record {
          invoice = invoice;
          found = found;
          live = live;
          positive = positive;
          new_reference = new_reference;
          recorded = refl;
          listed = list_by_invoice-after;
          within =
              subst (λ total. total ≤ℤ invoice.total_amount) (sym sum_by_invoice-after)
                (net_bound (new_payment id now tenant input).type input.amount
                  (sum_by_invoice input.invoice tenant s) invoice.total_amount positive room);
        })
        (throw_if (reference_taken tenant input.reference_code s) refused)
        (throw_if-Reads (reference_taken tenant input.reference_code s) refused s)

  get_invoice-Reads :
      Reads
        (λ invoice. find_invoice input.invoice tenant s ≡ some invoice)
        s
        (get_invoice session input.invoice tenant s)
  unfolding get_invoice assert_tenant_matches_session
  get_invoice-Reads =
      ensures_after (λ _. (not (tenant == session)) ≡ false)
        (λ invoice s'. (find_invoice input.invoice tenant s ≡ some invoice) × (s' ≡ s)) _ s
        (λ _ same.
          or_throw-Reads (find_invoice input.invoice tenant s) (not_found invoice_not_found) s)
        (throw_if (not (tenant == session)) tenant_mismatch)
        (throw_if-Reads (not (tenant == session)) tenant_mismatch s)

  -- A reference that is asked for is not among the tenant's payments.
  abbrev Free : Option ℕ → Type 0
  Free o = (code : ℕ) → o ≡ some code → find_by_reference_code tenant code s ≡ none

  reference_missing : (code : ℕ) → find_by_reference_code tenant code s ≡ none → Free (some code)
  reference_missing code missing c e =
      subst (λ c. find_by_reference_code tenant c s ≡ none) (some_injective e) missing

  duplicate-Reads :
      (code : ℕ) (d : Option Payment)
      → find_by_reference_code tenant code s ≡ d
      → Reads
          (λ _. Free (some code))
          s
          (throw_if (is_some d) (conflict duplicate_payment_reference) s)
  duplicate-Reads code none e = (reference_missing code e, refl)
  duplicate-Reads code (some p) e = refl

  reference-Reads : (o : Option ℕ) → Reads (λ _. Free o) s (check_reference tenant o s)
  reference-Reads none = (λ code e. absurd cc, refl)
  reference-Reads (some code) = duplicate-Reads code (find_by_reference_code tenant code s) refl

  pay_invoice-Paid :
      (invoice : Invoice)
      → find_invoice input.invoice tenant s ≡ some invoice
      → pos 0 <ℤ input.amount
      → Ends (Paid id now tenant input s) s (pay_invoice id now tenant input invoice s)
  pay_invoice-Paid invoice found positive =
      ensures_after (λ _. is_cancelled invoice.status ≡ false) (Paid id now tenant input s) _ s
        (λ _ live.
          ensures_after (λ _. Free input.reference_code) (Paid id now tenant input s) _ s
            (λ _ free.
              ensures_after
                (λ _.
                  ltb_ℤ invoice.total_amount (sum_by_invoice input.invoice tenant s +ℤ input.amount)
                  ≡ false)
                (Paid id now tenant input s) (λ _. create_payment id now tenant input) s
                (λ _ room. create_payment-Paid invoice found live positive free (
                  ltb_ℤ→≤ invoice.total_amount
                    (sum_by_invoice input.invoice tenant s +ℤ input.amount) room))
                (throw_if _ (conflict overpayment))
                (throw_if-Reads
                  (ltb_ℤ invoice.total_amount
                    (sum_by_invoice input.invoice tenant s +ℤ input.amount))
                  (conflict overpayment) s))
            (check_reference tenant input.reference_code) (reference-Reads input.reference_code))
        (throw_if (is_cancelled invoice.status) (conflict invoice_cancelled))
        (throw_if-Reads (is_cancelled invoice.status) (conflict invoice_cancelled) s)

-- A call of `recordPayment` either throws and writes nothing, or records exactly the payment asked
-- for, on top of the invoice's others. Then the amount is positive, the invoice is the tenant's and
-- not cancelled, a reference code is new to the tenant, and the invoice's net payments stay within
-- its total.
pub record_payment-Paid :
    (session id now tenant : ℕ) (input : CreatePaymentInput) (s : Store)
    → Ends (Paid id now tenant input s) s (record_payment session id now tenant input s)
unfolding record_payment assert_tenant_matches_session
record_payment-Paid session id now tenant input s =
    ensures_after (λ _. not (tenant == session) ≡ false) (Paid id now tenant input s) _ s
      (λ _ same.
        ensures_after (λ _. leb_ℤ input.amount (pos 0) ≡ false) (Paid id now tenant input s) _ s
          (λ _ positive.
            ensures_after (λ invoice. find_invoice input.invoice tenant s ≡ some invoice)
              (Paid id now tenant input s) (pay_invoice id now tenant input) s
              (λ invoice found.
                pay_invoice-Paid session id now tenant input s invoice found
                  (leb_ℤ→> input.amount (pos 0) positive))
              (get_invoice session input.invoice tenant)
              (get_invoice-Reads session id now tenant input s))
          (throw_if (leb_ℤ input.amount (pos 0)) (conflict invalid_amount))
          (throw_if-Reads (leb_ℤ input.amount (pos 0)) (conflict invalid_amount) s))
      (throw_if (not (tenant == session)) tenant_mismatch)
      (throw_if-Reads (not (tenant == session)) tenant_mismatch s)
