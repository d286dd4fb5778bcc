-- ===== src/Sales/Payments.antt =====
-- services/backend-api/src/modules/payment-reconcile: payment.service.ts and
-- payment.drizzle-repository.ts.
pub mod Overpayment
pub mod Attempts
use solodesk.Prelude.{
  ℕ, Bool, true, false, not, ◌&&◌, Option, none, some, List, [], ◌∷◌, ◌==◌, find, any, select,
}
use solodesk.Prelude.Int.{ℤ, pos, ◌+ℤ◌, ◌-ℤ◌, ltb_ℤ, leb_ℤ, neg}
use solodesk.Prelude.Tables.{total}
use solodesk.Prelude.Action.{
  Action, not_found, conflict, invoice_not_found, invalid_amount, invoice_cancelled,
  duplicate_payment_reference, overpayment, refused, throw_if, or_throw, gets, pure, ◌>>=◌, ◌>>◌,
}
use solodesk.Tenancy.{assert_tenant_matches_session}
use solodesk.Sales.{
  Store, Invoice, InvoiceStatus, issued, cancelled, InvoiceNumber, Payment, PaymentMethod,
  PaymentType, payment, refund,
}
use solodesk.Sales.Invoicing.{get_invoice, get_invoice_by_number, is_cancelled}

pub record CreatePaymentInput : Type 0 where
  pub invoice : ℕ
  pub method : PaymentMethod
  pub amount : ℤ
  pub type : Option PaymentType
  pub reference_code : Option ℕ

abbrev pub same_reference : Option ℕ → ℕ → Bool
same_reference none code = false
same_reference (some c) code = c == code

unfoldable pub find_by_reference_code : ℕ → ℕ → Store → Option Payment
find_by_reference_code tenant code s =
    find (λ (p : Payment). p.tenant == tenant && same_reference p.reference_code code) s.payments

abbrev pub of_invoice : ℕ → ℕ → Payment → Bool
of_invoice invoice tenant p = p.invoice == invoice && p.tenant == tenant

pub list_by_invoice : ℕ → ℕ → Store → List Payment
list_by_invoice invoice tenant s = select (of_invoice invoice tenant) s.payments

abbrev pub net : PaymentType → ℤ → ℤ
net refund amount = neg amount
net payment amount = amount

-- `SUM(CASE WHEN type = 'refund' THEN -amount ELSE amount END)`
unfoldable pub sum_by_invoice : ℕ → ℕ → Store → ℤ
sum_by_invoice invoice tenant s =
    total (λ (p : Payment). net p.type p.amount) (select (of_invoice invoice tenant) s.payments)

abbrev type_of : Option PaymentType → PaymentType
type_of none = payment
type_of (some t) = t

abbrev pub new_payment : ℕ → ℕ → ℕ → CreatePaymentInput → Payment
new_payment id now tenant input = record {
  id = id;
  tenant = tenant;
  invoice = input.invoice;
  method = input.method;
  amount = input.amount;
  type = type_of input.type;
  reference_code = input.reference_code;
  received_at = now;
}

-- The partial unique index on (tenant_id, reference_code).
abbrev pub reference_taken : ℕ → Option ℕ → Store → Bool
reference_taken tenant none s = false
reference_taken tenant (some code) s =
    any (λ (p : Payment). p.tenant == tenant && same_reference p.reference_code code) s.payments

unfoldable pub create_payment : ℕ → ℕ → ℕ → CreatePaymentInput → Action Store Payment
create_payment id now tenant input s =
    (throw_if (reference_taken tenant input.reference_code s) refused >> (λ s.
        pure (new_payment id now tenant input)
          (record s { payments = new_payment id now tenant input ∷ s.payments })))
      s

abbrev pub is_some : Option Payment → Bool
is_some none = false
is_some (some p) = true

abbrev pub check_reference : ℕ → Option ℕ → Action Store (Unit {0})
check_reference tenant none = pure tt
check_reference tenant (some code) = gets (find_by_reference_code tenant code) >>= λ duplicate.
    throw_if (is_some duplicate) (conflict duplicate_payment_reference)

abbrev pub pay_within : ℕ → ℕ → ℕ → CreatePaymentInput → Invoice → ℤ → Action Store Payment
pay_within id now tenant input invoice paid_so_far =
    throw_if (ltb_ℤ invoice.total_amount (paid_so_far +ℤ input.amount)) (conflict overpayment)
    >> create_payment id now tenant input

abbrev pub pay_invoice : ℕ → ℕ → ℕ → CreatePaymentInput → Invoice → Action Store Payment
pay_invoice id now tenant input invoice =
    throw_if (is_cancelled invoice.status) (conflict invoice_cancelled)
    >> (check_reference tenant input.reference_code
        >> (gets (sum_by_invoice input.invoice tenant) >>= pay_within id now tenant input invoice))

unfoldable pub record_payment : ℕ → ℕ → ℕ → ℕ → CreatePaymentInput → Action Store Payment
record_payment session id now tenant input =
    assert_tenant_matches_session session tenant
    >> (throw_if (leb_ℤ input.amount (pos 0)) (conflict invalid_amount)
        >> (get_invoice session input.invoice tenant >>= pay_invoice id now tenant input))

unfoldable pub record_payment_by_invoice_number :
    ℕ → ℕ → ℕ → ℕ → InvoiceNumber → CreatePaymentInput → Action Store Payment
record_payment_by_invoice_number session id now tenant number input =
    assert_tenant_matches_session session tenant
    >> (get_invoice_by_number session tenant number >>= λ invoice.
        record_payment session id now tenant (record input { invoice = invoice.id }))

pub record PaymentSummary : Type 0 where
  pub invoice : ℕ
  pub total_amount : ℤ
  pub paid_amount : ℤ
  pub outstanding_amount : ℤ
  pub is_fully_paid : Bool

pub get_payment_summary : ℕ → ℕ → ℕ → Action Store PaymentSummary
get_payment_summary session id tenant =
    assert_tenant_matches_session session tenant
    >> (get_invoice session id tenant >>= λ invoice.
        gets (sum_by_invoice id tenant) >>= λ paid_amount. pure (record {
          invoice = id;
          total_amount = invoice.total_amount;
          paid_amount = paid_amount;
          outstanding_amount = invoice.total_amount -ℤ paid_amount;
          is_fully_paid = leb_ℤ (invoice.total_amount -ℤ paid_amount) (pos 0);
        }))
