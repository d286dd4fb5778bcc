-- ===== src/Sales/Returns.antt =====
-- services/backend-api/src/modules/returns: return.service.ts and return.drizzle-repository.ts,
-- with `markReturned` of order.drizzle-repository.ts.
pub mod Refund
use solodesk.Prelude.{ℕ, Bool, true, false, not, ◌&&◌, Option, none, some, List, [], ◌∷◌, ◌==◌}
use solodesk.Prelude.Int.{ℤ, pos, ltb_ℤ}
use solodesk.Prelude.Tables.{Update, unchanged, changed, update_first}
use solodesk.Prelude.Action.{
  Action, ok, conflict, not_found, order_not_found, order_not_returnable, no_invoice_to_return,
  refund_method_required, throw_if, throw, or_throw, gets, pure, ◌>>=◌, ◌>>◌,
}
use solodesk.Tenancy.{assert_tenant_matches_session}
use solodesk.Inventory.{credit_return}
use solodesk.Sales.{
  Store, returned, OrderRow, OrderLine, Order, Invoice, PaymentMethod, refund, Return, Response,
  reversed,
}
use solodesk.Sales.Idempotency.{once}
use solodesk.Sales.Orders.{find_order, on_stock}
use solodesk.Sales.Invoicing.{find_by_order_id, is_cancelled, is_confirmed, cancel_for_return}
use solodesk.Sales.Payments.{sum_by_invoice, create_payment}

pub record CreateReturnInput : Type 0 where
  pub order : ℕ
  pub reason : ℕ
  pub refund_method : Option PaymentMethod

abbrev marked : Update OrderRow → Action Store Bool
marked unchanged s = (ok false, s)
marked (changed row rows) s = (ok true, record s { orders = rows })

pub mark_returned : ℕ → ℕ → Action Store Bool
mark_returned id tenant s =
    marked
      (update_first (λ (o : OrderRow). o.id == id && o.tenant == tenant && is_confirmed o.status)
        (λ o. record o { status = returned }) s.orders)
      s

-- The loop over the order's lines.
pub credit_lines : ℕ → ℕ → List OrderLine → Action Store (Unit {0})
credit_lines tenant order [] = pure tt
credit_lines tenant order (line ∷ lines) =
    on_stock (credit_return line.lot tenant line.quantity (some order))
    >> credit_lines tenant order lines

abbrev refund_by : ℕ → ℕ → ℕ → ℕ → ℤ → Option PaymentMethod → Action Store ℤ
refund_by id now tenant invoice amount none = throw (conflict refund_method_required)
refund_by id now tenant invoice amount (some method) =
    create_payment id now tenant (record {
      invoice = invoice;
      method = method;
      amount = amount;
      type = some refund;
      reference_code = none;
    })
    >> pure amount

abbrev refund_if : Bool → Action Store ℤ → Action Store ℤ
refund_if true m = m
refund_if false m = pure (pos 0)

pub refund_paid : ℕ → ℕ → ℕ → ℕ → Option PaymentMethod → Action Store ℤ
refund_paid id now tenant invoice method = gets (sum_by_invoice invoice tenant) >>= λ paid_amount.
    refund_if (ltb_ℤ (pos 0) paid_amount) (refund_by id now tenant invoice paid_amount method)

pub create_return : Return → Action Store Return
create_return r s = (ok r, record s { returns = r ∷ s.returns })

abbrev live_invoice : Option Invoice → Action Store Invoice
live_invoice none = throw (conflict no_invoice_to_return)
live_invoice (some invoice) =
    throw_if (is_cancelled invoice.status) (conflict no_invoice_to_return) >> pure invoice

abbrev pub new_return : ℕ → ℕ → CreateReturnInput → Order → Invoice → ℤ → Return
new_return id tenant input order invoice refund_amount = record {
  id = id;
  tenant = tenant;
  order = order.row.id;
  invoice = invoice.id;
  reason = input.reason;
  refund_amount = refund_amount;
  refund_method = input.refund_method;
}

abbrev record_refund : ℕ → ℕ → CreateReturnInput → Order → Invoice → ℤ → Action Store Response
record_refund id tenant input order invoice refund_amount =
    create_return (new_return id tenant input order invoice refund_amount) >>= λ r.
    pure (reversed r)

abbrev settle_return : ℕ → ℕ → ℕ → CreateReturnInput → Order → Invoice → Action Store Response
settle_return id now tenant input order invoice =
    credit_lines tenant order.row.id order.lines
    >> (refund_paid id now tenant invoice.id input.refund_method
        >>= record_refund id tenant input order invoice)

abbrev cancel_and_settle : ℕ → ℕ → ℕ → CreateReturnInput → Order → Invoice → Action Store Response
cancel_and_settle id now tenant input order invoice =
    cancel_for_return invoice.id tenant >>= λ cancelled.
    throw_if (not cancelled) (conflict no_invoice_to_return)
    >> settle_return id now tenant input order invoice

-- Everything from the guarded flips on.
abbrev pub reverse : ℕ → ℕ → ℕ → CreateReturnInput → Order → Invoice → Action Store Response
reverse id now tenant input order invoice = mark_returned order.row.id tenant >>= λ flipped.
    throw_if (not flipped) (conflict order_not_returnable)
    >> cancel_and_settle id now tenant input order invoice

abbrev pub return_under_key : ℕ → ℕ → ℕ → CreateReturnInput → Action Store Response
return_under_key id now tenant input = gets (find_order input.order tenant) >>= λ found.
    or_throw found (not_found order_not_found) >>= λ order.
    throw_if (not (is_confirmed order.row.status)) (conflict order_not_returnable)
    >> (gets (find_by_order_id input.order tenant) >>= live_invoice)
    >>= λ invoice. reverse id now tenant input order invoice

-- `id` also names the refund's row.
pub return_order : ℕ → ℕ → ℕ → ℕ → ℕ → CreateReturnInput → Action Store Response
return_order session id now tenant key input =
    assert_tenant_matches_session session tenant
    >> once tenant key (return_under_key id now tenant input)
