-- ===== src/Sales/Orders.antt =====
-- services/backend-api/src/modules/sales-order: order.service.ts and order.drizzle-repository.ts.
-- The store at the start of the transaction is what a query without `tx` sees. Quantities are in
-- thousandths and prices in hundredths: texts of more decimals, which the DTOs let through, are left
-- out.
pub mod Conservation
pub mod Placing
pub mod Endings
mod Tests
use solodesk.Prelude.{
  ℕ, suc, Bool, ◌&&◌, Option, none, some, List, [], ◌∷◌, ◌++◌, ◌==◌, find, select, map,
}
use solodesk.Prelude.Int.{ℤ, pos, ◌*ℤ◌}
use solodesk.Prelude.Tables.{Update, unchanged, changed, update_first, total}
use solodesk.Prelude.Action.{
  Action, Result, ok, err, not_found, conflict, sku_not_found, order_not_found, no_available_lot,
  insufficient_stock, invariant_violation, throw, pure, gets, or_throw, modify, ◌>>=◌, ◌>>◌,
}
use solodesk.Money.{rescale}
use solodesk.Tenancy.{assert_tenant_matches_session}
use solodesk.Inventory.{Sku, Lot, Stock, find_sku, list_available_by_sku, consume_direct}
use solodesk.Sales.{
  Store, OrderStatus, confirmed, returned, OrderRow, OrderLine, Order, Response, ordered,
}
use solodesk.Sales.Idempotency.{once}

pub record CreateOrderLineInput : Type 0 where
  pub sku : ℕ
  pub lot : Option ℕ
  pub quantity : ℤ
  pub unit_price : Option ℤ

pub record CreateOrderInput : Type 0 where
  pub channel : ℕ
  pub customer_name : Option ℕ
  pub lines : List CreateOrderLineInput

pub record ResolvedOrderLine : Type 0 where
  pub sku : ℕ
  pub lot : ℕ
  pub quantity : ℤ
  pub unit_price : ℤ
  pub line_total : ℤ

-- `multiplyMoney(unitPrice, quantity)` on numerals of two and three decimals.
abbrev pub multiply_price : ℤ → ℤ → ℤ
multiply_price unit_price quantity = rescale (unit_price *ℤ quantity) 5 2

-- An action on the stock, within the whole store.
abbrev pub lift : {A : Type 0} → Store → Result A × Stock → Result A × Store
lift s (r, stock) = (r, record s { stock = stock })

abbrev pub on_stock : {A : Type 0} → Action Stock A → Action Store A
on_stock m s = lift s (m s.stock)

abbrev pub oldest_of : List Lot → Action Store ℕ
oldest_of [] = throw (conflict no_available_lot)
oldest_of (oldest ∷ _) = pure oldest.id

abbrev pub chosen_lot : Stock → ℕ → CreateOrderLineInput → Option ℕ → Action Store ℕ
chosen_lot committed tenant line (some lot) = pure lot
chosen_lot committed tenant line none = oldest_of (list_available_by_sku line.sku tenant committed)

abbrev pub price_of : Option ℤ → Sku → ℤ
price_of (some price) sku = price
price_of none sku = sku.unit_price

abbrev pub resolved : CreateOrderLineInput → Sku → ℕ → ResolvedOrderLine
resolved line sku lot =
    let price = price_of line.unit_price sku in
    record {
      sku = line.sku;
      lot = lot;
      quantity = line.quantity;
      unit_price = price;
      line_total = multiply_price price line.quantity;
    }

abbrev pub sell_line : ℕ → CreateOrderLineInput → Sku → ℕ → Action Store ResolvedOrderLine
sell_line tenant line sku lot =
    on_stock (consume_direct lot tenant line.quantity none) >>= λ consumed.
    or_throw consumed (conflict insufficient_stock) >> pure (resolved line sku lot)

abbrev pub line_of : Stock → ℕ → CreateOrderLineInput → Sku → Action Store ResolvedOrderLine
line_of committed tenant line sku =
    chosen_lot committed tenant line line.lot >>= sell_line tenant line sku

-- One round of the loop over the lines.
pub resolve_line : Stock → ℕ → CreateOrderLineInput → Action Store ResolvedOrderLine
resolve_line committed tenant line =
    or_throw (find_sku line.sku tenant committed) (not_found sku_not_found)
    >>= line_of committed tenant line

pub resolve_lines : Stock → ℕ → List CreateOrderLineInput → Action Store (List ResolvedOrderLine)
resolve_lines committed tenant [] = pure []
resolve_lines committed tenant (line ∷ lines) = resolve_line committed tenant line >>= λ first.
    resolve_lines committed tenant lines >>= λ rest. pure (first ∷ rest)

abbrev pub order_line : ℕ → ℕ → ResolvedOrderLine → OrderLine
order_line tenant order l = record {
  tenant = tenant;
  order = order;
  sku = l.sku;
  lot = l.lot;
  quantity = l.quantity;
  unit_price = l.unit_price;
  line_total = l.line_total;
}

abbrev with_lines : ℕ → ℕ → List OrderLine → Option OrderRow → Option Order
with_lines id tenant lines none = none
with_lines id tenant lines (some row) = some (record {
  row = row;
  lines = select (λ (l : OrderLine). l.order == id && l.tenant == tenant) lines;
})

pub find_order : ℕ → ℕ → Store → Option Order
find_order id tenant s =
    with_lines id tenant s.order_lines
      (find (λ (o : OrderRow). o.id == id && o.tenant == tenant) s.orders)

-- `sumMoney` of numerals of two decimals.
abbrev pub sum_of : List ResolvedOrderLine → ℤ
sum_of lines = total (λ (l : ResolvedOrderLine). l.line_total) lines

-- An INSERT of no rows is refused by the query builder.
abbrev insert_lines : ℕ → ℕ → List ResolvedOrderLine → Action Store (Unit {0})
insert_lines tenant order [] = throw invariant_violation
insert_lines tenant order (l ∷ ls) =
    modify (λ s. record s { order_lines = map (order_line tenant order) (l ∷ ls) ++ s.order_lines })

pub create : ℕ → ℕ → CreateOrderInput → List ResolvedOrderLine → Action Store Order
create new_id tenant input lines =
    modify (λ s. record s {
      orders =
          record {
            id = new_id;
            tenant = tenant;
            channel = input.channel;
            status = confirmed;
            customer_name = input.customer_name;
            total_amount = sum_of lines;
          }
          ∷ s.orders;
    })
    >> insert_lines tenant new_id lines
    >> (gets (find_order new_id tenant) >>= λ full. or_throw full invariant_violation)

abbrev pub place : ℕ → ℕ → CreateOrderInput → Stock → Action Store Response
place new_id tenant input committed = resolve_lines committed tenant input.lines >>= λ lines.
    create new_id tenant input lines >>= λ order. pure (ordered order)

pub place_order : ℕ → ℕ → ℕ → ℕ → CreateOrderInput → Action Store Response
place_order session new_id tenant key input s =
    (assert_tenant_matches_session session tenant
        >> once tenant key (place new_id tenant input s.stock))
      s

pub get_order : ℕ → ℕ → ℕ → Action Store Order
get_order session id tenant =
    assert_tenant_matches_session session tenant
    >> (gets (find_order id tenant) >>= λ found. or_throw found (not_found order_not_found))
