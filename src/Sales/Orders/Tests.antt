-- ===== src/Sales/Orders/Tests.antt =====
-- One order placed, and sent again.
use solodesk.Prelude.{none, some, [], ◌∷◌, ◌≡◌, refl}
use solodesk.Prelude.Int.{ℤ, pos, ◌+ℤ◌, ◌-ℤ◌, ◌*ℤ◌}
use solodesk.Prelude.Tables.{update_first}
use solodesk.Prelude.Action.{ok}
use solodesk.Money.{rescale}
use solodesk.Tenancy.{assert_tenant_matches_session, with_tenant_transaction}
use solodesk.Inventory.{find_sku, list_available_by_sku, consume_direct, atomic_update}
use solodesk.Sales.{Store, Order, OrderLine, confirmed, ordered}
use solodesk.Sales.Idempotency.{once, with_idempotency}
use solodesk.Sales.Orders.{
  CreateOrderInput, resolve_line, resolve_lines, find_order, create, place_order,
}
use solodesk.Sales.Orders.Endings.{OrderEnding, place_order_lem, place_order-replays}

abbrev shop : Store
shop = record {
  stock = record {
    skus = record { id = 100; tenant = 1; unit_price = pos 2500000 } ∷ [];
    lots =
        record {
          id = 10;
          tenant = 1;
          sku = 100;
          lot_code = 1;
          on_hand = pos 5000;
          reserved = pos 0;
          received_at = 2;
        }
        ∷ [];
    movements = [];
  };
  orders = [];
  order_lines = [];
  invoices = [];
  sequences = [];
  payments = [];
  returns = [];
  keys = [];
  inbox = record { notifications = []; emails = [] };
  tenants = [];
  members = [];
  tax_rules = [];
}

-- Two kilos at the SKU's price from the oldest lot, and one and a half of a named lot at 2.00.
abbrev basket : CreateOrderInput
basket = record {
  channel = 0;
  customer_name = none;
  lines =
      record { sku = 100; lot = none; quantity = pos 2000; unit_price = none }
      ∷ record { sku = 100; lot = some 10; quantity = pos 1500; unit_price = some (pos 200) }
      ∷ [];
}

abbrev line : ℤ → ℤ → ℤ → OrderLine
line quantity unit_price line_total = record {
  tenant = 1;
  order = 20;
  sku = 100;
  lot = 10;
  quantity = quantity;
  unit_price = unit_price;
  line_total = line_total;
}

abbrev placed : Order
placed = record {
  row = record {
    id = 20;
    tenant = 1;
    channel = 0;
    status = confirmed;
    customer_name = none;
    total_amount = pos 5000300;
  };
  lines = line (pos 2000) (pos 2500000) (pos 5000000) ∷ line (pos 1500) (pos 200) (pos 300) ∷ [];
}

abbrev sold : Store
sold = (place_order 1 20 1 99 basket shop).1

first_call : place_order 1 20 1 99 basket shop ≡ (ok (ordered placed), sold)
unfolding place_order assert_tenant_matches_session once with_tenant_transaction with_idempotency
    resolve_lines resolve_line find_sku list_available_by_sku consume_direct atomic_update
    update_first create find_order rescale ◌+ℤ◌ ◌-ℤ◌ ◌*ℤ◌
first_call = refl

place_order_lem_example : OrderEnding 20 1 99 basket shop (place_order 1 20 1 99 basket shop)
place_order_lem_example = place_order_lem 1 20 1 99 basket shop refl

place_order-replays_example : place_order 1 21 1 99 basket sold ≡ (ok (ordered placed), sold)
place_order-replays_example =
    place_order-replays 1 20 21 1 99 basket basket shop sold (ordered placed) refl first_call
