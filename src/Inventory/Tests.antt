-- ===== src/Inventory/Tests.antt =====
-- Runs of the stock operations, and the theorems at a concrete stock.
use solodesk.Prelude.{map, select, ◌==◌, none, some, List, [], ◌∷◌, ◌≡◌, refl, arith}
use solodesk.Prelude.Int.{pos, ◌-ℤ◌, ◌+ℤ◌}
use solodesk.Prelude.Tables.{update_first}
use solodesk.Prelude.Action.{ok}
use solodesk.Inventory.{
  get_available_quantity, Sku, Lot, Stock, receipt, consume_direct, atomic_update,
}
use solodesk.Inventory.Ledger.{consuming_direct, reserving, IsReconciled, run}
use solodesk.Inventory.History.{after, after-IsReconciled, Call}
use solodesk.Money.{rescale}
use solodesk.Inventory.Rounding.{sell_decimals}
use solodesk.Inventory.Safety.{IsStocked, Outcome, run-Outcome}
use solodesk.Inventory.Summary.{stock_summary, stock_summary_lem}
use solodesk.Inventory.Isolation.{SameFor, run-SameFor}

abbrev rice_lot : Lot
rice_lot = record {
  id = 10;
  tenant = 1;
  sku = 100;
  lot_code = 1;
  on_hand = pos 5000;
  reserved = pos 1000;
  received_at = 2;
}

abbrev noodle_lot : Lot
noodle_lot = record rice_lot { id = 11; tenant = 2; on_hand = pos 0; reserved = pos 0 }

abbrev shop : Stock
shop = record {
  skus = record { id = 100; tenant = 1; unit_price = pos 2500000 } ∷ [];
  lots = rice_lot ∷ noodle_lot ∷ [];
  movements =
      record { tenant = 1; lot = 10; kind = receipt; quantity = pos 5000; reference = none } ∷ [];
}

-- A sale of four units leaves one, which is reserved; a sale of five finds too little.
abbrev sold_out : Lot
sold_out = record rice_lot { on_hand = pos 1000 }

sale : (consume_direct 10 1 (pos 4000) none shop).0 ≡ ok (some sold_out)
unfolding consume_direct atomic_update update_first ◌-ℤ◌
sale = refl

no_sale : consume_direct 10 1 (pos 5000) none shop ≡ (ok none, shop)
unfolding consume_direct atomic_update update_first ◌-ℤ◌
no_sale = refl

run-Outcome_example :
    Outcome consuming_direct 10 1
      (pos 4000)
      none
      shop
      (run consuming_direct 10 1 (pos 4000) none shop)
run-Outcome_example =
    run-Outcome consuming_direct 10 1 (pos 4000) none shop (omega arith) (refl, (refl, tt))

run-SameFor_example : SameFor 2 shop (run consuming_direct 10 1 (pos 4000) none shop).1
run-SameFor_example = run-SameFor consuming_direct 10 1 2 (pos 4000) none shop (omega arith)

abbrev calls : List Call
calls =
    record { op = reserving; lot = 10; tenant = 1; quantity = pos 3000; reference = some 7 }
    ∷ record { op = consuming_direct; lot = 10; tenant = 1; quantity = pos 1000; reference = none }
    ∷ []

shop-IsReconciled : IsReconciled shop
unfolding ◌+ℤ◌
shop-IsReconciled tenant id = ground arith

after-IsReconciled_example : IsReconciled (after calls shop) × IsStocked (after calls shop)
after-IsReconciled_example = after-IsReconciled calls shop shop-IsReconciled (refl, (refl, tt))

stock_summary_lem_example :
    stock_summary 1 shop
    ≡ map
        (λ (k : Sku). get_available_quantity k.id 1 shop)
        (select (λ (k : Sku). k.tenant == 1) shop.skus)
stock_summary_lem_example = stock_summary_lem 1 shop

-- Half a thousandth is sold: the lot keeps its five units, and the log says that one thousandth left.
drifted : sell_decimals 1 5000 0 5 ≡ some (record { on_hand = pos 5000; logged = pos 1 })
unfolding sell_decimals rescale
drifted = refl
