-- ===== src/Inventory.antt =====
-- services/backend-api/src/modules/catalog-inventory: lots and the log of stock movements.
-- Quantities are numeric(14, 3), in thousandths, and so are the quantities asked for: a text of more
-- than three decimals, which the DTOs let through, is outside the operations here (Rounding models a
-- sale of one). A movement table is kept newest row first.
pub mod Service
pub mod Ledger
pub mod Safety
pub mod Isolation
pub mod History
pub mod Summary
pub mod Oldest
pub mod Rounding
mod Tests
use solodesk.Prelude.{
  ℕ, ◌+◌, Bool, true, false, ◌&&◌, Option, none, some, List, [], ◌∷◌, leb, ◌==◌, if◌then◌else◌, any,
  find, select, not, ◌||◌,
}
use solodesk.Prelude.Int.{ℤ, pos, ◌+ℤ◌, ◌-ℤ◌, leb_ℤ, ltb_ℤ, neg}
use solodesk.Prelude.Tables.{Update, unchanged, changed, update_first, total}
use solodesk.Prelude.Action.{Action, ok, err, refused}

pub data MovementType : Type 0 where
  receipt consumption adjustment reservation release return : MovementType

pub record Sku : Type 0 where
  pub id : ℕ
  pub tenant : ℕ
  pub unit_price : ℤ

pub record Lot : Type 0 where
  pub id : ℕ
  pub tenant : ℕ
  pub sku : ℕ
  pub lot_code : ℕ
  pub on_hand : ℤ
  pub reserved : ℤ
  pub received_at : ℕ

pub record Movement : Type 0 where
  pub tenant : ℕ
  pub lot : ℕ
  pub kind : MovementType
  pub quantity : ℤ
  pub reference : Option ℕ

pub record Stock : Type 0 where
  pub skus : List Sku
  pub lots : List Lot
  pub movements : List Movement

abbrev pub nonneg : ℤ → Bool
nonneg a = leb_ℤ (pos 0) a

-- The three CHECK constraints of the table.
abbrev pub checks : Lot → Bool
checks l = nonneg l.on_hand && nonneg l.reserved && leb_ℤ l.reserved l.on_hand

-- The `quantity` of a movement. For a release the text is `-${qty}`, which is no number if qty has
-- a minus sign of its own.
abbrev pub movement_quantity : MovementType → ℤ → Option ℤ
movement_quantity release qty = if nonneg qty then some (neg qty) else none
movement_quantity _ qty = some qty

abbrev pub is_lot : ℕ → ℕ → Lot → Bool
is_lot id tenant l = l.id == id && l.tenant == tenant

abbrev log_movement :
    ℕ → ℕ → MovementType → Option ℤ → Option ℕ → List Movement → Option (List Movement)
log_movement tenant lot kind none reference ms = none
log_movement tenant lot kind (some q) reference ms =
    some
      (record { tenant = tenant; lot = lot; kind = kind; quantity = q; reference = reference } ∷ ms)

abbrev logged : Lot → List Lot → Option (List Movement) → Action Stock (Option Lot)
logged row lots none s = (err refused, s)
logged row lots (some ms) s = (ok (some row), record s { lots = lots; movements = ms })

-- One UPDATE with its guard, the CHECKs on the new row, and the movement. A refused statement
-- aborts the transaction, so nothing of it stays.
abbrev finish : ℕ → ℕ → MovementType → ℤ → Option ℕ → Update Lot → Action Stock (Option Lot)
finish lot tenant kind qty reference unchanged s = (ok none, s)
finish lot tenant kind qty reference (changed row lots) s =
    if checks row
    then logged row lots
        (log_movement tenant lot kind (movement_quantity kind qty) reference s.movements) s
    else (err refused, s)

unfoldable pub atomic_update :
    ℕ → ℕ → (Lot → Lot) → (Lot → Bool) → MovementType → ℤ → Option ℕ → Action Stock (Option Lot)
atomic_update lot tenant patch guard kind qty reference s =
    finish lot tenant kind qty reference
      (update_first (λ l. is_lot lot tenant l && guard l) patch s.lots) s

-- `quantityOnHand - quantityReserved >= qty`
abbrev pub has_available : ℤ → Lot → Bool
has_available qty l = leb_ℤ qty (l.on_hand -ℤ l.reserved)

abbrev pub has_reserved : ℤ → Lot → Bool
has_reserved qty l = leb_ℤ qty l.reserved

pub reserve : ℕ → ℕ → ℤ → Option ℕ → Action Stock (Option Lot)
reserve lot tenant qty reference =
    atomic_update lot tenant (λ l. record l { reserved = l.reserved +ℤ qty }) (has_available qty)
      reservation qty reference

pub release_reserved : ℕ → ℕ → ℤ → Option ℕ → Action Stock (Option Lot)
release_reserved lot tenant qty reference =
    atomic_update lot tenant (λ l. record l { reserved = l.reserved -ℤ qty }) (has_reserved qty)
      release qty reference

pub consume_reserved : ℕ → ℕ → ℤ → Option ℕ → Action Stock (Option Lot)
consume_reserved lot tenant qty reference =
    atomic_update lot tenant
      (λ l. record l { on_hand = l.on_hand -ℤ qty; reserved = l.reserved -ℤ qty })
      (has_reserved qty) consumption qty reference

unfoldable pub consume_direct : ℕ → ℕ → ℤ → Option ℕ → Action Stock (Option Lot)
consume_direct lot tenant qty reference =
    atomic_update lot tenant (λ l. record l { on_hand = l.on_hand -ℤ qty }) (has_available qty)
      consumption qty reference

abbrev return_row : ℕ → ℕ → ℤ → Option ℕ → Movement
return_row tenant lot qty reference = record {
  tenant = tenant;
  lot = lot;
  kind = return;
  quantity = qty;
  reference = reference;
}

-- The movement's foreign key asks for a lot of that id, of whatever tenant.
abbrev credited : ℕ → ℕ → ℤ → Option ℕ → Update Lot → Action Stock (Unit {0})
credited lot tenant qty reference unchanged s =
    if any (λ l. l.id == lot) s.lots
    then (ok tt, record s { movements = return_row tenant lot qty reference ∷ s.movements })
    else (err refused, s)
credited lot tenant qty reference (changed row lots) s =
    if checks row
    then (
      ok tt,
      record s { lots = lots; movements = return_row tenant lot qty reference ∷ s.movements },
    )
    else (err refused, s)

-- The update has no guard.
pub credit_return : ℕ → ℕ → ℤ → Option ℕ → Action Stock (Unit {0})
credit_return lot tenant qty reference s =
    credited lot tenant qty reference
      (update_first (is_lot lot tenant) (λ l. record l { on_hand = l.on_hand +ℤ qty }) s.lots) s

pub record ReceiveLotInput : Type 0 where
  pub sku : ℕ
  pub lot_code : ℕ
  pub quantity : ℤ

-- `gen_random_uuid()` and `now()` of the new row are arguments.
pub receive : ℕ → ℕ → ℕ → ReceiveLotInput → Action Stock Lot
receive new_id now tenant input s =
    let lot : Lot = record {
      id = new_id;
      tenant = tenant;
      sku = input.sku;
      lot_code = input.lot_code;
      on_hand = input.quantity;
      reserved = pos 0;
      received_at = now;
    } in
    if checks lot
      && any (λ k. k.id == input.sku) s.skus
      && not
          (any (λ l. l.id == new_id || (l.tenant == tenant && l.lot_code == input.lot_code)) s.lots)
    then (
      ok lot,
      record s {
        lots = lot ∷ s.lots;
        movements =
            record {
              tenant = tenant;
              lot = new_id;
              kind = receipt;
              quantity = input.quantity;
              reference = none;
            }
            ∷ s.movements;
      },
    )
    else (err refused, s)

unfoldable pub find_sku : ℕ → ℕ → Stock → Option Sku
find_sku id tenant s = find (λ k. k.id == id && k.tenant == tenant) s.skus

-- `ORDER BY received_at`, as an insertion sort; ties keep the order of the rows.
abbrev pub insert_by_age : Lot → List Lot → List Lot
insert_by_age l [] = l ∷ []
insert_by_age l (k ∷ ks) =
    let rest = insert_by_age l ks in
    if leb l.received_at k.received_at then l ∷ k ∷ ks else k ∷ rest

abbrev pub by_age : List Lot → List Lot
by_age [] = []
by_age (l ∷ ls) = insert_by_age l (by_age ls)

-- `gt(onHand - reserved, 0)` among the tenant's lots of the SKU.
abbrev pub is_available : ℕ → ℕ → Lot → Bool
is_available sku tenant l =
    l.sku == sku && l.tenant == tenant && ltb_ℤ (pos 0) (l.on_hand -ℤ l.reserved)

unfoldable pub list_available_by_sku : ℕ → ℕ → Stock → List Lot
list_available_by_sku sku tenant s = by_age (select (is_available sku tenant) s.lots)

pub record AvailableQuantity : Type 0 where
  pub sku : ℕ
  pub total_on_hand : ℤ
  pub total_reserved : ℤ
  pub total_available : ℤ

pub get_available_quantity : ℕ → ℕ → Stock → AvailableQuantity
get_available_quantity sku tenant s =
    let rows = select (λ (l : Lot). l.sku == sku && l.tenant == tenant) s.lots in
    let on_hand = total (λ (l : Lot). l.on_hand) rows in
    let reserved = total (λ (l : Lot). l.reserved) rows in
    record {
      sku = sku;
      total_on_hand = on_hand;
      total_reserved = reserved;
      total_available = on_hand -ℤ reserved;
    }
