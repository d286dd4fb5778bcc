-- ===== src/Inventory/Service.antt =====
-- services/backend-api/src/modules/catalog-inventory/application/inventory.service.ts. The tenant
-- of the AsyncLocalStorage store is the argument `session`.
use solodesk.Prelude.{ℕ, Option, List, [], ◌∷◌}
use solodesk.Prelude.Int.{ℤ}
use solodesk.Prelude.Action.{
  Action, Failure, not_found, conflict, insufficient_stock, release_exceeds_reserved,
  consume_exceeds_reserved, no_available_lot, ◌>>=◌, ◌>>◌, or_throw, gets, throw,
}
use solodesk.Tenancy.{assert_tenant_matches_session}
use solodesk.Inventory
use solodesk.Inventory.{
  Sku, Lot, Stock, ReceiveLotInput, AvailableQuantity, receive, release_reserved,
  list_available_by_sku, get_available_quantity,
}

pub receive_lot : ℕ → ℕ → ℕ → ℕ → ReceiveLotInput → Action Stock Lot
receive_lot session new_id now tenant input =
    assert_tenant_matches_session session tenant >> receive new_id now tenant input

pub available_quantity : ℕ → ℕ → ℕ → Action Stock AvailableQuantity
available_quantity session sku tenant =
    assert_tenant_matches_session session tenant >> gets (get_available_quantity sku tenant)

-- A lot, or the conflict that the service makes of the repository's null.
pub or_conflict : {S A : Type 0} → Failure → Action S (Option A) → Action S A
or_conflict e m = m >>= λ found. or_throw found e

pub reserve : ℕ → ℕ → ℕ → ℤ → Option ℕ → Action Stock Lot
reserve session lot tenant qty reference =
    assert_tenant_matches_session session tenant
    >> or_conflict (conflict insufficient_stock) (Inventory.reserve lot tenant qty reference)

pub release : ℕ → ℕ → ℕ → ℤ → Option ℕ → Action Stock Lot
release session lot tenant qty reference =
    assert_tenant_matches_session session tenant
    >> or_conflict (conflict release_exceeds_reserved) (release_reserved lot tenant qty reference)

pub consume_reserved : ℕ → ℕ → ℕ → ℤ → Option ℕ → Action Stock Lot
consume_reserved session lot tenant qty reference =
    assert_tenant_matches_session session tenant
    >> or_conflict (conflict consume_exceeds_reserved)
        (Inventory.consume_reserved lot tenant qty reference)

pub consume_direct : ℕ → ℕ → ℕ → ℤ → Option ℕ → Action Stock Lot
consume_direct session lot tenant qty reference =
    assert_tenant_matches_session session tenant
    >> or_conflict (conflict insufficient_stock) (Inventory.consume_direct lot tenant qty reference)

abbrev sell_oldest : ℕ → ℕ → ℤ → Option ℕ → List Lot → Action Stock Lot
sell_oldest session tenant qty reference [] = throw (not_found no_available_lot)
sell_oldest session tenant qty reference (oldest ∷ _) =
    consume_direct session oldest.id tenant qty reference

pub sell_from_sku : ℕ → ℕ → ℕ → ℤ → Option ℕ → Action Stock Lot
sell_from_sku session sku tenant qty reference =
    assert_tenant_matches_session session tenant
    >> (gets (list_available_by_sku sku tenant) >>= sell_oldest session tenant qty reference)
