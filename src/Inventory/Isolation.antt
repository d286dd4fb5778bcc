-- ===== src/Inventory/Isolation.antt =====
-- What an operation of one tenant leaves of another tenant's stock.
use mathlib.Core.Bool.{and-eq-true_iff}
use solodesk.Prelude.{
  ℕ, true, false, ◌&&◌, Option, none, some, ◌≡◌, ◌≢◌, refl, ap, ◌∙◌, inl, inr, arith, List, ◌∷◌,
  ◌==◌, select, Bool-cases,
}
use solodesk.Prelude.Int.{ℤ}
use solodesk.Prelude.Tables.{Update, unchanged, changed, update_first, select-update_first}
use solodesk.Inventory.{
  Lot, Movement, Stock, checks, movement_quantity, is_lot, log_movement, logged, finish,
  atomic_update,
}
use solodesk.Inventory.Ledger.{
  LotOperation, run, reserving, releasing, consuming_reserved, consuming_direct,
}
use solodesk.Inventory.Safety.{allows, next_row, kind_of, run_is}

abbrev pub lots_of : ℕ → Stock → List Lot
lots_of t s = select (λ (l : Lot). l.tenant == t) s.lots

abbrev pub movements_of : ℕ → Stock → List Movement
movements_of t s = select (λ (m : Movement). m.tenant == t) s.movements

-- Nothing that tenant t reads of the stock is different.
abbrev pub SameFor : ℕ → Stock → Stock → Type 0
SameFor t s s' =
    (lots_of t s' ≡ lots_of t s) × (movements_of t s' ≡ movements_of t s) × (s'.skus ≡ s.skus)

differs : (a b c : ℕ) → a ≢ b → (c == a) ≡ true → (c == b) ≡ false
differs a b c h e = ground arith

module _ (op : LotOperation) (lot tenant other : ℕ) (qty : ℤ) (reference : Option ℕ) (s : Stock)
    (apart : tenant ≢ other) where
  other_tenant : (l : Lot) → is_lot lot tenant l ≡ true → (l.tenant == other) ≡ false
  other_tenant l h = differs tenant other l.tenant apart ((and-eq-true_iff _ _).0 h).1

  next_row-tenant : (op : LotOperation) (l : Lot) → (next_row op qty l).tenant ≡ l.tenant
  next_row-tenant reserving l = refl
  next_row-tenant releasing l = refl
  next_row-tenant consuming_reserved l = refl
  next_row-tenant consuming_direct l = refl

  new_movement :
      (m : Movement) (ms : List Movement)
      → m.tenant ≡ tenant
      → select (λ (m : Movement). m.tenant == other) (m ∷ ms)
        ≡ select (λ (m : Movement). m.tenant == other) ms
  new_movement m ms e = ground (arith, apart, e)

  logged-SameFor :
      (row : Lot) (rows : List Lot) (o : Option ℤ)
      → select (λ (l : Lot). l.tenant == other) rows ≡ lots_of other s
      → SameFor other s
          (logged row rows (log_movement tenant lot (kind_of op) o reference s.movements) s).1
  logged-SameFor row rows none same = (refl, refl, refl)
  logged-SameFor row rows (some q) same = (same, new_movement _ s.movements refl, refl)

  finish-SameFor :
      (u : Update Lot)
      → update_first (λ l. is_lot lot tenant l && allows op qty l) (next_row op qty) s.lots ≡ u
      → SameFor other s (finish lot tenant (kind_of op) qty reference u s).1
  finish-SameFor unchanged e = (refl, refl, refl)
  finish-SameFor (changed row rows) e = elim (Bool-cases (checks row)) [
    | inl fine ↦ rw fine (
        logged-SameFor row rows (movement_quantity (kind_of op) qty) (
          select-update_first (λ (l : Lot). l.tenant == other) _ _ s.lots
            (λ l hit.
              let own = other_tenant l ((and-eq-true_iff _ _).0 hit).0 in
              (own, ap (λ t. t == other) (next_row-tenant op l) ∙ own))
            e))
    | inr refused ↦ rw refused (refl, refl, refl)
  ]

-- An operation of one tenant on a lot leaves the lots and movements of every other tenant, and the
-- SKUs, as they are.
pub run-SameFor :
    (op : LotOperation) (lot tenant other : ℕ) (qty : ℤ) (reference : Option ℕ) (s : Stock)
    → tenant ≢ other
    → SameFor other s (run op lot tenant qty reference s).1
unfolding atomic_update
run-SameFor op lot tenant other qty reference s apart =
    rw (run_is op lot tenant qty reference s)
      (finish-SameFor op lot tenant other qty reference s apart _ refl)
