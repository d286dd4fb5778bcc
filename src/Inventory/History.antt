-- ===== src/Inventory/History.antt =====
-- Any sequence of operations on lots, of any tenants and quantities in thousandths.
use solodesk.Prelude.{
  ℕ, Bool, Option, none, some, List, [], ◌∷◌, ◌≡◌, refl, All, Bool-cases, inl, inr,
}
use solodesk.Prelude.Int.{ℤ}
use solodesk.Prelude.Tables.{Update, unchanged, changed, update_first, update_first-All}
use solodesk.Inventory.{
  Lot, Movement, Stock, checks, movement_quantity, log_movement, logged, finish, atomic_update,
}
use solodesk.Inventory.Ledger.{LotOperation, run, IsReconciled, run-IsReconciled}
use solodesk.Inventory.Safety.{IsSound, IsStocked, next_row, kind_of, run_is}

pub record Call : Type 0 where
  pub op : LotOperation
  pub lot : ℕ
  pub tenant : ℕ
  pub quantity : ℤ
  pub reference : Option ℕ

-- The stock after a sequence of calls, each in its own transaction; a call that fails changes
-- nothing and the next one goes on.
pub after : List Call → Stock → Stock
after [] s = s
after (c ∷ cs) s = after cs (run c.op c.lot c.tenant c.quantity c.reference s).1

module _ (op : LotOperation) (lot tenant : ℕ) (qty : ℤ) (reference : Option ℕ) (s : Stock)
    (stocked : IsStocked s) where
  logged-IsStocked :
      (row : Lot) (rows : List Lot) (ms : Option (List Movement))
      → All IsSound rows
      → IsStocked (logged row rows ms s).1
  logged-IsStocked row rows none h = stocked
  logged-IsStocked row rows (some ms) h = h

  finish-IsStocked :
      (p : Lot → Bool) (u : Update Lot)
      → update_first p (next_row op qty) s.lots ≡ u
      → IsStocked (finish lot tenant (kind_of op) qty reference u s).1
  finish-IsStocked p unchanged e = stocked
  finish-IsStocked p (changed row rows) e = elim (Bool-cases (checks row)) [
    | inl fine ↦ rw fine (
        logged-IsStocked row rows
          (log_movement tenant lot (kind_of op) (movement_quantity (kind_of op) qty) reference
            s.movements)
          (update_first-All IsSound p (next_row op qty) s.lots stocked e fine))
    | inr refused ↦ rw refused stocked
  ]

  run-IsStocked : IsStocked (run op lot tenant qty reference s).1
  unfolding atomic_update
  run-IsStocked = rw (run_is op lot tenant qty reference s) (finish-IsStocked _ _ refl)

-- If the stock on hand of every lot is the sum of its logged movements and every lot has
-- 0 ≤ reserved ≤ on hand, both still hold after any sequence of reservations, releases and sales, of
-- any tenants and any quantities of at most three decimals: nothing is oversold.
pub after-IsReconciled :
    (calls : List Call) (s : Stock)
    → IsReconciled s
    → IsStocked s
    → IsReconciled (after calls s) × IsStocked (after calls s)
unfolding after
after-IsReconciled [] s reconciled stocked = (reconciled, stocked)
after-IsReconciled (c ∷ cs) s reconciled stocked =
    after-IsReconciled cs (run c.op c.lot c.tenant c.quantity c.reference s).1
      (run-IsReconciled c.op c.lot c.tenant c.quantity c.reference s reconciled)
      (run-IsStocked c.op c.lot c.tenant c.quantity c.reference s stocked)
