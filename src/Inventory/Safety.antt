-- ===== src/Inventory/Safety.antt =====
-- The guards of the updates against the CHECK constraints of the lots.
use mathlib.Core.Bool.{and-eq-true_iff}
use mathlib.Core.Path.{subst₂}
use solodesk.Prelude.{
  ℕ, Bool, true, false, ◌&&◌, Option, none, some, ◌≡◌, refl, ◌∙◌, ap, arith, List, ◌∷◌, ◌++◌, any,
  All,
}
use solodesk.Prelude.Int.{ℤ, pos, ◌≤ℤ◌, int_laws, neg, leb_ℤ→≤, ◌+ℤ◌, ◌-ℤ◌}
use solodesk.Prelude.Tables.{
  Update, unchanged, changed, update_first, update_first-Updated, update_first-All, Replaced,
  update_first-Replaced, update_first-unchanged,
}
use solodesk.Prelude.Action.{Action, Result, ok}
use solodesk.Inventory.{
  MovementType, reservation, release, consumption, Lot, Movement, Stock, checks, nonneg,
  movement_quantity, is_lot, finish, atomic_update, has_available, has_reserved, reserve,
  release_reserved, consume_reserved, consume_direct,
}
use solodesk.Inventory.Ledger.{
  LotOperation, reserving, releasing, consuming_reserved, consuming_direct, run,
}

abbrev pub IsSound : Lot → Type 0
IsSound l = checks l ≡ true

-- Every lot meets the CHECK constraints: 0 ≤ reserved ≤ on hand.
abbrev pub IsStocked : Stock → Type 0
IsStocked s = All IsSound s.lots

-- The guard of an operation's UPDATE.
abbrev pub allows : LotOperation → ℤ → Lot → Bool
allows reserving = has_available
allows releasing = has_reserved
allows consuming_reserved = has_reserved
allows consuming_direct = has_available

-- The lot's next row.
abbrev pub next_row : LotOperation → ℤ → Lot → Lot
next_row reserving qty l = record l { reserved = l.reserved +ℤ qty }
next_row releasing qty l = record l { reserved = l.reserved -ℤ qty }
next_row consuming_reserved qty l = record l {
  on_hand = l.on_hand -ℤ qty;
  reserved = l.reserved -ℤ qty;
}
next_row consuming_direct qty l = record l { on_hand = l.on_hand -ℤ qty }

abbrev pub kind_of : LotOperation → MovementType
kind_of reserving = reservation
kind_of releasing = release
kind_of consuming_reserved = consumption
kind_of consuming_direct = consumption

abbrev updating : LotOperation → ℕ → ℕ → ℤ → Option ℕ → Action Stock (Option Lot)
updating op lot tenant qty reference =
    atomic_update lot tenant (next_row op qty) (allows op qty) (kind_of op) qty reference

pub run_is :
    (op : LotOperation) (lot tenant : ℕ) (qty : ℤ) (reference : Option ℕ) (s : Stock)
    → run op lot tenant qty reference s ≡ updating op lot tenant qty reference s
unfolding reserve release_reserved consume_reserved consume_direct
run_is reserving lot tenant qty reference s = refl
run_is releasing lot tenant qty reference s = refl
run_is consuming_reserved lot tenant qty reference s = refl
run_is consuming_direct lot tenant qty reference s = refl

Bounded : Lot → Type 0
Bounded l = (pos 0 ≤ℤ l.on_hand) × (pos 0 ≤ℤ l.reserved) × (l.reserved ≤ℤ l.on_hand)

checks→Bounded : (l : Lot) → checks l ≡ true → Bounded l
unfolding Bounded
checks→Bounded l h = ground arith

Bounded→checks : (l : Lot) → Bounded l → checks l ≡ true
unfolding Bounded
Bounded→checks l h = ground arith

available : (qty : ℤ) (l : Lot) → has_available qty l ≡ true → l.reserved +ℤ qty ≤ℤ l.on_hand
available qty l h = omega (int_laws, leb_ℤ→≤ qty (l.on_hand -ℤ l.reserved) h)

available_direct : (qty : ℤ) (l : Lot) → has_available qty l ≡ true → l.reserved ≤ℤ l.on_hand -ℤ qty
available_direct qty l h = omega (int_laws, leb_ℤ→≤ qty (l.on_hand -ℤ l.reserved) h)

enough_reserved : (qty : ℤ) (l : Lot) → has_reserved qty l ≡ true → qty ≤ℤ l.reserved
enough_reserved qty l h = leb_ℤ→≤ qty l.reserved h

next_row-Bounded :
    (op : LotOperation) (qty : ℤ) (l : Lot)
    → pos 0 ≤ℤ qty
    → Bounded l
    → allows op qty l ≡ true
    → Bounded (next_row op qty l)
unfolding Bounded
next_row-Bounded reserving qty l h (a, b, c) g = (a, omega int_laws, available qty l g)
next_row-Bounded releasing qty l h (a, b, c) g =
    let e = enough_reserved qty l g in (a, omega (int_laws, e), omega (int_laws, e))
next_row-Bounded consuming_reserved qty l h (a, b, c) g =
    let e = enough_reserved qty l g in
    (omega (int_laws, e), omega (int_laws, e), omega (int_laws, e))
next_row-Bounded consuming_direct qty l h (a, b, c) g =
    let e = available_direct qty l g in (omega (int_laws, e), b, e)

next_row-IsSound :
    (op : LotOperation) (qty : ℤ) (l : Lot)
    → pos 0 ≤ℤ qty
    → IsSound l
    → allows op qty l ≡ true
    → IsSound (next_row op qty l)
next_row-IsSound op qty l h sound g =
    Bounded→checks (next_row op qty l) (next_row-Bounded op qty l h (checks→Bounded l sound) g)

-- The quantity that the log shows.
abbrev pub signed : LotOperation → ℤ → ℤ
signed releasing qty = neg qty
signed _ qty = qty

signed-movement_quantity :
    (op : LotOperation) (qty : ℤ)
    → pos 0 ≤ℤ qty
    → movement_quantity (kind_of op) qty ≡ some (signed op qty)
signed-movement_quantity reserving qty h = refl
signed-movement_quantity releasing qty h = let e : nonneg qty ≡ true = ground arith in rw e refl
signed-movement_quantity consuming_reserved qty h = refl
signed-movement_quantity consuming_direct qty h = refl

-- The row that an operation logs.
abbrev pub entry : LotOperation → ℕ → ℕ → ℤ → Option ℕ → Movement
entry op lot tenant qty reference = record {
  tenant = tenant;
  lot = lot;
  kind = kind_of op;
  quantity = signed op qty;
  reference = reference;
}

-- How an operation on a lot ends.
pub data Outcome (op : LotOperation) (lot tenant : ℕ) (qty : ℤ) (reference : Option ℕ) (s : Stock)
    (r : Result (Option Lot) × Stock) : Type 0 where
  nothing :
      any (λ l. is_lot lot tenant l && allows op qty l) s.lots ≡ false
      → r ≡ (ok none, s)
      → Outcome op lot tenant qty reference s r
  done :
      (before after : List Lot) (old : Lot)
      → s.lots ≡ before ++ (old ∷ after)
      → is_lot lot tenant old ≡ true
      → allows op qty old ≡ true
      → r ≡ (
        ok (some (next_row op qty old)),
        record s {
          lots = before ++ (next_row op qty old ∷ after);
          movements = entry op lot tenant qty reference ∷ s.movements;
        },
      )
      → IsStocked r.1
      → Outcome op lot tenant qty reference s r

module _ (op : LotOperation) (lot tenant : ℕ) (qty : ℤ) (reference : Option ℕ) (s : Stock)
    (h : pos 0 ≤ℤ qty) (stocked : IsStocked s) where
  abbrev hits : Lot → Bool
  hits l = is_lot lot tenant l && allows op qty l

  -- The answer, and the stock that is left.
  abbrev left : Lot → List Lot → Result (Option Lot) × Stock
  left row rows = (
    ok (some row),
    record s { lots = rows; movements = entry op lot tenant qty reference ∷ s.movements },
  )

  written :
      (row : Lot) (rows : List Lot)
      → Replaced hits (next_row op qty) s.lots row rows
      → All IsSound rows
      → Outcome op lot tenant qty reference s (left row rows)
  written row rows u sound =
      let (own, allowed) = (and-eq-true_iff _ _).0 u.hit in
      let shown = u.now ∙ ap (λ l. u.before ++ (l ∷ u.behind_it)) u.new in
      done u.before u.behind_it u.old u.was own allowed
        (subst₂ (λ l ls. left row rows ≡ left l ls) u.new shown refl) sound

  finish-Outcome :
      (u : Update Lot)
      → update_first hits (next_row op qty) s.lots ≡ u
      → Outcome op lot tenant qty reference s (finish lot tenant (kind_of op) qty reference u s)
  finish-Outcome unchanged e = nothing ((update_first-unchanged _ _ s.lots).0 e) refl
  finish-Outcome (changed row rows) e =
      let u = update_first-Updated _ _ s.lots e in
      let (own, allowed) = (and-eq-true_iff _ _).0 u.hit in
      let sound : checks row ≡ true =
        ap checks u.new ∙ next_row-IsSound op qty u.old h (u.among checks stocked) allowed in
      rw (sound, signed-movement_quantity op qty h)
        (written row rows (update_first-Replaced _ _ s.lots e)
          (update_first-All IsSound _ _ s.lots stocked e sound))

-- On a stock whose lots all meet the CHECK constraints and for a quantity of zero or more and at
-- most three decimals, each of the four operations on a lot ends in one of two ways, and never in a
-- refused statement. Either no lot of that id and tenant passes the guard, the answer is none and
-- nothing changes. Or such a lot stands in the table: its next row is the answer and takes its place
-- among the lots, which otherwise stay as they are, one movement of the quantity is logged, and all
-- lots still meet the constraints.
pub run-Outcome :
    (op : LotOperation) (lot tenant : ℕ) (qty : ℤ) (reference : Option ℕ) (s : Stock)
    → pos 0 ≤ℤ qty
    → IsStocked s
    → Outcome op lot tenant qty reference s (run op lot tenant qty reference s)
unfolding atomic_update
run-Outcome op lot tenant qty reference s h stocked =
    rw (run_is op lot tenant qty reference s)
      (finish-Outcome op lot tenant qty reference s h stocked _ refl)
