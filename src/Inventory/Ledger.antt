-- ===== src/Inventory/Ledger.antt =====
-- The stock on hand of every lot is the sum of its logged movements.
use mathlib.Core.Bool.{and-eq-true_iff}
use solodesk.Prelude.{
  ℕ, Bool, true, false, ◌&&◌, Option, none, some, ◌≡◌, refl, ◌∙◌, ap, sym, inl, inr, arith, ◌==◌,
  if◌then◌else◌, Bool-cases, List,
}
use solodesk.Prelude.Int.{ℤ, pos, ◌+ℤ◌, ◌-ℤ◌, neg, int_laws, parts_of_eq}
use solodesk.Prelude.Tables.{
  Update, unchanged, changed, update_first, total, Updated, update_first-Updated,
}
use solodesk.Prelude.Action.{Action, Result, ok, err}
use solodesk.Inventory.{
  MovementType, receipt, consumption, reservation, release, return, Lot, Movement, Stock, checks,
  movement_quantity, is_lot, log_movement, logged, finish, atomic_update, reserve, release_reserved,
  consume_reserved, consume_direct, has_available, has_reserved,
}

-- What a movement adds to the stock on hand.
abbrev pub signed : MovementType → ℤ → ℤ
signed receipt q = q
signed consumption q = neg q
signed return q = q
signed _ q = pos 0

abbrev pub on_hand_of : ℕ → ℕ → Lot → ℤ
on_hand_of tenant id l = if is_lot id tenant l then l.on_hand else pos 0

abbrev pub effect_on : ℕ → ℕ → Movement → ℤ
effect_on tenant id m =
    if m.lot == id && m.tenant == tenant then signed m.kind m.quantity else pos 0

abbrev pub IsReconciled : Stock → Type 0
IsReconciled s =
    (tenant id : ℕ) → total (on_hand_of tenant id) s.lots ≡ total (effect_on tenant id) s.movements

-- The change that an operation on one lot makes to the sums of lot i of tenant t.
abbrev pub share : ℕ → ℕ → ℤ → ℕ → ℕ → ℤ
share lot tenant amount t i = if lot == i && tenant == t then amount else pos 0

plus_zero : (a : ℤ) → a +ℤ pos 0 ≡ a
plus_zero a = omega int_laws

signed-movement_quantity :
    (kind : MovementType) (qty q : ℤ)
    → movement_quantity kind qty ≡ some q
    → signed kind q ≡ signed kind qty
signed-movement_quantity receipt qty q e = cc
signed-movement_quantity consumption qty q e = cc
signed-movement_quantity return qty q e = cc
signed-movement_quantity _ qty q e = refl

+ℤ_comm : (a b : ℤ) → a +ℤ b ≡ b +ℤ a
+ℤ_comm a b = omega int_laws

module _ (lot tenant : ℕ) (patch : Lot → Lot) (kind : MovementType) (qty : ℤ)
    (same_id : (l : Lot) → (patch l).id ≡ l.id)
    (same_tenant : (l : Lot) → (patch l).tenant ≡ l.tenant)
    (moves : (l : Lot) → (patch l).on_hand ≡ l.on_hand +ℤ signed kind qty) where
  on_hand_of-patch :
      (l : Lot) (t i : ℕ)
      → is_lot lot tenant l ≡ true
      → on_hand_of t i (patch l) ≡ on_hand_of t i l +ℤ share lot tenant (signed kind qty) t i
  on_hand_of-patch l t i h = ground (arith, same_id l, same_tenant l, moves l, plus_zero (pos 0))

  -- The sums over the lots after the update.
  total_after :
      (p : Lot → Bool) (lots rows : List Lot) (row : Lot) (t i : ℕ)
      → ((l : Lot) → p l ≡ true → is_lot lot tenant l ≡ true)
      → Updated p patch lots row rows
      → total (on_hand_of t i) rows
        ≡ total (on_hand_of t i) lots +ℤ share lot tenant (signed kind qty) t i
  total_after p lots rows row t i own u =
      let step = on_hand_of-patch u.old t i (own u.old u.hit) in
      let new = ap (on_hand_of t i) u.new ∙ step in
      omega (int_laws, parts_of_eq (u.moved (on_hand_of t i)), parts_of_eq new)

  logged-IsReconciled :
      (row : Lot) (rows : List Lot) (s : Stock) (reference : Option ℕ) (o : Option ℤ)
      → movement_quantity kind qty ≡ o
      → ((t i : ℕ)
          → total (on_hand_of t i) rows
            ≡ total (on_hand_of t i) s.lots +ℤ share lot tenant (signed kind qty) t i)
      → IsReconciled s
      → IsReconciled (logged row rows (log_movement tenant lot kind o reference s.movements) s).1
  logged-IsReconciled row rows s reference none e sums h = h
  logged-IsReconciled row rows s reference (some q) e sums h = λ t i.
      sums t i
      ∙ ap (λ (a : ℤ). a +ℤ share lot tenant (signed kind qty) t i) (h t i)
      ∙ ap (λ (a : ℤ). total (effect_on t i) s.movements +ℤ share lot tenant a t i)
          (sym (signed-movement_quantity kind qty q e))
      ∙ +ℤ_comm _ _

  finish-IsReconciled :
      (p : Lot → Bool) (reference : Option ℕ) (s : Stock) (u : Update Lot)
      → ((l : Lot) → p l ≡ true → is_lot lot tenant l ≡ true)
      → update_first p patch s.lots ≡ u
      → IsReconciled s
      → IsReconciled (finish lot tenant kind qty reference u s).1
  finish-IsReconciled p reference s unchanged own e h = h
  finish-IsReconciled p reference s (changed row rows) own e h = elim (Bool-cases (checks row)) [
    | inl fine ↦ rw fine (
        logged-IsReconciled row rows s reference (movement_quantity kind qty) refl
          (λ t i. total_after p s.lots rows row t i own (update_first-Updated p patch s.lots e)) h)
    | inr refused ↦ rw refused h
  ]

  atomic_update-IsReconciled :
      (guard : Lot → Bool) (reference : Option ℕ) (s : Stock)
      → IsReconciled s
      → IsReconciled (atomic_update lot tenant patch guard kind qty reference s).1
  unfolding atomic_update
  atomic_update-IsReconciled guard reference s h =
      finish-IsReconciled (λ l. is_lot lot tenant l && guard l) reference s
        (update_first (λ l. is_lot lot tenant l && guard l) patch s.lots)
        (λ l hit. ((and-eq-true_iff _ _).0 hit).0) refl h

  -- How an operation moves the stock on hand of every lot: by its own movement, or not at all.
  abbrev Moves : Stock → Result (Option Lot) × Stock → Type 0
  Moves s (ok (some row), s') =
      (t i : ℕ)
      → total (on_hand_of t i) s'.lots
        ≡ total (on_hand_of t i) s.lots +ℤ share lot tenant (signed kind qty) t i
  Moves s (_, s') = s' ≡ s

  logged-Moves :
      (row : Lot) (rows : List Lot) (s : Stock) (ms : Option (List Movement))
      → ((t i : ℕ)
          → total (on_hand_of t i) rows
            ≡ total (on_hand_of t i) s.lots +ℤ share lot tenant (signed kind qty) t i)
      → Moves s (logged row rows ms s)
  logged-Moves row rows s none sums = refl
  logged-Moves row rows s (some ms) sums = sums

  finish-Moves :
      (p : Lot → Bool) (reference : Option ℕ) (s : Stock) (u : Update Lot)
      → ((l : Lot) → p l ≡ true → is_lot lot tenant l ≡ true)
      → update_first p patch s.lots ≡ u
      → Moves s (finish lot tenant kind qty reference u s)
  finish-Moves p reference s unchanged own e = refl
  finish-Moves p reference s (changed row rows) own e = elim (Bool-cases (checks row)) [
    | inl fine ↦ rw fine (
        logged-Moves row rows s _
          (λ t i. total_after p s.lots rows row t i own (update_first-Updated p patch s.lots e)))
    | inr refused ↦ rw refused refl
  ]

  pub atomic_update-Moves :
      (guard : Lot → Bool) (reference : Option ℕ) (s : Stock)
      → Moves s (atomic_update lot tenant patch guard kind qty reference s)
  unfolding atomic_update
  atomic_update-Moves guard reference s =
      finish-Moves (λ l. is_lot lot tenant l && guard l) reference s
        (update_first (λ l. is_lot lot tenant l && guard l) patch s.lots)
        (λ l hit. ((and-eq-true_iff _ _).0 hit).0) refl

-- The operations on one lot.
pub data LotOperation : Type 0 where
  reserving releasing consuming_reserved consuming_direct : LotOperation

abbrev pub run : LotOperation → ℕ → ℕ → ℤ → Option ℕ → Action Stock (Option Lot)
run reserving = reserve
run releasing = release_reserved
run consuming_reserved = consume_reserved
run consuming_direct = consume_direct

minus : (a b : ℤ) → a -ℤ b ≡ a +ℤ neg b
minus a b = omega int_laws

pub run-IsReconciled :
    (op : LotOperation) (lot tenant : ℕ) (qty : ℤ) (reference : Option ℕ) (s : Stock)
    → IsReconciled s
    → IsReconciled (run op lot tenant qty reference s).1
unfolding reserve release_reserved consume_reserved consume_direct
run-IsReconciled reserving lot tenant qty reference s =
    atomic_update-IsReconciled lot tenant _ reservation qty (λ l. refl) (λ l. refl)
      (λ l. sym (plus_zero l.on_hand)) (has_available qty) reference s
run-IsReconciled releasing lot tenant qty reference s =
    atomic_update-IsReconciled lot tenant _ release qty (λ l. refl) (λ l. refl)
      (λ l. sym (plus_zero l.on_hand)) (has_reserved qty) reference s
run-IsReconciled consuming_reserved lot tenant qty reference s =
    atomic_update-IsReconciled lot tenant _ consumption qty (λ l. refl) (λ l. refl)
      (λ l. minus l.on_hand qty) (has_reserved qty) reference s
run-IsReconciled consuming_direct lot tenant qty reference s =
    atomic_update-IsReconciled lot tenant _ consumption qty (λ l. refl) (λ l. refl)
      (λ l. minus l.on_hand qty) (has_available qty) reference s

-- What a direct sale does to the stock on hand: it takes the quantity off the one lot, or fails
-- and takes nothing.
abbrev pub Sells : ℕ → ℕ → ℤ → Stock → Result (Option Lot) × Stock → Type 0
Sells lot tenant qty s (ok (some row), s') =
    (t i : ℕ)
    → total (on_hand_of t i) s'.lots +ℤ share lot tenant qty t i ≡ total (on_hand_of t i) s.lots
Sells lot tenant qty s (_, s') = s' ≡ s

add_back :
    (b : Bool) (qty x y : ℤ)
    → x ≡ y +ℤ (if b then neg qty else pos 0)
    → x +ℤ (if b then qty else pos 0) ≡ y
add_back true qty x y e = omega (int_laws, parts_of_eq e)
add_back false qty x y e = omega (int_laws, parts_of_eq e)

Moves→Sells :
    (lot tenant : ℕ) (patch : Lot → Lot) (qty : ℤ) (same_id : (l : Lot) → (patch l).id ≡ l.id)
    (same_tenant : (l : Lot) → (patch l).tenant ≡ l.tenant)
    (moves : (l : Lot) → (patch l).on_hand ≡ l.on_hand +ℤ signed consumption qty) (s : Stock)
    (r : Result (Option Lot) × Stock)
    → Moves lot tenant patch consumption qty same_id same_tenant moves s r
    → Sells lot tenant qty s r
Moves→Sells lot tenant patch qty a b c s (ok (some row), s') h =
    λ t i. add_back (lot == i && tenant == t) qty _ _ (h t i)
Moves→Sells lot tenant patch qty a b c s (ok none, s') h = h
Moves→Sells lot tenant patch qty a b c s (err e, s') h = h

pub consume_direct-Sells :
    (lot tenant : ℕ) (qty : ℤ) (reference : Option ℕ) (s : Stock)
    → Sells lot tenant qty s (consume_direct lot tenant qty reference s)
unfolding consume_direct
consume_direct-Sells lot tenant qty reference s =
    Moves→Sells lot tenant (λ l. record l { on_hand = l.on_hand -ℤ qty }) qty (λ l. refl)
      (λ l. refl) (λ l. minus l.on_hand qty) s _
      (atomic_update-Moves lot tenant _ consumption qty (λ l. refl) (λ l. refl)
        (λ l. minus l.on_hand qty) (has_available qty) reference s)
