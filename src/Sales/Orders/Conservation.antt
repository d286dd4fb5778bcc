-- ===== src/Sales/Orders/Conservation.antt =====
-- What the lines of an order take out of the stock.
use mathlib.Core.Path.{subst}
use solodesk.Prelude.{ℕ, Option, none, some, List, [], ◌∷◌, ◌≡◌, refl, ◌∙◌, ap, sym}
use solodesk.Prelude.Int.{ℤ, ◌+ℤ◌, int_laws, parts_of_eq}
use solodesk.Prelude.Tables.{total}
use solodesk.Prelude.Action.{
  Result, ok, err, or_throw, not_found, conflict, sku_not_found, insufficient_stock, pure, ◌>>◌,
}
use solodesk.Prelude.Success.{Succeeds, then_ensures, or_throw-Succeeds}
use solodesk.Inventory.{Sku, Lot, Stock, find_sku, list_available_by_sku, consume_direct}
use solodesk.Inventory.Oldest.{IsOldest, list_available_by_sku-IsOldest}
use solodesk.Inventory.Ledger.{on_hand_of, share, Sells, consume_direct-Sells}
use solodesk.Sales.{Store}
use solodesk.Sales.Orders.{
  CreateOrderLineInput, ResolvedOrderLine, resolve_line, resolve_lines, chosen_lot, resolved,
  on_stock, lift, oldest_of, sell_line, line_of,
}

-- What a resolved line takes from lot i of tenant t, sold by `tenant`.
abbrev pub taken_by : ℕ → ℕ → ℕ → ResolvedOrderLine → ℤ
taken_by tenant t i l = share l.lot tenant l.quantity t i

abbrev pub on_hand_in : ℕ → ℕ → Store → ℤ
on_hand_in t i s = total (on_hand_of t i) s.stock.lots

abbrev restock : Stock → Store → Store
restock stock s = record s { stock = stock }

-- Nothing outside the stock is different.
abbrev pub SameBooks : Store → Store → Type 0
SameBooks s s' = restock s'.stock s ≡ s'

-- The lot of a line is the one that was asked for, or else the oldest for sale.
abbrev pub IsChosen : Stock → ℕ → CreateOrderLineInput → Option ℕ → ℕ → Type 0
IsChosen committed tenant line (some asked) lot = lot ≡ asked
IsChosen committed tenant line none lot =
    (oldest : Lot) × IsOldest line.sku tenant committed.lots oldest × (lot ≡ oldest.id)

-- A resolved line is the one that was asked for, at the SKU's price if none was named.
abbrev pub IsResolved : Stock → ℕ → CreateOrderLineInput → ResolvedOrderLine → Type 0
IsResolved committed tenant line l =
    (sku : Sku) × (find_sku line.sku tenant committed ≡ some sku)
    × (l ≡ resolved line sku l.lot)
    × IsChosen committed tenant line line.lot l.lot

abbrev pub AreResolved : Stock → ℕ → List CreateOrderLineInput → List ResolvedOrderLine → Type 0
AreResolved committed tenant [] [] = Unit {0}
AreResolved committed tenant [] (l ∷ ls) = ⊥
AreResolved committed tenant (line ∷ lines) [] = ⊥
AreResolved committed tenant (line ∷ lines) (l ∷ ls) =
    IsResolved committed tenant line l × AreResolved committed tenant lines ls

oldest_of_first :
    (sku tenant : ℕ) (committed : Stock) (ls : List Lot) (s : Store)
    → list_available_by_sku sku tenant committed ≡ ls
    → Succeeds
        (λ lot s'.
          ((oldest : Lot) × IsOldest sku tenant committed.lots oldest × (lot ≡ oldest.id))
          × (s' ≡ s))
        (oldest_of ls s)
oldest_of_first sku tenant committed [] s e = tt
oldest_of_first sku tenant committed (l ∷ ls) s e =
    ((l, list_available_by_sku-IsOldest sku tenant committed l ls e, refl), refl)

module _ (committed : Stock) (tenant : ℕ) where
  -- What one round of the loop establishes.
  abbrev LineDone : CreateOrderLineInput → Store → ResolvedOrderLine → Store → Type 0
  LineDone line s l s' =
      IsResolved committed tenant line l
      × SameBooks s s'
      × ((t i : ℕ) → on_hand_in t i s' +ℤ taken_by tenant t i l ≡ on_hand_in t i s)

  -- The direct sale, within the whole store.
  abbrev Taken : ℕ → ℤ → Store → Option Lot → Store → Type 0
  Taken lot qty s none s' = Unit {0}
  Taken lot qty s (some row) s' =
      SameBooks s s'
      × ((t i : ℕ) → on_hand_in t i s' +ℤ share lot tenant qty t i ≡ on_hand_in t i s)

  lift-Taken :
      (lot : ℕ) (qty : ℤ) (s : Store) (x : Result (Option Lot) × Stock)
      → Sells lot tenant qty s.stock x
      → Succeeds (Taken lot qty s) (lift s x)
  lift-Taken lot qty s (ok none, stock) h = tt
  lift-Taken lot qty s (ok (some row), stock) h = (refl, h)
  lift-Taken lot qty s (err e, stock) h = tt

  sold-Taken :
      (lot : ℕ) (qty : ℤ) (s : Store)
      → Succeeds (Taken lot qty s) (on_stock (consume_direct lot tenant qty none) s)
  sold-Taken lot qty s = lift-Taken lot qty s _ (consume_direct-Sells lot tenant qty none s.stock)

  chosen_lot-IsChosen :
      (line : CreateOrderLineInput) (o : Option ℕ) (s : Store)
      → Succeeds
          (λ lot s'. IsChosen committed tenant line o lot × (s' ≡ s))
          (chosen_lot committed tenant line o s)
  chosen_lot-IsChosen line (some lot) s = (refl, refl)
  chosen_lot-IsChosen line none s = oldest_of_first line.sku tenant committed _ s refl

  finished :
      (line : CreateOrderLineInput) (s : Store) (sku : Sku) (lot : ℕ)
      (found : find_sku line.sku tenant committed ≡ some sku)
      (chosen : IsChosen committed tenant line line.lot lot) (o : Option Lot) (s' : Store)
      → Taken lot line.quantity s o s'
      → Succeeds
          (LineDone line s)
          ((or_throw o (conflict insufficient_stock) >> pure (resolved line sku lot)) s')
  finished line s sku lot found chosen none s' h = tt
  finished line s sku lot found chosen (some row) s' h = ((sku, found, refl, chosen), h.0, h.1)

  line_of-LineDone :
      (line : CreateOrderLineInput) (s : Store) (sku : Sku)
      → find_sku line.sku tenant committed ≡ some sku
      → Succeeds (LineDone line s) (line_of committed tenant line sku s)
  line_of-LineDone line s sku found =
      then_ensures (λ lot s'. IsChosen committed tenant line line.lot lot × (s' ≡ s))
        (LineDone line s) (sell_line tenant line sku)
        (λ lot s' (chosen, same).
          subst (λ s'. Succeeds (LineDone line s) (sell_line tenant line sku lot s')) (sym same)
            (then_ensures (Taken lot line.quantity s) (LineDone line s) _
              (finished line s sku lot found chosen)
              (on_stock (consume_direct lot tenant line.quantity none)) s
              (sold-Taken lot line.quantity s)))
        (chosen_lot committed tenant line line.lot) s (chosen_lot-IsChosen line line.lot s)

  resolve_line-LineDone :
      (line : CreateOrderLineInput) (s : Store)
      → Succeeds (LineDone line s) (resolve_line committed tenant line s)
  unfolding resolve_line
  resolve_line-LineDone line s =
      then_ensures (λ sku s'. (find_sku line.sku tenant committed ≡ some sku) × (s' ≡ s))
        (LineDone line s) (line_of committed tenant line)
        (λ sku s' (found, same).
          subst (λ s'. Succeeds (LineDone line s) (line_of committed tenant line sku s')) (sym same)
            (line_of-LineDone line s sku found))
        (or_throw (find_sku line.sku tenant committed) (not_found sku_not_found)) s
        (or_throw-Succeeds (find_sku line.sku tenant committed) (not_found sku_not_found) s)

  -- What the whole loop establishes.
  abbrev pub LinesDone : List CreateOrderLineInput → Store → List ResolvedOrderLine → Store → Type 0
  LinesDone lines s ls s' =
      AreResolved committed tenant lines ls
      × SameBooks s s'
      × ((t i : ℕ) → on_hand_in t i s' +ℤ total (taken_by tenant t i) ls ≡ on_hand_in t i s)

  LinesDone-cons :
      (line : CreateOrderLineInput) (lines : List CreateOrderLineInput) (s s' s'' : Store)
      (l : ResolvedOrderLine) (ls : List ResolvedOrderLine)
      → LineDone line s l s'
      → LinesDone lines s' ls s''
      → LinesDone (line ∷ lines) s (l ∷ ls) s''
  LinesDone-cons line lines s s' s'' l ls (one, books, took) (rest, books', took') = (
    (one, rest),
    ap (restock s''.stock) books ∙ books',
    λ t i. omega (int_laws, parts_of_eq (took t i), parts_of_eq (took' t i)),
  )

  pub resolve_lines-LinesDone :
      (lines : List CreateOrderLineInput) (s : Store)
      → Succeeds (LinesDone lines s) (resolve_lines committed tenant lines s)
  unfolding resolve_lines
  resolve_lines-LinesDone [] s = (tt, refl, λ t i. omega int_laws)
  resolve_lines-LinesDone (line ∷ lines) s =
      then_ensures (LineDone line s) (LinesDone (line ∷ lines) s) _
        (λ l s' one.
          then_ensures (LinesDone lines s') (LinesDone (line ∷ lines) s) _
            (λ ls s'' rest. LinesDone-cons line lines s s' s'' l ls one rest)
            (resolve_lines committed tenant lines) s' (resolve_lines-LinesDone lines s'))
        (resolve_line committed tenant line) s (resolve_line-LineDone line s)
