-- ===== src/Inventory/Oldest.antt =====
-- What `listAvailableBySku` (lot.drizzle-repository.ts) puts first.
use mathlib.Core.Path.{subst}
use solodesk.Prelude.{
  ℕ, ◌≤◌, Bool, true, false, List, [], ◌∷◌, ◌≡◌, ◌⊎◌, refl, sym, arith, inl, inr, leb, leb→≤, leb→>,
  Bool-cases, select, select_keeps, select_skips, All,
}
use solodesk.Prelude.Int.{pos, ◌<ℤ◌, ◌-ℤ◌}
use solodesk.Inventory.{Lot, Stock, insert_by_age, by_age, is_available, list_available_by_sku}

-- The lot is a row of the table.
abbrev pub StandsIn : Lot → List Lot → Type 0
StandsIn l [] = ⊥
StandsIn l (k ∷ ks) = (l ≡ k) ⊎ StandsIn l ks

-- A lot of the tenant and SKU with stock that is not reserved.
pub record IsForSale (sku tenant : ℕ) (l : Lot) : Type 0 where
  pub of_sku : l.sku ≡ sku
  pub of_tenant : l.tenant ≡ tenant
  pub has_stock : pos 0 <ℤ (l.on_hand -ℤ l.reserved)

-- None of the rows for sale was received before the lot, which is one of them.
pub record IsOldest (sku tenant : ℕ) (rows : List Lot) (l : Lot) : Type 0 where
  pub stands : StandsIn l rows
  pub for_sale : IsForSale sku tenant l
  pub oldest : All (λ k. IsForSale sku tenant k → l.received_at ≤ k.received_at) rows

abbrev NotBefore : (Lot → Bool) → Lot → Lot → Type 0
NotBefore p l k = p k ≡ true → l.received_at ≤ k.received_at

-- What stands first in the sorted rows that the test keeps.
abbrev First : (Lot → Bool) → List Lot → List Lot → Type 0
First p rows [] = All (λ k. p k ≡ false) rows
First p rows (l ∷ ls) = StandsIn l rows × (p l ≡ true) × All (NotBefore p l) rows

both : {b : Bool} {A : Type 0} → b ≡ true → b ≡ false → A
both t f = absurd (cc)

unkept :
    (p : Lot → Bool) (l : Lot) (rows : List Lot)
    → All (λ k. p k ≡ false) rows
    → All (NotBefore p l) rows
unkept p l [] h = tt
unkept p l (k ∷ ks) h = ((λ e. both e (h.0)), unkept p l ks h.1)

older :
    (p : Lot → Bool) (l o : Lot) (rows : List Lot)
    → l.received_at ≤ o.received_at
    → All (NotBefore p o) rows
    → All (NotBefore p l) rows
older p l o [] h a = tt
older p l o (k ∷ ks) h a =
    ((λ e. let later = a.0 e in omega (arith, h, later)), older p l o ks h a.1)

insert_by_age-First :
    (p : Lot → Bool) (r : Lot) (rows ls : List Lot)
    → p r ≡ true
    → First p rows ls
    → First p (r ∷ rows) (insert_by_age r ls)
insert_by_age-First p r rows [] e h = (inl refl, e, ((λ x. omega arith), unkept p r rows h))
insert_by_age-First p r rows (o ∷ os) e (stands, kept, first) =
    elim (Bool-cases (leb r.received_at o.received_at)) [
      | inl before ↦
          let h = leb→≤ _ _ before in
          rw before (inl refl, e, ((λ x. omega arith), older p r o rows h first))
      | inr after ↦
          let h = leb→> _ _ after in rw after (inr stands, kept, ((λ x. omega (arith, h)), first))
    ]

skipped-First :
    (p : Lot → Bool) (r : Lot) (rows ls : List Lot)
    → p r ≡ false
    → First p rows ls
    → First p (r ∷ rows) ls
skipped-First p r rows [] e h = (e, h)
skipped-First p r rows (o ∷ os) e (stands, kept, first) =
    (inr stands, kept, ((λ x. both x e), first))

by_age-First : (p : Lot → Bool) (rows : List Lot) → First p rows (by_age (select p rows))
by_age-First p [] = tt
by_age-First p (r ∷ rows) = elim (Bool-cases (p r)) [
  | inl kept ↦
      subst (λ ls. First p (r ∷ rows) (by_age ls)) (sym (select_keeps p r rows kept))
        (insert_by_age-First p r rows _ kept (by_age-First p rows))
  | inr skipped ↦
      subst (λ ls. First p (r ∷ rows) (by_age ls)) (sym (select_skips p r rows skipped))
        (skipped-First p r rows _ skipped (by_age-First p rows))
]

module _ (sku tenant : ℕ) where
  is_available→ : (l : Lot) → is_available sku tenant l ≡ true → IsForSale sku tenant l
  is_available→ l h = record {
    of_sku = ground arith;
    of_tenant = ground arith;
    has_stock = ground arith;
  }

  →is_available : (l : Lot) → IsForSale sku tenant l → is_available sku tenant l ≡ true
  →is_available l h = let p = h.of_sku in let q = h.of_tenant in let r = h.has_stock in ground arith

  among_all :
      (o : Lot) (rows : List Lot)
      → All (NotBefore (is_available sku tenant) o) rows
      → All (λ k. IsForSale sku tenant k → o.received_at ≤ k.received_at) rows
  among_all o [] h = tt
  among_all o (k ∷ ks) h = ((λ f. h.0 (→is_available k f)), among_all o ks h.1)

  First-IsOldest :
      (rows : List Lot) (o : Lot) (os ls : List Lot)
      → First (is_available sku tenant) rows ls
      → ls ≡ o ∷ os
      → IsOldest sku tenant rows o
  First-IsOldest rows o os ls h e =
      let (stands, kept, oldest) = subst (First (is_available sku tenant) rows) e h in
      record { stands = stands; for_sale = is_available→ o kept; oldest = among_all o rows oldest }

  pub list_available_by_sku-IsOldest :
      (s : Stock) (o : Lot) (os : List Lot)
      → list_available_by_sku sku tenant s ≡ o ∷ os
      → IsOldest sku tenant s.lots o
  unfolding list_available_by_sku
  list_available_by_sku-IsOldest s o os e =
      First-IsOldest s.lots o os _ (by_age-First (is_available sku tenant) s.lots) e
