-- ===== src/Prelude/Finding.antt =====
-- `SELECT … LIMIT 1` after an UPDATE of one row.
use solodesk.Prelude.Tests.{Bool-cases}
use solodesk.Prelude.Lists.{find, find_here, find_later}
use solodesk.Prelude.Tables.{
  Update, unchanged, changed, behind, update_first, update_first_here, update_first_later,
}
use mathlib.Core.Path.{◌≡◌, refl, sym, ◌∙◌}
use mathlib.Core.Logic.{inl, inr}
use mathlib.Core.Bool.{Bool, true, false}
use mathlib.Core.Option.{none, some}
use mathlib.Core.List.{List, [], ◌∷◌}
use native.Mathlib.Omega.{arith}

module _ {A : Type 0} where
  -- The search meets the changed row first.
  abbrev Finds : (A → Bool) → List A → Update A → Type 0
  Finds q xs unchanged = find q xs ≡ none
  Finds q xs (changed row ys) = find q ys ≡ some row

  Finds-behind :
      (q : A → Bool) (x : A) (xs : List A) (u : Update A)
      → q x ≡ false
      → Finds q xs u
      → Finds q (x ∷ xs) (behind x u)
  Finds-behind q x xs unchanged miss h = find_later q x xs miss ∙ h
  Finds-behind q x xs (changed r ys) miss h = find_later q x ys miss ∙ h

  update_first-Finds :
      (q p : A → Bool) (f : A → A) (xs : List A)
      → ((x : A) → p x ≡ false → q x ≡ false)
      → ((x : A) → p x ≡ true → q (f x) ≡ true)
      → Finds q xs (update_first p f xs)
  unfolding update_first
  update_first-Finds q p f [] only hits = refl
  update_first-Finds q p f (x ∷ xs) only hits = elim (Bool-cases (p x)) [
    | inl hit ↦ rw (update_first_here p f x xs hit) (find_here q (f x) xs (hits x hit))
    | inr miss ↦ rw (update_first_later p f x xs miss) (
        Finds-behind q x xs (update_first p f xs) (only x miss)
          (update_first-Finds q p f xs only hits))
  ]

  -- A search that only rows that are hit can meet finds the changed row.
  pub find-update_first :
      (q p : A → Bool) (f : A → A) (xs : List A) (row : A) (ys : List A)
      → ((x : A) → p x ≡ false → q x ≡ false)
      → ((x : A) → p x ≡ true → q (f x) ≡ true)
      → update_first p f xs ≡ changed row ys
      → find q ys ≡ some row
  find-update_first q p f xs row ys only hits e = rw e at (update_first-Finds q p f xs only hits)

  abbrev SameFind : (A → Bool) → List A → Update A → Type 0
  SameFind q xs unchanged = Unit {0}
  SameFind q xs (changed row ys) = find q ys ≡ find q xs

  find-cons :
      (q : A → Bool) (x : A) (xs ys : List A)
      → find q ys ≡ find q xs
      → find q (x ∷ ys) ≡ find q (x ∷ xs)
  find-cons q x xs ys e = ground (arith, e)

  SameFind-behind :
      (q : A → Bool) (x : A) (xs : List A) (u : Update A)
      → SameFind q xs u
      → SameFind q (x ∷ xs) (behind x u)
  SameFind-behind q x xs unchanged h = tt
  SameFind-behind q x xs (changed r ys) h = find-cons q x xs ys h

  update_first-SameFind :
      (q p : A → Bool) (f : A → A) (xs : List A)
      → ((x : A) → p x ≡ true → (q x ≡ false) × (q (f x) ≡ false))
      → SameFind q xs (update_first p f xs)
  unfolding update_first
  update_first-SameFind q p f [] apart = tt
  update_first-SameFind q p f (x ∷ xs) apart = elim (Bool-cases (p x)) [
    | inl hit ↦
        let (before, after) = apart x hit in
        rw (update_first_here p f x xs hit)
          (find_later q (f x) xs after ∙ sym (find_later q x xs before))
    | inr miss ↦
        rw (update_first_later p f x xs miss)
          (SameFind-behind q x xs (update_first p f xs) (update_first-SameFind q p f xs apart))
  ]

  -- A search that meets no row that is hit finds what it found.
  pub find-update_first_other :
      (q p : A → Bool) (f : A → A) (xs : List A) (row : A) (ys : List A)
      → ((x : A) → p x ≡ true → (q x ≡ false) × (q (f x) ≡ false))
      → update_first p f xs ≡ changed row ys
      → find q ys ≡ find q xs
  find-update_first_other q p f xs row ys apart e = rw e at (update_first-SameFind q p f xs apart)
