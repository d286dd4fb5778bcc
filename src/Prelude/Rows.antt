-- ===== src/Prelude/Rows.antt =====
-- The rows and the columns of a table after an UPDATE of one row.
use solodesk.Prelude.Tests.{Bool-cases}
use solodesk.Prelude.Lists.{All, any}
use native.Mathlib.Omega.{arith}
use solodesk.Prelude.Tables.{
  Update, unchanged, changed, behind, update_first, update_first_here, update_first_later,
}
use mathlib.Core.Path.{◌≡◌, ap}
use mathlib.Core.Logic.{inl, inr}
use mathlib.Core.Bool.{Bool, true}
use mathlib.Core.List.{List, [], ◌∷◌, map}

module _ {A : Type 0} where
  abbrev CarriesHit {κ} : (A → Type κ) → Update A → Type κ
  CarriesHit P unchanged = Unit
  CarriesHit P (changed row ys) = All P ys

  CarriesHit-behind {κ} :
      (P : A → Type κ) (x : A) (u : Update A) → P x → CarriesHit P u → CarriesHit P (behind x u)
  CarriesHit-behind P x unchanged h k = tt
  CarriesHit-behind P x (changed r ys) h k = (h, k)

  update_first-CarriesHit {κ} :
      (P : A → Type κ) (p : A → Bool) (f : A → A) (xs : List A)
      → All P xs
      → All (λ x. p x ≡ true → P (f x)) xs
      → CarriesHit P (update_first p f xs)
  unfolding update_first
  update_first-CarriesHit P p f [] h k = tt
  update_first-CarriesHit P p f (x ∷ xs) h k = elim (Bool-cases (p x)) [
    | inl hit ↦ rw (update_first_here p f x xs hit) (k.0 hit, h.1)
    | inr miss ↦
        rw (update_first_later p f x xs miss) (
          CarriesHit-behind P x (update_first p f xs) h.0
            (update_first-CarriesHit P p f xs h.1 k.1))
  ]

  -- What held of every row still does, if it holds of each row that could have changed.
  pub update_first-All_hit {κ} :
      (P : A → Type κ) (p : A → Bool) (f : A → A) (xs : List A) {row : A} {ys : List A}
      → All P xs
      → All (λ x. p x ≡ true → P (f x)) xs
      → update_first p f xs ≡ changed row ys
      → All P ys
  update_first-All_hit P p f xs h k e = rw e at (update_first-CarriesHit P p f xs h k)

  abbrev SameColumn : {B : Type 0} → (A → B) → List A → Update A → Type 0
  SameColumn g xs unchanged = Unit {0}
  SameColumn g xs (changed row ys) = map g ys ≡ map g xs

  SameColumn-behind :
      {B : Type 0} (g : A → B) (x : A) (xs : List A) (u : Update A)
      → SameColumn g xs u
      → SameColumn g (x ∷ xs) (behind x u)
  SameColumn-behind g x xs unchanged h = tt
  SameColumn-behind g x xs (changed r ys) h = ap (λ t. g x ∷ t) h

  update_first-SameColumn :
      {B : Type 0} (g : A → B) (p : A → Bool) (f : A → A) (xs : List A)
      → ((x : A) → g (f x) ≡ g x)
      → SameColumn g xs (update_first p f xs)
  unfolding update_first
  update_first-SameColumn g p f [] same = tt
  update_first-SameColumn g p f (x ∷ xs) same = elim (Bool-cases (p x)) [
    | inl hit ↦ rw (update_first_here p f x xs hit) (ap (λ t. t ∷ map g xs) (same x))
    | inr miss ↦
        rw (update_first_later p f x xs miss)
          (SameColumn-behind g x xs (update_first p f xs) (update_first-SameColumn g p f xs same))
  ]

  -- A column that the statement does not set is as it was.
  pub map-update_first :
      {B : Type 0} (g : A → B) (p : A → Bool) (f : A → A) (xs : List A) {row : A} {ys : List A}
      → ((x : A) → g (f x) ≡ g x)
      → update_first p f xs ≡ changed row ys
      → map g ys ≡ map g xs
  map-update_first g p f xs same e = rw e at (update_first-SameColumn g p f xs same)

  -- The changed row is in the table.
  abbrev Holds : (A → Bool) → Update A → Type 0
  Holds q unchanged = Unit {0}
  Holds q (changed row ys) = q row ≡ true → any q ys ≡ true

  Holds-behind : (q : A → Bool) (x : A) (u : Update A) → Holds q u → Holds q (behind x u)
  Holds-behind q x unchanged h = tt
  Holds-behind q x (changed r ys) h = λ e. ground (arith, h e)

  update_first-Holds : (q p : A → Bool) (f : A → A) (xs : List A) → Holds q (update_first p f xs)
  unfolding update_first
  update_first-Holds q p f [] = tt
  update_first-Holds q p f (x ∷ xs) = elim (Bool-cases (p x)) [
    | inl hit ↦ rw (update_first_here p f x xs hit) (λ e. ground (arith, e))
    | inr miss ↦
        rw (update_first_later p f x xs miss)
          (Holds-behind q x (update_first p f xs) (update_first-Holds q p f xs))
  ]

  pub any-update_first :
      (q p : A → Bool) (f : A → A) (xs : List A) {row : A} {ys : List A}
      → update_first p f xs ≡ changed row ys
      → q row ≡ true
      → any q ys ≡ true
  any-update_first q p f xs e = rw e at (update_first-Holds q p f xs)
