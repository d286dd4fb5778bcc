-- ===== src/Prelude/Tables.antt =====
-- A table of Postgres as the list of its rows, and the statements that the repositories send.
use solodesk.Prelude.Tests.{if◌then◌else◌, Bool-cases}
use solodesk.Prelude.Lists.{select, select_skips, any, All, count}
use Prim.Native.Nat.{ℕ, ◌+◌}
use solodesk.Prelude.Int.{ℤ, pos, ◌+ℤ◌, int_laws, parts_of_eq}
use mathlib.Core.Path.{◌≡◌, refl, ap, sym, ◌∙◌}
use mathlib.Core.Logic.{inl, inr, ◌↔◌}
use mathlib.Core.Bool.{Bool, true, false}
use mathlib.Core.List.{List, [], ◌∷◌, ◌++◌}
use native.Mathlib.Omega.{arith}

-- What an UPDATE that names a row by its primary key has done: no row, or the row and the table.
pub data Update (A : Type 0) : Type 0 where
  unchanged : Update A
  changed : A → List A → Update A

module _ {A : Type 0} where
  abbrev pub behind : A → Update A → Update A
  behind x unchanged = unchanged
  behind x (changed r ys) = changed r (x ∷ ys)

  -- `UPDATE … SET f WHERE p RETURNING *`, where p includes `id = …`.
  unfoldable pub update_first : (A → Bool) → (A → A) → List A → Update A
  update_first p f [] = unchanged
  update_first p f (x ∷ xs) =
      if p x then changed (f x) (f x ∷ xs) else behind x (update_first p f xs)

  -- `COALESCE(SUM(g), 0)`
  abbrev pub total : (A → ℤ) → List A → ℤ
  total g [] = pos 0
  total g (x ∷ xs) = g x +ℤ total g xs

  -- What a statement that changed a row has done, in terms of every sum and every test of the table.
  pub record Updated (p : A → Bool) (f : A → A) (xs : List A) (row : A) (ys : List A) : Type 0 where
    pub old : A
    pub hit : p old ≡ true
    pub new : row ≡ f old
    pub moved : (g : A → ℤ) → total g ys +ℤ g old ≡ total g xs +ℤ g row
    pub among : (q : A → Bool) → All (λ x. q x ≡ true) xs → q old ≡ true

  Updated-cons :
      {p : A → Bool} {f : A → A} {x row : A} {xs ys : List A}
      → Updated p f xs row ys
      → Updated p f (x ∷ xs) row (x ∷ ys)
  Updated-cons u = record {
    old = u.old;
    hit = u.hit;
    new = u.new;
    moved = λ g. omega (int_laws, parts_of_eq (u.moved g));
    among = λ q h. u.among q h.1;
  }

  abbrev UpdatedBy : (A → Bool) → (A → A) → List A → Update A → Type 0
  UpdatedBy p f xs unchanged = Unit {0}
  UpdatedBy p f xs (changed row ys) = Updated p f xs row ys

  UpdatedBy-behind :
      (p : A → Bool) (f : A → A) (x : A) (xs : List A) (u : Update A)
      → UpdatedBy p f xs u
      → UpdatedBy p f (x ∷ xs) (behind x u)
  UpdatedBy-behind p f x xs unchanged h = tt
  UpdatedBy-behind p f x xs (changed r ys) h = Updated-cons h

  pub update_first_here :
      (p : A → Bool) (f : A → A) (x : A) (xs : List A)
      → p x ≡ true
      → update_first p f (x ∷ xs) ≡ changed (f x) (f x ∷ xs)
  unfolding update_first
  update_first_here p f x xs h = rw (h, update_first)

  pub update_first_later :
      (p : A → Bool) (f : A → A) (x : A) (xs : List A)
      → p x ≡ false
      → update_first p f (x ∷ xs) ≡ behind x (update_first p f xs)
  unfolding update_first
  update_first_later p f x xs h = rw (h, update_first)

  pub update_first-UpdatedBy :
      (p : A → Bool) (f : A → A) (xs : List A) → UpdatedBy p f xs (update_first p f xs)
  unfolding update_first
  update_first-UpdatedBy p f [] = tt
  update_first-UpdatedBy p f (x ∷ xs) = elim (Bool-cases (p x)) [
    | inl hit ↦
        rw (update_first_here p f x xs hit) (record {
          old = x;
          hit = hit;
          new = refl;
          moved = λ g. omega int_laws;
          among = λ q h. h.0;
        })
    | inr miss ↦
        rw (update_first_later p f x xs miss)
          (UpdatedBy-behind p f x xs (update_first p f xs) (update_first-UpdatedBy p f xs))
  ]

  pub update_first-Updated :
      (p : A → Bool) (f : A → A) (xs : List A) {row : A} {ys : List A}
      → update_first p f xs ≡ changed row ys
      → Updated p f xs row ys
  update_first-Updated p f xs h = rw h at (update_first-UpdatedBy p f xs)

  abbrev Carries {κ} : (A → Type κ) → Update A → Type κ
  Carries P unchanged = Unit
  Carries P (changed row ys) = P row → All P ys

  Carries-behind {κ} :
      (P : A → Type κ) (x : A) (u : Update A) → P x → Carries P u → Carries P (behind x u)
  Carries-behind P x unchanged h k = tt
  Carries-behind P x (changed r ys) h k = λ new. (h, k new)

  update_first-Carries {κ} :
      (P : A → Type κ) (p : A → Bool) (f : A → A) (xs : List A)
      → All P xs
      → Carries P (update_first p f xs)
  unfolding update_first
  update_first-Carries P p f [] h = tt
  update_first-Carries P p f (x ∷ xs) h = elim (Bool-cases (p x)) [
    | inl hit ↦ rw (update_first_here p f x xs hit) (λ new. (new, h.1))
    | inr miss ↦
        rw (update_first_later p f x xs miss)
          (Carries-behind P x (update_first p f xs) h.0 (update_first-Carries P p f xs h.1))
  ]

  -- What held of every row still does, if it holds of the row that changed.
  pub update_first-All {κ} :
      (P : A → Type κ) (p : A → Bool) (f : A → A) (xs : List A) {row : A} {ys : List A}
      → All P xs
      → update_first p f xs ≡ changed row ys
      → P row
      → All P ys
  update_first-All P p f xs h e = rw e at (update_first-Carries P p f xs h)

  -- The rows that a query reads are the same, if no row that is hit is among them before or after.
  abbrev SameRows : (A → Bool) → List A → Update A → Type 0
  SameRows q xs unchanged = Unit {0}
  SameRows q xs (changed row ys) = select q ys ≡ select q xs

  select-cons :
      (q : A → Bool) (x : A) (xs ys : List A)
      → select q ys ≡ select q xs
      → select q (x ∷ ys) ≡ select q (x ∷ xs)
  select-cons q x xs ys e = ground (arith, e)

  SameRows-behind :
      (q : A → Bool) (x : A) (xs : List A) (u : Update A)
      → SameRows q xs u
      → SameRows q (x ∷ xs) (behind x u)
  SameRows-behind q x xs unchanged h = tt
  SameRows-behind q x xs (changed r ys) h = select-cons q x xs ys h

  update_first-SameRows :
      (q p : A → Bool) (f : A → A) (xs : List A)
      → ((x : A) → p x ≡ true → (q x ≡ false) × (q (f x) ≡ false))
      → SameRows q xs (update_first p f xs)
  unfolding update_first
  update_first-SameRows q p f [] apart = tt
  update_first-SameRows q p f (x ∷ xs) apart = elim (Bool-cases (p x)) [
    | inl hit ↦
        let (before, after) = apart x hit in
        rw (update_first_here p f x xs hit)
          (select_skips q (f x) xs after ∙ sym (select_skips q x xs before))
    | inr miss ↦
        rw (update_first_later p f x xs miss)
          (SameRows-behind q x xs (update_first p f xs) (update_first-SameRows q p f xs apart))
  ]

  pub select-update_first :
      (q p : A → Bool) (f : A → A) (xs : List A) {row : A} {ys : List A}
      → ((x : A) → p x ≡ true → (q x ≡ false) × (q (f x) ≡ false))
      → update_first p f xs ≡ changed row ys
      → select q ys ≡ select q xs
  select-update_first q p f xs apart e = rw e at (update_first-SameRows q p f xs apart)

  behind-unchanged : (x : A) (u : Update A) → (behind x u ≡ unchanged) ↔ (u ≡ unchanged)
  behind-unchanged x unchanged = (λ _. refl, λ _. refl)
  behind-unchanged x (changed r ys) = (λ e. cc, λ e. cc)

  -- No row is changed exactly when none fits.
  pub update_first-unchanged :
      (p : A → Bool) (f : A → A) (xs : List A)
      → (update_first p f xs ≡ unchanged) ↔ (any p xs ≡ false)
  unfolding update_first
  update_first-unchanged p f [] = (λ _. refl, λ _. refl)
  update_first-unchanged p f (x ∷ xs) = elim (Bool-cases (p x)) [
    | inl hit ↦ ground arith
    | inr miss ↦
        ground (arith, update_first-unchanged p f xs, behind-unchanged x (update_first p f xs))
  ]

  abbrev pub ones : (A → Bool) → A → ℕ
  ones q x = elim (q x) [ true ↦ 1 | false ↦ 0 ]

  pub count-cons : (q : A → Bool) (x : A) (xs : List A) → count q (x ∷ xs) ≡ ones q x + count q xs
  count-cons q x xs = ground arith

  -- How many rows meet q after an UPDATE of one row.
  pub record Recounted (q p : A → Bool) (f : A → A) (xs : List A) (row : A) (ys : List A)
      : Type 0 where
    pub old : A
    pub hit : p old ≡ true
    pub new : row ≡ f old
    pub counts : count q ys + ones q old ≡ count q xs + ones q row

  abbrev RecountedBy : (q p : A → Bool) → (A → A) → List A → Update A → Type 0
  RecountedBy q p f xs unchanged = Unit {0}
  RecountedBy q p f xs (changed row ys) = Recounted q p f xs row ys

  RecountedBy-behind :
      (q p : A → Bool) (f : A → A) (x : A) (xs : List A) (u : Update A)
      → RecountedBy q p f xs u
      → RecountedBy q p f (x ∷ xs) (behind x u)
  RecountedBy-behind q p f x xs unchanged h = tt
  RecountedBy-behind q p f x xs (changed r ys) h = record {
    old = h.old;
    hit = h.hit;
    new = h.new;
    counts = omega (arith, h.counts, count-cons q x xs, count-cons q x ys);
  }

  update_first-RecountedBy :
      (q p : A → Bool) (f : A → A) (xs : List A) → RecountedBy q p f xs (update_first p f xs)
  unfolding update_first
  update_first-RecountedBy q p f [] = tt
  update_first-RecountedBy q p f (x ∷ xs) = elim (Bool-cases (p x)) [
    | inl hit ↦ rw (update_first_here p f x xs hit) (record {
      old = x;
      hit = hit;
      new = refl;
      counts = omega (arith, count-cons q x xs, count-cons q (f x) xs);
    })
    | inr miss ↦
        rw (update_first_later p f x xs miss)
          (RecountedBy-behind q p f x xs (update_first p f xs) (update_first-RecountedBy q p f xs))
  ]

  pub update_first-Recounted :
      (q p : A → Bool) (f : A → A) (xs : List A) {row : A} {ys : List A}
      → update_first p f xs ≡ changed row ys
      → Recounted q p f xs row ys
  update_first-Recounted q p f xs h = rw h at (update_first-RecountedBy q p f xs)

  -- The row that changed stands where the old one stood.
  pub record Replaced (p : A → Bool) (f : A → A) (xs : List A) (row : A) (ys : List A)
      : Type 0 where
    pub before : List A
    pub old : A
    pub behind_it : List A
    pub was : xs ≡ before ++ (old ∷ behind_it)
    pub now : ys ≡ before ++ (row ∷ behind_it)
    pub hit : p old ≡ true
    pub new : row ≡ f old

  abbrev ReplacedBy : (p : A → Bool) → (A → A) → List A → Update A → Type 0
  ReplacedBy p f xs unchanged = Unit {0}
  ReplacedBy p f xs (changed row ys) = Replaced p f xs row ys

  ReplacedBy-behind :
      (p : A → Bool) (f : A → A) (x : A) (xs : List A) (u : Update A)
      → ReplacedBy p f xs u
      → ReplacedBy p f (x ∷ xs) (behind x u)
  ReplacedBy-behind p f x xs unchanged h = tt
  ReplacedBy-behind p f x xs (changed r ys) h = record {
    before = x ∷ h.before;
    old = h.old;
    behind_it = h.behind_it;
    was = ap (λ zs. x ∷ zs) h.was;
    now = ap (λ zs. x ∷ zs) h.now;
    hit = h.hit;
    new = h.new;
  }

  update_first-ReplacedBy :
      (p : A → Bool) (f : A → A) (xs : List A) → ReplacedBy p f xs (update_first p f xs)
  unfolding update_first
  update_first-ReplacedBy p f [] = tt
  update_first-ReplacedBy p f (x ∷ xs) = elim (Bool-cases (p x)) [
    | inl hit ↦ rw (update_first_here p f x xs hit) (record {
      before = [];
      old = x;
      behind_it = xs;
      was = refl;
      now = refl;
      hit = hit;
      new = refl;
    })
    | inr miss ↦
        rw (update_first_later p f x xs miss)
          (ReplacedBy-behind p f x xs (update_first p f xs) (update_first-ReplacedBy p f xs))
  ]

  pub update_first-Replaced :
      (p : A → Bool) (f : A → A) (xs : List A) {row : A} {ys : List A}
      → update_first p f xs ≡ changed row ys
      → Replaced p f xs row ys
  update_first-Replaced p f xs h = rw h at (update_first-ReplacedBy p f xs)
