-- ===== src/Prelude/Lists.antt =====
-- Lists measured by native numbers, under the library's names, and tests over lists.
use Prim.Native.Nat.{ℕ, zero, suc, ◌+◌, ◌-◌}
use solodesk.Prelude.Tests.{Bool-cases}
use mathlib.Core.Logic.{inl, inr}
use mathlib.Core.Path.{◌≡◌, refl, ap, sym, ◌∙◌, subst}
use mathlib.Core.Bool.{Bool, true, false, ◌||◌}
use mathlib.Core.List.{List, [], ◌∷◌, ◌++◌}
use mathlib.Core.Option.{Option, none, some}
use native.Mathlib.Omega.{arith}

pub some_injective {ℓ} : {A : Type ℓ} {x y : A} → some x ≡ some y → x ≡ y
some_injective e = cc

module _ {ℓ} {A : Type ℓ} where
  abbrev pub length : List A → ℕ
  length [] = 0
  length (x ∷ xs) = suc (length xs)

  abbrev pub replicate : ℕ → A → List A
  replicate zero a = []
  replicate (suc n) a = a ∷ replicate n a

  abbrev pub take : ℕ → List A → List A
  take zero xs = []
  take (suc n) [] = []
  take (suc n) (x ∷ xs) = x ∷ take n xs

  abbrev pub drop : ℕ → List A → List A
  drop zero xs = xs
  drop (suc n) [] = []
  drop (suc n) (x ∷ xs) = drop n xs

  pub take-append-drop : (n : ℕ) (xs : List A) → take n xs ++ drop n xs ≡ xs
  take-append-drop zero xs = refl
  take-append-drop (suc n) [] = refl
  take-append-drop (suc n) (x ∷ xs) = rw (take-append-drop n xs)

  pub length-append : (xs ys : List A) → length (xs ++ ys) ≡ length xs + length ys
  length-append [] ys = omega arith
  length-append (x ∷ xs) ys = omega (arith, length-append xs ys)

  pub length-drop : (n : ℕ) (xs : List A) → length (drop n xs) ≡ length xs - n
  length-drop zero xs = omega arith
  length-drop (suc n) [] = omega arith
  length-drop (suc n) (x ∷ xs) = omega (arith, length-drop n xs)

  pub length-replicate : (n : ℕ) (a : A) → length (replicate n a) ≡ n
  length-replicate zero a = refl
  length-replicate (suc n) a = ap suc (length-replicate n a)

  -- The rows that a `WHERE` clause keeps, in their order.
  abbrev pub select : (A → Bool) → List A → List A
  select p [] = []
  select p (x ∷ xs) = elim (p x) [ true ↦ x ∷ select p xs | false ↦ select p xs ]

  -- The first such row (`LIMIT 1`).
  abbrev pub find : (A → Bool) → List A → Option A
  find p [] = none
  find p (x ∷ xs) = elim (p x) [ true ↦ some x | false ↦ find p xs ]

  -- `UPDATE … SET f WHERE p`.
  abbrev pub update : (A → Bool) → (A → A) → List A → List A
  update p f [] = []
  update p f (x ∷ xs) = elim (p x) [ true ↦ f x | false ↦ x ] ∷ update p f xs

  abbrev pub any : (A → Bool) → List A → Bool
  any p [] = false
  any p (x ∷ xs) = p x || any p xs

  abbrev pub count : (A → Bool) → List A → ℕ
  count p [] = 0
  count p (x ∷ xs) = elim (p x) [ true ↦ suc (count p xs) | false ↦ count p xs ]

  pub count-none : (p : A → Bool) (xs : List A) → any p xs ≡ false → count p xs ≡ 0
  count-none p [] h = refl
  count-none p (x ∷ xs) h = ground (arith, count-none p xs)

  pub count_here :
      (p : A → Bool) (x : A) (xs : List A) → p x ≡ true → count p (x ∷ xs) ≡ suc (count p xs)
  count_here p x xs h = ground arith

  pub count_later :
      (p : A → Bool) (x : A) (xs : List A) → p x ≡ false → count p (x ∷ xs) ≡ count p xs
  count_later p x xs h = ground arith

  pub select_keeps :
      (p : A → Bool) (x : A) (xs : List A) → p x ≡ true → select p (x ∷ xs) ≡ x ∷ select p xs
  select_keeps p x xs h = ground arith

  pub select_skips :
      (p : A → Bool) (x : A) (xs : List A) → p x ≡ false → select p (x ∷ xs) ≡ select p xs
  select_skips p x xs h = ground arith

  pub find_later : (p : A → Bool) (x : A) (xs : List A) → p x ≡ false → find p (x ∷ xs) ≡ find p xs
  find_later p x xs h = ground arith

  pub find_here : (p : A → Bool) (x : A) (xs : List A) → p x ≡ true → find p (x ∷ xs) ≡ some x
  find_here p x xs h = ground arith

module _ {ℓ κ} {A : Type ℓ} (P : A → Type κ) where
  abbrev pub All : List A → Type κ
  All [] = Unit
  All (x ∷ xs) = P x × All xs

module _ {ℓ κ} {A : Type ℓ} (P : A → Type κ) where
  pub All-append : (xs ys : List A) → All P xs → All P ys → All P (xs ++ ys)
  All-append [] ys hx hy = hy
  All-append (x ∷ xs) ys hx hy = (hx.0, All-append xs ys hx.1 hy)

module _ {ℓ κ} {A : Type ℓ} (P : A → Type κ) (q : A → Bool) where
  -- What a search finds meets what all do, and the test.
  pub find-All : (xs : List A) (x : A) → All P xs → find q xs ≡ some x → P x
  find-All [] x h e = absurd (cc)
  find-All (y ∷ xs) x h e = elim (Bool-cases (q y)) [
    | inl hit ↦ subst P (some_injective (sym (find_here q y xs hit) ∙ e)) h.0
    | inr miss ↦ find-All xs x h.1 (sym (find_later q y xs miss) ∙ e)
  ]

module _ {ℓ} {A : Type ℓ} (q : A → Bool) where
  pub find-hit : (xs : List A) (x : A) → find q xs ≡ some x → q x ≡ true
  find-hit [] x e = absurd (cc)
  find-hit (y ∷ xs) x e = elim (Bool-cases (q y)) [
    | inl hit ↦ subst (λ x. q x ≡ true) (some_injective (sym (find_here q y xs hit) ∙ e)) hit
    | inr miss ↦ find-hit xs x (sym (find_later q y xs miss) ∙ e)
  ]

  pub any-find :
      (p : A → Bool) (xs : List A) (x : A) → find q xs ≡ some x → p x ≡ true → any p xs ≡ true
  any-find p [] x e h = absurd (cc)
  any-find p (y ∷ xs) x e h = elim (Bool-cases (q y)) [
    | inl hit ↦
        let here = subst (λ x. p x ≡ true) (some_injective (sym e ∙ find_here q y xs hit)) h in
        ground (arith, here)
    | inr miss ↦
        let later = any-find p xs x (sym (find_later q y xs miss) ∙ e) h in ground (arith, later)
  ]

  pub find-none : (xs : List A) → any q xs ≡ false → find q xs ≡ none
  find-none [] h = refl
  find-none (x ∷ xs) h = ground (arith, find-none xs)

  pub select-none : (xs : List A) → any q xs ≡ false → select q xs ≡ []
  select-none [] h = refl
  select-none (x ∷ xs) h = ground (arith, select-none xs)

module _ {ℓ} {A : Type ℓ} (q p : A → Bool) (f : A → A) (same : (x : A) → q (f x) ≡ q x) where
  abbrev changed_by : A → A
  changed_by x = elim (p x) [ true ↦ f x | false ↦ x ]

  abbrev pub change : Option A → Option A
  change none = none
  change (some x) = some (changed_by x)

  q-changed_by : (x : A) → q (changed_by x) ≡ q x
  q-changed_by x = ground (arith, same x)

  -- A search by a column that the UPDATE does not set.
  pub find-update : (xs : List A) → find q (update p f xs) ≡ change (find q xs)
  find-update [] = refl
  find-update (x ∷ xs) = elim (Bool-cases (q x)) [
    | inl hit ↦
        find_here q (changed_by x) (update p f xs) (q-changed_by x ∙ hit)
        ∙ ap change (sym (find_here q x xs hit))
    | inr miss ↦
        find_later q (changed_by x) (update p f xs) (q-changed_by x ∙ miss)
        ∙ find-update xs
        ∙ ap change (sym (find_later q x xs miss))
  ]

  -- The row found, where the UPDATE hits it.
  pub find-updated :
      (xs : List A) (x : A) → find q xs ≡ some x → p x ≡ true → find q (update p f xs) ≡ some (f x)
  find-updated xs x e hit =
      let here : change (some x) ≡ some (f x) = ground (arith, hit) in
      find-update xs ∙ ap change e ∙ here
