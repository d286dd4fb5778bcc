-- ===== src/Connectors/Zalo/Spaces.antt =====
-- What is left of a text that is trimmed.
use mathlib.Core.List.{reverse, reverse-cons}
use solodesk.Prelude.{
  ℕ, Bool, true, false, not, ◌||◌, [], ◌∷◌, ◌++◌, ◌≡◌, refl, ap, ◌∙◌, arith, any, All, inl, inr,
  Bool-cases,
}
use solodesk.Money.{Text}
use solodesk.Connectors.Zalo.{is_space, trim_start, trim, is_empty}

-- All of the text is white space.
abbrev pub IsBlank : Text → Type 0
IsBlank s = All (λ c. is_space c ≡ true) s

abbrev pub is_ink : ℕ → Bool
is_ink c = not (is_space c)

-- Some of it is not.
abbrev pub HasInk : Text → Type 0
HasInk s = any is_ink s ≡ true

any-append : (s t : Text) → any is_ink (s ++ t) ≡ (any is_ink s || any is_ink t)
any-append [] t = refl
any-append (c ∷ s) t = ground (arith, any-append s t)

any-reverse : (s : Text) → any is_ink (reverse s) ≡ any is_ink s
any-reverse [] = refl
any-reverse (c ∷ s) =
    let last : any is_ink (reverse s ++ (c ∷ []))
        ≡ (any is_ink (reverse s) || any is_ink (c ∷ [])) =
      any-append (reverse s) (c ∷ []) in
    ap (any is_ink) (reverse-cons c s) ∙ ground (arith, last, any-reverse s)

any-trim_start : (s : Text) → any is_ink (trim_start s) ≡ any is_ink s
any-trim_start [] = refl
any-trim_start (c ∷ s) = ground (arith, any-trim_start s)

is_empty-trim_start : (s : Text) → is_empty (trim_start s) ≡ not (any is_ink s)
is_empty-trim_start [] = refl
is_empty-trim_start (c ∷ s) = ground (arith, is_empty-trim_start s)

is_empty-snoc : (s : Text) (c : ℕ) → is_empty (s ++ (c ∷ [])) ≡ false
is_empty-snoc [] c = refl
is_empty-snoc (d ∷ s) c = refl

is_empty-reverse : (s : Text) → is_empty (reverse s) ≡ is_empty s
is_empty-reverse [] = refl
is_empty-reverse (c ∷ s) = ap is_empty (reverse-cons c s) ∙ is_empty-snoc (reverse s) c

is_empty-trim : (s : Text) → is_empty (trim s) ≡ not (any is_ink s)
is_empty-trim s =
    is_empty-reverse (trim_start (reverse (trim_start s)))
    ∙ is_empty-trim_start (reverse (trim_start s))
    ∙ ap not (any-reverse (trim_start s) ∙ any-trim_start s)

no_ink : (s : Text) → any is_ink s ≡ false → IsBlank s
no_ink [] h = tt
no_ink (c ∷ s) h = elim (Bool-cases (is_space c)) [
  | inl space ↦ (space, no_ink s (ground (arith, h, space)))
  | inr ink ↦ absurd (ground (arith, h, ink))
]

-- What is empty once trimmed was white space alone, and what is not was more.
pub trim-IsBlank : (s : Text) → is_empty (trim s) ≡ true → IsBlank s
trim-IsBlank s h = no_ink s (ground (arith, h, is_empty-trim s))

pub trim-HasInk : (s : Text) → is_empty (trim s) ≡ false → HasInk s
trim-HasInk s h = ground (arith, h, is_empty-trim s)
