-- ===== src/Money/Digits.antt =====
-- `BigInt(text)` reads back what `String(n)` writes, also behind zeros.
use native.Mathlib.Nat.{pow-suc, one-le-pow}
use mathlib.Core.Path.{subst}
use solodesk.Prelude.{
  ℕ, zero, suc, ◌+◌, ◌-◌, ◌*◌, ◌/◌, ◌%◌, ◌^◌, ◌≤◌, ◌<◌, ◌≡◌, refl, ◌∙◌, some, [], ◌∷◌, ◌++◌, arith,
  replicate, length, All, ltb, Bool-cases, inl, inr, ap, sym, true, false,
}
use solodesk.Prelude.Int.{pos}
use solodesk.Money.{Text, scan, big_int, digits, to_string}

abbrev pub IsDigit : ℕ → Type 0
IsDigit c = (b'0' ≤ c) × (c ≤ b'9')

-- The number that digits spell behind `acc`.
abbrev pub value : ℕ → Text → ℕ
value acc [] = acc
value acc (c ∷ s) = value (acc * 10 + (c - b'0')) s

pub scan-eq-value : (s : Text) (acc : ℕ) → All IsDigit s → scan acc s ≡ some (value acc s)
unfolding scan
scan-eq-value [] acc h = refl
scan-eq-value (c ∷ s) acc h = ground (arith, scan-eq-value s (acc * 10 + (c - b'0')) h.1)

pub big_int-eq-value :
    (c : ℕ) (s : Text) → All IsDigit (c ∷ s) → big_int (c ∷ s) ≡ some (pos (value 0 (c ∷ s)))
unfolding big_int
big_int-eq-value c s h = ground (arith, scan-eq-value (c ∷ s) 0 h)

pub value-append : (s t : Text) (acc : ℕ) → value acc (s ++ t) ≡ value (value acc s) t
value-append [] t acc = refl
value-append (c ∷ s) t acc = value-append s t (acc * 10 + (c - b'0'))

pub value-zeros : (k acc : ℕ) → value acc (replicate k b'0') ≡ acc * 10 ^ k
value-zeros zero acc = omega arith
value-zeros (suc k) acc = value-zeros k (acc * 10 + 0) ∙ rw pow-suc (omega arith)

pub zeros-IsDigit : (k : ℕ) → All IsDigit (replicate k b'0')
zeros-IsDigit zero = tt
zeros-IsDigit (suc k) = (omega arith, zeros-IsDigit k)

digits_small : (f n : ℕ) (out : Text) → ltb n 10 ≡ true → digits (suc f) n out ≡ (b'0' + n) ∷ out
unfolding digits
digits_small f n out h = ground arith

digits_large :
    (f n : ℕ) (out : Text)
    → ltb n 10 ≡ false
    → digits (suc f) n out ≡ digits f (n / 10) ((b'0' + n % 10) ∷ out)
unfolding digits
digits_large f n out h = ground arith

digits-value : (f n : ℕ) (out : Text) → n < f → value 0 (digits f n out) ≡ value n out
digits-value zero n out h = elim h [ ]
digits-value (suc f) n out h = elim (Bool-cases (ltb n 10)) [
  | inl small ↦
      ap (value 0) (digits_small f n out small) ∙ ap (λ (a : ℕ). value a out) (omega arith)
  | inr large ↦
      ap (value 0) (digits_large f n out large)
      ∙ digits-value f (n / 10) ((b'0' + n % 10) ∷ out) (ground arith)
      ∙ ap (λ (a : ℕ). value a out) (omega arith)
]

digits-IsDigit : (f n : ℕ) (out : Text) → All IsDigit out → All IsDigit (digits f n out)
unfolding digits
digits-IsDigit zero n out hs = hs
digits-IsDigit (suc f) n out hs = elim (Bool-cases (ltb n 10)) [
  | inl small ↦ subst (All IsDigit) (sym (digits_small f n out small)) (ground arith, hs)
  | inr large ↦
      subst (All IsDigit) (sym (digits_large f n out large))
        (digits-IsDigit f (n / 10) ((b'0' + n % 10) ∷ out) (omega arith, hs))
]

pub value-to_string : (n : ℕ) → value 0 (to_string n) ≡ n
unfolding to_string
value-to_string n = digits-value (suc n) n [] (omega arith)

pub to_string-IsDigit : (n : ℕ) → All IsDigit (to_string n)
unfolding to_string
to_string-IsDigit n = digits-IsDigit (suc n) n [] tt

-- A number below 10 ^ (k + 1) has at most k + 1 digits.
digits-short :
    (f n : ℕ) (out : Text) (k : ℕ)
    → n < f
    → n < 10 ^ suc k
    → length (digits f n out) ≤ suc k + length out
digits-short zero n out k h b = elim h [ ]
digits-short (suc f) n out zero h b = elim (Bool-cases (ltb n 10)) [
  | inl small ↦ rw (digits_small f n out small) (omega arith)
  | inr large ↦ absurd (ground arith)
]
digits-short (suc f) n out (suc k) h b = elim (Bool-cases (ltb n 10)) [
  | inl small ↦ rw (digits_small f n out small) (omega arith)
  | inr large ↦ rw (digits_large f n out large) (
      omega (
        arith,
        digits-short f (n / 10) ((b'0' + n % 10) ∷ out) k (ground arith)
            (let e : n < 10 ^ suc k * 10 = (rw pow-suc at b) in omega arith),
      ))
]

-- A number from 10 ^ k on has more than k digits.
digits-long :
    (f n : ℕ) (out : Text) (k : ℕ)
    → n < f
    → 10 ^ k ≤ n
    → suc k + length out ≤ length (digits f n out)
digits-long zero n out k h b = elim h [ ]
digits-long (suc f) n out zero h b = elim (Bool-cases (ltb n 10)) [
  | inl small ↦ rw (digits_small f n out small) (omega arith)
  | inr large ↦ rw (digits_large f n out large) (
      omega
        (arith, digits-long f (n / 10) ((b'0' + n % 10) ∷ out) zero (ground arith) (ground arith)))
]
digits-long (suc f) n out (suc k) h b = elim (Bool-cases (ltb n 10)) [
  | inl small ↦ absurd (
      let e : 10 ^ k * 10 ≤ n = (rw pow-suc at b) in
      ground (arith, one-le-pow k 10 (omega arith), e))
  | inr large ↦ rw (digits_large f n out large) (
      omega (
        arith,
        digits-long f (n / 10) ((b'0' + n % 10) ∷ out) k (ground arith)
            (let e : 10 ^ k * 10 ≤ n = (rw pow-suc at b) in omega arith),
      ))
]

-- `String(n)` has exactly the digits that n needs.
pub length-to_string : (n k : ℕ) → 10 ^ k ≤ n → n < 10 ^ suc k → length (to_string n) ≡ suc k
unfolding to_string
length-to_string n k lo hi = omega (
  arith,
  digits-short (suc n) n [] k (omega arith) hi,
  digits-long (suc n) n [] k (omega arith) lo,
)

pub length-to_string-le : (n k : ℕ) → n < 10 ^ suc k → length (to_string n) ≤ suc k
unfolding to_string
length-to_string-le n k hi = omega (arith, digits-short (suc n) n [] k (omega arith) hi)
