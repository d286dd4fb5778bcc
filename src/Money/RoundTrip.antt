-- ===== src/Money/RoundTrip.antt =====
-- `toBigIntScaled` reads back what `fromBigIntScaled` writes, at its own scale and at any wider one.
use mathlib.Core.Option
use mathlib.Core.List.{append_assoc}
use solodesk.Prelude.{
  ℕ, zero, suc, ◌+◌, ◌-◌, ◌*◌, ◌^◌, ◌≤◌, ◌<◌, ◌≡◌, refl, ◌≢◌, ◌∙◌, sym, ap, false, some, [], ◌∷◌,
  ◌++◌, arith, ltb, ◌==◌, if◌then◌else◌, length, replicate, take, drop, All, All-append,
  take-append-drop, length-append, length-drop, length-replicate,
}
use solodesk.Prelude.Int.{ℤ, pos, negsuc, ◌*ℤ◌, neg, *ℤ-pos, *ℤ-negsuc}
use solodesk.Money.{
  Text, big_int, to_string, until_dot, fraction, starts_minus, or_zero, pad_start, unsigned_scaled,
  to_big_int_scaled, point, print_scaled, from_big_int_scaled,
}
use solodesk.Money.Digits.{
  IsDigit, value, big_int-eq-value, value-append, value-zeros, zeros-IsDigit, value-to_string,
  to_string-IsDigit,
}

until_dot-digits : (s : Text) → All IsDigit s → until_dot s ≡ s
until_dot-digits [] h = refl
until_dot-digits (c ∷ s) h = ground (arith, until_dot-digits s h.1)

fraction-digits : (s : Text) → All IsDigit s → fraction s ≡ []
fraction-digits [] h = refl
fraction-digits (c ∷ s) h = ground (arith, fraction-digits s h.1)

until_dot-point : (w f : Text) → All IsDigit w → until_dot (w ++ point f) ≡ w
until_dot-point [] [] h = refl
until_dot-point [] (c ∷ f) h = refl
until_dot-point (c ∷ w) f h = ground (arith, until_dot-point w f h.1)

fraction-point : (w f : Text) → All IsDigit w → All IsDigit f → fraction (w ++ point f) ≡ f
fraction-point [] [] h k = refl
fraction-point [] (c ∷ f) h k = until_dot-digits (c ∷ f) k
fraction-point (c ∷ w) f h k = ground (arith, fraction-point w f h.1 k)

add_sub : (n k : ℕ) → n + k - n ≡ k
add_sub n k = omega arith

not_short : (n k : ℕ) → ltb (n + k) n ≡ false
not_short n k = ground arith

unsigned_scaled_parts :
    (s : Text) (c : ℕ) (w f : Text) (k : ℕ)
    → until_dot s ≡ c ∷ w
    → fraction s ≡ f
    → unsigned_scaled s (length f + k) ≡ big_int ((c ∷ w) ++ (f ++ replicate k b'0'))
unfolding unsigned_scaled
unsigned_scaled_parts s c w f k whole frac = rw (whole, frac, not_short, add_sub)

digits_text-value :
    (c : ℕ) (w f : Text) (k : ℕ)
    → All IsDigit (c ∷ w)
    → All IsDigit f
    → big_int ((c ∷ w) ++ (f ++ replicate k b'0')) ≡ some (pos (value 0 ((c ∷ w) ++ f) * 10 ^ k))
digits_text-value c w f k hw hf =
    big_int-eq-value c (w ++ (f ++ replicate k b'0')) (
      All-append IsDigit (c ∷ w) (f ++ replicate k b'0') hw
        (All-append IsDigit f (replicate k b'0') hf (zeros-IsDigit k)))
    ∙ ap (λ (n : ℕ). some (pos n))
        (ap (value 0) (sym (append_assoc (c ∷ w) f (replicate k b'0')))
          ∙ value-append ((c ∷ w) ++ f) (replicate k b'0') 0
          ∙ value-zeros k (value 0 ((c ∷ w) ++ f)))

-- A text of digits with a point is read as all its digits, and zeros up to the scale.
unsigned_scaled-point :
    (c : ℕ) (w f : Text) (k : ℕ)
    → All IsDigit (c ∷ w)
    → All IsDigit f
    → unsigned_scaled ((c ∷ w) ++ point f) (length f + k)
      ≡ some (pos (value 0 ((c ∷ w) ++ f) * 10 ^ k))
unsigned_scaled-point c w f k hw hf =
    unsigned_scaled_parts ((c ∷ w) ++ point f) c w f k (until_dot-point (c ∷ w) f hw)
      (fraction-point (c ∷ w) f hw hf)
    ∙ digits_text-value c w f k hw hf

-- The parts of a printed number: its digits, cut `scale` places from the end.
padded : ℕ → ℕ → Text
padded n scale = pad_start (scale + 1) (to_string n)

padded-IsDigit : (n scale : ℕ) → All IsDigit (padded n scale)
unfolding padded
padded-IsDigit n scale =
    All-append IsDigit (replicate (scale + 1 - length (to_string n)) b'0') (to_string n)
      (zeros-IsDigit _) (to_string-IsDigit n)

value-padded : (n scale : ℕ) → value 0 (padded n scale) ≡ n
unfolding padded
value-padded n scale =
    value-append (replicate (scale + 1 - length (to_string n)) b'0') (to_string n) 0
    ∙ ap (λ (a : ℕ). value a (to_string n))
        (value-zeros (scale + 1 - length (to_string n)) 0 ∙ omega arith)
    ∙ value-to_string n

length-padded : (n scale : ℕ) → scale < length (padded n scale)
unfolding padded
length-padded n scale = omega (
  arith,
  length-append (replicate (scale + 1 - length (to_string n)) b'0') (to_string n),
  length-replicate {A = ℕ} (scale + 1 - length (to_string n)) b'0',
)

All-take : (n : ℕ) (s : Text) → All IsDigit s → All IsDigit (take n s)
All-take zero s h = tt
All-take (suc n) [] h = tt
All-take (suc n) (c ∷ s) h = (h.0, All-take n s h.1)

All-drop : (n : ℕ) (s : Text) → All IsDigit s → All IsDigit (drop n s)
All-drop zero s h = h
All-drop (suc n) [] h = tt
All-drop (suc n) (c ∷ s) h = All-drop n s h.1

-- What a printed magnitude looks like.
pub record IsPrinted (n scale : ℕ) (s : Text) : Type 0 where
  pub first : ℕ
  pub whole : Text
  pub frac : Text
  pub text : s ≡ (first ∷ whole) ++ point frac
  pub whole_digits : All IsDigit (first ∷ whole)
  pub frac_digits : All IsDigit frac
  pub places : length frac ≡ scale
  pub spells : value 0 ((first ∷ whole) ++ frac) ≡ n

cut-IsPrinted :
    (n scale : ℕ) (w f s : Text)
    → s ≡ or_zero w ++ point f
    → w ≢ []
    → All IsDigit w
    → All IsDigit f
    → length f ≡ scale
    → value 0 (w ++ f) ≡ n
    → IsPrinted n scale s
cut-IsPrinted n scale [] f s e ne hw hf l v = absurd (ne refl)
cut-IsPrinted n scale (c ∷ w) f s e ne hw hf l v = record {
  first = c;
  whole = w;
  frac = f;
  text = e;
  whole_digits = hw;
  frac_digits = hf;
  places = l;
  spells = v;
}

take-ne-nil : (n : ℕ) (s : Text) → 0 < n → n ≤ length s → take n s ≢ []
take-ne-nil zero s h k = elim h [ ]
take-ne-nil (suc n) [] h k = elim k [ ]
take-ne-nil (suc n) (c ∷ s) h k = cc

drop-length : (s : Text) → drop (length s) s ≡ []
drop-length [] = refl
drop-length (c ∷ s) = drop-length s

fraction_part :
    (scale : ℕ) (s : Text)
    → (if ltb 0 scale then drop (length s - scale) s else []) ≡ drop (length s - scale) s
fraction_part zero s = sym (ap (λ (n : ℕ). drop n s) (omega arith) ∙ drop-length s)
fraction_part (suc k) s = ground arith

print_scaled-IsPrinted : (n scale : ℕ) → IsPrinted n scale (print_scaled n scale)
unfolding print_scaled padded
print_scaled-IsPrinted n scale =
    let ds = padded n scale in
    let cut = length ds - scale in
    cut-IsPrinted n scale (take cut ds) (drop cut ds) (print_scaled n scale)
      (ap (λ (f : Text). or_zero (take cut ds) ++ point f) (fraction_part scale ds))
      (take-ne-nil cut ds (omega (arith, length-padded n scale)) (omega arith))
      (All-take cut ds (padded-IsDigit n scale)) (All-drop cut ds (padded-IsDigit n scale))
      (omega (arith, length-drop cut ds, length-padded n scale))
      (ap (value 0) (take-append-drop cut ds) ∙ value-padded n scale)

unsigned_scaled-print_scaled :
    (n scale k : ℕ) → unsigned_scaled (print_scaled n scale) (scale + k) ≡ some (pos (n * 10 ^ k))
unsigned_scaled-print_scaled n scale k =
    let p = print_scaled-IsPrinted n scale in
    ap (λ (s : Text). unsigned_scaled s (scale + k)) p.text
    ∙ ap (λ (l : ℕ). unsigned_scaled ((p.first ∷ p.whole) ++ point p.frac) (l + k)) (sym p.places)
    ∙ unsigned_scaled-point p.first p.whole p.frac k p.whole_digits p.frac_digits
    ∙ ap (λ (m : ℕ). some (pos (m * 10 ^ k))) p.spells

print_scaled-starts_minus : (n scale : ℕ) → starts_minus (print_scaled n scale) ≡ false
print_scaled-starts_minus n scale =
    let p = print_scaled-IsPrinted n scale in
    ap starts_minus p.text ∙ (not_minus p.first p.whole_digits.0)
  where
    not_minus : (c : ℕ) → IsDigit c → (c == b'-') ≡ false
    not_minus c h = ground arith

fraction-print_scaled : (n scale : ℕ) → length (fraction (print_scaled n scale)) ≡ scale
fraction-print_scaled n scale =
    let p = print_scaled-IsPrinted n scale in
    ap (λ (s : Text). length (fraction s)) p.text
    ∙ ap length (fraction-point (p.first ∷ p.whole) p.frac p.whole_digits p.frac_digits)
    ∙ p.places

from_big_int_scaled-pos : (n scale : ℕ) → from_big_int_scaled (pos n) scale ≡ print_scaled n scale
unfolding from_big_int_scaled
from_big_int_scaled-pos n scale = ground arith

from_big_int_scaled-negsuc :
    (n scale : ℕ) → from_big_int_scaled (negsuc n) scale ≡ b'-' ∷ print_scaled (suc n) scale
unfolding from_big_int_scaled
from_big_int_scaled-negsuc n scale = ground arith

to_big_int_scaled_plain :
    (s : Text) (scale : ℕ)
    → starts_minus s ≡ false
    → to_big_int_scaled s scale ≡ unsigned_scaled s scale
unfolding to_big_int_scaled
to_big_int_scaled_plain s scale e = rw e

to_big_int_scaled_minus :
    (s : Text) (scale : ℕ)
    → to_big_int_scaled (b'-' ∷ s) scale ≡ Option.map neg (unsigned_scaled s scale)
unfolding to_big_int_scaled
to_big_int_scaled_minus s scale = refl

-- What is printed at a scale is read back at any scale that is at least as wide, as the same
-- number of the narrower scale times the power of ten between them.
pub to_big_int_scaled-from_big_int_scaled :
    (v : ℤ) (scale k : ℕ)
    → to_big_int_scaled (from_big_int_scaled v scale) (scale + k) ≡ some (v *ℤ pos (10 ^ k))
to_big_int_scaled-from_big_int_scaled (pos n) scale k =
    rw (from_big_int_scaled-pos, *ℤ-pos)
      (to_big_int_scaled_plain (print_scaled n scale) (scale + k)
          (print_scaled-starts_minus n scale)
        ∙ unsigned_scaled-print_scaled n scale k)
to_big_int_scaled-from_big_int_scaled (negsuc n) scale k =
    rw (from_big_int_scaled-negsuc, *ℤ-negsuc)
      (to_big_int_scaled_minus (print_scaled (suc n) scale) (scale + k)
        ∙ ap (Option.map neg) (unsigned_scaled-print_scaled (suc n) scale k))

pub length-fraction-from_big_int_scaled :
    (v : ℤ) (scale : ℕ) → length (fraction (from_big_int_scaled v scale)) ≡ scale
length-fraction-from_big_int_scaled (pos n) scale =
    rw from_big_int_scaled-pos (fraction-print_scaled n scale)
length-fraction-from_big_int_scaled (negsuc n) scale =
    rw from_big_int_scaled-negsuc (fraction-print_scaled (suc n) scale)

one_times : (v : ℤ) → v *ℤ pos 1 ≡ v
unfolding ◌*ℤ◌
one_times v = ground arith

-- At its own scale a printed amount is read back as itself.
pub read_back : (v : ℤ) (scale : ℕ) → to_big_int_scaled (from_big_int_scaled v scale) scale ≡ some v
read_back v scale =
    ap (to_big_int_scaled (from_big_int_scaled v scale)) (omega arith)
    ∙ to_big_int_scaled-from_big_int_scaled v scale 0
    ∙ ap some (one_times v)
