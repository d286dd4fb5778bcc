-- ===== src/Money.antt =====
-- services/backend-api/src/platform/money.ts: exact decimal arithmetic on strings by `BigInt`.
-- A string is the list of its code points. `BigInt(text)` is written out for an optional sign and
-- decimal digits; its hexadecimal, octal and binary prefixes and its trimming of white space are
-- left out. A `throw`, ours or `BigInt`'s SyntaxError, is `none`.
pub mod Digits
pub mod RoundTrip
pub mod Rounding
pub mod Arithmetic
mod Tests
use mathlib.Core.Option
use solodesk.Prelude.{
  ℕ, zero, suc, ◌+◌, ◌-◌, ◌*◌, ◌/◌, ◌%◌, ◌^◌, Bool, true, false, ◌&&◌, Option, none, some, List, [],
  ◌∷◌, ◌++◌, ltb, leb, ◌==◌, if◌then◌else◌, length, replicate, take, drop,
}
use solodesk.Prelude.Int.{ℤ, pos, ◌+ℤ◌, ◌-ℤ◌, ◌*ℤ◌, neg, abs, ltb_ℤ}

abbrev pub Text : Type 0
Text = List ℕ

abbrev pub is_digit : ℕ → Bool
is_digit c = leb b'0' c && leb c b'9'

-- The digits of `BigInt(text)`.
pub scan : ℕ → Text → Option ℕ
scan acc [] = some acc
scan acc (c ∷ s) = if is_digit c then scan (acc * 10 + (c - b'0')) s else none

abbrev pub natural : Text → Option ℕ
natural [] = none
natural (c ∷ s) = scan 0 (c ∷ s)

-- `BigInt(text)`
pub big_int : Text → Option ℤ
big_int [] = some (pos 0)
big_int (c ∷ s) =
    if c == b'-'
    then Option.map (λ n. neg (pos n)) (natural s)
    else if c == b'+'
    then Option.map pos (natural s)
    else Option.map pos (natural (c ∷ s))

-- `String(n)` of a bigint that is not negative; the fuel is above the number of digits.
pub digits : ℕ → ℕ → Text → Text
digits zero n out = out
digits (suc f) n out = elim (ltb n 10) [
  | true ↦ (b'0' + n) ∷ out
  | false ↦ digits f (n / 10) ((b'0' + n % 10) ∷ out)
]

pub to_string : ℕ → Text
to_string n = digits (suc n) n []

-- `text.split('.')[0]`
abbrev pub until_dot : Text → Text
until_dot [] = []
until_dot (c ∷ s) = if c == b'.' then [] else c ∷ until_dot s

-- `text.split('.')[1] ?? ''`
abbrev pub fraction : Text → Text
fraction [] = []
fraction (c ∷ s) = if c == b'.' then until_dot s else fraction s

abbrev pub starts_minus : Text → Bool
starts_minus [] = false
starts_minus (c ∷ s) = c == b'-'

-- `text || '0'`
abbrev pub or_zero : Text → Text
or_zero [] = b'0' ∷ []
or_zero (c ∷ s) = c ∷ s

abbrev pub pad_end : ℕ → Text → Text
pad_end n s = s ++ replicate (n - length s) b'0'

abbrev pub pad_start : ℕ → Text → Text
pad_start n s = replicate (n - length s) b'0' ++ s

-- `toBigIntScaled` behind its sign.
pub unsigned_scaled : Text → ℕ → Option ℤ
unsigned_scaled s scale =
    if ltb scale (length (fraction s))
    then none
    else big_int (or_zero (until_dot s) ++ pad_end scale (fraction s))

pub to_big_int_scaled : Text → ℕ → Option ℤ
to_big_int_scaled s scale =
    if starts_minus s
    then Option.map neg (unsigned_scaled (drop 1 s) scale)
    else unsigned_scaled s scale

-- `frac ? `.${frac}` : ''`
abbrev pub point : Text → Text
point [] = []
point (c ∷ s) = b'.' ∷ c ∷ s

-- `fromBigIntScaled` behind its sign.
pub print_scaled : ℕ → ℕ → Text
print_scaled n scale =
    let ds = pad_start (scale + 1) (to_string n) in
    or_zero (take (length ds - scale) ds)
    ++ point (if ltb 0 scale then drop (length ds - scale) ds else [])

pub from_big_int_scaled : ℤ → ℕ → Text
from_big_int_scaled v scale =
    (if ltb_ℤ v (pos 0) then b'-' ∷ [] else []) ++ print_scaled (abs v) scale

unfoldable pub rescale : ℤ → ℕ → ℕ → ℤ
rescale v from_scale to_scale =
    if leb from_scale to_scale
    then v *ℤ pos (10 ^ (to_scale - from_scale))
    else let divisor = 10 ^ (from_scale - to_scale) in
      let rounded = (abs v + divisor / 2) / divisor in
      if ltb_ℤ v (pos 0) then neg (pos rounded) else pos rounded

infixl 5 ◌>>=◌
abbrev ◌>>=◌ : {A B : Type 0} → Option A → (A → Option B) → Option B
none >>= f = none
some a >>= f = f a

pub multiply_money : Text → Text → ℕ → Option Text
multiply_money a b result_scale = do
  let a_scale = length (fraction a)
  let b_scale = length (fraction b)
  x ← to_big_int_scaled a a_scale
  y ← to_big_int_scaled b b_scale
  some (from_big_int_scaled (rescale (x *ℤ y) (a_scale + b_scale) result_scale) result_scale)

pub add_money : Text → Text → ℕ → Option Text
add_money a b scale = do
  x ← to_big_int_scaled a scale
  y ← to_big_int_scaled b scale
  some (from_big_int_scaled (x +ℤ y) scale)

pub subtract_money : Text → Text → ℕ → Option Text
subtract_money a b scale = do
  x ← to_big_int_scaled a scale
  y ← to_big_int_scaled b scale
  some (from_big_int_scaled (x -ℤ y) scale)

-- The `reduce` of `sumMoney`.
pub sum_scaled : ℤ → List Text → ℕ → Option ℤ
sum_scaled acc [] scale = some acc
sum_scaled acc (a ∷ rest) scale = do x ← to_big_int_scaled a scale; sum_scaled (acc +ℤ x) rest scale

pub sum_money : List Text → ℕ → Option Text
sum_money amounts scale = do
  total ← sum_scaled (pos 0) amounts scale
  some (from_big_int_scaled total scale)

-- The sign of a difference, as `compareMoney` returns it.
abbrev pub sign : ℤ → ℤ
sign d = if ltb_ℤ (pos 0) d then pos 1 else if ltb_ℤ d (pos 0) then neg (pos 1) else pos 0

pub compare_money : Text → Text → ℕ → Option ℤ
compare_money a b scale = do
  x ← to_big_int_scaled a scale
  y ← to_big_int_scaled b scale
  some (sign (x -ℤ y))
