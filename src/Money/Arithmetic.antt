-- ===== src/Money/Arithmetic.antt =====
-- On printed amounts the functions of money.ts compute what the integers compute.
use solodesk.Prelude.{ℕ, ◌+◌, ◌≡◌, refl, some, List, [], ◌∷◌}
use solodesk.Prelude.Int.{ℤ, pos, ◌+ℤ◌, ◌-ℤ◌, ◌*ℤ◌}
use solodesk.Money.{
  Text, from_big_int_scaled, rescale, multiply_money, add_money, subtract_money, sum_scaled,
  sum_money, sign, compare_money,
}
use solodesk.Money.RoundTrip.{read_back, length-fraction-from_big_int_scaled}

abbrev pub sum : ℤ → List ℤ → ℤ
sum acc [] = acc
sum acc (v ∷ vs) = sum (acc +ℤ v) vs

add_money-from_big_int_scaled :
    (a b : ℤ) (scale : ℕ)
    → add_money (from_big_int_scaled a scale) (from_big_int_scaled b scale) scale
      ≡ some (from_big_int_scaled (a +ℤ b) scale)
unfolding add_money
add_money-from_big_int_scaled a b scale = rw (read_back a scale, read_back b scale)

subtract_money-from_big_int_scaled :
    (a b : ℤ) (scale : ℕ)
    → subtract_money (from_big_int_scaled a scale) (from_big_int_scaled b scale) scale
      ≡ some (from_big_int_scaled (a -ℤ b) scale)
unfolding subtract_money
subtract_money-from_big_int_scaled a b scale = rw (read_back a scale, read_back b scale)

compare_money-from_big_int_scaled :
    (a b : ℤ) (scale : ℕ)
    → compare_money (from_big_int_scaled a scale) (from_big_int_scaled b scale) scale
      ≡ some (sign (a -ℤ b))
unfolding compare_money
compare_money-from_big_int_scaled a b scale = rw (read_back a scale, read_back b scale)

abbrev pub printed : ℕ → List ℤ → List Text
printed scale [] = []
printed scale (v ∷ vs) = from_big_int_scaled v scale ∷ printed scale vs

sum_scaled-printed :
    (acc : ℤ) (vs : List ℤ) (scale : ℕ)
    → sum_scaled acc (printed scale vs) scale ≡ some (sum acc vs)
unfolding sum_scaled
sum_scaled-printed acc [] scale = refl
sum_scaled-printed acc (v ∷ vs) scale =
    rw (read_back v scale) (sum_scaled-printed (acc +ℤ v) vs scale)

sum_money-printed :
    (vs : List ℤ) (scale : ℕ)
    → sum_money (printed scale vs) scale ≡ some (from_big_int_scaled (sum (pos 0) vs) scale)
unfolding sum_money
sum_money-printed vs scale = rw (sum_scaled-printed (pos 0) vs scale)

-- On amounts that `fromBigIntScaled` printed at one scale, no function of the file throws, and
-- adding, subtracting, summing and comparing the texts is adding, subtracting, summing and
-- comparing the integers that they stand for.
pub money_arithmetic :
    (a b : ℤ) (vs : List ℤ) (scale : ℕ)
    → (add_money (from_big_int_scaled a scale) (from_big_int_scaled b scale) scale
        ≡ some (from_big_int_scaled (a +ℤ b) scale))
      × (subtract_money (from_big_int_scaled a scale) (from_big_int_scaled b scale) scale
          ≡ some (from_big_int_scaled (a -ℤ b) scale))
      × (sum_money (printed scale vs) scale ≡ some (from_big_int_scaled (sum (pos 0) vs) scale))
      × (compare_money (from_big_int_scaled a scale) (from_big_int_scaled b scale) scale
          ≡ some (sign (a -ℤ b)))
money_arithmetic a b vs scale = (
  add_money-from_big_int_scaled a b scale,
  subtract_money-from_big_int_scaled a b scale,
  sum_money-printed vs scale,
  compare_money-from_big_int_scaled a b scale,
)

-- The product of two printed amounts, of any two scales, is their exact product rounded once to
-- the scale of the result.
pub multiply_money-from_big_int_scaled :
    (a b : ℤ) (s t r : ℕ)
    → multiply_money (from_big_int_scaled a s) (from_big_int_scaled b t) r
      ≡ some (from_big_int_scaled (rescale (a *ℤ b) (s + t) r) r)
unfolding multiply_money
multiply_money-from_big_int_scaled a b s t r = rw (
  length-fraction-from_big_int_scaled a s,
  length-fraction-from_big_int_scaled b t,
  read_back a s,
  read_back b t,
)
