-- ===== src/Money/Tests.antt =====
-- Runs of money.ts on texts, and instances of its theorems.
use solodesk.Prelude.{ℕ, ◌+◌, ◌-◌, ◌*◌, ◌^◌, ◌≤◌, ◌<◌, ◌≡◌, refl, some, none, [], ◌∷◌, arith}
use solodesk.Prelude.Int.{pos, negsuc, ◌+ℤ◌, ◌-ℤ◌, ◌*ℤ◌, neg}
use solodesk.Money.{
  Text, to_big_int_scaled, from_big_int_scaled, rescale, multiply_money, add_money, subtract_money,
  sum_money, compare_money, sign, big_int, scan, digits, to_string, unsigned_scaled, print_scaled,
}
use solodesk.Money.RoundTrip.{to_big_int_scaled-from_big_int_scaled}
use solodesk.Money.Rounding.{rescale_nearest, rescale_zeros}
use solodesk.Money.Arithmetic.{money_arithmetic, multiply_money-from_big_int_scaled, printed, sum}
use Prim.Native.String.{String}
use Prim.Native.Char.{code}

abbrev codes : String → Text
codes String.[] = []
codes (String.◌∷◌ c s) = code c ∷ codes s

multiply_runs :
    (multiply_money (codes "19.99") (codes "1.5") 2 ≡ some (codes "29.99"))
    × (multiply_money (codes "-0.05") (codes "0.5") 2 ≡ some (codes "-0.03"))
    × (add_money (codes "1") (codes "2.345") 2 ≡ none)
    × (add_money (codes "-1.5") (codes ".25") 2 ≡ some (codes "-1.25"))
unfolding multiply_money add_money to_big_int_scaled from_big_int_scaled unsigned_scaled
    print_scaled big_int scan digits to_string rescale ◌*ℤ◌ ◌+ℤ◌ ◌-ℤ◌
multiply_runs = (refl, refl, refl, refl)

to_big_int_scaled-from_big_int_scaled_example :
    to_big_int_scaled (from_big_int_scaled (negsuc 149) 2) (2 + 1)
    ≡ some (negsuc 149 *ℤ pos (10 ^ 1))
to_big_int_scaled-from_big_int_scaled_example =
    to_big_int_scaled-from_big_int_scaled (negsuc 149) 2 1

rescale_nearest_example :
    (r : ℕ) × (rescale (pos 2998500) 5 2 ≡ pos r)
    × (rescale (neg (pos 2998500)) 5 2 ≡ neg (pos r))
    × (2 * (r * 10 ^ (5 - 2)) ≤ 2 * 2998500 + 10 ^ (5 - 2))
    × (2 * 2998500 < 2 * (r * 10 ^ (5 - 2)) + 10 ^ (5 - 2))
rescale_nearest_example = rescale_nearest 2998500 5 2 (omega arith)

rescale_zeros_example : rescale (pos (125 * 10 ^ 2)) (3 + 2) 2 ≡ rescale (pos 125) 3 2
rescale_zeros_example = rescale_zeros 125 3 2 2 (omega arith)

money_arithmetic_example :
    (add_money (from_big_int_scaled (pos 150) 2) (from_big_int_scaled (negsuc 24) 2) 2
      ≡ some (from_big_int_scaled (pos 150 +ℤ negsuc 24) 2))
    × (subtract_money (from_big_int_scaled (pos 150) 2) (from_big_int_scaled (negsuc 24) 2) 2
        ≡ some (from_big_int_scaled (pos 150 -ℤ negsuc 24) 2))
    × (sum_money (printed 2 (pos 5 ∷ [])) 2
        ≡ some (from_big_int_scaled (sum (pos 0) (pos 5 ∷ [])) 2))
    × (compare_money (from_big_int_scaled (pos 150) 2) (from_big_int_scaled (negsuc 24) 2) 2
        ≡ some (sign (pos 150 -ℤ negsuc 24)))
money_arithmetic_example = money_arithmetic (pos 150) (negsuc 24) (pos 5 ∷ []) 2

multiply_money-from_big_int_scaled_example :
    multiply_money (from_big_int_scaled (pos 1999) 2) (from_big_int_scaled (pos 1500) 3) 2
    ≡ some (from_big_int_scaled (rescale (pos 1999 *ℤ pos 1500) (2 + 3) 2) 2)
multiply_money-from_big_int_scaled_example =
    multiply_money-from_big_int_scaled (pos 1999) (pos 1500) 2 3 2
