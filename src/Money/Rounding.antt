-- ===== src/Money/Rounding.antt =====
-- `rescale` rounds to the nearest, halves away from zero, and only the value matters to it.
use native.Mathlib.Nat.{
  one-le-pow, pow-zero, pow-suc, div-add-mod', mod-lt, mul-div-mul_right, div-eq_of_lt,
}
use solodesk.Prelude.{
  ℕ, zero, suc, ◌+◌, ◌-◌, ◌*◌, ◌/◌, ◌^◌, ◌≤◌, ◌<◌, ◌≡◌, arith, ◌∙◌, ap, sym, refl,
}
use solodesk.Prelude.Int.{ℤ, pos, negsuc, ◌-ℤ◌, neg}
use solodesk.Money.{rescale}

half_up :
    (a d : ℕ)
    → 0 < d
    → (2 * ((a + d / 2) / d * d) ≤ 2 * a + d) × (2 * a < 2 * ((a + d / 2) / d * d) + d)
half_up a d h = omega (arith, div-add-mod' (a + d / 2) d, mod-lt (a + d / 2) h)

pub ten_pow_pos : (k : ℕ) → 0 < 10 ^ k
ten_pow_pos k = one-le-pow k 10 (omega arith)

rescale-pos :
    (n f t : ℕ) → t < f → rescale (pos n) f t ≡ pos ((n + 10 ^ (f - t) / 2) / 10 ^ (f - t))
unfolding rescale ◌-ℤ◌
rescale-pos n f t h = ground arith

rescale-negsuc :
    (n f t : ℕ)
    → t < f
    → rescale (negsuc n) f t ≡ neg (pos ((suc n + 10 ^ (f - t) / 2) / 10 ^ (f - t)))
unfolding rescale ◌-ℤ◌
rescale-negsuc n f t h = ground arith

neg-suc : (n : ℕ) → neg (pos (suc n)) ≡ negsuc n
unfolding ◌-ℤ◌
neg-suc n = ground arith

neg-zero : neg (pos 0) ≡ pos 0
unfolding ◌-ℤ◌
neg-zero = refl

half_quotient_zero : (d : ℕ) → 0 < d → (0 + d / 2) / d ≡ 0
half_quotient_zero d h = div-eq_of_lt (omega arith)

rescale-neg-pos :
    (n f t : ℕ)
    → t < f
    → rescale (neg (pos n)) f t ≡ neg (pos ((n + 10 ^ (f - t) / 2) / 10 ^ (f - t)))
rescale-neg-pos zero f t h =
    let none_left = half_quotient_zero (10 ^ (f - t)) (ten_pow_pos (f - t)) in
    rw neg-zero (
      rescale-pos 0 f t h
      ∙ ap pos none_left
      ∙ sym neg-zero
      ∙ sym (ap (λ (q : ℕ). neg (pos q)) none_left))
rescale-neg-pos (suc n) f t h = ap (λ (v : ℤ). rescale v f t) (neg-suc n) ∙ rescale-negsuc n f t h

-- Towards fewer digits, `rescale` gives a nearest multiple of the coarser unit, a tie is rounded
-- away from zero, and a negative number is rounded as its positive counterpart.
pub rescale_nearest :
    (n f t : ℕ)
    → t < f
    → (r : ℕ) × (rescale (pos n) f t ≡ pos r)
      × (rescale (neg (pos n)) f t ≡ neg (pos r))
      × (2 * (r * 10 ^ (f - t)) ≤ 2 * n + 10 ^ (f - t))
      × (2 * n < 2 * (r * 10 ^ (f - t)) + 10 ^ (f - t))
rescale_nearest n f t h =
    let bounds = half_up n (10 ^ (f - t)) (ten_pow_pos (f - t)) in
    (
      (n + 10 ^ (f - t) / 2) / 10 ^ (f - t),
      rescale-pos n f t h,
      rescale-neg-pos n f t h,
      bounds.0,
      bounds.1,
    )

pow-add : (b m k : ℕ) → b ^ (m + k) ≡ b ^ m * b ^ k
pow-add b zero k =
    let e : zero + k ≡ k = omega arith in ap (λ (n : ℕ). b ^ n) e ∙ rw pow-zero (omega arith)
pow-add b (suc m) k =
    let e : suc m + k ≡ suc (m + k) = omega arith in
    ap (λ (n : ℕ). b ^ n) e ∙ pow-suc b (m + k) ∙ rw (pow-add b m k, pow-suc b m) (omega arith)

half_of : (x y : ℕ) → y ≡ 2 * x → y / 2 ≡ x
half_of x y e = omega arith

-- Scaling the dividend and an even divisor alike does not change the rounded quotient.
half_up-mul :
    (a h m : ℕ) → 0 < m → (a * m + (2 * h * m) / 2) / (2 * h * m) ≡ (a + (2 * h) / 2) / (2 * h)
half_up-mul a h m p =
    let halves : a * m + (2 * h * m) / 2 ≡ (a + (2 * h) / 2) * m =
      rw (half_of (h * m) (2 * h * m) (omega arith), half_of h (2 * h) (omega arith))
        (omega arith) in
    ap (λ (x : ℕ). x / (2 * h * m)) halves ∙ mul-div-mul_right (a + (2 * h) / 2) (2 * h) p

ten_pow_even : (k : ℕ) → 10 ^ suc k ≡ 2 * (5 * 10 ^ k)
ten_pow_even k = pow-suc 10 k ∙ omega arith

half_up_pow :
    (a d k : ℕ)
    → (a * 10 ^ k + 10 ^ (suc d + k) / 2) / 10 ^ (suc d + k) ≡ (a + 10 ^ suc d / 2) / 10 ^ suc d
half_up_pow a d k =
    rw (pow-add 10 (suc d) k, ten_pow_even d) (half_up-mul a (5 * 10 ^ d) (10 ^ k) (ten_pow_pos k))

-- Trailing zeros do not matter: a number written with `k` more decimal digits is rounded to the
-- same result, as long as digits are dropped at all.
pub rescale_zeros :
    (n f t k : ℕ) → t < f → rescale (pos (n * 10 ^ k)) (f + k) t ≡ rescale (pos n) f t
rescale_zeros n f t k h =
    rescale-pos (n * 10 ^ k) (f + k) t (omega arith)
    ∙ ap pos (scaled (f - t - 1) (omega arith) (omega arith))
    ∙ sym (rescale-pos n f t h)
  where
    scaled :
        (d : ℕ)
        → f + k - t ≡ suc d + k
        → f - t ≡ suc d
        → (n * 10 ^ k + 10 ^ (f + k - t) / 2) / 10 ^ (f + k - t)
          ≡ (n + 10 ^ (f - t) / 2) / 10 ^ (f - t)
    scaled d e e' = rw (e, e') (half_up_pow n d k)
