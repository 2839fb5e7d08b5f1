-- ===== src/Money/Rounding.antt =====
-- What quantizing to two places does to the value.
use bsw.Common.{
  ℕ, zero, suc, ◌+◌, ◌*◌, ◌/◌, ◌%◌, ◌^◌, ◌≤◌, ◌<◌, ◌≡◌, some, arith, if◌then◌else◌, leb, Bool,
}
use native.Mathlib.Nat.{pow-suc, one-le-pow, mod-lt, div-add-mod, le_antisymm}
use native.Mathlib.Numerals.{towards_suc}
use bsw.Money.{
  Decimal, Exponent, up, down, two_places, round_half_up, hundredths, denominator, quantize_amount,
  IsNearest, IsCents,
}

mul_le : (p b c : ℕ) → b ≤ c → p * b ≤ p * c
mul_le p b c h = grind arith

-- The value 10 p a + p b + s, for a digit b, against 10 p times the rounded a.
round_down :
    (p a b s : ℕ)
    → s < p
    → b ≤ 4
    → (20 * (p * (a + 0)) ≤ 2 * (p * (10 * a + b) + s) + 10 * p)
      × (2 * (p * (10 * a + b) + s) + 10 * p < 20 * (p * (a + 0)) + 20 * p)
round_down p a b s h k = omega (arith, mul_le p b 4 k)

round_up :
    (p a b s : ℕ)
    → s < p
    → 5 ≤ b
    → b ≤ 9
    → (20 * (p * (a + 1)) ≤ 2 * (p * (10 * a + b) + s) + 10 * p)
      × (2 * (p * (10 * a + b) + s) + 10 * p < 20 * (p * (a + 1)) + 20 * p)
round_up p a b s h k l = omega (arith, mul_le p 5 b k, mul_le p b 9 l)

round_digit :
    (p a b s : ℕ)
    → s < p
    → b ≤ 9
    → let r = a + (if leb 5 b then 1 else 0) in
      (20 * (p * r) ≤ 2 * (p * (10 * a + b) + s) + 10 * p)
      × (2 * (p * (10 * a + b) + s) + 10 * p < 20 * (p * r) + 20 * p)
round_digit p a b s h k = ground (arith, round_down p a b s h, round_up p a b s h)

-- A remainder below p, and the digit before it, decide the rounding at 10 p.
round_step :
    (p q s : ℕ)
    → s < p
    → let r = q / 10 + (if leb 5 (q % 10) then 1 else 0) in
      (20 * (p * r) ≤ 2 * (p * q + s) + 10 * p) × (2 * (p * q + s) + 10 * p < 20 * (p * r) + 20 * p)
round_step p q s h = rw split at (round_digit p (q / 10) (q % 10) s h (omega arith))
  where
    split : 10 * (q / 10) + q % 10 ≡ q
    split = omega arith

pow-suc_ten : (n : ℕ) → 10 ^ suc n ≡ 10 * 10 ^ n
pow-suc_ten n = rw pow-suc (omega arith)

pow_pos : (n : ℕ) → 0 < 10 ^ n
pow_pos n = one-le-pow n 10 (omega arith)

-- The rounding, at the powers of ten that it divides by.
round_half_up_bounds :
    (n k : ℕ)
    → (20 * (10 ^ k * round_half_up k n) ≤ 2 * n + 10 * 10 ^ k)
      × (2 * n + 10 * 10 ^ k < 20 * (10 ^ k * round_half_up k n) + 20 * 10 ^ k)
unfolding round_half_up
round_half_up_bounds n k =
    rw (div-add-mod n (10 ^ k)) at
      (round_step (10 ^ k) (n / 10 ^ k) (n % 10 ^ k) (mod-lt n (pow_pos k)))

pow-suc_thousand : (k : ℕ) → 10 ^ suc (suc (suc k)) ≡ 1000 * 10 ^ k
pow-suc_thousand k = simp pow-suc (omega arith)

hundredths-IsNearest :
    (neg : Bool) (n : ℕ) (e : Exponent)
    → IsNearest (record { negative = neg; digits = n; exponent = e }) (hundredths n e)
unfolding hundredths
hundredths-IsNearest neg n (up k) = record {
  not_above = omega (arith, shift);
  not_below = omega (arith, shift);
}
  where
    shift : n * 10 ^ (k + 2) ≡ 100 * (n * 10 ^ k)
    shift = simp towards_suc (simp pow-suc (omega arith))
hundredths-IsNearest neg n (down zero) = record { not_above = omega arith; not_below = omega arith }
hundredths-IsNearest neg n (down (suc zero)) = record {
  not_above = omega arith;
  not_below = omega arith;
}
hundredths-IsNearest neg n (down (suc (suc k))) = record {
  not_above = rw (pow-suc_thousand k) (omega (arith, (round_half_up_bounds n k).0));
  not_below = rw (pow-suc_thousand k) (omega (arith, (round_half_up_bounds n k).1));
}

module _ (d q : Decimal) (quantized : quantize_amount d ≡ some q) where
  -- The result of `quantize_amount` keeps the sign, has two places, and is the nearest number of
  -- hundredths to the value, the upper one (away from zero) in a tie.
  pub quantize_amount-IsNearest :
      (q.negative ≡ d.negative) × (q.exponent ≡ two_places) × IsNearest d q.digits
  unfolding quantize_amount
  quantize_amount-IsNearest = ground (arith, hundredths-IsNearest d.negative d.digits d.exponent)

not_lower : (p h c : ℕ) → 0 < p → 2 * (p * c) + p < 2 * (p * h) + 2 * p → c ≤ h
not_lower p h c pos above = ground (arith, λ (k : suc h ≤ c). mul_le p (suc h) c k)

not_higher : (p h c : ℕ) → 0 < p → 2 * (p * h) ≤ 2 * (p * c) + p → h ≤ c
not_higher p h c pos below = ground (arith, λ (k : suc c ≤ h). mul_le p (suc c) h k)

denominator_pos : (e : Exponent) → 0 < denominator e
denominator_pos (up n) = omega arith
denominator_pos (down n) = pow_pos (suc n)

hundredths_exact :
    (d : Decimal) (cents : ℕ) → IsCents d cents → hundredths d.digits d.exponent ≡ cents
hundredths_exact d cents e =
    let near = hundredths-IsNearest d.negative d.digits d.exponent in
    let h = hundredths d.digits d.exponent in
    let p = denominator d.exponent in
    le_antisymm (not_higher p h cents (denominator_pos d.exponent) (omega (arith, near.not_above)))
      (not_lower p h cents (denominator_pos d.exponent) (omega (arith, near.not_below)))

-- A value of exactly `cents` hundredths, where those have at most 28 digits, is quantized to it.
pub quantize_amount_exact :
    (d : Decimal) (cents : ℕ)
    → IsCents d cents
    → cents < 10 ^ 28
    → quantize_amount d
      ≡ some (record { negative = d.negative; digits = cents; exponent = two_places })
unfolding quantize_amount
quantize_amount_exact d cents e small = ground (arith, hundredths_exact d cents e)

-- Quantizing again changes nothing.
pub quantize_amount_idem :
    (d : Decimal) {q : Decimal} → quantize_amount d ≡ some q → quantize_amount q ≡ some q
unfolding quantize_amount
quantize_amount_idem d h = ground arith
