-- ===== src/Money.antt =====
-- Decimal amounts: src/bet_maker/helpers/money.py and src/line_provider/helpers/money.py, which
-- both quantize to two places with ROUND_HALF_UP. A finite `decimal.Decimal` is a sign, the number
-- that its digits spell and a power of ten; NaN and the infinities, which the fields refuse, are
-- left out.
pub mod Rounding
mod Tests
use bsw.Common.{
  ℕ, zero, suc, ◌+◌, ◌*◌, ◌/◌, ◌%◌, ◌^◌, ◌≤◌, ◌<◌, ◌≡◌, Bool, Option, none, some, ltb, leb,
  if◌then◌else◌,
}

-- `up n` is 10 ^ n, `down n` is 10 ^ -(n + 1).
pub data Exponent : Type 0 where
  up down : ℕ → Exponent

pub record Decimal : Type 0 where
  pub negative : Bool
  pub digits : ℕ
  pub exponent : Exponent

-- The exponent of `_TWO_PLACES`, `Decimal("0.01")`.
abbrev pub two_places : Exponent
two_places = down 1

-- Drop k + 1 digits, and count one up where the first of them is 5 or more.
unfoldable pub round_half_up : ℕ → ℕ → ℕ
round_half_up k digits =
    let kept = digits / 10 ^ k in kept / 10 + (if leb 5 (kept % 10) then 1 else 0)

-- The digits at exponent -2.
unfoldable pub hundredths : ℕ → Exponent → ℕ
unfolding round_half_up
hundredths digits (up n) = digits * 10 ^ (n + 2)
hundredths digits (down zero) = digits * 10
hundredths digits (down (suc zero)) = digits
hundredths digits (down (suc (suc k))) = round_half_up k digits

-- The default context has a precision of 28 digits, past which `quantize` raises
-- InvalidOperation: `none`.
abbrev pub precision : ℕ
precision = 28

-- `value.quantize(_TWO_PLACES, rounding=ROUND_HALF_UP)`
unfoldable pub quantize : Decimal → Option Decimal
unfolding hundredths
quantize value =
    let cents = hundredths value.digits value.exponent in
    if ltb cents (10 ^ precision)
    then some (record { negative = value.negative; digits = cents; exponent = two_places })
    else none

unfoldable pub quantize_amount : Decimal → Option Decimal
unfolding quantize
quantize_amount value = quantize value

unfoldable pub quantize_coefficient : Decimal → Option Decimal
unfolding quantize
quantize_coefficient value = quantize value

-- A power of ten as a fraction: its numerator and its denominator.
abbrev pub numerator : Exponent → ℕ
numerator (up n) = 10 ^ n
numerator (down n) = 1

abbrev pub denominator : Exponent → ℕ
denominator (up n) = 1
denominator (down n) = 10 ^ suc n

-- `cents` hundredths is the nearest to the value, and the upper of two that are as near.
pub record IsNearest (value : Decimal) (cents : ℕ) : Type 0 where
  pub not_above :
      2 * (denominator value.exponent * cents)
      ≤ 200 * (value.digits * numerator value.exponent) + denominator value.exponent
  pub not_below :
      200 * (value.digits * numerator value.exponent) + denominator value.exponent
      < 2 * (denominator value.exponent * cents) + 2 * denominator value.exponent

-- The value is exactly `cents` hundredths.
abbrev pub IsCents : Decimal → ℕ → Type 0
IsCents value cents =
    100 * (value.digits * numerator value.exponent) ≡ denominator value.exponent * cents
