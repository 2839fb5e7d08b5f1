-- ===== src/Money/Tests.antt =====
-- Runs of the quantizing helpers, and the theorems about them at concrete amounts.
use bsw.Common.{◌≡◌, refl, false, none, some, arith}
use bsw.Money.{Decimal, up, down, two_places, quantize_amount, IsNearest}
use bsw.Money.Rounding.{quantize_amount-IsNearest, quantize_amount_exact, quantize_amount_idem}

-- 10.005, a tie, and its rounding 10.01
abbrev tie : Decimal
tie = record { negative = false; digits = 10005; exponent = down 2 }

abbrev rounded : Decimal
rounded = record { negative = false; digits = 1001; exponent = two_places }

quantize-tie : quantize_amount tie ≡ some rounded
unfolding quantize_amount
quantize-tie = refl

-- 1E+27 has thirty digits at two places
quantize_overflow :
    quantize_amount (record { negative = false; digits = 1; exponent = up 27 }) ≡ none
unfolding quantize_amount
quantize_overflow = refl

quantize_amount-IsNearest_example :
    (rounded.negative ≡ tie.negative)
    × (rounded.exponent ≡ two_places)
    × IsNearest tie rounded.digits
quantize_amount-IsNearest_example = quantize_amount-IsNearest tie rounded quantize-tie

quantize_amount_exact_example :
    quantize_amount (record { negative = false; digits = 10; exponent = up 0 })
    ≡ some (record { negative = false; digits = 1000; exponent = two_places })
quantize_amount_exact_example =
    quantize_amount_exact (record { negative = false; digits = 10; exponent = up 0 }) 1000
      (omega arith) (omega arith)

quantize_amount_idem_example : quantize_amount rounded ≡ some rounded
quantize_amount_idem_example = quantize_amount_idem tie quantize-tie
