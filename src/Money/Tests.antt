-- ===== src/Money/Tests.antt =====
-- The theorems on money at small amounts.
use fin_arch.Base.{◌*◌, ◌≤◌, ◌<◌, ◌≡◌, refl, ◌↔◌, true, some, arith, pos, negsuc, is_int64}
use fin_arch.Money.{
  Rat, ok, finite, round_rat_to_int64, convert_by_rate, cents, max_transaction_amount_cents,
}
use fin_arch.Money.Rounding.{IsNearest, IsRounded, round_rat_to_int64_iff}
use fin_arch.Money.Conversion.{
  ratio, convert_by_rate_iff, convert_by_rate_identity, cents_of_decimal,
}

abbrev minus_seven_halves : Rat
minus_seven_halves = record { num = negsuc 6; den = 2 }

round_rat_to_int64_iff_example :
    (round_rat_to_int64 (some minus_seven_halves) ≡ ok (negsuc 3))
    ↔ (IsRounded minus_seven_halves (negsuc 3) × (is_int64 (negsuc 3) ≡ true))
round_rat_to_int64_iff_example = round_rat_to_int64_iff minus_seven_halves (negsuc 3) (omega arith)

convert_by_rate_iff_example :
    (convert_by_rate (pos 100) (ratio 29 4) ≡ ok (pos 725))
    ↔ (IsNearest (100 * 29) 4 725 × (0 < 725) × (725 ≤ max_transaction_amount_cents))
convert_by_rate_iff_example =
    convert_by_rate_iff 100 29 4 725 (omega arith) (omega arith) (omega arith)

convert_by_rate_identity_example : convert_by_rate (pos 1234) (ratio 1 1) ≡ ok (pos 1234)
convert_by_rate_identity_example = convert_by_rate_identity 1234 (omega arith) (omega arith)

cents_of_decimal_example :
    cents (finite (record { num = negsuc 1233; den = 100 })) ≡ ok (negsuc 1233)
cents_of_decimal_example = cents_of_decimal (negsuc 1233) refl
