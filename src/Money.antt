-- ===== src/Money.antt =====
-- internal/domain/model/money.go, and `convertByRate` of
-- internal/domain/service/transaction_service.go. An int64 is an integer whose range is stated.
pub mod Rounding
pub mod Conversion
mod Tests
use fin_arch.Base.{
  ℕ, zero, suc, ◌+◌, ◌*◌, ◌/◌, ◌%◌, Bool, true, false, ◌||◌, not, Option, none, some, ltb, leb,
  if◌then◌else◌, ℤ, pos, negsuc, leb_ℤ, ltb_ℤ, eqb_ℤ, abs, is_int64,
}

-- `big.Rat`: a fraction with a positive denominator.
pub record Rat : Type 0 where
  pub num : ℤ
  pub den : ℕ

-- A float64 as this code sees it. A finite one is given by the fraction that its shortest decimal
-- form spells, which is what `SetString` of `FormatFloat(x, 'g', -1, 64)` returns; it has the sign
-- of the float, so the code's comparisons with 0 are comparisons of that fraction.
pub data Float : Type 0 where
  nan : Float
  infinite : Bool → Float
  finite : Rat → Float

-- `!= 0`, as Go compares a float64.
abbrev pub is_nonzero : Float → Bool
is_nonzero nan = true
is_nonzero (infinite negative) = true
is_nonzero (finite v) = not (eqb_ℤ v.num (pos 0))

pub data MoneyError : Type 0 where
  invalid_money out_of_range invalid_amount_or_rate transaction_amount_out_of_range : MoneyError

pub data Result (A : Type 0) : Type 0 where
  ok : A → Result A
  err : MoneyError → Result A

infixl 5 ◌>>=◌ ◌>>◌
abbrev pub ◌>>=◌ : {A B : Type 0} → Result A → (A → Result B) → Result B
ok a >>= f = f a
err e >>= f = err e

abbrev pub ◌>>◌ : {A B : Type 0} → Result A → Result B → Result B
m >> k = m >>= λ _. k

abbrev pub max_transaction_amount_cents : ℕ
max_transaction_amount_cents = 9_000_000_000_000_000

-- `quotient.Neg` where the value is negative.
abbrev pub signed : Bool → ℕ → ℤ
signed false n = pos n
signed true zero = pos 0
signed true (suc n) = negsuc n

abbrev pub is_negative : ℤ → Bool
is_negative (pos n) = false
is_negative (negsuc n) = true

unfoldable pub round_quotient : ℕ → ℕ → ℕ
round_quotient n d = if leb d (2 * (n % d)) then n / d + 1 else n / d

-- `roundRatToInt64`
unfoldable pub round_rat_to_int64 : Option Rat → Result ℤ
unfolding round_quotient
round_rat_to_int64 none = err out_of_range
round_rat_to_int64 (some v) =
    let quotient = signed (is_negative v.num) (round_quotient (abs v.num) v.den) in
    if is_int64 quotient then ok quotient else err out_of_range

abbrev pub scale : ℕ → Rat → Rat
scale k v = record { num = signed (is_negative v.num) (k * abs v.num); den = v.den }

-- `Money.Cents`
unfoldable pub cents : Float → Result ℤ
cents nan = err invalid_money
cents (infinite negative) = err invalid_money
cents (finite v) = round_rat_to_int64 (some (scale 100 v))

-- `ConvertCentsByRate`
unfoldable pub convert_cents_by_rate : ℤ → Float → Result ℤ
convert_cents_by_rate amount nan = err invalid_amount_or_rate
convert_cents_by_rate amount (infinite negative) = err invalid_amount_or_rate
convert_cents_by_rate amount (finite rate) =
    if leb_ℤ amount (pos 0) || leb_ℤ rate.num (pos 0)
    then err invalid_amount_or_rate
    else round_rat_to_int64 (some (scale (abs amount) rate))

-- `ValidateTransactionAmountCents`
unfoldable pub validate_transaction_amount_cents : ℤ → Result (Unit {0})
validate_transaction_amount_cents amount =
    if leb_ℤ amount (pos 0) || ltb_ℤ (pos max_transaction_amount_cents) amount
    then err transaction_amount_out_of_range
    else ok tt

-- `convertByRate`
unfoldable pub convert_by_rate : ℤ → Float → Result ℤ
convert_by_rate amount rate = do
  converted ← convert_cents_by_rate amount rate
  validate_transaction_amount_cents converted
  ok converted
