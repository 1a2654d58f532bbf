-- ===== src/Recurring/Months.antt =====
-- The occurrences of monthly and yearly rules with a day of the month.
use fin_arch.Base.{ℕ, zero, suc, min}
use fin_arch.Calendar.{Civil, month_civil, last_day}
use fin_arch.Recurring.Rule.{Rule}

-- The day of a month that a rule with this day falls on.
abbrev pub clamped : ℕ → ℕ → Civil
clamped k day = month_civil k (min day (last_day k))

-- `n` rounds of a loop.
abbrev pub iterate : (ℕ → ℕ) → ℕ → ℕ → ℕ
iterate f zero t = t
iterate f (suc n) t = iterate f n (f t)
