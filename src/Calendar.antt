-- ===== src/Calendar.antt =====
-- What the recurring service uses of Go's package `time`: civil dates, days of the week, the texts
-- of dates and times of day, and locations. Seconds and days are counted from 0001-01-01; a
-- location is what Go reads from its database: the wall clock at an instant, and the instant that
-- `time.Date` picks for a wall clock.
pub mod Days
mod Tests
use fin_arch.Base.{
  ℕ, zero, suc, ◌+◌, ◌-◌, ◌*◌, ◌/◌, ◌%◌, Bool, true, false, ◌&&◌, ◌||◌, not, Option, none, some,
  List, [], ◌∷◌, if◌then◌else◌, ltb, leb, ◌==◌, Text, text, ◌++◌,
}

pub record Civil : Type 0 where
  pub year : ℕ
  pub month : ℕ
  pub day : ℕ

pub record Clock : Type 0 where
  pub hour : ℕ
  pub minute : ℕ
  pub second : ℕ

pub record Location : Type 0 where
  pub wall : ℕ → ℕ
  pub instant : ℕ → ℕ

-- `time.UTC`
abbrev pub utc : Location
utc = record { wall = λ t. t; instant = λ w. w }

abbrev pub is_leap : ℕ → Bool
is_leap y = (y % 4 == 0) && (not (y % 100 == 0) || (y % 400 == 0))

abbrev pub days_in_year : ℕ → ℕ
days_in_year y = if is_leap y then 366 else 365

abbrev pub has_thirty_days : ℕ → Bool
has_thirty_days m = (m == 11) || (m == 9) || (m == 6) || (m == 4)

abbrev pub days_in_month : ℕ → ℕ → ℕ
days_in_month y m =
    if has_thirty_days m then 30 else if not (m == 2) then 31 else if is_leap y then 29 else 28

-- The days before the year that follows `p` whole years.
unfoldable pub days_before : ℕ → ℕ
days_before p = p * 365 + p / 4 - p / 100 + p / 400

-- The days before month `m` of the year.
unfoldable pub days_before_month : ℕ → ℕ → ℕ
days_before_month y zero = 0
days_before_month y (suc zero) = 0
days_before_month y (suc (suc m)) = days_before_month y (suc m) + days_in_month y (suc m)

-- The number of a valid date's day, as `time.Date` finds it.
unfoldable pub day_number : Civil → ℕ
unfolding days_before days_before_month
day_number c = days_before (c.year - 1) + days_before_month c.year c.month + (c.day - 1)

-- The whole years before a day, by cycles of 400, 100, 4 and 1 years; the last cycle of a hundred
-- years and the last year of four are longer.
unfoldable pub years_before : ℕ → ℕ
years_before d =
    let a = d / 146097 in
    let d1 = d % 146097 in
    let b = if d1 / 36524 == 4 then 3 else d1 / 36524 in
    let d2 = d1 - 36524 * b in
    let c = d2 / 1461 in
    let d3 = d2 % 1461 in
    let e = if d3 / 365 == 4 then 3 else d3 / 365 in 400 * a + 100 * b + 4 * c + e

-- The month of a day of the year, counted from 0, with `left` months to look at.
unfoldable pub find_month : ℕ → ℕ → ℕ → ℕ → Civil
find_month zero y m n = record { year = y; month = m; day = n + 1 }
find_month (suc left) y m n =
    let later = find_month left y (m + 1) (n - days_in_month y m) in
    if ltb n (days_in_month y m) then record { year = y; month = m; day = n + 1 } else later

-- The date of a day that follows `p` whole years.
unfoldable pub date_after : ℕ → ℕ → Civil
date_after p d = find_month 11 (p + 1) 1 (d - days_before p)

-- `Time.Date`
unfoldable pub civil_of : ℕ → Civil
civil_of d = date_after (years_before d) d

-- `Time.Weekday`: Sunday is 0, and 0001-01-01 was a Monday.
unfoldable pub weekday : ℕ → ℕ
weekday d = (d + 1) % 7

abbrev pub day_seconds : ℕ
day_seconds = 86400

abbrev pub clock_seconds : Clock → ℕ
clock_seconds c = c.hour * 3600 + c.minute * 60 + c.second

-- `time.Date` of a civil date and a clock.
unfoldable pub date_time : Location → Civil → ℕ → ℕ
unfolding day_number
date_time loc c clock = loc.instant (day_number c * day_seconds + clock)

-- `Time.AddDate(0, 0, n)`
unfoldable pub add_days : Location → ℕ → ℕ → ℕ
add_days loc n t = loc.instant (loc.wall t + n * day_seconds)

-- A month by its number since year 0: `time.Date` carries months beyond December into the year.
abbrev pub month_civil : ℕ → ℕ → Civil
month_civil k d = record { year = k / 12; month = k % 12 + 1; day = d }

abbrev pub month_index : Civil → ℕ
month_index c = c.year * 12 + (c.month - 1)

-- The day of `time.Date(y, m + 1, 0, …)`.
abbrev pub last_day : ℕ → ℕ
last_day k = days_in_month (k / 12) (k % 12 + 1)

abbrev pub digit : ℕ → ℕ
digit n = n % 10 + b'0'

abbrev pub two_digits : ℕ → Text
two_digits n = digit (n / 10) ∷ digit n ∷ []

-- `Format("2006-01-02")`, for years of four digits.
unfoldable pub format_date : Civil → Text
format_date c =
    digit (c.year / 1000)
    ∷ digit (c.year / 100)
    ∷ digit (c.year / 10)
    ∷ digit c.year
    ∷ b'-'
    ∷ (two_digits c.month ++ (b'-' ∷ two_digits c.day))

abbrev pub is_digit : ℕ → Bool
is_digit c = leb b'0' c && leb c b'9'

abbrev pub all_digits : Text → Bool
all_digits [] = true
all_digits (c ∷ s) = is_digit c && all_digits s

abbrev pub is_date : Civil → Bool
is_date c =
    leb 1 c.month && leb c.month 12 && leb 1 c.day && leb c.day (days_in_month c.year c.month)

abbrev pub if_date : Civil → Option Civil
if_date c = if is_date c then some c else none

-- `time.Parse("2006-01-02", s)`
unfoldable pub parse_date : Text → Option Civil
parse_date (a ∷ b ∷ c ∷ d ∷ h ∷ e ∷ f ∷ h' ∷ i ∷ j ∷ []) =
    if all_digits (a ∷ b ∷ c ∷ d ∷ e ∷ f ∷ i ∷ j ∷ []) && (h == b'-') && (h' == b'-')
    then if_date (record {
      year = (a - b'0') * 1000 + (b - b'0') * 100 + (c - b'0') * 10 + (d - b'0');
      month = (e - b'0') * 10 + (f - b'0');
      day = (i - b'0') * 10 + (j - b'0');
    })
    else none
parse_date _ = none

-- A fraction of a second may follow the seconds.
abbrev pub is_fraction : Text → Bool
is_fraction [] = true
is_fraction (c ∷ []) = false
is_fraction (c ∷ d ∷ s) = ((c == b'.') || (c == b',')) && is_digit d && all_digits s

abbrev pub if_clock : Clock → Option Clock
if_clock c = if ltb c.hour 24 && ltb c.minute 60 && ltb c.second 60 then some c else none

-- `:04:05` and what follows.
unfoldable pub parse_minutes : ℕ → Text → Option Clock
parse_minutes h (k ∷ a ∷ b ∷ k' ∷ c ∷ d ∷ rest) =
    if all_digits (a ∷ b ∷ c ∷ d ∷ []) && (k == b':') && (k' == b':') && is_fraction rest
    then if_clock (record {
      hour = h;
      minute = (a - b'0') * 10 + (b - b'0');
      second = (c - b'0') * 10 + (d - b'0');
    })
    else none
parse_minutes h _ = none

-- `time.Parse("15:04:05", s)`: the hour has one digit or two.
unfoldable pub parse_clock : Text → Option Clock
unfolding parse_minutes
parse_clock (a ∷ b ∷ rest) =
    if not (is_digit a)
    then none
    else if is_digit b
    then parse_minutes ((a - b'0') * 10 + (b - b'0')) rest
    else parse_minutes (a - b'0') (b ∷ rest)
parse_clock _ = none
