-- ===== src/Calendar/Tests.antt =====
-- Some dates.
use fin_arch.Base.{ℕ, ◌≡◌, refl, none, some, text}
use fin_arch.Calendar.{
  Civil, day_number, civil_of, date_after, find_month, days_before, years_before, weekday,
  format_date, parse_date, parse_clock,
}

abbrev date : ℕ → ℕ → ℕ → Civil
date y m d = record { year = y; month = m; day = d }

unix_epoch : day_number (date 1970 1 1) ≡ 719162
unfolding day_number
unix_epoch = refl

dates :
    (civil_of 719162 ≡ date 1970 1 1)
    × (civil_of (day_number (date 2024 2 29)) ≡ date 2024 2 29)
    × (civil_of (day_number (date 2000 12 31)) ≡ date 2000 12 31)
    × (weekday (day_number (date 2024 2 29)) ≡ 4)
    × (format_date (date 2024 2 29) ≡ text "2024-02-29")
    × (parse_date (text "2024-02-29") ≡ some (date 2024 2 29))
    × (parse_date (text "2023-02-29") ≡ none)
    × (parse_clock (text "9:00:05.5") ≡ some (record { hour = 9; minute = 0; second = 5 }))
unfolding day_number civil_of date_after find_month days_before years_before weekday format_date
    parse_date parse_clock
dates = (refl, refl, refl, refl, refl, refl, refl, refl)
