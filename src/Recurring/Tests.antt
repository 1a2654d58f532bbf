-- ===== src/Recurring/Tests.antt =====
-- The theorems on schedules for rules in UTC.
use fin_arch.Base.{ℕ, ◌≡◌, refl, true, Option, none, some, [], arith, pos, Text, text, ◌⊎◌, inr}
use fin_arch.Calendar.{
  Civil, Location, utc, civil_of, day_number, date_time, weekday, format_date, parse_date,
  parse_clock, date_after, find_month, days_before, years_before, add_days,
}
use fin_arch.Calendar.Days.{civil_of-day_number}
use fin_arch.Money.{nan}
use fin_arch.Transaction.Records.{work, expense}
use fin_arch.Recurring.Rule.{Frequency, daily, monthly, active, clamp, Rule}
use fin_arch.Recurring.Schedule.{
  ok, err, no_occurrence, rule_start_time, next_recurring_occurrence, find_occurrence,
  advance_candidate, add_months_with_policy, find_month_day, start_on_weekday, start_on_month_day,
  next_candidate,
}
use fin_arch.Recurring.Steps.{IsFixed, by_day, next_occurrence_lem}
use fin_arch.Recurring.Months.{iterate}
mod Calls

utc-IsFixed : IsFixed utc
utc-IsFixed = record { shifts = λ t d. refl; reads = λ w h. refl }

abbrev rule : Frequency → Text → Option ℕ → Option ℕ → Rule
rule f start day month_day = record {
  id = text "r";
  user_id = text "u";
  mode = work;
  name = text "rent";
  status = active;
  account_id = text "a";
  tx_type = expense;
  category = text "home";
  amount_cents = pos 5000;
  currency = text "CNY";
  exchange_rate = nan;
  note = [];
  project_id = none;
  frequency = f;
  interval = 1;
  start_date = start;
  end_date = none;
  time_of_day = text "09:00:00";
  timezone = text "UTC";
  day_of_week = day;
  day_of_month = month_day;
  month_end_policy = clamp;
  next_run_at = 0;
  last_generated_for = none;
  catch_up_enabled = true;
  version = 1;
}

abbrev at_nine : ℕ → ℕ → ℕ → ℕ
at_nine y m d = date_time utc (record { year = y; month = m; day = d }) 32400

calendar : Unit {0}
unfolding civil_of day_number date_time weekday format_date parse_date parse_clock date_after
    find_month days_before years_before add_days advance_candidate add_months_with_policy
    find_month_day rule_start_time start_on_weekday start_on_month_day
calendar = tt

-- A rule on the last day of the month that names no day moves to the 28th and stays there.
drifts :
    iterate (next_candidate utc (rule monthly (text "2025-01-31") none none)) 2 (at_nine 2025 1 31)
    ≡ at_nine 2025 3 28
unfolding calendar
drifts = refl

-- One that names the day comes back to it.
comes_back :
    iterate
      (next_candidate utc (rule monthly (text "2025-01-31") none (some 31)))
      2
      (at_nine 2025 1 31)
    ≡ at_nine 2025 3 31
unfolding calendar
comes_back = refl

first_day : rule_start_time utc (rule daily (text "2010-01-01") none none) ≡ ok (at_nine 2010 1 1)
unfolding calendar
first_day = refl

-- After the 5000th day a daily rule finds no occurrence any more.
runs_out :
    next_recurring_occurrence utc (rule daily (text "2010-01-01") none none) (at_nine 2023 9 11)
    ≡ err no_occurrence
unfolding calendar
runs_out =
    (next_occurrence_lem utc (rule daily (text "2010-01-01") none none) (at_nine 2023 9 11) 1
        (at_nine 2010 1 1) 0 utc-IsFixed (by_day refl) first_day).1
      (omega arith)
