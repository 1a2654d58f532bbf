-- ===== src/Recurring/Schedule.antt =====
-- When a rule is due: NextRecurringOccurrence and what it calls in recurring_service.go. Each loop
-- of the code takes as much fuel as the code's bound; the one over the days of the week has no
-- bound, and takes a week. `after` is rounded up to whole seconds.
use fin_arch.Base.{
  ℕ, zero, suc, ◌+◌, ◌-◌, ◌*◌, ◌/◌, ◌%◌, Bool, true, false, ◌||◌, not, Option, none, some,
  if◌then◌else◌, ltb, leb, ◌==◌, text, text_eq, trim_space, is_empty,
}
use fin_arch.Calendar.{
  Civil, Location, civil_of, weekday, day_seconds, clock_seconds, day_number, date_time, add_days,
  month_civil, month_index, last_day, format_date, parse_date, parse_clock,
}
use fin_arch.Recurring.Rule.{
  frequency_unset, daily, weekly, monthly, yearly, frequency_unknown, MonthEndPolicy, clamp, skip,
  Rule, Occurrence, Zones,
}

-- What stops a computation; `endless` is a loop that does not end.
pub data Failure : Type 0 where
  bad_start_date bad_time_of_day no_occurrence endless : Failure

pub data Result (A : Type 0) : Type 0 where
  ok : A → Result A
  err : Failure → Result A

infixl 5 ◌>>=◌
abbrev pub ◌>>=◌ : {A B : Type 0} → Result A → (A → Result B) → Result B
ok a >>= f = f a
err e >>= f = err e

abbrev pub or_fail : {A : Type 0} → Failure → Option A → Result A
or_fail e none = err e
or_fail e (some a) = ok a

-- `locationName` and `locationForRule`
unfoldable pub location_for_rule : Zones → Rule → Location
location_for_rule z r =
    if is_empty (trim_space r.timezone) || text_eq r.timezone (text "Local")
    then z.local
    else elim (z.load r.timezone) [ none ↦ z.local | some loc ↦ loc ]

abbrev pub positive_interval : Rule → ℕ
positive_interval r = if r.interval == 0 then 1 else r.interval

-- `intervalMonths`
abbrev pub interval_months : Rule → ℕ
interval_months r = elim r.frequency [ yearly ↦ 12 * positive_interval r | _ ↦ positive_interval r ]

abbrev pub is_skip : MonthEndPolicy → Bool
is_skip skip = true
is_skip clamp = false

-- The loop of `addMonthsWithPolicy` from month `k` on, for the rounds that are left.
unfoldable pub find_month_day : ℕ → MonthEndPolicy → ℕ → ℕ → ℕ → Option Civil
find_month_day zero policy months target k = none
find_month_day (suc rounds) policy months target k =
    let later = find_month_day rounds policy months target (k + months) in
    if leb target (last_day k)
    then some (month_civil k target)
    else if not (is_skip policy)
    then some (month_civil k (last_day k))
    else later

-- The civil date and the time of the day at an instant.
abbrev pub date_at : Location → ℕ → Civil
date_at loc t = civil_of (loc.wall t / day_seconds)

abbrev pub clock_at : Location → ℕ → ℕ
clock_at loc t = loc.wall t % day_seconds

abbrev pub target_day : Rule → Civil → ℕ
target_day r c = elim r.day_of_month [ none ↦ c.day | some d ↦ d ]

abbrev pub month_rounds : ℕ
month_rounds = 240

-- `addMonthsWithPolicy`
unfoldable pub add_months_with_policy : Location → ℕ → ℕ → Rule → Option ℕ
add_months_with_policy loc t months r =
    let c = date_at loc t in
    elim (find_month_day month_rounds r.month_end_policy months (target_day r c)
      (month_index c + months)) [ none ↦ none | some c' ↦ some (date_time loc c' (clock_at loc t)) ]

-- `advanceCandidate`
unfoldable pub advance_candidate : Location → Rule → ℕ → Option ℕ
unfolding add_days add_months_with_policy
advance_candidate loc r t = elim r.frequency [
  | daily ↦ some (add_days loc (positive_interval r) t)
  | weekly ↦ some (add_days loc (7 * positive_interval r) t)
  | monthly ↦ add_months_with_policy loc t (interval_months r) r
  | yearly ↦ add_months_with_policy loc t (interval_months r) r
  | frequency_unset ↦ none
  | frequency_unknown ↦ none
]

-- `AddDate(0, 1, 0)`: a day beyond the month's end carries into the next month.
unfoldable pub add_month : Location → ℕ → ℕ
add_month loc t =
    let c = date_at loc t in
    let first = month_civil (month_index c + 1) 1 in
    loc.instant ((day_number first + (c.day - 1)) * day_seconds + clock_at loc t)

-- The candidate after one round of the loop.
abbrev pub next_candidate : Location → Rule → ℕ → ℕ
next_candidate loc r t = elim (advance_candidate loc r t) [ none ↦ add_month loc t | some t' ↦ t' ]

abbrev pub occurrence_at : Location → ℕ → Occurrence
occurrence_at loc t = record { occurrence_date = format_date (date_at loc t); scheduled_at = t }

-- The loop of `NextRecurringOccurrence`.
unfoldable pub find_occurrence : ℕ → Location → Rule → ℕ → ℕ → Result Occurrence
find_occurrence zero loc r after t = err no_occurrence
find_occurrence (suc fuel) loc r after t =
    let later = find_occurrence fuel loc r after (next_candidate loc r t) in
    if leb after t then ok (occurrence_at loc t) else later

-- The loop of `ruleStartTime` to the day of the week.
unfoldable pub find_weekday : ℕ → Location → ℕ → ℕ → Result ℕ
find_weekday zero loc day t = err endless
find_weekday (suc fuel) loc day t =
    let later = find_weekday fuel loc day (add_days loc 1 t) in
    if weekday (loc.wall t / day_seconds) == day then ok t else later

abbrev pub week : ℕ
week = 7

unfoldable pub start_on_weekday : Location → Rule → ℕ → Result ℕ
unfolding find_weekday
start_on_weekday loc r t = elim r.day_of_week [
  | none ↦ ok t
  | some day ↦ find_weekday week loc day t
]

-- The start in the month of `t`, or a later one if the day is not in it or already past.
unfoldable pub start_on_month_day : Location → Rule → ℕ → ℕ → Result ℕ
unfolding add_months_with_policy
start_on_month_day loc r date t = elim r.day_of_month [
  | none ↦ ok t
  | some day ↦
      let k = month_index (date_at loc t) in
      let clock = clock_at loc t in
      let following =
        λ (s : ℕ). or_fail no_occurrence (add_months_with_policy loc s (interval_months r) r) in
      if ltb (last_day k) day
      then (if is_skip r.month_end_policy
          then following t
          else ok (date_time loc (month_civil k (last_day k)) clock))
      else (let s = date_time loc (month_civil k day) clock in
          if ltb s date then following s else ok s)
]

-- `ruleStartTime`
unfoldable pub rule_start_time : Location → Rule → Result ℕ
unfolding start_on_weekday start_on_month_day
rule_start_time loc r = or_fail bad_start_date (parse_date r.start_date) >>= λ c.
    or_fail bad_time_of_day (parse_clock r.time_of_day) >>= λ clock.
    let date = date_time loc c 0 in
    let start = date_time loc (civil_of (loc.wall date / day_seconds)) (clock_seconds clock) in
    elim r.frequency [
      | weekly ↦ start_on_weekday loc r start
      | monthly ↦ start_on_month_day loc r date start
      | yearly ↦ start_on_month_day loc r date start
      | _ ↦ ok start
    ]

abbrev pub max_candidates : ℕ
max_candidates = 5000

-- `NextRecurringOccurrence`
unfoldable pub next_recurring_occurrence : Location → Rule → ℕ → Result Occurrence
next_recurring_occurrence loc r after =
    rule_start_time loc r >>= λ start. find_occurrence max_candidates loc r after start
