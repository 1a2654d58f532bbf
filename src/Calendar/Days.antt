-- ===== src/Calendar/Days.antt =====
-- Day numbers and civil dates determine each other.
use native.Mathlib.Nat.{le_refl, le_trans}
use native.Mathlib.Decide.{le_ind}
use fin_arch.Base.{
  ℕ, zero, suc, ◌+◌, ◌-◌, ◌≤◌, ◌<◌, ◌≡◌, refl, true, ◌==◌, Bool-cases, inl, inr, arith, ap, ◌∙◌,
}
use fin_arch.Calendar.{
  Civil, days_in_year, days_in_month, days_before, days_before_month, day_number, years_before,
  find_month, civil_of, date_after, is_date,
}

days_before-suc : (p : ℕ) → days_before (suc p) ≡ days_before p + days_in_year (suc p)
unfolding days_before
days_before-suc p = ground arith

years_before_lem :
    (d : ℕ) → (days_before (years_before d) ≤ d) × (d < days_before (suc (years_before d)))
unfolding days_before years_before
years_before_lem d = ground arith

days_before_mono : (i j : ℕ) → i ≤ j → days_before i ≤ days_before j
unfolding days_before
days_before_mono i j h = omega arith

years_before_unique : (p d : ℕ) → days_before p ≤ d → d < days_before (suc p) → years_before d ≡ p
years_before_unique p d lo hi = ground (
  arith,
  years_before_lem d,
  days_before_mono (suc p) (years_before d),
  days_before_mono (suc (years_before d)) p,
)

days_before_month-suc :
    (y m : ℕ) → 1 ≤ m → days_before_month y (suc m) ≡ days_before_month y m + days_in_month y m
unfolding days_before_month
days_before_month-suc y zero h = absurd (omega arith)
days_before_month-suc y (suc m) h = refl

days_before_month_mono : (y m n : ℕ) → 1 ≤ m → m ≤ n → days_before_month y m ≤ days_before_month y n
days_before_month_mono y m n h le =
    le_ind (λ k. days_before_month y m ≤ days_before_month y k) (le_refl _)
      (λ k low ih. omega (arith, ih, days_before_month-suc y k (le_trans h low))) n le

-- The twelve months make up the year.
twelve_months : (y : ℕ) → days_before_month y 13 ≡ days_in_year y
unfolding days_before_month
twelve_months y = ground arith

find_month_lem :
    (left m n : ℕ) (c : Civil)
    → left + m ≡ 12
    → 1 ≤ m
    → m ≤ c.month
    → c.month ≤ 12
    → 1 ≤ c.day
    → c.day ≤ days_in_month c.year c.month
    → n + days_before_month c.year m + 1 ≡ days_before_month c.year c.month + c.day
    → find_month left c.year m n ≡ c
unfolding find_month
find_month_lem zero m n c lm hm le top lo hi e =
    let same : m ≡ c.month = omega arith in
    let first : n + 1 ≡ c.day = omega (arith, ap (days_before_month c.year) same) in ground arith
find_month_lem (suc left) m n c lm hm le top lo hi e = elim (Bool-cases (m == c.month)) [
  | inl same ↦
      let same' : m ≡ c.month = ground arith in
      let first : n + 1 ≡ c.day = omega (arith, ap (days_before_month c.year) same') in ground arith
  | inr less ↦
      let step = days_before_month-suc c.year m hm in
      let mono = days_before_month_mono c.year (suc m) c.month (omega arith) (ground arith) in
      let far : days_in_month c.year m ≤ n = omega (arith, step, mono) in
      let rest =
        find_month_lem left (m + 1) (n - days_in_month c.year m) c (omega arith) (omega arith)
          (ground arith) top lo hi (ground (arith, step)) in
      ground arith
]

in_year : (c : Civil) → 1 ≤ c.year → is_date c ≡ true → date_after (c.year - 1) (day_number c) ≡ c
unfolding date_after day_number
in_year c y v =
    let n =
      days_before (c.year - 1)
      + days_before_month c.year c.month
      + (c.day - 1)
      - days_before (c.year - 1) in
    ap (λ k. find_month 11 k 1 n) {x = c.year - 1 + 1} {y = c.year} (omega arith)
    ∙ find_month_lem 11 1 n c (omega arith) (omega arith) (ground arith) (ground arith)
        (ground arith) (ground arith) (ground arith)

is_date_parts :
    (c : Civil)
    → is_date c ≡ true
    → (1 ≤ c.month) × (c.month ≤ 12) × (1 ≤ c.day) × (c.day ≤ days_in_month c.year c.month)
is_date_parts c v = (ground arith, ground arith, ground arith, ground arith)

day_number-lt :
    (c : Civil)
    → 1 ≤ c.year
    → is_date c ≡ true
    → (days_before (c.year - 1) ≤ day_number c) × (day_number c < days_before (suc (c.year - 1)))
unfolding day_number
day_number-lt c y v =
    let (from, to, first, last) = is_date_parts c v in
    let month_ends = days_before_month-suc c.year c.month from in
    let fits = days_before_month_mono c.year (suc c.month) 13 (omega arith) (omega arith) in
    let year_ends : days_before (suc (c.year - 1))
        ≡ days_before (c.year - 1) + days_in_year c.year =
      days_before-suc (c.year - 1)
      ∙ ap (λ k. days_before (c.year - 1) + days_in_year k) {x = suc (c.year - 1)} {y = c.year}
          (omega arith) in
    (omega arith, omega (arith, twelve_months c.year))

-- The civil date of the number of a valid date's day is that date.
pub civil_of-day_number : (c : Civil) → 1 ≤ c.year → is_date c ≡ true → civil_of (day_number c) ≡ c
unfolding civil_of
civil_of-day_number c y v =
    let (lo, hi) = day_number-lt c y v in
    ap (λ p. date_after p (day_number c)) (years_before_unique (c.year - 1) (day_number c) lo hi)
    ∙ in_year c y v
