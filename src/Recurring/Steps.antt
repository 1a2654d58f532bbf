-- ===== src/Recurring/Steps.antt =====
-- The occurrences of daily and weekly rules, in a location whose offset does not change.
use fin_arch.Base.{
  ℕ, zero, suc, ◌+◌, ◌-◌, ◌*◌, ◌%◌, ◌≤◌, ◌<◌, ◌≡◌, ◌≢◌, refl, false, leb, arith, Bool-cases, inl,
  inr, ap, ◌∙◌, subst,
}
use fin_arch.Calendar.{Location, weekday, day_seconds, add_days}
use fin_arch.Recurring.Rule.{daily, weekly, Rule, Occurrence}
use fin_arch.Recurring.Schedule.{
  no_occurrence, Result, ok, err, ◌>>=◌, positive_interval, advance_candidate, next_candidate,
  occurrence_at, find_occurrence, rule_start_time, max_candidates, next_recurring_occurrence,
}

-- The wall clock runs with the seconds, and from the second day on it names one instant.
pub record IsFixed (loc : Location) : Type 0 where
  pub shifts : (t d : ℕ) → loc.instant (loc.wall t + d) ≡ t + d
  pub reads : (w : ℕ) → day_seconds ≤ w → loc.wall (loc.instant w) ≡ w

-- The days from one occurrence to the next, for a rule that counts days.
pub data CountsDays (r : Rule) : ℕ → Type 0 where
  by_day : r.frequency ≡ daily → CountsDays r (positive_interval r)
  by_week : r.frequency ≡ weekly → CountsDays r (7 * positive_interval r)

next_candidate-add :
    (loc : Location) (r : Rule) (n t : ℕ)
    → IsFixed loc
    → CountsDays r n
    → next_candidate loc r t ≡ t + n * day_seconds
unfolding advance_candidate add_days
next_candidate-add loc r n t fixed (by_day e) =
    rw e (fixed.shifts t (positive_interval r * day_seconds))
next_candidate-add loc r n t fixed (by_week e) =
    rw e (fixed.shifts t (7 * positive_interval r * day_seconds))

next_mul : (t k step : ℕ) → t + step + k * step ≡ t + suc k * step
next_mul t k step = grind arith

module _ (loc : Location) (r : Rule) (after step : ℕ)
    (moves : (t : ℕ) → next_candidate loc r t ≡ t + step) where
  stops :
      (fuel t : ℕ) → after ≤ t → find_occurrence (suc fuel) loc r after t ≡ ok (occurrence_at loc t)
  unfolding find_occurrence
  stops fuel t h = ground arith

  goes_on :
      (fuel t : ℕ)
      → t < after
      → find_occurrence (suc fuel) loc r after t ≡ find_occurrence fuel loc r after (t + step)
  unfolding find_occurrence
  goes_on fuel t h =
      let later : leb after t ≡ false = ground arith in
      rw later (ap (find_occurrence fuel loc r after) (moves t))

  earlier : (k t : ℕ) → t + k * step < after → k ≢ 0 → t + step + (k - 1) * step < after
  earlier zero t h ne = absurd (ne refl)
  earlier (suc k) t h ne =
      let e : suc k - 1 ≡ k = omega arith in rw e (omega (arith, next_mul t k step))

  finds_first :
      (fuel k t : ℕ)
      → k < fuel
      → after ≤ t + k * step
      → (k ≢ 0 → t + (k - 1) * step < after)
      → find_occurrence fuel loc r after t ≡ ok (occurrence_at loc (t + k * step))
  finds_first zero k t lt le first = absurd (omega arith)
  finds_first (suc fuel) zero t lt le first =
      stops fuel t (grind arith) ∙ ap (λ s. ok (occurrence_at loc s)) {x = t} (grind arith)
  finds_first (suc fuel) (suc k) t lt le first =
      let before : t + k * step < after =
        subst (λ j. t + j * step < after) {x = suc k - 1} (omega arith) (first (λ e. cc)) in
      goes_on fuel t (grind arith)
      ∙ finds_first fuel k (t + step) (omega arith) (omega (arith, next_mul t k step))
          (earlier k t before)
      ∙ ap (λ s. ok (occurrence_at loc s)) (next_mul t k step)

  finds_none :
      (fuel t : ℕ)
      → t + (fuel - 1) * step < after
      → find_occurrence fuel loc r after t ≡ err no_occurrence
  unfolding find_occurrence
  finds_none zero t far = refl
  finds_none (suc zero) t far = ground arith
  finds_none (suc (suc fuel)) t far =
      let shift = next_mul t fuel step in
      let far' : t + suc fuel * step < after =
        subst (λ j. t + j * step < after) {x = suc (suc fuel) - 1} (omega arith) far in
      goes_on (suc fuel) t (grind arith)
      ∙ finds_none (suc fuel) (t + step)
          (subst (λ j. t + step + j * step < after) {x = fuel} (omega arith) (omega arith))

-- An occurrence that is found is not before the time that was given.
find_occurrence-ge :
    (fuel : ℕ) (loc : Location) (r : Rule) (after t : ℕ) (o : Occurrence)
    → find_occurrence fuel loc r after t ≡ ok o
    → after ≤ o.scheduled_at
unfolding find_occurrence
find_occurrence-ge zero loc r after t o h = absurd (ground arith)
find_occurrence-ge (suc fuel) loc r after t o h = elim (Bool-cases (leb after t)) [
  | inl here ↦ ground arith
  | inr later ↦ find_occurrence-ge fuel loc r after (next_candidate loc r t) o (ground arith)
]

pub next_recurring_occurrence-ge :
    (loc : Location) (r : Rule) (after : ℕ) (o : Occurrence)
    → next_recurring_occurrence loc r after ≡ ok o
    → after ≤ o.scheduled_at
unfolding next_recurring_occurrence
next_recurring_occurrence-ge loc r after o h = started (rule_start_time loc r) h
  where
    started :
        (begin : Result ℕ)
        → (begin >>= λ t. find_occurrence max_candidates loc r after t) ≡ ok o
        → after ≤ o.scheduled_at
    started (ok t) h = find_occurrence-ge max_candidates loc r after t o h
    started (err e) h = absurd (cc)

pub next_occurrence_lem :
    (loc : Location) (r : Rule) (after n start k : ℕ)
    → IsFixed loc
    → CountsDays r n
    → rule_start_time loc r ≡ ok start
    → (k < 5000
        → after ≤ start + k * (n * day_seconds)
        → (k ≢ 0 → start + (k - 1) * (n * day_seconds) < after)
        → next_recurring_occurrence loc r after
          ≡ ok (occurrence_at loc (start + k * (n * day_seconds))))
      × (start + 4999 * (n * day_seconds) < after
          → next_recurring_occurrence loc r after ≡ err no_occurrence)
unfolding next_recurring_occurrence
next_occurrence_lem loc r after n start k fixed counts begin =
    let moves = λ (t : ℕ). next_candidate-add loc r n t fixed counts in
    (
      λ few le first.
          rw begin
            (finds_first loc r after (n * day_seconds) moves max_candidates k start few le first),
      λ far. rw begin (finds_none loc r after (n * day_seconds) moves max_candidates start far),
    )

-- The days from a day to the next one with this day of the week.
abbrev pub gap : ℕ → ℕ → ℕ
gap day d = (day + 7 - weekday d) % 7
