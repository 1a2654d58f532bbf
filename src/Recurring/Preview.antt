-- ===== src/Recurring/Preview.antt =====
-- The occurrences that PreviewOccurrences lists.
use fin_arch.Base.{
  ℕ, zero, suc, ◌+◌, ◌-◌, ◌≤◌, ◌≡◌, refl, Bool, true, false, List, [], ◌∷◌, arith, if◌then◌else◌,
  ◌==◌, Bool-cases, inl, inr, length, subst, sym,
}
use fin_arch.Recurring.Rule.{Rule, Occurrence, Zones}
use fin_arch.Recurring.Schedule.{location_for_rule, rule_start_time, next_recurring_occurrence}
use fin_arch.Recurring.Steps.{next_recurring_occurrence-ge}
use fin_arch.Recurring.Tables.{Result, ok, ◌>>=◌}
use fin_arch.Recurring.Generate.{of_schedule, is_past_end}
use fin_arch.Recurring.Moved.{ok-inv, of_schedule-inv}
use fin_arch.Recurring.Edit.{of_start, preview_from, preview_count, preview_occurrences}

-- Each occurrence is later than the one before, the first not before a given time, and none lies
-- beyond the end of the rule.
unfoldable pub IsRising : Rule → ℕ → List Occurrence → Type 0
IsRising r low [] = Unit {0}
IsRising r low (o ∷ os) =
    (low ≤ o.scheduled_at)
    × (is_past_end r o.occurrence_date ≡ false)
    × IsRising r (o.scheduled_at + 1) os

cons-inv :
    (m : Result (List Occurrence)) (o : Occurrence) (os : List Occurrence)
    → (m >>= λ rest. ok (o ∷ rest)) ≡ ok os
    → (rest : List Occurrence) × (m ≡ ok rest) × (os ≡ o ∷ rest)
cons-inv m o os h = let (rest, e, same) = ok-inv m _ h in (rest, e, ground arith)

preview_from_lem :
    (z : Zones) (left : ℕ) (r : Rule) (cursor : ℕ) (os : List Occurrence)
    → preview_from z left r cursor ≡ ok os
    → (length os ≤ left) × IsRising r cursor os
unfolding preview_from IsRising
preview_from_lem z zero r cursor [] h = (omega arith, tt)
preview_from_lem z zero r cursor (o ∷ os) h = absurd (ground arith)
preview_from_lem z (suc left) r cursor os h =
    let (next, e, rest) =
      ok-inv (of_schedule (next_recurring_occurrence (location_for_rule z r) r cursor)) _ h in
    let late =
      next_recurring_occurrence-ge (location_for_rule z r) r cursor next
        (of_schedule-inv _ next e) in
    goes_on next late (preview_from_lem z left r (next.scheduled_at + 1))
      (is_past_end r next.occurrence_date) refl rest
  where
    goes_on :
        (next : Occurrence)
        → cursor ≤ next.scheduled_at
        → ((more : List Occurrence)
            → preview_from z left r (next.scheduled_at + 1) ≡ ok more
            → (length more ≤ left) × IsRising r (next.scheduled_at + 1) more)
        → (b : Bool) → is_past_end r next.occurrence_date ≡ b
        → (elim b [
          | true ↦ ok []
          | false ↦ preview_from z left r (next.scheduled_at + 1) >>= λ rest. ok (next ∷ rest)
        ])
          ≡ ok os
        → (length os ≤ suc left) × IsRising r cursor os
    goes_on next late later true past rest =
        let none_left : os ≡ [] = ground arith in
        subst (λ l. (length l ≤ suc left) × IsRising r cursor l) (sym none_left) (omega arith, tt)
    goes_on next late later false past rest =
        let (more, e, same) =
          cons-inv (preview_from z left r (next.scheduled_at + 1)) next os rest in
        let (short, rising) = later more e in
        subst (λ l. (length l ≤ suc left) × IsRising r cursor l) (sym same)
          (omega arith, (late, past, rising))

preview_count_le : (count : ℕ) → preview_count count ≤ 12
preview_count_le count = ground arith

IsRising-mono :
    (r : Rule) (low high : ℕ) (os : List Occurrence)
    → low ≤ high
    → IsRising r high os
    → IsRising r low os
unfolding IsRising
IsRising-mono r low high [] le h = tt
IsRising-mono r low high (o ∷ os) le (late, in_time, rest) = (omega arith, in_time, rest)

-- What `PreviewOccurrences` lists, if no occurrence it looks for fails, are at most 12 occurrences,
-- each later than the one before, none before the next time of the rule, if it has one, and none
-- beyond its end.
pub preview_occurrences_lem :
    (z : Zones) (r : Rule) (count : ℕ) (os : List Occurrence)
    → preview_occurrences z r count ≡ ok os
    → (length os ≤ 12) × IsRising r r.next_run_at os
unfolding preview_occurrences
preview_occurrences_lem z r count os h = elim (Bool-cases (r.next_run_at == 0)) [
  | inl unset ↦
      let (start, e, rest) =
        ok-inv (of_start (rule_start_time (location_for_rule z r) r)) _
          (subst (λ b. preview b ≡ ok os) unset h) in
      let (short, rising) = preview_from_lem z (preview_count count) r (start - 1) os rest in
      (
        omega (arith, preview_count_le count),
        IsRising-mono r r.next_run_at (start - 1) os (ground arith) rising,
      )
  | inr set ↦
      let (short, rising) =
        preview_from_lem z (preview_count count) r r.next_run_at os
          (subst (λ b. preview b ≡ ok os) set h) in
      (omega (arith, preview_count_le count), rising)
]
  where
    preview : Bool → Result (List Occurrence)
    preview b =
        if b
        then (of_start (rule_start_time (location_for_rule z r) r) >>= λ start.
            preview_from z (preview_count count) r (start - 1))
        else preview_from z (preview_count count) r r.next_run_at
