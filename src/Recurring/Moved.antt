-- ===== src/Recurring/Moved.antt =====
-- What moving a rule on and the statements on instances keep.
use fin_arch.Base.{
  ℕ, ◌+◌, ◌<◌, ◌≡◌, refl, Bool, true, false, Option, some, arith, if◌then◌else◌, Text, CaseTable,
  ap, ◌∙◌,
}
use fin_arch.Recurring.Rule.{Rule, RuleStatus, ended, Occurrence, Zones}
use fin_arch.Recurring.Schedule.{next_recurring_occurrence, location_for_rule}
use fin_arch.Recurring.Schedule.{Result as ScheduleResult, ok as schedule_ok, err as schedule_err}
use fin_arch.Recurring.Steps.{next_recurring_occurrence-ge}
use fin_arch.Recurring.Tables.{
  Instance, Tables, Error, Result, ok, err, ◌>>=◌, has_expected, advance_rule, claim_instance,
  reclaim_instance, mark_instance_generated,
}
use fin_arch.Recurring.Generate.{
  of_schedule, is_past_end, instance_of, chosen_instance, instance_for, move_on, take_over,
}

pub ok-inv :
    {A B : Type 0} (first : Result A) (next : A → Result B) {done : B}
    → (first >>= next) ≡ ok done
    → (a : A) × (first ≡ ok a) × (next a ≡ ok done)
ok-inv (ok a) next e = (a, refl, e)
ok-inv (err x) next e = absurd (ground arith)

-- The rule of a snapshot was the expected one and has been moved to a later time.
pub record IsMoved (z : Zones) (s : Tables) (r : Rule) (date : Text) (s' : Tables) : Type 0 where
  pub next : Occurrence
  pub status : RuleStatus
  pub expected : has_expected r.id r.user_id r.version r.next_run_at s.rules ≡ true
  pub later : r.next_run_at < next.scheduled_at
  pub found :
      next_recurring_occurrence (location_for_rule z r) r (r.next_run_at + 1) ≡ schedule_ok next
  pub rules_are :
      s'.rules
      ≡ advance_rule r.id r.user_id r.version r.next_run_at next.scheduled_at
          (some date)
          status
          s.rules

pub of_schedule-inv :
    (m : ScheduleResult Occurrence) (o : Occurrence) → of_schedule m ≡ ok o → m ≡ schedule_ok o
of_schedule-inv (schedule_ok a) o e = ground arith
of_schedule-inv (schedule_err x) o e = absurd (ground arith)

if-inv :
    {A : Type 0} (b : Bool) (x y : A) (e : Error)
    → (if b then ok x else err e) ≡ ok y
    → (b ≡ true) × (y ≡ x)
if-inv true x y e h = (refl, ground arith)
if-inv false x y e h = absurd (ground arith)

pub move_on-IsMoved :
    (u : CaseTable) (z : Zones) (s s' : Tables) (r : Rule) (date : Text)
    → move_on u z s r date ≡ ok s'
    → IsMoved z s r date s' × (s'.transactions ≡ s.transactions)
unfolding move_on
move_on-IsMoved u z s s' r date h =
    let (next, e, rest) =
      ok-inv (of_schedule (next_recurring_occurrence (location_for_rule z r) r (r.next_run_at + 1)))
        _ h in
    let found = of_schedule-inv _ next e in
    let (there, same) =
      if-inv (has_expected r.id r.user_id r.version r.next_run_at s.rules) _ s' _ rest in
    (
      record {
        next = next;
        status = if is_past_end r next.occurrence_date then ended else r.status;
        expected = there;
        later = omega (
          arith,
          next_recurring_occurrence-ge (location_for_rule z r) r (r.next_run_at + 1) next found,
        );
        found = found;
        rules_are = ap (λ t. t.rules) same;
      },
      ap (λ t. t.transactions) same,
    )

-- The statements on instances leave rules and transactions alone.
unfoldable pub SameBooks : Tables → Tables → Type 0
SameBooks s s' = (s'.rules ≡ s.rules) × (s'.transactions ≡ s.transactions)

pub mark-SameBooks :
    (s s' : Tables) (k t : Text) → mark_instance_generated s k t ≡ ok s' → SameBooks s s'
unfolding mark_instance_generated SameBooks
mark-SameBooks s s' k t h = (ground arith, ground arith)

pub take_over-SameBooks :
    (u : CaseTable) (z : Zones) (s s' : Tables) (r : Rule) (i : Instance) (claimed : Bool)
    → take_over u z s r i claimed ≡ ok s'
    → SameBooks s s'
unfolding take_over reclaim_instance SameBooks
take_over-SameBooks u z s s' r i claimed h = (ground arith, ground arith)

claim-SameBooks :
    (s s' : Tables) (i : Instance) (version next_run_at : ℕ) (claimed : Bool)
    → claim_instance s i version next_run_at ≡ ok (s', claimed)
    → SameBooks s s'
unfolding claim_instance SameBooks
claim-SameBooks s s' i version next_run_at claimed h = (ground arith, ground arith)

chosen-same :
    (s s' : Tables) (r : Rule) (date k : Text) (claimed : Bool) (work : Option (Instance × Bool))
    → chosen_instance s r date k claimed ≡ ok (s', work)
    → s' ≡ s
unfolding chosen_instance
chosen-same s s' r date k claimed work h = ground arith

pub instance_for-SameBooks :
    (s s' : Tables) (r : Rule) (date k : Text) (work : Option (Instance × Bool))
    → instance_for s r date k ≡ ok (s', work)
    → SameBooks s s'
unfolding instance_for SameBooks
instance_for-SameBooks s s' r date k work h =
    let ((s1, claimed), e, rest) =
      ok-inv (claim_instance s (instance_of r date k) r.version r.next_run_at) _ h in
    let (rules, transactions) =
      claim-SameBooks s s1 (instance_of r date k) r.version r.next_run_at claimed e in
    let same : s' ≡ s1 = chosen-same s1 s' r date k claimed work rest in
    (ap (λ t. t.rules) same ∙ rules, ap (λ t. t.transactions) same ∙ transactions)
