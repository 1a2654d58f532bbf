-- ===== src/Recurring/Once.antt =====
-- An occurrence is generated once, whatever other calls do to the tables before it is tried again.
use fin_arch.Base.{
  ℕ, ◌<◌, ◌≡◌, refl, true, false, Option, none, some, arith, is_some, Text, CaseTable, ap, sym,
  subst,
}
use fin_arch.Transaction.Records.{Services}
use fin_arch.Recurring.Rule.{Rule, Zones}
use fin_arch.Recurring.Tables.{Instance, Tables, ok, has_expected, claim_instance, get_rule_by_id}
use fin_arch.Recurring.Generate.{
  Plan, was_skipped, was_generated, instance_of, is_current, chosen_instance, instance_for,
  generate_for, commit,
}
use fin_arch.Recurring.Committed.{Work, passed, linked, created, commit_cases}
use fin_arch.Recurring.Versions.{has_distinct_ids, has_expected-is_newer, get_rule_by_id-is_newer}
use fin_arch.Recurring.Runs.{Reaches, HasPassed, HasPassed-IsMoved, HasPassed-Reaches}

claim_instance-refuses :
    (s : Tables) (i : Instance) (version at : ℕ)
    → has_expected i.rule_id i.user_id version at s.rules ≡ false
    → claim_instance s i version at ≡ ok (s, false)
unfolding claim_instance
claim_instance-refuses s i version at e = ground arith

chosen_instance-overtaken :
    (s : Tables) (r cur : Rule) (date k : Text)
    → get_rule_by_id r.id r.user_id s.rules ≡ some cur
    → r.version < cur.version
    → chosen_instance s r date k false ≡ ok (s, none)
unfolding chosen_instance
chosen_instance-overtaken s r cur date k e later =
    let overtaken : is_current r cur ≡ false = ground arith in ground arith

-- A rule that has passed its snapshot is skipped.
commit-HasPassed :
    (u : CaseTable) (z : Zones) (env : Services) (s : Tables) (p : Plan) (k : Text)
    → HasPassed p.snapshot s
    → commit u z env s p k ≡ ok (s, was_skipped)
unfolding commit instance_for generate_for
commit-HasPassed u z env s p k h =
    let r = p.snapshot in
    let (cur, found) = some-inv (get_rule_by_id r.id r.user_id s.rules) h.there in
    let refused =
      claim_instance-refuses s (instance_of r p.date k) r.version r.next_run_at
        (has_expected-is_newer r.id r.user_id r.version r.next_run_at s.rules h.newer) in
    let overtaken =
      chosen_instance-overtaken s r cur p.date k found
        (get_rule_by_id-is_newer r.id r.user_id r.version s.rules cur h.newer found) in
    rw (refused, overtaken) refl
  where
    some-inv : (o : Option Rule) → is_some o ≡ true → (a : Rule) × (o ≡ some a)
    some-inv none e = absurd (ground arith)
    some-inv (some a) e = (a, refl)

-- After a database transaction of `generateOne` has generated an occurrence, from tables without two
-- rules of the same identifier, and any calls on rules and any that do not write them, one for the
-- same snapshot of the rule succeeds, skips and leaves the tables alone.
pub generated_once :
    (u : CaseTable) (z : Zones) (env env' : Services) (s s1 s2 : Tables) (p p' : Plan) (k k' : Text)
    → has_distinct_ids s.rules ≡ true
    → commit u z env s p k ≡ ok (s1, was_generated)
    → Reaches u z s1 s2
    → p'.snapshot ≡ p.snapshot
    → commit u z env' s2 p' k' ≡ ok (s2, was_skipped)
generated_once u z env env' s s1 s2 p p' k k' d h runs same = commit-HasPassed u z env' s2 p' k' (
    subst (λ r. HasPassed r s2) (sym same)
      (HasPassed-Reaches u z p.snapshot runs (passed_now (commit_cases u z env s s1 p k _ h))))
  where
    passed_now : Work u z env s p s1 was_generated → HasPassed p.snapshot s1
    passed_now (passed e books) = absurd (let differs = ap (λ o. o.is_generated) e in ground arith)
    passed_now (linked e l) = HasPassed-IsMoved z s p.snapshot p.date s1 d l.moved
    passed_now (created e c) = HasPassed-IsMoved z s p.snapshot p.date s1 d c.moved
