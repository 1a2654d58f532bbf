-- ===== src/Recurring/Runs.antt =====
-- The calls that change the tables, and that a rule that has passed a version stays beyond it.
use fin_arch.Base.{
  ◌≡◌, refl, Bool, true, false, Option, some, List, ◌∷◌, arith, if◌then◌else◌, is_some, Text,
  CaseTable, ap, sym, subst, text_eq, eq_of_text_eq,
}
use fin_arch.Transaction.Records.{Account, Services}
use fin_arch.Recurring.Rule.{Rule, ended, Zones}
use fin_arch.Recurring.Tables.{
  Tables, Result, ok, err, concurrent_modification, has_expected, advance_rule, get_rule_by_id,
}
use fin_arch.Recurring.Generate.{Plan, Outcome, was_skipped, commit, end_rule}
use fin_arch.Recurring.Moved.{IsMoved, SameBooks}
use fin_arch.Recurring.Committed.{passed, linked, created, commit_cases}
use fin_arch.Recurring.Edit.{
  create_rule, update_rule, delete_rule, update_rules, has_rule, is_version, rewritten, is_named,
  deleted, initial_version,
}
use fin_arch.Recurring.Versions.{
  Grows, Grows-refl, Grows-advance_rule, Grows-update_rules, is_newer, has_distinct_ids,
  is_newer-advance_rule, has_distinct_ids-Grows, get_rule_by_id-Grows, is_some-get_rule_by_id,
  has_rule-get_rule_by_id, is_newer-Grows,
}

-- What one call does to the tables; `writes` is a call that does not write rules.
pub data Step (u : CaseTable) (z : Zones) : Tables → Tables → Type 0 where
  commits :
      {s s' : Tables}
      → (env : Services) (p : Plan) (k : Text) (o : Outcome) → commit u z env s p k ≡ ok (s', o)
      → Step u z s s'
  stops : {s s' : Tables} → (r : Rule) (o : Outcome) → end_rule u z s r ≡ ok (s', o) → Step u z s s'
  creates :
      {s s' : Tables}
      → (accounts : Text → Option Account) (r : Rule) → create_rule accounts r s ≡ ok s'
      → Step u z s s'
  updates :
      {s s' : Tables}
      → (accounts : Text → Option Account) (r : Rule) → update_rule accounts r s ≡ ok s'
      → Step u z s s'
  deletes : {s s' : Tables} → (k user : Text) → delete_rule k user s ≡ ok s' → Step u z s s'
  writes : {s s' : Tables} → s'.rules ≡ s.rules → Step u z s s'

pub data Reaches (u : CaseTable) (z : Zones) (s : Tables) : Tables → Type 0 where
  stays : Reaches u z s s
  then_step : {s1 s2 : Tables} → Reaches u z s s1 → Step u z s1 s2 → Reaches u z s s2

Grows-IsMoved :
    (z : Zones) (s : Tables) (r : Rule) (date : Text) (s' : Tables)
    → IsMoved z s r date s'
    → Grows s.rules s'.rules
Grows-IsMoved z s r date s' m = subst (Grows s.rules) (sym m.rules_are) (
    Grows-advance_rule r.id r.user_id r.version r.next_run_at m.next.scheduled_at (some date)
      m.status s.rules)

Grows-same : (s s' : Tables) → s'.rules ≡ s.rules → Grows s.rules s'.rules
Grows-same s s' e = subst (Grows s.rules) (sym e) (Grows-refl s.rules)

Grows-commit :
    (u : CaseTable) (z : Zones) (env : Services) (s s' : Tables) (p : Plan) (k : Text) (o : Outcome)
    → commit u z env s p k ≡ ok (s', o)
    → Grows s.rules s'.rules
unfolding SameBooks
Grows-commit u z env s s' p k o h = elim (commit_cases u z env s s' p k o h) [
  | passed e same ↦ Grows-same s s' same.0
  | linked e l ↦ Grows-IsMoved z s p.snapshot p.date s' l.moved
  | created e c ↦ Grows-IsMoved z s p.snapshot p.date s' c.moved
]

-- The rule of an identifier is there, and its versions are beyond a given one.
pub record HasPassed (r : Rule) (s : Tables) : Type 0 where
  pub distinct : has_distinct_ids s.rules ≡ true
  pub newer : is_newer r.id r.version s.rules ≡ true
  pub there : is_some (get_rule_by_id r.id r.user_id s.rules) ≡ true

HasPassed-Grows :
    (r : Rule) (s s' : Tables) → Grows s.rules s'.rules → HasPassed r s → HasPassed r s'
HasPassed-Grows r s s' g h = record {
  distinct = has_distinct_ids-Grows s.rules s'.rules g h.distinct;
  newer = is_newer-Grows r.id r.version s.rules s'.rules g h.newer;
  there = get_rule_by_id-Grows r.id r.user_id s.rules s'.rules g h.there;
}

pub HasPassed-IsMoved :
    (z : Zones) (s : Tables) (r : Rule) (date : Text) (s' : Tables)
    → has_distinct_ids s.rules ≡ true
    → IsMoved z s r date s'
    → HasPassed r s'
HasPassed-IsMoved z s r date s' d m = record {
  distinct = has_distinct_ids-Grows s.rules s'.rules (Grows-IsMoved z s r date s' m) d;
  newer =
      subst (λ rs. is_newer r.id r.version rs ≡ true) (sym m.rules_are)
        (is_newer-advance_rule r.id r.user_id r.version r.next_run_at m.next.scheduled_at
          (some date) m.status s.rules d m.expected);
  there =
      get_rule_by_id-Grows r.id r.user_id s.rules s'.rules (Grows-IsMoved z s r date s' m)
        (is_some-get_rule_by_id r.id r.user_id r.version r.next_run_at s.rules m.expected);
}

Grows-end_rule :
    (u : CaseTable) (z : Zones) (r : Rule) (s s' : Tables) (o : Outcome)
    → end_rule u z s r ≡ ok (s', o)
    → Grows s.rules s'.rules
unfolding end_rule
Grows-end_rule u z r s s' o h =
    let same = is_ended (has_expected r.id r.user_id r.version r.next_run_at s.rules) h in
    subst (Grows s.rules) (sym same) (
      Grows-advance_rule r.id r.user_id r.version r.next_run_at r.next_run_at r.last_generated_for
        ended s.rules)
  where
    after : List Rule
    after =
        advance_rule r.id r.user_id r.version r.next_run_at r.next_run_at r.last_generated_for ended
          s.rules

    is_ended :
        (b : Bool)
        → ◌≡◌ {A = Result (Tables × Outcome)}
            (if b
              then ok (record s { rules = after }, was_skipped)
              else err concurrent_modification)
            (ok (s', o))
        → s'.rules ≡ after
    is_ended true e = ground arith
    is_ended false e = absurd (ground arith)

Grows-update_rule :
    (accounts : Text → Option Account) (r : Rule) (s s' : Tables)
    → update_rule accounts r s ≡ ok s'
    → Grows s.rules s'.rules
unfolding update_rule
Grows-update_rule accounts r s s' h =
    let same : s'.rules ≡ update_rules (is_version r) (rewritten r) s.rules = ground arith in
    subst (Grows s.rules) (sym same)
      (Grows-update_rules (is_version r) (rewritten r) (λ x. (refl, refl, omega arith)) s.rules)

Grows-delete_rule :
    (k user : Text) (s s' : Tables) → delete_rule k user s ≡ ok s' → Grows s.rules s'.rules
unfolding delete_rule
Grows-delete_rule k user s s' h =
    let same : s'.rules ≡ update_rules (is_named k user) deleted s.rules = ground arith in
    subst (Grows s.rules) (sym same)
      (Grows-update_rules (is_named k user) deleted (λ x. (refl, refl, omega arith)) s.rules)

create_rule-inv :
    (accounts : Text → Option Account) (x : Rule) (s s' : Tables)
    → create_rule accounts x s ≡ ok s'
    → (has_rule x.id s.rules ≡ false)
      × (s'.rules ≡ record x { version = initial_version x.version } ∷ s.rules)
unfolding create_rule
create_rule-inv accounts x s s' e = (ground arith, ground arith)

HasPassed-create_rule :
    (accounts : Text → Option Account) (r x : Rule) (s s' : Tables)
    → create_rule accounts x s ≡ ok s'
    → HasPassed r s
    → HasPassed r s'
unfolding has_distinct_ids is_newer get_rule_by_id
HasPassed-create_rule accounts r x s s' e h =
    let (new, added) = create_rule-inv accounts x s s' e in
    let old = has_rule-get_rule_by_id r.id r.user_id s.rules h.there in
    let other = differs (text_eq x.id r.id) (eq_of_text_eq x.id r.id) new old in
    record {
      distinct =
          subst (λ rs. has_distinct_ids rs ≡ true) (sym added) (let d = h.distinct in ground arith);
      newer =
          subst (λ rs. is_newer r.id r.version rs ≡ true) (sym added)
            (let n = h.newer in ground arith);
      there =
          subst (λ rs. is_some (get_rule_by_id r.id r.user_id rs) ≡ true) (sym added)
            (let n = h.there in ground arith);
    }
  where
    differs :
        (b : Bool)
        → (b ≡ true → x.id ≡ r.id)
        → has_rule x.id s.rules ≡ false
        → has_rule r.id s.rules ≡ true
        → b ≡ false
    differs true same new old =
        let both = ap (λ k. has_rule k s.rules) (same refl) in absurd (ground arith)
    differs false same new old = refl

HasPassed-Step :
    (u : CaseTable) (z : Zones) (r : Rule) {s s' : Tables}
    → Step u z s s'
    → HasPassed r s
    → HasPassed r s'
HasPassed-Step u z r (commits env p k o e) h =
    HasPassed-Grows r _ _ (Grows-commit u z env _ _ p k o e) h
HasPassed-Step u z r (stops x o e) h = HasPassed-Grows r _ _ (Grows-end_rule u z x _ _ o e) h
HasPassed-Step u z r (creates accounts x e) h = HasPassed-create_rule accounts r x _ _ e h
HasPassed-Step u z r (updates accounts x e) h =
    HasPassed-Grows r _ _ (Grows-update_rule accounts x _ _ e) h
HasPassed-Step u z r (deletes k user e) h = HasPassed-Grows r _ _ (Grows-delete_rule k user _ _ e) h
HasPassed-Step u z r {s} {s'} (writes e) h = HasPassed-Grows r s s' (Grows-same s s' e) h

pub HasPassed-Reaches :
    (u : CaseTable) (z : Zones) (r : Rule) {s s' : Tables}
    → Reaches u z s s'
    → HasPassed r s
    → HasPassed r s'
HasPassed-Reaches u z r stays h = h
HasPassed-Reaches u z r (then_step runs step) h =
    HasPassed-Step u z r step (HasPassed-Reaches u z r runs h)
