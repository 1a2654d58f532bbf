-- ===== src/Recurring/Edit.antt =====
-- What users do to rules: the statements CreateRule, UpdateRule, DeleteRule and ListDueRules of
-- recurring_sqlite.go, and SetStatus, PreviewOccurrences, GenerateDue and GenerateRuleNow of
-- recurring_service.go.
use fin_arch.Base.{
  ℕ, zero, suc, ◌+◌, ◌-◌, Bool, true, false, ◌&&◌, ◌||◌, not, Option, none, some, List, [], ◌∷◌,
  if◌then◌else◌, ltb, leb, ◌==◌, take, Text, text_eq, text_lt, CaseTable,
}
use fin_arch.Transaction.Records.{
  Mode, work, life, Account, AccountType, personal, public, Services,
}
use fin_arch.Recurring.Rule.{Rule, RuleStatus, active, paused, ended, Occurrence, Zones}
use fin_arch.Recurring.Schedule.{location_for_rule, rule_start_time, next_recurring_occurrence}
use fin_arch.Recurring.Schedule.{Result as ScheduleResult, ok as schedule_ok, err as schedule_err}
use fin_arch.Recurring.Tables.{
  Tables, rule_missing, concurrent_modification, constraint, unfit_account, not_scheduled, Result,
  ok, err, ◌>>=◌, ◌>>◌, require, or_fail, is_active, get_rule_by_id,
}
use fin_arch.Recurring.Generate.{
  of_schedule, is_past_end, Outcome, Counts, max_catch_up, catch_up, generate_one,
}

abbrev pub mode_fits : Mode → AccountType → Bool
mode_fits work public = true
mode_fits life personal = true
mode_fits _ _ = false

abbrev pub is_owned : Rule → Account → Bool
is_owned r a = text_eq a.user_id r.user_id && a.is_active

-- The condition on accounts of the statements that write a rule.
abbrev pub account_fits : (Text → Option Account) → Rule → Bool
account_fits accounts r = elim (accounts r.account_id) [
  | none ↦ false
  | some a ↦ is_owned r a && mode_fits r.mode a.type
]

abbrev pub has_rule : Text → List Rule → Bool
has_rule k [] = false
has_rule k (r ∷ rs) = text_eq r.id k || has_rule k rs

-- `initialRecurringVersion`
abbrev pub initial_version : ℕ → ℕ
initial_version zero = 1
initial_version (suc n) = suc n

-- `CreateRule`; the identifier is the primary key.
unfoldable pub create_rule : (Text → Option Account) → Rule → Tables → Result Tables
create_rule accounts r s =
    if not (account_fits accounts r)
    then err unfit_account
    else if has_rule r.id s.rules
    then err constraint
    else ok (record s { rules = record r { version = initial_version r.version } ∷ s.rules })

abbrev pub is_version : Rule → Rule → Bool
is_version r x = text_eq x.id r.id && text_eq x.user_id r.user_id && (x.version == r.version)

abbrev pub any_rule : (Rule → Bool) → List Rule → Bool
any_rule p [] = false
any_rule p (r ∷ rs) = p r || any_rule p rs

-- The rules after an update of those that a test picks.
unfoldable pub update_rules : (Rule → Bool) → (Rule → Rule) → List Rule → List Rule
update_rules p f [] = []
update_rules p f (r ∷ rs) = (if p r then f r else r) ∷ update_rules p f rs

-- The new columns of a rule.
abbrev pub rewritten : Rule → Rule → Rule
rewritten r x = record r { id = x.id; user_id = x.user_id; version = x.version + 1 }

-- `UpdateRule`
unfoldable pub update_rule : (Text → Option Account) → Rule → Tables → Result Tables
unfolding update_rules
update_rule accounts r s =
    if account_fits accounts r && any_rule (is_version r) s.rules
    then ok (record s { rules = update_rules (is_version r) (rewritten r) s.rules })
    else err concurrent_modification

abbrev pub is_named : Text → Text → Rule → Bool
is_named k user x = text_eq x.id k && text_eq x.user_id user

abbrev pub deleted : Rule → Rule
deleted x = record x { status = ended; version = x.version + 1 }

-- `DeleteRule`
unfoldable pub delete_rule : Text → Text → Tables → Result Tables
unfolding update_rules
delete_rule k user s =
    if any_rule (is_named k user) s.rules
    then ok (record s { rules = update_rules (is_named k user) deleted s.rules })
    else err rule_missing

-- The order of `ListDueRules`
abbrev pub runs_before : Rule → Rule → Bool
runs_before r x =
    ltb r.next_run_at x.next_run_at || ((r.next_run_at == x.next_run_at) && not (text_lt x.id r.id))

unfoldable pub insert_rule : Rule → List Rule → List Rule
insert_rule r [] = r ∷ []
insert_rule r (x ∷ xs) = if runs_before r x then r ∷ x ∷ xs else x ∷ insert_rule r xs

abbrev pub is_due : ℕ → Rule → Bool
is_due now r = is_active r.status && leb r.next_run_at now

unfoldable pub due_rules : ℕ → List Rule → List Rule
unfolding insert_rule
due_rules now [] = []
due_rules now (r ∷ rs) =
    let rest = due_rules now rs in if is_due now r then insert_rule r rest else rest

abbrev pub limit_of : ℕ → ℕ
limit_of limit = if limit == 0 then 100 else limit

-- `ListDueRules`, 0 for a limit that is not positive.
unfoldable pub list_due_rules : ℕ → ℕ → Tables → List Rule
unfolding due_rules
list_due_rules now limit s = take (limit_of limit) (due_rules now s.rules)

-- `validateRuleAccount`, in a service that has the repository of accounts.
abbrev pub validate_rule_account : (Text → Option Account) → Rule → Result (Unit {0})
validate_rule_account accounts r = elim (accounts r.account_id) [
  | none ↦ err unfit_account
  | some a ↦ require (is_owned r a) unfit_account >> (elim r.mode [
    | work ↦ require (mode_fits work a.type) unfit_account
    | life ↦ require (mode_fits life a.type) unfit_account
    | _ ↦ ok tt
  ])
]

-- The number of occurrences, 0 for a count that is not positive.
abbrev pub preview_count : ℕ → ℕ
preview_count count = if (count == 0) || ltb 12 count then 5 else count

abbrev pub of_start : ScheduleResult ℕ → Result ℕ
of_start (schedule_ok t) = ok t
of_start (schedule_err e) = err (not_scheduled e)

module _ (z : Zones) where
  abbrev pub scheduled_from : Rule → ℕ → Result Rule
  scheduled_from r now =
      of_schedule (next_recurring_occurrence (location_for_rule z r) r now) >>= λ next.
      ok (record r { next_run_at = next.scheduled_at })

  -- The rule that `SetStatus` writes.
  unfoldable pub with_status : (Text → Option Account) → ℕ → RuleStatus → Rule → Result Rule
  with_status accounts now active r =
      validate_rule_account accounts r >> scheduled_from (record r { status = active }) now
  with_status accounts now paused r = ok (record r { status = paused })
  with_status accounts now ended r = ok (record r { status = ended })

  -- `SetStatus`; the type of statuses has no other.
  unfoldable pub set_status :
      (Text → Option Account) → ℕ → Text → Text → RuleStatus → Tables → Result (Tables × Rule)
  set_status accounts now user k status s =
      or_fail rule_missing (get_rule_by_id k user s.rules) >>= λ r.
      with_status accounts now status r >>= λ r1.
      update_rule accounts r1 s >>= λ s1. ok (s1, record r1 { version = r1.version + 1 })

  -- The loop of `PreviewOccurrences`, with the rounds that are left.
  unfoldable pub preview_from : ℕ → Rule → ℕ → Result (List Occurrence)
  preview_from zero r cursor = ok []
  preview_from (suc left) r cursor =
      of_schedule (next_recurring_occurrence (location_for_rule z r) r cursor) >>= λ next.
      elim (is_past_end r next.occurrence_date) [
        | true ↦ ok []
        | false ↦ preview_from left r (next.scheduled_at + 1) >>= λ rest. ok (next ∷ rest)
      ]

  -- `PreviewOccurrences`
  unfoldable pub preview_occurrences : Rule → ℕ → Result (List Occurrence)
  unfolding preview_from
  preview_occurrences r count =
      if r.next_run_at == 0
      then (of_start (rule_start_time (location_for_rule z r) r) >>= λ start.
          preview_from (preview_count count) r (start - 1))
      else preview_from (preview_count count) r r.next_run_at

module _ (u : CaseTable) (z : Zones) (services : ℕ → ℕ → Services) (ids : ℕ → ℕ → Text) (now : ℕ)
    (dry_run : Bool) where
  -- The loop of `GenerateDue` over the rules; the rule of number `n` has its own services.
  unfoldable pub generate_all : ℕ → List Rule → Tables → Counts → Tables × Counts
  generate_all n [] s c = (s, c)
  generate_all n (r ∷ rs) s c =
      let (s1, c1) = catch_up u z (services n) (ids n) now dry_run max_catch_up 0 s r c in
      generate_all (n + 1) rs s1 c1

  -- `GenerateDue`
  unfoldable pub generate_due : ℕ → Tables → Tables × Counts
  unfolding generate_all
  generate_due limit s =
      generate_all 0 (list_due_rules now (limit_of limit) s) s
        (record { generated_count = 0; skipped_count = 0; failed_count = 0 })

-- `GenerateRuleNow`
unfoldable pub generate_rule_now :
    CaseTable → Zones → Services → Text → Text → Bool → Text → Tables → Result (Tables × Outcome)
generate_rule_now u z env user k dry_run id s =
    or_fail rule_missing (get_rule_by_id k user s.rules) >>= λ r.
    generate_one u z env s r dry_run id
