-- ===== src/Recurring/Tests/Calls.antt =====
-- The theorems on calls for a daily rule in UTC.
use fin_arch.Base.{
  ◌≡◌, refl, true, false, none, some, List, [], ◌∷◌, if◌then◌else◌, text, text_eq, ascii_table, inl,
  trim_space, trim_left, trim_right, is_space, to_upper, upper_rune, ◌-ℤ◌, text_lt, length, ◌≤◌,
}
use fin_arch.Calendar.{utc}
use fin_arch.Transaction.Records.{Account, Services, public}
use fin_arch.Transaction.Create.{
  create_transaction, amount_of, validate_source_amount, account_of, rate_of,
}
use fin_arch.Transaction.Rates.{resolve_rate, normalize_currency, normalize_occurred_at}
use fin_arch.Money.{
  convert_by_rate, convert_cents_by_rate, validate_transaction_amount_cents, round_rat_to_int64,
  round_quotient,
}
use fin_arch.Recurring.Rule.{Rule, daily, Zones, paused, Occurrence}
use fin_arch.Recurring.Tables.{
  Tables, Result, ok, err, concurrent_modification, advance_rule, claim_instance, get_rule_by_id,
  get_instance_by_occurrence, reclaim_instance, mark_instance_generated, get_by_idempotency_key,
  update_instances,
}
use fin_arch.Recurring.Generate.{Plan, Outcome, was_generated, was_skipped, commit}
use fin_arch.Recurring.Runs.{stays, then_step, writes}
use fin_arch.Recurring.Once.{generated_once}
use fin_arch.Recurring.Status.{set_status-unfit}
use fin_arch.Recurring.Preview.{preview_occurrences_lem}
use fin_arch.Recurring.Preview.{IsRising}
use fin_arch.Recurring.Schedule.{location_for_rule, next_recurring_occurrence, find_occurrence}
use fin_arch.Recurring.Generate.{
  instance_for, chosen_instance, generate_for, create_new, link_existing, take_over, move_on,
}
use fin_arch.Recurring.Versions.{has_distinct_ids}
use fin_arch.Recurring.Edit.{
  set_status, delete_rule, update_rules, is_named, deleted, preview_occurrences, preview_from,
}
use fin_arch.Recurring.Tests.{rule, calendar}

abbrev zones : Zones
zones = record { local = utc; load = λ name. none }

abbrev wallet : Account
wallet = record {
  id = text "a";
  user_id = text "u";
  type = public;
  currency = text "CNY";
  is_active = true;
}

abbrev services : Services
services = record {
  has_accounts = true;
  account_of_type = λ user type. some wallet;
  account_by_id = λ id. if text_eq id (text "a") then some wallet else none;
  rates = none;
  recent_rate = λ user from to. none;
  now = 63_900_000_000_000_000_000;
  new_id = text "t";
  stores = λ t. true;
}

abbrev rent : Rule
rent = record (rule daily (text "2010-01-01") none none) { next_run_at = 63397933200 }

abbrev tables : Tables
tables = record { rules = rent ∷ []; instances = []; transactions = [] }

abbrev plan : Plan
plan = record {
  snapshot = rent;
  date = text "2010-01-01";
  preexisting = false;
  resolved_rate = none;
}

abbrev tables_of : Result (Tables × Outcome) → Tables
tables_of (ok (s, o)) = s
tables_of (err e) = tables

abbrev other_plan : Plan
other_plan = record plan { date = text "2010-01-02"; preexisting = true }

abbrev outcome : Result (Tables × Outcome)
outcome = commit ascii_table zones services tables plan (text "i")

creating : Unit {0}
unfolding create_transaction amount_of validate_source_amount account_of rate_of resolve_rate
    normalize_currency normalize_occurred_at trim_space trim_left trim_right is_space to_upper
    upper_rune text_eq convert_by_rate convert_cents_by_rate validate_transaction_amount_cents
    round_rat_to_int64 round_quotient ◌-ℤ◌
creating = tt

generates : outcome ≡ ok (tables_of outcome, was_generated)
unfolding creating calendar commit instance_for chosen_instance claim_instance generate_for
    create_new link_existing take_over move_on mark_instance_generated reclaim_instance
    update_instances get_by_idempotency_key get_instance_by_occurrence get_rule_by_id advance_rule
    location_for_rule next_recurring_occurrence find_occurrence text_lt
generates = refl

generated_once_example :
    commit ascii_table zones services
      (record (tables_of outcome) { transactions = [] })
      other_plan
      (text "j")
    ≡ ok (record (tables_of outcome) { transactions = [] }, was_skipped)
unfolding has_distinct_ids
generated_once_example =
    generated_once ascii_table zones services services tables (tables_of outcome)
      (record (tables_of outcome) { transactions = [] }) plan other_plan (text "i") (text "j") refl
      generates (then_step stays (writes refl)) refl

set_status-unfit_example :
    (set_status zones
        (λ k. some (record wallet { is_active = false }))
        0
        (text "u")
        (text "r")
        paused
        tables
      ≡ err concurrent_modification)
    × (delete_rule (text "r") (text "u") tables
        ≡ ok (record tables {
          rules = update_rules (is_named (text "r") (text "u")) deleted (rent ∷ []);
        }))
unfolding get_rule_by_id text_eq
set_status-unfit_example =
    set_status-unfit zones (λ k. some (record wallet { is_active = false })) 0 (text "u") (text "r")
      paused tables rent (inl refl) refl refl

abbrev preview : Result (List Occurrence)
preview = preview_occurrences zones rent 2

abbrev list_of : Result (List Occurrence) → List Occurrence
list_of (ok os) = os
list_of (err e) = []

lists : preview ≡ ok (list_of preview)
unfolding calendar trim_space trim_left trim_right is_space text_eq location_for_rule
    preview_occurrences preview_from next_recurring_occurrence find_occurrence
lists = refl

preview_occurrences_lem_example :
    (length (list_of preview) ≤ 12) × IsRising rent rent.next_run_at (list_of preview)
preview_occurrences_lem_example = preview_occurrences_lem zones rent 2 (list_of preview) lists
