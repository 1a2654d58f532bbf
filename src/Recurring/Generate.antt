-- ===== src/Recurring/Generate.antt =====
-- generateOne, advanceRule and GenerateDue of recurring_service.go. What generateOne does before its
-- database transaction gives a plan, which other calls may overtake; the transaction is one step.
use fin_arch.Base.{
  ℕ, zero, suc, ◌+◌, ◌*◌, Bool, true, false, ◌&&◌, ◌||◌, not, Option, none, some, List, [], ◌∷◌,
  ◌++◌, if◌then◌else◌, is_some, leb, ltb, ◌==◌, Text, text, text_eq, text_lt, is_empty, CaseTable,
  pos,
}
use fin_arch.Calendar.{format_date}
use fin_arch.Money.{finite}
use fin_arch.Transaction.Records.{Request, RateEvidence, Services, Transaction, second}
use fin_arch.Transaction.Records.{
  Result as TransactionResult, ok as transaction_ok, err as transaction_err,
}
use fin_arch.Transaction.Create.{create_transaction}
use fin_arch.Transaction.Prepare.{pre_resolve_rate_evidence}
use fin_arch.Recurring.Rule.{Rule, ended, Occurrence, Zones}
use fin_arch.Recurring.Schedule.{location_for_rule, date_at, next_recurring_occurrence}
use fin_arch.Recurring.Schedule.{Result as ScheduleResult, ok as schedule_ok, err as schedule_err}
use fin_arch.Recurring.Tables.{
  generating, Instance, Tables, rule_missing, inconsistent, already_linked, dangling_link,
  concurrent_modification, not_scheduled, not_created, Result, ok, err, ◌>>=◌, ◌>>◌, require,
  or_fail, is_active, get_rule_by_id, has_expected, advance_rule, claim_instance,
  get_instance_by_occurrence, reclaim_instance, mark_instance_generated, is_key,
  get_by_idempotency_key,
}

-- `recurringIdempotencyKey`
abbrev pub recurring_idempotency_key : Text → Text → Text
recurring_idempotency_key rule date = text "recurring:" ++ (rule ++ (text ":" ++ date))

-- What a call has decided before its database transaction: on which rule and date, whether the
-- transaction was there already, and the rate if it was not.
pub record Plan : Type 0 where
  pub snapshot : Rule
  pub date : Text
  pub preexisting : Bool
  pub resolved_rate : Option RateEvidence

pub data Planned : Type 0 where
  ends : Planned
  rehearses : Planned
  runs : Plan → Planned

-- What a call reports.
pub record Outcome : Type 0 where
  pub is_generated : Bool
  pub is_skipped : Bool

abbrev pub was_skipped : Outcome
was_skipped = record { is_generated = false; is_skipped = true }

abbrev pub was_generated : Outcome
was_generated = record { is_generated = true; is_skipped = false }

abbrev pub of_transaction : TransactionResult Transaction → Result Transaction
of_transaction (transaction_ok t) = ok t
of_transaction (transaction_err e) = err (not_created e)

abbrev pub of_evidence : TransactionResult RateEvidence → Result RateEvidence
of_evidence (transaction_ok t) = ok t
of_evidence (transaction_err e) = err (not_created e)

abbrev pub of_schedule : ScheduleResult Occurrence → Result Occurrence
of_schedule (schedule_ok o) = ok o
of_schedule (schedule_err e) = err (not_scheduled e)

-- Whether a date lies beyond the end of the rule.
abbrev pub is_past_end : Rule → Text → Bool
is_past_end r date = elim r.end_date [
  | none ↦ false
  | some end_date ↦ not (is_empty end_date) && text_lt end_date date
]

-- `validateRecurringTransaction`
abbrev pub is_recurring_transaction : Transaction → Rule → Text → Bool
is_recurring_transaction t r date =
    not (is_empty t.id)
    && text_eq t.user_id r.user_id
    && is_key (recurring_idempotency_key r.id date) t.idempotency_key
    && is_key r.id t.recurring_rule_id
    && is_key date t.recurring_occurrence_date

-- `recurringInstanceMatches`
abbrev pub instance_matches : Instance → Instance → Bool
instance_matches i j =
    not (is_empty i.id)
    && text_eq i.rule_id j.rule_id
    && text_eq i.user_id j.user_id
    && text_eq i.occurrence_date j.occurrence_date
    && text_eq i.idempotency_key j.idempotency_key

-- The request for the transaction of an occurrence.
abbrev pub request_of : Rule → Text → Option RateEvidence → Request
request_of r date evidence = record {
  user_id = r.user_id;
  occurred_at = r.next_run_at * second;
  account_id = r.account_id;
  tx_type = r.tx_type;
  is_expense = false;
  is_personal = false;
  mode = r.mode;
  category = r.category;
  amount_yuan = finite (record { num = pos 0; den = 1 });
  amount_cents = r.amount_cents;
  currency = r.currency;
  exchange_rate = r.exchange_rate;
  note = r.note;
  project_id = r.project_id;
  attachment_key = none;
  idempotency_key = some (recurring_idempotency_key r.id date);
  recurring_rule_id = some r.id;
  recurring_occurrence_date = some date;
  resolved_rate = evidence;
}

-- The services inside the database transaction: the key and the identifier of a transaction that
-- is stored must be new.
abbrev pub has_transaction : Transaction → List Transaction → Bool
has_transaction t [] = false
has_transaction t (x ∷ xs) =
    text_eq x.id t.id
    || (elim t.idempotency_key [ none ↦ false | some k ↦ is_key k x.idempotency_key ])
    || has_transaction t xs

abbrev pub storing : Services → List Transaction → Services
storing env ts = record env { stores = λ t. not (has_transaction t ts) && env.stores t }

abbrev pub instance_of : Rule → Text → Text → Instance
instance_of r date k = record {
  id = k;
  rule_id = r.id;
  user_id = r.user_id;
  occurrence_date = date;
  scheduled_at = r.next_run_at;
  transaction_id = none;
  idempotency_key = recurring_idempotency_key r.id date;
  status = generating;
}

-- Whether the rule in the tables is still the one of the snapshot.
abbrev pub is_current : Rule → Rule → Bool
is_current r cur =
    is_active cur.status && (cur.version == r.version) && (cur.next_run_at == r.next_run_at)

abbrev pub is_linked_elsewhere : Instance → Transaction → Bool
is_linked_elsewhere i t = elim i.transaction_id [ none ↦ false | some k ↦ not (text_eq k t.id) ]

-- The instance to work on, after the claim; none if another call has moved the rule on.
unfoldable pub chosen_instance :
    Tables → Rule → Text → Text → Bool → Result (Tables × Option (Instance × Bool))
chosen_instance s r date k claimed =
    if claimed
    then ok (s, some (instance_of r date k, true))
    else or_fail rule_missing (get_rule_by_id r.id r.user_id s.rules) >>= λ cur.
        if not (is_current r cur)
        then ok (s, none)
        else or_fail inconsistent (get_instance_by_occurrence r.id r.user_id date s.instances)
          >>= λ i.
              require (instance_matches i (instance_of r date k)) inconsistent
              >> ok (s, some (i, false))

unfoldable pub instance_for :
    Tables → Rule → Text → Text → Result (Tables × Option (Instance × Bool))
unfolding chosen_instance
instance_for s r date k =
    claim_instance s (instance_of r date k) r.version r.next_run_at >>= λ (s1, claimed).
    chosen_instance s1 r date k claimed

module _ (u : CaseTable) (z : Zones) where
  -- `advanceRule`
  unfoldable pub move_on : Tables → Rule → Text → Result Tables
  move_on s r date =
      of_schedule (next_recurring_occurrence (location_for_rule z r) r (r.next_run_at + 1))
      >>= λ next.
          let status = if is_past_end r next.occurrence_date then ended else r.status in
          if has_expected r.id r.user_id r.version r.next_run_at s.rules
          then ok (record s {
            rules =
                advance_rule r.id r.user_id r.version r.next_run_at next.scheduled_at (some date)
                  status s.rules;
          })
          else err concurrent_modification

  -- A transaction with the key is there: the instance is linked to it.
  unfoldable pub link_existing :
      Tables → Rule → Text → Instance → Transaction → Result (Tables × Outcome)
  link_existing s r date i t = do
    require (is_recurring_transaction t r date) inconsistent
    require (not (is_linked_elsewhere i t)) already_linked
    s1 ← mark_instance_generated s i.id t.id
    s2 ← move_on s1 r date
    ok (s2, was_skipped)

  -- An instance that this call has not written is taken over.
  unfoldable pub take_over : Tables → Rule → Instance → Bool → Result Tables
  take_over s r i claimed =
      if claimed
      then ok s
      else if is_some i.transaction_id
      then err dangling_link
      else (let (s1, done) = reclaim_instance s i r.version r.next_run_at in
          if done then ok s1 else err concurrent_modification)

  -- No transaction with the key is there: one is created.
  unfoldable pub create_new : Services → Tables → Plan → Instance → Bool → Result (Tables × Outcome)
  create_new env s p i claimed = do
    require (not p.preexisting) concurrent_modification
    s1 ← take_over s p.snapshot i claimed
    t ←
        (of_transaction (
          create_transaction u (storing env s1.transactions)
            (request_of p.snapshot p.date p.resolved_rate)))
    s2 ← mark_instance_generated (record s1 { transactions = t ∷ s1.transactions }) i.id t.id
    s3 ← move_on s2 p.snapshot p.date
    ok (s3, was_generated)

  -- The work on an instance, whichever call wrote it.
  unfoldable pub generate_for :
      Services → Tables → Plan → Option (Instance × Bool) → Result (Tables × Outcome)
  generate_for env s p none = ok (s, was_skipped)
  generate_for env s p (some (i, claimed)) =
      elim (get_by_idempotency_key p.snapshot.user_id
        (recurring_idempotency_key p.snapshot.id p.date) s.transactions) [
          | some t ↦ link_existing s p.snapshot p.date i t
          | none ↦ create_new env s p i claimed
        ]

  -- The database transaction of `generateOne`; `k` is the identifier drawn for the instance.
  unfoldable pub commit : Services → Tables → Plan → Text → Result (Tables × Outcome)
  commit env s p k = instance_for s p.snapshot p.date k >>= λ (s1, work). generate_for env s1 p work

  -- `generateOne` up to its database transaction.
  unfoldable pub plan_one : Services → Tables → Rule → Bool → Result Planned
  plan_one env s r dry_run =
      let date = format_date (date_at (location_for_rule z r) r.next_run_at) in
      if is_past_end r date
      then ok (if dry_run then rehearses else ends)
      else if dry_run
      then ok rehearses
      else elim (get_by_idempotency_key r.user_id (recurring_idempotency_key r.id date)
          s.transactions) [
            | some t ↦
                require (is_recurring_transaction t r date) inconsistent
                >> ok (
                    runs (record {
                      snapshot = r;
                      date = date;
                      preexisting = true;
                      resolved_rate = none;
                    }))
            | none ↦ of_evidence (pre_resolve_rate_evidence u env (request_of r date none)) >>= λ e.
                ok (
                  runs (record {
                    snapshot = r;
                    date = date;
                    preexisting = false;
                    resolved_rate = some e;
                  }))
          ]

  -- A rule past its end is ended, if nothing has changed it.
  unfoldable pub end_rule : Tables → Rule → Result (Tables × Outcome)
  end_rule s r =
      if has_expected r.id r.user_id r.version r.next_run_at s.rules
      then ok (
        record s {
          rules =
              advance_rule r.id r.user_id r.version r.next_run_at r.next_run_at r.last_generated_for
                ended s.rules;
        },
        was_skipped,
      )
      else err concurrent_modification

  unfoldable pub carry_out : Services → Tables → Rule → Text → Planned → Result (Tables × Outcome)
  carry_out env s r k rehearses = ok (s, was_skipped)
  carry_out env s r k ends = end_rule s r
  carry_out env s r k (runs p) = commit env s p k

  -- `generateOne`, if no other call comes in between.
  unfoldable pub generate_one : Services → Tables → Rule → Bool → Text → Result (Tables × Outcome)
  generate_one env s r dry_run k = plan_one env s r dry_run >>= carry_out env s r k

-- `GenerateRecurringResult`
pub record Counts : Type 0 where
  pub generated_count : ℕ
  pub skipped_count : ℕ
  pub failed_count : ℕ

abbrev pub count_outcome : Outcome → Counts → Counts
count_outcome o c = record c {
  generated_count = if o.is_generated then c.generated_count + 1 else c.generated_count;
  skipped_count = if o.is_skipped then c.skipped_count + 1 else c.skipped_count;
}

abbrev pub max_catch_up : ℕ
max_catch_up = 24

module _ (u : CaseTable) (z : Zones) (services : ℕ → Services) (ids : ℕ → Text) (now : ℕ)
    (dry_run : Bool) where
  -- The loop of `GenerateDue` over one rule; the call of number `n` has its own services and
  -- identifier. The rounds that are left start at 24.
  unfoldable pub catch_up : ℕ → ℕ → Tables → Rule → Counts → Tables × Counts
  catch_up zero n s r c = (s, c)
  catch_up (suc left) n s r c =
      if not (is_active r.status && leb r.next_run_at now)
      then (s, c)
      else if not r.catch_up_enabled && ltb (suc left) max_catch_up
      then (s, c)
      else elim (generate_one u z (services n) s r dry_run (ids n)) [
        | err e ↦ (s, record c { failed_count = c.failed_count + 1 })
        | ok (s', o) ↦
            if dry_run
            then (s', count_outcome o c)
            else elim (get_rule_by_id r.id r.user_id s'.rules) [
              | none ↦ (s', count_outcome o c)
              | some fresh ↦ catch_up left (n + 1) s' fresh (count_outcome o c)
            ]
      ]
