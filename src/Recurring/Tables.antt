-- ===== src/Recurring/Tables.antt =====
-- The tables of recurring transactions: the statements of recurring_sqlite.go, and
-- GetByIdempotencyKey of transaction_sqlite.go. A failed statement is an error; the other failures
-- of the engine are left out.
use fin_arch.Base.{
  ℕ, ◌+◌, Bool, true, false, ◌&&◌, ◌||◌, not, Option, none, some, List, [], ◌∷◌, if◌then◌else◌,
  is_some, ◌==◌, Text, text_eq,
}
use fin_arch.Recurring.Rule.{Rule, RuleStatus, active, paused, ended}
use fin_arch.Recurring.Schedule.{Failure}
use fin_arch.Transaction.Records.{Transaction}
use fin_arch.Transaction.Records.{Error as TransactionError}

pub data InstanceStatus : Type 0 where
  generating generated skipped failed : InstanceStatus

-- `RecurringTransactionInstance`, without its error text and its times.
pub record Instance : Type 0 where
  pub id : Text
  pub rule_id : Text
  pub user_id : Text
  pub occurrence_date : Text
  pub scheduled_at : ℕ
  pub transaction_id : Option Text
  pub idempotency_key : Text
  pub status : InstanceStatus

pub record Tables : Type 0 where
  pub rules : List Rule
  pub instances : List Instance
  pub transactions : List Transaction

pub data Error : Type 0 where
  rule_missing inconsistent instance_taken already_linked dangling_link : Error
  concurrent_modification constraint unfit_account : Error
  not_scheduled : Failure → Error
  not_created : TransactionError → Error

pub data Result (A : Type 0) : Type 0 where
  ok : A → Result A
  err : Error → Result A

infixl 5 ◌>>=◌ ◌>>◌
abbrev pub ◌>>=◌ : {A B : Type 0} → Result A → (A → Result B) → Result B
ok a >>= f = f a
err e >>= f = err e

abbrev pub require : Bool → Error → Result (Unit {0})
require true e = ok tt
require false e = err e

abbrev pub ◌>>◌ : {B : Type 0} → Result (Unit {0}) → Result B → Result B
m >> k = m >>= λ _. k

abbrev pub or_fail : {A : Type 0} → Error → Option A → Result A
or_fail e none = err e
or_fail e (some a) = ok a

abbrev pub is_active : RuleStatus → Bool
is_active active = true
is_active paused = false
is_active ended = false

-- `GetRuleByID`
unfoldable pub get_rule_by_id : Text → Text → List Rule → Option Rule
get_rule_by_id k user [] = none
get_rule_by_id k user (r ∷ rs) =
    if text_eq r.id k && text_eq r.user_id user then some r else get_rule_by_id k user rs

-- The condition of the statements that expect a version and a schedule.
abbrev pub is_expected : Text → Text → ℕ → ℕ → Rule → Bool
is_expected k user version next_run_at r =
    text_eq r.id k
    && text_eq r.user_id user
    && is_active r.status
    && (r.next_run_at == next_run_at)
    && (r.version == version)

abbrev pub has_expected : Text → Text → ℕ → ℕ → List Rule → Bool
has_expected k user version next_run_at [] = false
has_expected k user version next_run_at (r ∷ rs) =
    is_expected k user version next_run_at r || has_expected k user version next_run_at rs

-- The new columns of a rule that is advanced.
abbrev pub advanced : RuleStatus → ℕ → Option Text → Rule → Rule
advanced status next_run_at last r = record r {
  status = status;
  next_run_at = next_run_at;
  last_generated_for = last;
  version = r.version + 1;
}

-- `AdvanceRule`: the rules after it; it has advanced one if there was an expected one.
unfoldable pub advance_rule :
    Text → Text → ℕ → ℕ → ℕ → Option Text → RuleStatus → List Rule → List Rule
advance_rule k user version expected next last status [] = []
advance_rule k user version expected next last status (r ∷ rs) =
    (if is_expected k user version expected r then advanced status next last r else r)
    ∷ advance_rule k user version expected next last status rs

abbrev pub is_for : Text → Text → Instance → Bool
is_for rule date i = text_eq i.rule_id rule && text_eq i.occurrence_date date

abbrev pub any_instance : (Instance → Bool) → List Instance → Bool
any_instance p [] = false
any_instance p (i ∷ is) = p i || any_instance p is

-- `ClaimInstance`: the row is written if the rule is the expected one and no row has its rule and
-- date; the other keys must not be taken.
unfoldable pub claim_instance : Tables → Instance → ℕ → ℕ → Result (Tables × Bool)
claim_instance s i version next_run_at =
    if not (has_expected i.rule_id i.user_id version next_run_at s.rules)
      || any_instance (is_for i.rule_id i.occurrence_date) s.instances
    then ok (s, false)
    else if any_instance (λ j. text_eq j.id i.id || text_eq j.idempotency_key i.idempotency_key)
        s.instances
    then err constraint
    else ok (record s { instances = i ∷ s.instances }, true)

-- `GetInstanceByOccurrence`
unfoldable pub get_instance_by_occurrence : Text → Text → Text → List Instance → Option Instance
get_instance_by_occurrence rule user date [] = none
get_instance_by_occurrence rule user date (i ∷ is) =
    if is_for rule date i && text_eq i.user_id user
    then some i
    else get_instance_by_occurrence rule user date is

-- The rows after an update of those that a test picks.
unfoldable pub update_instances :
    (Instance → Bool) → (Instance → Instance) → List Instance → List Instance
update_instances p f [] = []
update_instances p f (i ∷ is) = (if p i then f i else i) ∷ update_instances p f is

abbrev pub is_open : InstanceStatus → Bool
is_open generating = true
is_open failed = true
is_open generated = false
is_open skipped = false

-- The row that `ReclaimInstance` may take over.
abbrev pub is_reclaimable : Instance → Instance → Bool
is_reclaimable i j =
    text_eq j.id i.id
    && text_eq j.rule_id i.rule_id
    && text_eq j.user_id i.user_id
    && text_eq j.occurrence_date i.occurrence_date
    && (j.scheduled_at == i.scheduled_at)
    && text_eq j.idempotency_key i.idempotency_key
    && not (is_some j.transaction_id)
    && is_open j.status

-- `ReclaimInstance`
unfoldable pub reclaim_instance : Tables → Instance → ℕ → ℕ → Tables × Bool
unfolding update_instances
reclaim_instance s i version next_run_at =
    if has_expected i.rule_id i.user_id version next_run_at s.rules
      && any_instance (is_reclaimable i) s.instances
    then (
      record s {
        instances =
            update_instances (is_reclaimable i)
              (λ j. record j { scheduled_at = next_run_at; status = generating }) s.instances;
      },
      true,
    )
    else (s, false)

abbrev pub has_id : Text → Instance → Bool
has_id k i = text_eq i.id k

-- `MarkInstanceGenerated`
unfoldable pub mark_instance_generated : Tables → Text → Text → Result Tables
unfolding update_instances
mark_instance_generated s k transaction =
    if any_instance (has_id k) s.instances
    then ok (record s {
      instances =
          update_instances (has_id k)
            (λ j. record j { status = generated; transaction_id = some transaction }) s.instances;
    })
    else err constraint

abbrev pub is_key : Text → Option Text → Bool
is_key k none = false
is_key k (some j) = text_eq j k

-- `GetByIdempotencyKey`
unfoldable pub get_by_idempotency_key : Text → Text → List Transaction → Option Transaction
get_by_idempotency_key user k [] = none
get_by_idempotency_key user k (t ∷ ts) =
    if text_eq t.user_id user && is_key k t.idempotency_key
    then some t
    else get_by_idempotency_key user k ts
