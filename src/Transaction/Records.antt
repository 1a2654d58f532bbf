-- ===== src/Transaction/Records.antt =====
-- The data of transaction_service.go: requests, accounts, transactions, evidence of rates, and the
-- services that it is given.
use fin_arch.Base.{ℕ, ◌/◌, Bool, true, false, Option, ℤ, pos, ◌-ℤ◌, Text}
use fin_arch.Money.{Float}

pub data Mode : Type 0 where
  mode_unset work life mode_unknown : Mode

pub data TxType : Type 0 where
  type_unset income expense transfer type_unknown : TxType

pub data AccountType : Type 0 where
  personal public : AccountType

pub data LedgerDir : Type 0 where
  debit credit : LedgerDir

pub data ReimbStatus : Type 0 where
  not_reimbursable pending : ReimbStatus

-- The fields of `model.Account` that the service reads.
pub record Account : Type 0 where
  pub id : Text
  pub user_id : Text
  pub type : AccountType
  pub currency : Text
  pub is_active : Bool

-- `resolvedTransactionRateEvidence`
pub record RateEvidence : Type 0 where
  pub user_id : Text
  pub account_id : Text
  pub from_currency : Text
  pub base_currency : Text
  pub occurred_at_unix : ℤ
  pub rate : Float
  pub source : Text
  pub rate_at : ℕ

-- `CreateTransactionRequest`; `is_expense` and `is_personal` are the tests on its direction and its
-- source.
pub record Request : Type 0 where
  pub user_id : Text
  pub occurred_at : ℕ
  pub account_id : Text
  pub tx_type : TxType
  pub is_expense : Bool
  pub is_personal : Bool
  pub mode : Mode
  pub category : Text
  pub amount_yuan : Float
  pub amount_cents : ℤ
  pub currency : Text
  pub exchange_rate : Float
  pub note : Text
  pub project_id : Option Text
  pub attachment_key : Option Text
  pub idempotency_key : Option Text
  pub recurring_rule_id : Option Text
  pub recurring_occurrence_date : Option Text
  pub resolved_rate : Option RateEvidence

-- The fields of `model.Transaction` that `CreateTransaction` sets, but for the ones that say the
-- same in another form (the amount in yuan, the date, the direction, the source) and for the flags
-- and times that it sets to fixed values or to the clock.
pub record Transaction : Type 0 where
  pub id : Text
  pub user_id : Text
  pub ledger_dir : LedgerDir
  pub tx_type : TxType
  pub account_id : Text
  pub account_type : AccountType
  pub amount_cents : ℤ
  pub currency : Text
  pub exchange_rate : Float
  pub exchange_rate_source : Text
  pub exchange_rate_at : ℤ
  pub base_currency : Text
  pub base_amount_cents : ℤ
  pub category : Text
  pub reimb_status : ReimbStatus
  pub mode : Mode
  pub note : Text
  pub project_id : Option Text
  pub attachment_key : Option Text
  pub idempotency_key : Option Text
  pub recurring_rule_id : Option Text
  pub recurring_occurrence_date : Option Text
  pub transaction_time : ℤ

-- A rate with its source and its time.
pub record Rate : Type 0 where
  pub value : Float
  pub source : Text
  pub at : ℕ

-- What the service is given: `rates` is none where there is no rate service, whose answers are none
-- where it fails; `recent_rate` is `GetRecentRate`, with its time in Unix seconds, 0 for none.
pub record Services : Type 0 where
  pub has_accounts : Bool
  pub account_of_type : Text → AccountType → Option Account
  pub account_by_id : Text → Option Account
  pub rates : Option (Text → Text → ℕ → Option Rate)
  pub recent_rate : Text → Text → Text → Option Rate
  pub now : ℕ
  pub new_id : Text
  pub stores : Transaction → Bool

pub data Error : Type 0 where
  bad_amount_format amount_not_positive amount_too_large : Error
  no_default_account no_account account_inactive : Error
  bad_mode bad_type transfer_unsupported no_category : Error
  no_rate conversion_failed bad_evidence evidence_mismatch store_failed : Error

pub data Result (A : Type 0) : Type 0 where
  ok : A → Result A
  err : Error → Result A

infixl 5 ◌>>=◌ ◌>>◌
abbrev pub ◌>>=◌ : {A B : Type 0} → Result A → (A → Result B) → Result B
ok a >>= f = f a
err e >>= f = err e

abbrev pub ◌>>◌ : {A B : Type 0} → Result A → Result B → Result B
m >> k = m >>= λ _. k

-- An error unless the condition holds.
abbrev pub require : Bool → Error → Result (Unit {0})
require true e = ok tt
require false e = err e

abbrev pub second : ℕ
second = 1_000_000_000

-- `time.Time.Unix`: Go's zero time is 62135596800 seconds before the Unix epoch.
abbrev pub unix : ℕ → ℤ
unix t = pos (t / second) -ℤ pos 62_135_596_800
