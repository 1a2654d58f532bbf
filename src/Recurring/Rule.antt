-- ===== src/Recurring/Rule.antt =====
-- The data of a recurring rule, internal/domain/model/recurring.go.
use fin_arch.Base.{ℕ, Bool, Option, ℤ, Text}
use fin_arch.Calendar.{Location}
use fin_arch.Money.{Float}
use fin_arch.Transaction.Records.{Mode, TxType}

pub data Frequency : Type 0 where
  frequency_unset daily weekly monthly yearly frequency_unknown : Frequency

pub data RuleStatus : Type 0 where
  active paused ended : RuleStatus

pub data MonthEndPolicy : Type 0 where
  clamp skip : MonthEndPolicy

-- `RecurringTransactionRule`, without its times of creation and update. The days are what
-- `normalizeRule` lets through: 0 to 6 for the week, 1 to 31 for the month.
pub record Rule : Type 0 where
  pub id : Text
  pub user_id : Text
  pub mode : Mode
  pub name : Text
  pub status : RuleStatus
  pub account_id : Text
  pub tx_type : TxType
  pub category : Text
  pub amount_cents : ℤ
  pub currency : Text
  pub exchange_rate : Float
  pub note : Text
  pub project_id : Option Text
  pub frequency : Frequency
  pub interval : ℕ
  pub start_date : Text
  pub end_date : Option Text
  pub time_of_day : Text
  pub timezone : Text
  pub day_of_week : Option ℕ
  pub day_of_month : Option ℕ
  pub month_end_policy : MonthEndPolicy
  pub next_run_at : ℕ
  pub last_generated_for : Option Text
  pub catch_up_enabled : Bool
  pub version : ℕ

-- `RecurringOccurrence`
pub record Occurrence : Type 0 where
  pub occurrence_date : Text
  pub scheduled_at : ℕ

-- `time.Local`, and `time.LoadLocation` for the other names.
pub record Zones : Type 0 where
  pub local : Location
  pub load : Text → Option Location
