-- ===== src/Transaction/Create.antt =====
-- CreateTransaction of transaction_service.go.
use fin_arch.Base.{
  ℕ, Bool, true, false, ◌&&◌, not, none, some, if◌then◌else◌, ℤ, pos, leb_ℤ, eqb_ℤ, Text, text_eq,
  is_empty, CaseTable,
}
use fin_arch.Money.{is_nonzero, cents, validate_transaction_amount_cents, convert_by_rate}
use fin_arch.Money.{ok as money_ok, err as money_err}
use fin_arch.Transaction.Records.{
  Mode, TxType, AccountType, LedgerDir, ReimbStatus, Account, Request, Transaction, Rate, Services,
  Result, ◌>>=◌, ◌>>◌, require, unix, mode_unset, work, life, mode_unknown, type_unset, income,
  expense, transfer, type_unknown, personal, public, debit, credit, not_reimbursable, pending,
  bad_amount_format, amount_not_positive, amount_too_large, no_default_account, no_account,
  account_inactive, bad_mode, bad_type, transfer_unsupported, no_category, conversion_failed,
  evidence_mismatch, store_failed, ok, err,
}
use fin_arch.Transaction.Rates.{
  normalize_occurred_at, normalize_currency, evidence_matches, resolve_rate,
}

-- `validateSourceTransactionAmount`
unfoldable pub validate_source_amount : ℤ → Result (Unit {0})
validate_source_amount amount =
    require (not (leb_ℤ amount (pos 0))) amount_not_positive
    >> elim (validate_transaction_amount_cents amount) as (λ _. Result (Unit {0})) [
      | money_ok _ ↦ ok tt
      | money_err _ ↦ err amount_too_large
    ]

-- The amount in cents, taken from the legacy amount in yuan where only that is given.
abbrev pub given_amount : Request → Result ℤ
given_amount req =
    if eqb_ℤ req.amount_cents (pos 0) && is_nonzero req.amount_yuan
    then (elim (cents req.amount_yuan) as (λ _. Result ℤ) [
      | money_ok c ↦ ok c
      | money_err _ ↦ err bad_amount_format
    ])
    else ok req.amount_cents

unfoldable pub amount_of : Request → Result ℤ
unfolding validate_source_amount
amount_of req = do amount ← given_amount req; validate_source_amount amount; ok amount

-- The type of account that a request without an account means.
abbrev pub default_type : Request → AccountType
default_type req = if req.is_personal then personal else public

abbrev pub mode_of : Mode → Result Mode
mode_of mode_unset = ok work
mode_of work = ok work
mode_of life = ok life
mode_of mode_unknown = err bad_mode

abbrev pub type_of : TxType → Bool → Result TxType
type_of type_unset true = ok expense
type_of type_unset false = ok income
type_of income e = ok income
type_of expense e = ok expense
type_of transfer e = err transfer_unsupported
type_of type_unknown e = err bad_type

abbrev pub direction_of : TxType → LedgerDir
direction_of expense = debit
direction_of _ = credit

-- An expense of a personal account waits for its reimbursement, except in life mode.
abbrev pub reimb_status_of : Mode → TxType → AccountType → ReimbStatus
reimb_status_of life type account = not_reimbursable
reimb_status_of mode expense personal = pending
reimb_status_of mode type account = not_reimbursable

abbrev pub converted : ℤ → Rate → Result ℤ
converted amount rate = elim (convert_by_rate amount rate.value) [
  | money_ok c ↦ ok c
  | money_err _ ↦ err conversion_failed
]

module _ (u : CaseTable) where
  -- The account that a request names, which has to be the user's, or the default one.
  unfoldable pub account_of : Services → Request → Result Account
  account_of env req =
      let chosen : Result Account =
        if is_empty req.account_id
        then (elim (env.account_of_type req.user_id (default_type req)) as (λ _. Result Account) [
          | none ↦ err no_default_account
          | some a ↦ ok a
        ])
        else (elim (env.account_by_id req.account_id) as (λ _. Result Account) [
          | none ↦ err no_account
          | some a ↦ if text_eq a.user_id req.user_id then ok a else err no_account
        ]) in
      chosen >>= λ a. require a.is_active account_inactive >> ok a

  -- The rate of a transaction: that of the evidence, if there is one, which then has to match.
  unfoldable pub rate_of : Services → Request → Text → Text → Text → ℕ → Result Rate
  unfolding evidence_matches resolve_rate
  rate_of env req account from base occurred_at = elim req.resolved_rate [
    | some e ↦
        if evidence_matches u e req.user_id account from base occurred_at
        then ok (record { value = e.rate; source = e.source; at = e.rate_at })
        else err evidence_mismatch
    | none ↦ resolve_rate u env req.user_id from base occurred_at req.exchange_rate
  ]

  -- The record that `CreateTransaction` stores.
  abbrev pub transaction_of :
      Services → Request → ℤ → Text → Mode → TxType → Account → ℕ → Rate → ℤ → Transaction
  transaction_of env req amount currency mode type account occurred_at rate base = record {
    id = env.new_id;
    user_id = req.user_id;
    ledger_dir = direction_of type;
    tx_type = type;
    account_id = account.id;
    account_type = account.type;
    amount_cents = amount;
    currency = currency;
    exchange_rate = rate.value;
    exchange_rate_source = rate.source;
    exchange_rate_at = unix rate.at;
    base_currency = normalize_currency u account.currency;
    base_amount_cents = base;
    category = req.category;
    reimb_status = reimb_status_of mode type account.type;
    mode = mode;
    note = req.note;
    project_id = req.project_id;
    attachment_key = req.attachment_key;
    idempotency_key = req.idempotency_key;
    recurring_rule_id = req.recurring_rule_id;
    recurring_occurrence_date = req.recurring_occurrence_date;
    transaction_time = unix occurred_at;
  }

  -- `CreateTransaction`
  unfoldable pub create_transaction : Services → Request → Result Transaction
  unfolding amount_of account_of rate_of normalize_currency normalize_occurred_at
  create_transaction env req = do
    amount ← amount_of req
    mode ← mode_of req.mode
    type ← type_of req.tx_type req.is_expense
    account ← account_of env req
    require (not (is_empty req.category)) no_category
    rate ←
        (rate_of env req account.id (normalize_currency u req.currency)
          (normalize_currency u account.currency) (normalize_occurred_at env.now req.occurred_at))
    base ← converted amount rate
    let t =
        transaction_of env req amount (normalize_currency u req.currency) mode type account
          (normalize_occurred_at env.now req.occurred_at) rate base
    require (env.stores t) store_failed
    ok t
