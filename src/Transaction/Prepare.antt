-- ===== src/Transaction/Prepare.antt =====
-- PrepareCreateTransaction of transaction_service.go.
use fin_arch.Base.{
  ◌&&◌, not, none, some, if◌then◌else◌, ℤ, Text, text_eq, is_empty, trim_space, CaseTable,
}
use fin_arch.Transaction.Records.{
  Account, RateEvidence, Request, Services, Result, ◌>>=◌, ◌>>◌, require, unix, no_default_account,
  no_account, account_inactive, bad_evidence, ok, err,
}
use fin_arch.Transaction.Rates.{
  normalize_occurred_at, normalize_currency, evidence_matches, resolve_rate,
}
use fin_arch.Transaction.Create.{amount_of, default_type, converted}

module _ (u : CaseTable) where
  -- `preResolveRateEvidence`
  unfoldable pub pre_resolve_rate_evidence : Services → Request → Result RateEvidence
  unfolding resolve_rate evidence_matches normalize_currency normalize_occurred_at
  pre_resolve_rate_evidence env req = do
    require (env.has_accounts && not (is_empty (trim_space req.account_id))) no_account
    account ← (elim (env.account_by_id req.account_id) as (λ _. Result Account) [
      | none ↦ err no_account
      | some a ↦ if text_eq a.user_id req.user_id then ok a else err no_account
    ])
    require account.is_active account_inactive
    let from = normalize_currency u req.currency
    let base = normalize_currency u account.currency
    let occurred_at = normalize_occurred_at env.now req.occurred_at
    rate ← resolve_rate u env req.user_id from base occurred_at req.exchange_rate
    converted req.amount_cents rate
    let e : RateEvidence = record {
      user_id = req.user_id;
      account_id = req.account_id;
      from_currency = from;
      base_currency = base;
      occurred_at_unix = unix occurred_at;
      rate = rate.value;
      source = rate.source;
      rate_at = rate.at;
    }
    require (evidence_matches u e req.user_id req.account_id from base occurred_at) bad_evidence
    ok e

  -- The account that a request without one is given when it is prepared.
  unfoldable pub prepared_account : Services → Request → Result Text
  prepared_account env req =
      if not (is_empty (trim_space req.account_id))
      then ok req.account_id
      else elim (env.account_of_type req.user_id (default_type req)) [
        | none ↦ err no_default_account
        | some a ↦
            if not (text_eq a.user_id req.user_id)
            then err no_account
            else (if a.is_active then ok a.id else err account_inactive)
      ]

  -- The request with what its preparation settles, except the rate.
  abbrev pub ready_of : Services → Request → ℤ → Text → Request
  ready_of env req amount account = record req {
    amount_cents = amount;
    currency = normalize_currency u req.currency;
    occurred_at = normalize_occurred_at env.now req.occurred_at;
    account_id = account;
    resolved_rate = none;
  }

  -- `PrepareCreateTransaction`
  unfoldable pub prepare_create_transaction : Services → Request → Result Request
  unfolding amount_of prepared_account pre_resolve_rate_evidence normalize_currency
      normalize_occurred_at
  prepare_create_transaction env req = do
    amount ← amount_of req
    account ← prepared_account env req
    evidence ← pre_resolve_rate_evidence env (ready_of env req amount account)
    ok (record (ready_of env req amount account) { resolved_rate = some evidence })
