-- ===== src/Transaction/Tests.antt =====
-- The theorems on transactions for an expense in CNY on a personal account.
use fin_arch.Base.{
  ◌≡◌, refl, ◌⊎◌, true, false, none, some, [], pos, ◌≤ℤ◌, text, text_eq, is_empty, if◌then◌else◌,
  trim_space, trim_left, trim_right, is_space, to_upper, upper_rune, ascii_table, ◌-ℤ◌,
}
use fin_arch.Money.{
  finite, convert_by_rate, convert_cents_by_rate, validate_transaction_amount_cents,
  max_transaction_amount_cents, round_rat_to_int64, round_quotient,
}
use fin_arch.Money.{ok as money_ok}
use fin_arch.Transaction.Records.{
  Account, RateEvidence, Request, Transaction, Services, work, expense, personal, pending, debit,
  mode_unset, type_unset,
}
use fin_arch.Transaction.Rates.{
  normalize_currency, normalize_occurred_at, evidence_matches, resolve_rate,
}
use fin_arch.Transaction.Create.{
  default_type, direction_of, reimb_status_of, create_transaction, amount_of,
  validate_source_amount, account_of, rate_of,
}
use fin_arch.Transaction.Prepare.{
  prepare_create_transaction, prepared_account, pre_resolve_rate_evidence,
}
use fin_arch.Transaction.Created.{create_transaction_lem}
use fin_arch.Transaction.Evidence.{offline, prepared_offline, created_on_evidence}

abbrev wallet : Account
wallet = record {
  id = text "a";
  user_id = text "u";
  type = personal;
  currency = text "cny";
  is_active = true;
}

abbrev services : Services
services = record {
  has_accounts = true;
  account_of_type = λ user type. some wallet;
  account_by_id = λ id. if text_eq id (text "a") then some wallet else none;
  rates = none;
  recent_rate = λ user from to. none;
  now = 63_000_000_000_000_000_000;
  new_id = text "t";
  stores = λ t. true;
}

abbrev request : Request
request = record {
  user_id = text "u";
  occurred_at = 62_900_000_000_000_000_000;
  account_id = text "a";
  tx_type = type_unset;
  is_expense = true;
  is_personal = true;
  mode = mode_unset;
  category = text "food";
  amount_yuan = finite (record { num = pos 0; den = 1 });
  amount_cents = pos 1250;
  currency = text "CNY";
  exchange_rate = finite (record { num = pos 0; den = 1 });
  note = [];
  project_id = none;
  attachment_key = none;
  idempotency_key = none;
  recurring_rule_id = none;
  recurring_occurrence_date = none;
  resolved_rate = none;
}

abbrev spent : Transaction
spent = record {
  id = text "t";
  user_id = text "u";
  ledger_dir = debit;
  tx_type = expense;
  account_id = text "a";
  account_type = personal;
  amount_cents = pos 1250;
  currency = text "CNY";
  exchange_rate = finite (record { num = pos 1; den = 1 });
  exchange_rate_source = text "identity";
  exchange_rate_at = pos 764_403_200;
  base_currency = text "CNY";
  base_amount_cents = pos 1250;
  category = text "food";
  reimb_status = pending;
  mode = work;
  note = [];
  project_id = none;
  attachment_key = none;
  idempotency_key = none;
  recurring_rule_id = none;
  recurring_occurrence_date = none;
  transaction_time = pos 764_403_200;
}

create_transaction_lem_example :
    (validate_transaction_amount_cents (pos 1250) ≡ money_ok tt)
    × (convert_by_rate (pos 1250) (finite (record { num = pos 1; den = 1 })) ≡ money_ok (pos 1250))
    × ((pos 1 ≤ℤ pos 1250) × (pos 1250 ≤ℤ pos max_transaction_amount_cents))
    × ((a : Account) × (a.is_active ≡ true)
        × ((services.account_by_id (text "a") ≡ some a)
            ⊎ ((request.account_id ≡ [])
                × (services.account_of_type (text "u") (default_type request) ≡ some a)))
        × (spent.account_id ≡ a.id)
        × (spent.account_type ≡ a.type)
        × (spent.base_currency ≡ normalize_currency ascii_table a.currency))
    × (is_empty spent.category ≡ false)
    × (debit ≡ direction_of expense)
    × (pending ≡ reimb_status_of work expense personal)
unfolding create_transaction amount_of validate_source_amount account_of rate_of resolve_rate
    normalize_currency normalize_occurred_at trim_space trim_left trim_right is_space to_upper
    upper_rune text_eq convert_by_rate convert_cents_by_rate validate_transaction_amount_cents
    round_rat_to_int64 round_quotient ◌-ℤ◌
create_transaction_lem_example = create_transaction_lem ascii_table services request spent refl

abbrev evidence : RateEvidence
evidence = record {
  user_id = text "u";
  account_id = text "a";
  from_currency = text "CNY";
  base_currency = text "CNY";
  occurred_at_unix = pos 764_403_200;
  rate = finite (record { num = pos 1; den = 1 });
  source = text "identity";
  rate_at = 62_900_000_000_000_000_000;
}

abbrev ready : Request
ready = record request { resolved_rate = some evidence }

prepared_offline_example :
    create_transaction ascii_table services ready
    ≡ create_transaction ascii_table (offline services) ready
unfolding prepare_create_transaction prepared_account pre_resolve_rate_evidence evidence_matches
    amount_of validate_source_amount resolve_rate normalize_currency normalize_occurred_at
    trim_space trim_left trim_right is_space to_upper upper_rune text_eq convert_by_rate
    convert_cents_by_rate validate_transaction_amount_cents round_rat_to_int64 round_quotient ◌-ℤ◌
prepared_offline_example = prepared_offline ascii_table services services request ready refl

created_on_evidence_example :
    (spent.exchange_rate ≡ evidence.rate)
    × (spent.exchange_rate_source ≡ evidence.source)
    × (evidence.user_id ≡ spent.user_id)
    × (evidence.account_id ≡ spent.account_id)
    × (evidence.from_currency ≡ spent.currency)
    × (evidence.base_currency ≡ spent.base_currency)
unfolding create_transaction amount_of validate_source_amount account_of rate_of evidence_matches
    normalize_currency normalize_occurred_at trim_space trim_left trim_right is_space to_upper
    upper_rune text_eq convert_by_rate convert_cents_by_rate validate_transaction_amount_cents
    round_rat_to_int64 round_quotient ◌-ℤ◌
created_on_evidence_example =
    created_on_evidence ascii_table services ready evidence spent refl refl
