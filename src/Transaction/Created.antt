-- ===== src/Transaction/Created.antt =====
-- What holds of every transaction that `CreateTransaction` returns.
use fin_arch.Base.{
  ◌≡◌, refl, ◌∙◌, ap, ◌⊎◌, [], Bool, true, false, not, some, arith, ℤ, pos, ◌≤ℤ◌, is_empty,
  CaseTable,
}
use fin_arch.Money.{
  convert_by_rate, validate_transaction_amount_cents, max_transaction_amount_cents,
}
use fin_arch.Money.{ok as money_ok}
use fin_arch.Money.Conversion.{convert_by_rate_range}
use fin_arch.Transaction.Records.{
  Mode, TxType, Account, Request, Transaction, Rate, Services, Error, Result, ok, err, ◌>>=◌,
  require,
}
use fin_arch.Transaction.Rates.{normalize_currency, normalize_occurred_at}
use fin_arch.Transaction.Create.{
  given_amount, validate_source_amount, amount_of, default_type, account_of, rate_of, converted,
  transaction_of, mode_of, type_of, direction_of, reimb_status_of, create_transaction,
}

pub ok-inv :
    {A B : Type 0} (m : Result A) (f : A → Result B) {b : B}
    → m >>= f ≡ ok b
    → (a : A) × (m ≡ ok a) × (f a ≡ ok b)
ok-inv (ok a) f e = (a, refl, e)
ok-inv (err x) f e = absurd (ground arith)

pub ok-eq : {A : Type 0} {a b : A} → ok a ≡ ok b → b ≡ a
ok-eq e = ground (arith, e)

not-true : {b : Bool} → not b ≡ true → b ≡ false
not-true {b} e = ground (arith, e)

pub require-inv : (b : Bool) (x : Error) {y : Unit {0}} → require b x ≡ ok y → b ≡ true
require-inv true x e = refl
require-inv false x e = absurd (ground arith)

pub converted-inv :
    (amount : ℤ) (rate : Rate) {c : ℤ}
    → converted amount rate ≡ ok c
    → convert_by_rate amount rate.value ≡ money_ok c
converted-inv amount rate e = ground arith

-- The steps of `CreateTransaction` that a transaction has passed.
pub record Steps (u : CaseTable) (env : Services) (req : Request) (t : Transaction) : Type 0 where
  pub amount : ℤ
  pub mode : Mode
  pub type : TxType
  pub account : Account
  pub rate : Rate
  pub base : ℤ
  pub amount_ok : amount_of req ≡ ok amount
  pub mode_ok : mode_of req.mode ≡ ok mode
  pub type_ok : type_of req.tx_type req.is_expense ≡ ok type
  pub account_ok : account_of u env req ≡ ok account
  pub category_ok : is_empty req.category ≡ false
  pub rate_ok :
      rate_of u env req account.id
        (normalize_currency u req.currency)
        (normalize_currency u account.currency)
        (normalize_occurred_at env.now req.occurred_at)
      ≡ ok rate
  pub base_ok : converted amount rate ≡ ok base
  pub is :
      t
      ≡ transaction_of u env req amount
          (normalize_currency u req.currency)
          mode
          type
          account
          (normalize_occurred_at env.now req.occurred_at)
          rate
          base
  pub stored : env.stores t ≡ true

module _ (u : CaseTable) (env : Services) (req : Request) (t : Transaction) where
  pub create_transaction-Steps : create_transaction u env req ≡ ok t → Steps u env req t
  unfolding create_transaction
  create_transaction-Steps e =
      let (amount, e1, r1) = ok-inv (amount_of req) _ e in
      let (mode, e2, r2) = ok-inv (mode_of req.mode) _ r1 in
      let (type, e3, r3) = ok-inv (type_of req.tx_type req.is_expense) _ r2 in
      let (account, e4, r4) = ok-inv (account_of u env req) _ r3 in
      let (_, e5, r5) = ok-inv (require (not (is_empty req.category)) _) _ r4 in
      let (rate, e6, r6) =
        ok-inv
          (rate_of u env req account.id (normalize_currency u req.currency)
            (normalize_currency u account.currency) (normalize_occurred_at env.now req.occurred_at))
          _ r5 in
      let (base, e7, r7) = ok-inv (converted amount rate) _ r6 in
      let (_, e8, r8) = ok-inv (require (env.stores _) _) _ r7 in
      let same = ok-eq r8 in
      record {
        amount = amount;
        mode = mode;
        type = type;
        account = account;
        rate = rate;
        base = base;
        amount_ok = e1;
        mode_ok = e2;
        type_ok = e3;
        account_ok = e4;
        category_ok = not-true (require-inv (not (is_empty req.category)) _ e5);
        rate_ok = e6;
        base_ok = e7;
        is = same;
        stored = ap env.stores same ∙ require-inv (env.stores _) _ e8;
      }

amount_of-valid :
    (req : Request) {amount : ℤ}
    → amount_of req ≡ ok amount
    → validate_transaction_amount_cents amount ≡ money_ok tt
unfolding amount_of validate_source_amount
amount_of-valid req {amount} e =
    let (given, _, r) = ok-inv (given_amount req) _ e in
    let (_, checked, r2) = ok-inv (validate_source_amount given) _ r in
    let same : amount ≡ given = ok-eq r2 in ground (arith, checked, same)

account_of-active :
    (u : CaseTable) (env : Services) (req : Request) {a : Account}
    → account_of u env req ≡ ok a
    → (a.is_active ≡ true)
      × ((env.account_by_id req.account_id ≡ some a)
          ⊎ ((req.account_id ≡ []) × (env.account_of_type req.user_id (default_type req) ≡ some a)))
unfolding account_of
account_of-active u env req {a} e = ground arith

-- A transaction that is created has a source amount and a base amount in the range of the domain, the
-- base amount being the source amount converted at its rate. It is booked on an active account,
-- with that account's type and currency: the one the request names, or else the user's default
-- one. It has a category, it is a debit exactly if it is an expense, and it waits for a
-- reimbursement exactly if it is an expense of a personal account that is not in life mode.
pub create_transaction_lem :
    (u : CaseTable) (env : Services) (req : Request) (t : Transaction)
    → create_transaction u env req ≡ ok t
    → (validate_transaction_amount_cents t.amount_cents ≡ money_ok tt)
      × (convert_by_rate t.amount_cents t.exchange_rate ≡ money_ok t.base_amount_cents)
      × ((pos 1 ≤ℤ t.base_amount_cents) × (t.base_amount_cents ≤ℤ pos max_transaction_amount_cents))
      × ((a : Account) × (a.is_active ≡ true)
          × ((env.account_by_id req.account_id ≡ some a)
              ⊎ ((req.account_id ≡ [])
                  × (env.account_of_type req.user_id (default_type req) ≡ some a)))
          × (t.account_id ≡ a.id)
          × (t.account_type ≡ a.type)
          × (t.base_currency ≡ normalize_currency u a.currency))
      × (is_empty t.category ≡ false)
      × (t.ledger_dir ≡ direction_of t.tx_type)
      × (t.reimb_status ≡ reimb_status_of t.mode t.tx_type t.account_type)
create_transaction_lem u env req t e =
    let s = create_transaction-Steps u env req t e in
    let (active, found) = account_of-active u env req s.account_ok in
    let money = converted-inv s.amount s.rate s.base_ok in
    rw s.is (
      amount_of-valid req s.amount_ok,
      money,
      convert_by_rate_range s.amount s.rate.value money,
      (s.account, active, found, refl, refl, refl),
      s.category_ok,
      refl,
      refl,
    )
