-- ===== src/Transaction/Evidence.antt =====
-- What the evidence that `PrepareCreateTransaction` leaves means for `CreateTransaction`.
use fin_arch.Base.{
  ℕ, ◌≡◌, refl, sym, subst, ◌∙◌, ap, true, Option, none, some, arith, Text, text_eq_iff, CaseTable,
  Bool-cases, inl, inr, ◌≡◌,
}
use fin_arch.Transaction.Records.{RateEvidence, Request, Transaction, Rate, Services, ok}
use fin_arch.Transaction.Rates.{normalize_currency, normalize_occurred_at, evidence_matches}
use fin_arch.Transaction.Create.{amount_of, account_of, rate_of, create_transaction}
use fin_arch.Transaction.Prepare.{
  prepared_account, pre_resolve_rate_evidence, prepare_create_transaction, ready_of,
}
use fin_arch.Transaction.Created.{ok-inv, create_transaction-Steps, ok-eq}

-- Services without any rate.
abbrev pub offline : Services → Services
offline env = record env { rates = none; recent_rate = λ user from to. none }

prepare_create_transaction-inv :
    (u : CaseTable) (env : Services) (req ready : Request)
    → prepare_create_transaction u env req ≡ ok ready
    → (e : RateEvidence) × (ready.resolved_rate ≡ some e)
unfolding prepare_create_transaction
prepare_create_transaction-inv u env req ready e =
    let (amount, _, r1) = ok-inv (amount_of req) _ e in
    let (account, _, r2) = ok-inv (prepared_account u env req) _ r1 in
    let (evidence, _, r3) =
      ok-inv (pre_resolve_rate_evidence u env (ready_of u env req amount account)) _ r2 in
    (evidence, ap (λ (r : Request). r.resolved_rate) (ok-eq r3))

-- A request that was prepared asks for no rate when its transaction is created, whatever services
-- there are then: without any rate the outcome is the same.
pub prepared_offline :
    (u : CaseTable) (env later : Services) (req ready : Request)
    → prepare_create_transaction u env req ≡ ok ready
    → create_transaction u later ready ≡ create_transaction u (offline later) ready
unfolding create_transaction account_of rate_of
prepared_offline u env later req ready p =
    let (e, has) = prepare_create_transaction-inv u env req ready p in
    let same : ready ≡ record ready { resolved_rate = some e } =
      ap (λ (r : Option RateEvidence). record ready { resolved_rate = r }) has in
    subst (λ (r : Request). create_transaction u later r ≡ create_transaction u (offline later) r)
      (sym same) refl

evidence_matches-inv :
    (u : CaseTable) (e : RateEvidence) (user account from base : Text) (at : ℕ)
    → evidence_matches u e user account from base at ≡ true
    → (e.user_id ≡ user)
      × (e.account_id ≡ account)
      × (e.from_currency ≡ from)
      × (e.base_currency ≡ base)
unfolding evidence_matches
evidence_matches-inv u e user account from base at h = ground (
  arith,
  text_eq_iff e.user_id user,
  text_eq_iff e.account_id account,
  text_eq_iff e.from_currency from,
  text_eq_iff e.base_currency base,
)

-- The rate of a request with evidence is the evidence's, which matches.
rate_of-evidence :
    (u : CaseTable) (env : Services) (req : Request) (e : RateEvidence) (account from base : Text)
    (at : ℕ) (r : Rate)
    → req.resolved_rate ≡ some e
    → rate_of u env req account from base at ≡ ok r
    → (r ≡ record { value = e.rate; source = e.source; at = e.rate_at })
      × (evidence_matches u e req.user_id account from base at ≡ true)
unfolding rate_of
rate_of-evidence u env req e account from base at r has p =
    elim (Bool-cases (evidence_matches u e req.user_id account from base at)) [
      | inl fits ↦ (ok-eq (sym (rw (has, rate_of) (rw fits refl)) ∙ p), fits)
      | inr stale ↦ absurd (ground (arith, has, stale, p))
    ]

-- Where a request has evidence and its transaction is created, the rate is the evidence's, and the
-- evidence is for the transaction's user, account and currencies.
pub created_on_evidence :
    (u : CaseTable) (env : Services) (req : Request) (e : RateEvidence) (t : Transaction)
    → req.resolved_rate ≡ some e
    → create_transaction u env req ≡ ok t
    → (t.exchange_rate ≡ e.rate)
      × (t.exchange_rate_source ≡ e.source)
      × (e.user_id ≡ t.user_id)
      × (e.account_id ≡ t.account_id)
      × (e.from_currency ≡ t.currency)
      × (e.base_currency ≡ t.base_currency)
unfolding rate_of evidence_matches
created_on_evidence u env req e t has p =
    let s = create_transaction-Steps u env req t p in
    let (rate, matches) =
      rate_of-evidence u env req e s.account.id (normalize_currency u req.currency)
        (normalize_currency u s.account.currency) (normalize_occurred_at env.now req.occurred_at)
        s.rate has s.rate_ok in
    let (user, account, from, base) =
      evidence_matches-inv u e req.user_id s.account.id (normalize_currency u req.currency)
        (normalize_currency u s.account.currency) (normalize_occurred_at env.now req.occurred_at)
        matches in
    rw s.is
      (ap (λ (r : Rate). r.value) rate, ap (λ (r : Rate). r.source) rate, user, account, from, base)
