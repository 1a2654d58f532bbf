-- ===== src/Transaction/Rates.antt =====
-- Currencies, times and exchange rates in transaction_service.go: resolveRate, and when evidence of a
-- rate matches.
use fin_arch.Base.{
  ℕ, ◌+◌, ◌-◌, ◌*◌, ◌%◌, Bool, true, false, ◌&&◌, not, Option, none, some, if◌then◌else◌, ◌==◌, pos,
  ltb_ℤ, eqb_ℤ, Text, text, text_eq, is_empty, trim_space, to_upper, CaseTable, ◌++◌,
}
use fin_arch.Money.{Float, nan, infinite, finite}
use fin_arch.Transaction.Records.{
  RateEvidence, Rate, Services, Result, second, unix, no_rate, ok, err,
}

-- `normalizeTransactionOccurredAt`
unfoldable pub normalize_occurred_at : ℕ → ℕ → ℕ
normalize_occurred_at now t =
    let whole = t - t % second in if whole == 0 then now - now % second else whole

-- `> 0`, as Go compares a float64.
abbrev pub is_above_zero : Float → Bool
is_above_zero nan = false
is_above_zero (infinite negative) = not negative
is_above_zero (finite v) = ltb_ℤ (pos 0) v.num

abbrev pub is_finite : Float → Bool
is_finite nan = false
is_finite (infinite negative) = false
is_finite (finite v) = true

module _ (u : CaseTable) where
  -- `normalizeTransactionCurrency`
  unfoldable pub normalize_currency : Text → Text
  normalize_currency c =
      let upper = to_upper u (trim_space c) in if is_empty upper then text "CNY" else upper

  -- `resolvedTransactionRateEvidence.matches`
  unfoldable pub evidence_matches : RateEvidence → Text → Text → Text → Text → ℕ → Bool
  evidence_matches e user account from base occurred_at =
      text_eq e.user_id user
      && text_eq e.account_id account
      && text_eq e.from_currency from
      && text_eq e.base_currency base
      && eqb_ℤ e.occurred_at_unix (unix occurred_at)
      && is_above_zero e.rate
      && is_finite e.rate
      && not (is_empty (trim_space e.source))
      && not (e.rate_at == 0)

  -- The fallback of `resolveRate` to the rate of an earlier transaction.
  unfoldable pub stored_rate : Services → Text → Text → Text → ℕ → Result Rate
  stored_rate env user from to occurred_at = elim (env.recent_rate user from to) [
    | none ↦ err no_rate
    | some r ↦
        if is_above_zero r.value
        then ok (record {
          value = r.value;
          source = text "db_fallback:" ++ r.source;
          at = if r.at == 0 then occurred_at else (r.at + 62_135_596_800) * 1_000_000_000;
        })
        else err no_rate
  ]

  abbrev pub fetched_rate : Services → Text → Text → ℕ → Option Rate
  fetched_rate env from to occurred_at = elim env.rates [
    | none ↦ none
    | some get ↦ get from to occurred_at
  ]

  -- `resolveRate`
  unfoldable pub resolve_rate : Services → Text → Text → Text → ℕ → Float → Result Rate
  resolve_rate env user from to occurred_at provided =
      if text_eq from to
      then ok (record {
        value = finite (record { num = pos 1; den = 1 });
        source = text "identity";
        at = occurred_at;
      })
      else (if is_above_zero provided
          then ok (record { value = provided; source = text "client_provided"; at = occurred_at })
          else elim (fetched_rate env from to occurred_at) [
            | some r ↦ ok r
            | none ↦ stored_rate env user from to occurred_at
          ])
