-- ===== src/Matching/Service/Requests.antt =====
-- What `MatchingService.Match` answers: only combinations of expenses in CNY.
use fin_arch.Base.{
  ◌+◌, ◌≤◌, ◌≡◌, refl, subst, true, Option, none, some, List, [], ◌∷◌, arith, ℤ, pos, abs, text_eq,
  length, All, CaseTable, inl, inr, ◌⊎◌,
}
use fin_arch.Money.{Float}
use fin_arch.Matching.Score.{Floats, MatchResult}
use fin_arch.Matching.Subsequences.{choose_by}
use fin_arch.Matching.Service.{
  Candidate, Answer, answered, failed, Surroundings, MatchError, normalize_match_depth,
  normalize_limit, prepare_matching_candidates, find_best_matches, query_of,
  validate_matching_amounts, currency_of, text_cny, cny_candidates, match_request,
}
use fin_arch.Matching.Service.Answers.{IsAnswer, OnAnswer, find_best_matches_lem}

Answer-cases :
    {A : Type 0} (m : Answer A) → ((x : MatchError) × (m ≡ failed x)) ⊎ ((a : A) × (m ≡ answered a))
Answer-cases (answered a) = inr (a, refl)
Answer-cases (failed x) = inl (x, refl)

-- The candidates that are passed on are in CNY.
cny_candidates-All :
    (u : CaseTable) (cs : List Candidate)
    → All (λ c. text_eq (currency_of u c) text_cny ≡ true) (cny_candidates u cs)
unfolding cny_candidates currency_of
cny_candidates-All u [] = tt
cny_candidates-All u (c ∷ cs) =
    choose_by (All (λ c. text_eq (currency_of u c) text_cny ≡ true))
      (text_eq (currency_of u c) text_cny) (λ yuan. (yuan, cny_candidates-All u cs))
      (λ else_where. cny_candidates-All u cs)

module _ (fl : Floats) where
  -- The request passed its checks, and its answer is that of the search over the rows in CNY.
  match_request-inv :
      (u : CaseTable) (env : Surroundings) (rows : Option (List Candidate))
      (target_yuan tolerance_yuan : Float) (max_depth limit : ℤ) (rs : List (MatchResult fl))
      → match_request fl u env rows target_yuan tolerance_yuan max_depth limit ≡ answered rs
      → (cs : List Candidate) × (target : ℤ) × (tolerance : ℤ) × (rows ≡ some cs)
        × (validate_matching_amounts target_yuan tolerance_yuan ≡ answered (target, tolerance))
        × (find_best_matches fl env
              (cny_candidates u cs)
              target
              tolerance
              (pos (normalize_match_depth max_depth))
              (normalize_limit limit)
            ≡ answered rs)
  unfolding match_request
  match_request-inv u env none target_yuan tolerance_yuan max_depth limit rs e =
      absurd (ground (arith, e))
  match_request-inv u env (some cs) target_yuan tolerance_yuan max_depth limit rs e =
      elim (Answer-cases (validate_matching_amounts target_yuan tolerance_yuan)) [
        | inl (x, refused) ↦ absurd (ground (arith, e, refused))
        | inr ((target, tolerance), accepted) ↦
            (cs, target, tolerance, refl, accepted, ground (arith, e, accepted))
      ]

  -- A request that is answered has at most 100 results. They are combinations of usable rows of the
  -- repository whose base currency is CNY, within the request's tolerance of its target, which are
  -- the cents of its amounts.
  pub match_request_lem :
      (u : CaseTable) (env : Surroundings) (rows : Option (List Candidate))
      (target_yuan tolerance_yuan : Float) (max_depth limit : ℤ) (rs : List (MatchResult fl))
      → match_request fl u env rows target_yuan tolerance_yuan max_depth limit ≡ answered rs
      → (cs : List Candidate) × (target : ℤ) × (tolerance : ℤ) × (rows ≡ some cs)
        × (validate_matching_amounts target_yuan tolerance_yuan ≡ answered (target, tolerance))
        × All (λ c. text_eq (currency_of u c) text_cny ≡ true) (cny_candidates u cs)
        × (let q =
              query_of env target tolerance
                (pos (normalize_match_depth max_depth))
                (normalize_limit limit) in
            All
              (IsAnswer fl q
                (prepare_matching_candidates (q.target + q.tolerance) (cny_candidates u cs)))
              rs)
        × (length rs ≤ 100)
  match_request_lem u env rows target_yuan tolerance_yuan max_depth limit rs e =
      let (cs, target, tolerance, found, accepted, run) =
        match_request-inv u env rows target_yuan tolerance_yuan max_depth limit rs e in
      let q =
        query_of env target tolerance (pos (normalize_match_depth max_depth))
          (normalize_limit limit) in
      let (good, few, _) =
        subst
          (OnAnswer fl (λ rs.
            All
              (IsAnswer fl q
                (prepare_matching_candidates (q.target + q.tolerance) (cny_candidates u cs)))
              rs
            × (length rs ≤ 100)
            × (length rs ≤ abs (normalize_limit limit))))
          run
          (find_best_matches_lem fl env (cny_candidates u cs) target tolerance
            (pos (normalize_match_depth max_depth)) (normalize_limit limit)) in
      (cs, target, tolerance, found, accepted, cny_candidates-All u cs, good, few)
