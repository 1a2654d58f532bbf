-- ===== src/Matching/Tests.antt =====
-- The theorems on matching at requests with three expenses. Scores are whole numbers here.
use fin_arch.Base.{
  ℕ, ◌+◌, ◌-◌, ◌*◌, ◌/◌, ◌≤◌, ◌≡◌, refl, false, none, List, [], ◌∷◌, arith, ltb, ◌==◌, All, pos,
  text, length, true, some, ℤ, text_eq, ascii_table, trim_space, trim_left, trim_right, is_space,
  to_upper, upper_rune,
}
use fin_arch.Money.{Float, finite, cents, round_rat_to_int64, round_quotient}
use fin_arch.Matching.Score.{
  Floats, Item, MatchResult, abs_diff, sum_amounts, age_days, candidate_of, score_of, projects_of,
}
use fin_arch.Matching.Search.{
  Query, search_matches, sort_stable, item_before, insert_by, entries_of, dfs, dfs_with, explore,
  visit, consider,
}
use fin_arch.Matching.Subsequences.{done, keep, skip}
use fin_arch.Matching.Growth.{Reaches}
use fin_arch.Matching.Soundness.{IsSound, search_matches-IsSound}
use fin_arch.Matching.Completeness.{search_matches-optimal}
use fin_arch.Matching.Service.{
  Candidate, Surroundings, prepare_matching_candidates, find_best_matches, query_of,
  validate_matching_amounts, answered, match_request, normalize_match_depth, normalize_limit,
  search_twice, work_set, prepared_from, cny_candidates, currency_of, text_cny,
}
use fin_arch.Matching.Service.Requests.{match_request_lem}
use fin_arch.Matching.Service.Answers.{OnAnswer, IsAnswer, find_best_matches_lem}

abbrev whole : Floats
whole = record {
  F = ℕ;
  of_ℕ = λ n. n;
  add = λ x y. x + y;
  mul = λ x y. x * y;
  div = λ x y. x / y;
  lt = ltb;
  eq = λ x y. x == y;
  six_tenths = 1;
  four_tenths = 1;
  hours_between = λ x y. x - y;
}

abbrev taxi : Item
taxi = record { id = text "taxi"; amount = 40; occurred_at = 1; project_id = none }

abbrev hotel : Item
hotel = record { id = text "hotel"; amount = 90; occurred_at = 2; project_id = none }

abbrev meal : Item
meal = record { id = text "meal"; amount = 25; occurred_at = 3; project_id = none }

abbrev query : Query
query = record {
  target = 115;
  tolerance = 15;
  max_depth = 3;
  limit = 2;
  time_pruned = false;
  cancelled_at = λ n. false;
}

abbrev chosen : List Item
chosen = hotel ∷ meal ∷ []

search_matches-optimal_example :
    Reaches whole
      (abs_diff (sum_amounts chosen) 115)
      (search_matches whole query 9 (taxi ∷ hotel ∷ meal ∷ []) 100).results
unfolding search_matches sum_amounts sort_stable insert_by item_before entries_of dfs dfs_with
    explore visit consider
search_matches-optimal_example =
    search_matches-optimal whole query 9 (taxi ∷ hotel ∷ meal ∷ []) 100 chosen (ground arith)
      (keep hotel (skip taxi (keep meal done))) (ground arith) (ground arith) (ground arith) refl

search_matches-IsSound_example :
    IsSound whole query
      (sort_stable item_before (taxi ∷ hotel ∷ meal ∷ []))
      (search_matches whole query 9 (taxi ∷ hotel ∷ meal ∷ []) 100)
search_matches-IsSound_example = search_matches-IsSound whole query 9 (taxi ∷ hotel ∷ meal ∷ []) 100

abbrev expense : Item → Candidate
expense x = record {
  id = x.id;
  occurred_at = x.occurred_at;
  project_id = x.project_id;
  amount_yuan = finite (record { num = pos 0; den = 1 });
  amount_cents = pos x.amount;
  base_amount_cents = pos 0;
  currency = text "CNY";
  base_currency = [];
}

abbrev expenses : List Candidate
expenses = expense taxi ∷ expense hotel ∷ expense meal ∷ []

abbrev calm : Surroundings
calm = record { done_at_start = false; done_at = λ n. false; now = 9; cutoff = 0 }

find_best_matches_lem_example :
    OnAnswer whole
      (λ rs.
        All
          (IsAnswer whole
            (query_of calm (pos 115) (pos 15) (pos 3) (pos 2))
            (prepare_matching_candidates 130 expenses))
          rs
        × (length rs ≤ 100)
        × (length rs ≤ 2))
      (find_best_matches whole calm expenses (pos 115) (pos 15) (pos 3) (pos 2))
find_best_matches_lem_example =
    find_best_matches_lem whole calm expenses (pos 115) (pos 15) (pos 3) (pos 2)

abbrev yuan : ℕ → Float
yuan n = finite (record { num = pos n; den = 100 })

abbrev found : MatchResult whole
found = record {
  transaction_ids = text "hotel" ∷ text "meal" ∷ [];
  total_cents = 115;
  abs_error_cents = 0;
  project_count = 0;
  item_count = 2;
  score = 0;
  time_pruned = false;
}

match_request_lem_example :
    (cs : List Candidate) × (target : ℤ) × (tolerance : ℤ) × (some expenses ≡ some cs)
    × (validate_matching_amounts (yuan 115) (yuan 0) ≡ answered (target, tolerance))
    × All (λ c. text_eq (currency_of ascii_table c) text_cny ≡ true) (cny_candidates ascii_table cs)
    × (let q =
          query_of calm target tolerance
            (pos (normalize_match_depth (pos 0)))
            (normalize_limit (pos 5)) in
        All
          (IsAnswer whole q
            (prepare_matching_candidates (q.target + q.tolerance) (cny_candidates ascii_table cs)))
          (found ∷ []))
    × (1 ≤ 100)
unfolding match_request validate_matching_amounts cents round_rat_to_int64 round_quotient
    normalize_match_depth normalize_limit find_best_matches search_twice work_set
    prepare_matching_candidates prepared_from cny_candidates currency_of trim_space trim_left
    trim_right is_space to_upper upper_rune text_eq search_matches sort_stable insert_by item_before
    entries_of age_days dfs dfs_with explore visit consider candidate_of score_of projects_of
match_request_lem_example =
    match_request_lem whole ascii_table calm (some expenses) (yuan 115) (yuan 0) (pos 0) (pos 5)
      (found ∷ []) refl
