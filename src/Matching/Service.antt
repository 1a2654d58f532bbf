-- ===== src/Matching/Service.antt =====
-- What matching_service.go does around its search: the checks of the request, the candidates that
-- are kept, the search of the recent ones and then of all, and the order of the answer. The
-- repository's answer, the clock and the context's answers are arguments.
pub mod Answers
pub mod Requests
use fin_arch.Base.{
  ℕ, zero, suc, ◌+◌, ◌-◌, ◌/◌, ◌≤◌, ◌≡◌, Bool, true, false, ◌&&◌, ◌||◌, not, Option, none, some,
  List, [], ◌∷◌, ltb, leb, ◌==◌, if◌then◌else◌, ℤ, pos, negsuc, leb_ℤ, ltb_ℤ, eqb_ℤ, abs, Text,
  text, text_eq, trim_space, to_upper, CaseTable, is_empty, length, take, filterb,
}
use fin_arch.Money.{Float, is_nonzero, Result, ok, err, cents}
use fin_arch.Matching.Score.{Floats, Item, MatchResult, better_match}
use fin_arch.Matching.Search.{Query, SearchState, sort_stable, search_matches}

abbrev pub max_allowed_depth : ℕ
max_allowed_depth = 10

abbrev pub default_depth : ℕ
default_depth = 3

abbrev pub max_allowed_limit : ℕ
max_allowed_limit = 100

abbrev pub default_limit : ℕ
default_limit = 20

abbrev pub dp_threshold : ℕ
dp_threshold = 1_000_000_000

abbrev pub max_matching_candidate_fetch : ℕ
max_matching_candidate_fetch = 2000

abbrev pub max_matching_candidates : ℕ
max_matching_candidates = 500

abbrev pub max_matching_search_nodes : ℕ
max_matching_search_nodes = 250_000

abbrev pub max_matching_target_cents : ℕ
max_matching_target_cents = 1_000_000_000_000

abbrev pub max_matching_tolerance_cents : ℕ
max_matching_tolerance_cents = 100_000

-- `normalizeMatchDepth`
unfoldable pub normalize_match_depth : ℤ → ℕ
normalize_match_depth (negsuc n) = default_depth
normalize_match_depth (pos n) =
    if n == 0 then default_depth else if ltb max_allowed_depth n then max_allowed_depth else n

-- The fields of `model.Transaction` that matching reads.
pub record Candidate : Type 0 where
  pub id : Text
  pub occurred_at : ℕ
  pub project_id : Option Text
  pub amount_yuan : Float
  pub amount_cents : ℤ
  pub base_amount_cents : ℤ
  pub currency : Text
  pub base_currency : Text

-- The base amount, with the fallback for rows that have none.
abbrev pub base_cents : Candidate → ℤ
base_cents c = elim c.base_amount_cents [ pos zero ↦ c.amount_cents | _ ↦ c.base_amount_cents ]

abbrev pub item_of : Candidate → Item
item_of c = record {
  id = c.id;
  amount = abs (base_cents c);
  occurred_at = c.occurred_at;
  project_id = c.project_id;
}

-- A base amount between 1 and the upper end.
abbrev pub is_usable : ℕ → Candidate → Bool
is_usable upper c = not (leb_ℤ (base_cents c) (pos 0) || ltb_ℤ (pos upper) (base_cents c))

-- The loop of `prepareMatchingCandidates`, with the room that is left.
unfoldable pub prepared_from : ℕ → ℕ → List Candidate → List Item
prepared_from zero upper cs = []
prepared_from (suc room) upper [] = []
prepared_from (suc room) upper (c ∷ cs) =
    let kept = prepared_from room upper cs in
    let skipped = prepared_from (suc room) upper cs in
    if is_usable upper c then item_of c ∷ kept else skipped

-- `prepareMatchingCandidates`
unfoldable pub prepare_matching_candidates : ℕ → List Candidate → List Item
prepare_matching_candidates upper cs =
    prepared_from max_matching_candidates upper (take max_matching_candidate_fetch cs)

pub data MatchError : Type 0 where
  invalid_target invalid_tolerance target_too_large tolerance_too_large : MatchError
  context_done repository_failed : MatchError

pub data Answer (A : Type 0) : Type 0 where
  answered : A → Answer A
  failed : MatchError → Answer A

infixl 5 ◌>>=◌ ◌>>◌
abbrev pub ◌>>=◌ : {A B : Type 0} → Answer A → (A → Answer B) → Answer B
answered a >>= f = f a
failed e >>= f = failed e

abbrev pub ◌>>◌ : {A B : Type 0} → Answer A → Answer B → Answer B
m >> k = m >>= λ _. k

-- The context and the clock: whether the context is done at the start and when a number of search
-- nodes remains, and the times that `time.Now()` and the cutoff 90 days before it have.
pub record Surroundings : Type 0 where
  pub done_at_start : Bool
  pub done_at : ℕ → Bool
  pub now : ℕ
  pub cutoff : ℕ

-- `validateMatchingAmounts`
unfoldable pub validate_matching_amounts : Float → Float → Answer (ℤ × ℤ)
validate_matching_amounts target_yuan tolerance_yuan = elim (cents target_yuan) [
  | err e ↦ failed invalid_target
  | ok target ↦
      if leb_ℤ target (pos 0) then failed invalid_target else (elim (cents tolerance_yuan) [
        | err e ↦ failed invalid_tolerance
        | ok tolerance ↦
            if ltb_ℤ tolerance (pos 0)
            then failed invalid_tolerance
            else (if ltb_ℤ (pos max_matching_target_cents) target
                then failed target_too_large
                else (if ltb_ℤ (pos max_matching_tolerance_cents) tolerance
                      || ltb_ℤ target tolerance
                    then failed tolerance_too_large
                    else answered (target, tolerance)))
      ])
]

-- The limit of a request: 20 if it has none, and 100 at most.
unfoldable pub normalize_limit : ℤ → ℤ
normalize_limit limit =
    let given = if leb_ℤ limit (pos 0) then pos default_limit else limit in
    if ltb_ℤ (pos max_allowed_limit) given then pos max_allowed_limit else given

abbrev pub text_cny : Text
text_cny = text "CNY"

-- The currency a candidate's base amount is in.
unfoldable pub currency_of : CaseTable → Candidate → Text
currency_of u c =
    let base = to_upper u (trim_space c.base_currency) in
    let own = to_upper u (trim_space c.currency) in
    if is_empty base then (if is_empty own then text_cny else own) else base

-- The candidates that `Match` passes on, with the fallback of the base amount.
unfoldable pub cny_candidates : CaseTable → List Candidate → List Candidate
cny_candidates u [] = []
cny_candidates u (c ∷ cs) =
    let rest = cny_candidates u cs in
    if text_eq (currency_of u c) text_cny
    then record c { base_amount_cents = base_cents c } ∷ rest
    else rest

-- The items that are more recent than the cutoff.
abbrev pub recent : ℕ → List Item → List Item
recent cutoff = filterb (λ x. ltb cutoff x.occurred_at)

-- The items that are searched first: the recent ones, if the target is large for their number and
-- there are any.
unfoldable pub work_set : ℕ → ℕ → List Item → List Item × Bool
work_set target cutoff items =
    if ltb (dp_threshold / length items) target && not (length (recent cutoff items) == 0)
    then (recent cutoff items, true)
    else (items, false)

-- The cents of a legacy candidate that has only an amount in yuan.
abbrev own_cents : Candidate → Result ℤ
own_cents c =
    if eqb_ℤ c.amount_cents (pos 0) && is_nonzero c.amount_yuan
    then cents c.amount_yuan
    else ok c.amount_cents

-- The copies of the candidates with their cents, if all amounts have some.
unfoldable pub with_cents : List Candidate → Option (List Candidate)
with_cents [] = some []
with_cents (c ∷ cs) =
    let rest = with_cents cs in
    elim (own_cents c) as (λ _. Option (List Candidate)) [
      | err e ↦ none
      | ok amount ↦ elim rest as (λ _. Option (List Candidate)) [
        | none ↦ none
        | some more ↦
            let given = record c { amount_cents = amount } in
            some (record given { base_amount_cents = base_cents given } ∷ more)
      ]
    ]

-- What the search is given for a request that passes the checks.
abbrev pub query_of : Surroundings → ℤ → ℤ → ℤ → ℤ → Query
query_of env target tolerance max_depth limit = record {
  target = abs target;
  tolerance = abs tolerance;
  max_depth = normalize_match_depth max_depth;
  limit = if ltb_ℤ (pos max_allowed_limit) limit then max_allowed_limit else abs limit;
  time_pruned = false;
  cancelled_at = env.done_at;
}

module _ (fl : Floats) where
  -- The answer of a search that was not cancelled, and the nodes that remain.
  abbrev pub finished : SearchState fl → Answer (List (MatchResult fl) × ℕ)
  finished st = if st.cancelled then failed context_done else answered (st.results, st.remaining)

  -- The two searches of `findBestMatchesCentsContext` over the prepared items.
  unfoldable pub search_twice : Surroundings → Query → List Item → Answer (List (MatchResult fl))
  search_twice env q items =
      let (first, pruned) = work_set q.target env.cutoff items in
      let q1 = record q { time_pruned = pruned } in
      let q2 = record q { time_pruned = false } in
      finished (search_matches fl q1 env.now first max_matching_search_nodes)
      >>= λ (results, remaining).
          let again = finished (search_matches fl q2 env.now items remaining) in
          if (length results == 0) && pruned && ltb 0 remaining
          then (again >>= λ (more, left). answered more)
          else answered results

  -- `findBestMatchesCentsContext`
  unfoldable pub find_best_matches :
      Surroundings → List Candidate → ℤ → ℤ → ℤ → ℤ → Answer (List (MatchResult fl))
  find_best_matches env candidates target tolerance max_depth limit =
      let q = query_of env target tolerance max_depth limit in
      let items = prepare_matching_candidates (q.target + q.tolerance) candidates in
      let found =
        search_twice env q items >>= λ results. answered (sort_stable (better_match fl) results) in
      if (length candidates == 0)
        || leb_ℤ target (pos 0)
        || ltb_ℤ (pos max_matching_target_cents) target
      then answered []
      else (if ltb_ℤ tolerance (pos 0)
            || ltb_ℤ (pos max_matching_tolerance_cents) tolerance
            || ltb_ℤ target tolerance
          then answered []
          else (if env.done_at_start
              then failed context_done
              else (if leb_ℤ limit (pos 0)
                  then answered []
                  else (if length items == 0 then answered [] else found))))

  -- `FindBestMatchesCents`: an error is no result.
  unfoldable pub find_best_matches_cents :
      Surroundings → List Candidate → ℤ → ℤ → ℤ → ℤ → List (MatchResult fl)
  find_best_matches_cents env candidates target tolerance max_depth limit =
      let uncancelled = record env { done_at_start = false; done_at = λ remaining. false } in
      elim (find_best_matches uncancelled candidates target tolerance max_depth limit) [
        | answered rs ↦ rs
        | failed e ↦ []
      ]

  -- `FindBestMatches`
  unfoldable pub find_best_matches_money :
      Surroundings → List Candidate → Float → Float → ℤ → ℤ → List (MatchResult fl)
  unfolding find_best_matches_cents with_cents
  find_best_matches_money env candidates target tolerance max_depth limit =
      elim (with_cents candidates) [
        | none ↦ []
        | some cs ↦ elim (cents target) [
          | err e ↦ []
          | ok t ↦ elim (cents tolerance) [
            | err e ↦ []
            | ok tol ↦ find_best_matches_cents env cs t tol max_depth limit
          ]
        ]
      ]

  -- `MatchingService.Match`, with the rows that the repository returned.
  unfoldable pub match_request :
      CaseTable
      → Surroundings
      → Option (List Candidate)
      → Float
      → Float
      → ℤ
      → ℤ
      → Answer (List (MatchResult fl))
  match_request u env rows target_yuan tolerance_yuan max_depth limit =
      validate_matching_amounts target_yuan tolerance_yuan >>= λ (target, tolerance).
      let answer : Answer (List (MatchResult fl)) = elim rows [
        | none ↦ failed repository_failed
        | some candidates ↦
            find_best_matches env (cny_candidates u candidates) target tolerance
              (pos (normalize_match_depth max_depth)) (normalize_limit limit)
      ] in
      if env.done_at_start then failed context_done else answer
