-- ===== src/Matching/Score.antt =====
-- Results of a match and their order. Scores are float64 values, which only rank results: the type
-- and its operations are a parameter.
use fin_arch.Base.{
  ℕ, ◌+◌, ◌-◌, Bool, true, false, not, Option, none, some, List, [], ◌∷◌, map, ltb, ◌==◌,
  if◌then◌else◌, Text, text_eq, length,
}

-- float64: the arithmetic and the tests that the code uses, and the hours between two times.
pub record Floats : Type 1 where
  pub F : Type 0
  pub of_ℕ : ℕ → F
  pub add : F → F → F
  pub mul : F → F → F
  pub div : F → F → F
  pub lt : F → F → Bool
  pub eq : F → F → Bool
  pub six_tenths : F
  pub four_tenths : F
  pub hours_between : ℕ → ℕ → F

-- The fields of `model.Transaction` that the search reads. Its candidates have an amount between 1
-- and the upper end of the range, so amounts are natural numbers here.
pub record Item : Type 0 where
  pub id : Text
  pub amount : ℕ
  pub occurred_at : ℕ
  pub project_id : Option Text

unfoldable pub sum_amounts : List Item → ℕ
sum_amounts [] = 0
sum_amounts (x ∷ xs) = x.amount + sum_amounts xs

-- `math.Abs(sum - target)` on cents.
abbrev pub abs_diff : ℕ → ℕ → ℕ
abs_diff a b = if ltb a b then b - a else a - b

unfoldable pub contains : Text → List Text → Bool
contains a [] = false
contains a (x ∷ xs) = if text_eq a x then true else contains a xs

-- The distinct project ids of the picked items: the keys of the map `projects`.
unfoldable pub projects_of : List Item → List Text
unfolding contains
projects_of [] = []
projects_of (x ∷ xs) =
    let rest = projects_of xs in
    elim x.project_id [ none ↦ rest | some p ↦ if contains p rest then rest else p ∷ rest ]

module _ (fl : Floats) where
  open fl use {F, of_ℕ, add, mul, div, lt, eq, six_tenths, four_tenths, hours_between}

  -- `MatchResult`; the two amounts in yuan are the cents divided by 100.
  pub record MatchResult : Type 0 where
    pub transaction_ids : List Text
    pub total_cents : ℕ
    pub abs_error_cents : ℕ
    pub project_count : ℕ
    pub item_count : ℕ
    pub score : F
    pub time_pruned : Bool

  -- `betterMatch`
  unfoldable pub better_match : MatchResult → MatchResult → Bool
  better_match left right =
      if not (left.abs_error_cents == right.abs_error_cents)
      then ltb left.abs_error_cents right.abs_error_cents
      else (if not (eq left.score right.score)
          then lt right.score left.score
          else ltb left.item_count right.item_count)

  unfoldable pub score_of : F → ℕ → F
  score_of total_age_days item_count =
      let age_score = div (div total_age_days (of_ℕ item_count)) (of_ℕ 365) in
      let min_score = div (of_ℕ 1) (of_ℕ item_count) in
      add (mul six_tenths min_score) (mul four_tenths age_score)

  -- The index of the worst of the results, from the loop's `slot` and `i` on.
  unfoldable pub worst_from : ℕ → MatchResult → ℕ → List MatchResult → ℕ × MatchResult
  unfolding better_match
  worst_from slot current i [] = (slot, current)
  worst_from slot current i (r ∷ rs) =
      worst_from (if better_match current r then i else slot)
        (if better_match current r then r else current) (i + 1) rs

  unfoldable pub candidate_of : List Item → ℕ → ℕ → F → Bool → MatchResult
  unfolding score_of projects_of
  candidate_of picked sum abs_err total_age_days time_pruned = record {
    transaction_ids = map (λ x. x.id) picked;
    total_cents = sum;
    abs_error_cents = abs_err;
    project_count = length (projects_of picked);
    item_count = length picked;
    score = score_of total_age_days (length picked);
    time_pruned = time_pruned;
  }

  -- The days since an item, between 0 and 365.
  unfoldable pub age_days : ℕ → ℕ → F
  age_days now occurred_at =
      let days = div (hours_between now occurred_at) (of_ℕ 24) in
      if lt days (of_ℕ 0) then of_ℕ 0 else if lt (of_ℕ 365) days then of_ℕ 365 else days
