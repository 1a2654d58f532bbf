-- ===== src/Matching/Search.antt =====
-- The depth-first search of matching_service.go. An entry is an item with its age and with the
-- capped sum of the amounts from it on (`ages[i]` and `suffix[i]`), and a place in the sorted items
-- is the list of entries from it on. `ctx.Err()` at a check is an answer of `cancelled` for the
-- number of nodes that remain.
use fin_arch.Base.{
  ℕ, ◌+◌, ◌-◌, ◌%◌, Bool, true, false, ◌&&◌, ◌||◌, not, Option, none, some, List, [], ◌∷◌, ◌++◌,
  ltb, leb, ◌==◌, if◌then◌else◌, text_lt, length, set,
}
use fin_arch.Matching.Score.{
  Floats, Item, MatchResult, better_match, worst_from, candidate_of, age_days, abs_diff,
}

abbrev pub context_check_interval : ℕ
context_check_interval = 256

-- The order in which the items are searched.
unfoldable pub item_before : Item → Item → Bool
item_before x y =
    if not (x.amount == y.amount)
    then ltb y.amount x.amount
    else (if not (x.occurred_at == y.occurred_at)
        then ltb x.occurred_at y.occurred_at
        else text_lt x.id y.id)

-- `sort.SliceStable`: a later element goes before an earlier one only if it is less.
unfoldable pub insert_by {ℓ} : {A : Type ℓ} → (A → A → Bool) → A → List A → List A
insert_by less x [] = x ∷ []
insert_by less x (y ∷ ys) = if less y x then y ∷ insert_by less x ys else x ∷ y ∷ ys

unfoldable pub sort_stable {ℓ} : {A : Type ℓ} → (A → A → Bool) → List A → List A
unfolding insert_by
sort_stable less [] = []
sort_stable less (x ∷ xs) = insert_by less x (sort_stable less xs)

-- What a search is given.
pub record Query : Type 0 where
  pub target : ℕ
  pub tolerance : ℕ
  pub max_depth : ℕ
  pub limit : ℕ
  pub time_pruned : Bool
  pub cancelled_at : ℕ → Bool

abbrev pub upper_of : Query → ℕ
upper_of q = q.target + q.tolerance

abbrev pub same_amount : Option ℕ → ℕ → Bool
same_amount none a = false
same_amount (some p) a = a == p

module _ (fl : Floats) where
  open fl use {F, of_ℕ, add}

  pub record Entry : Type 0 where
    pub item : Item
    pub age : F
    pub suffix : ℕ

  -- `suffix[index]`, which is 0 past the end.
  abbrev pub suffix_at : List Entry → ℕ
  suffix_at [] = 0
  suffix_at (e ∷ es) = e.suffix

  unfoldable pub entries_of : ℕ → ℕ → List Item → List Entry
  entries_of upper now [] = []
  entries_of upper now (x ∷ xs) =
      let rest = entries_of upper now xs in
      record {
        item = x;
        age = age_days fl now x.occurred_at;
        suffix =
            if leb (upper - x.amount) (suffix_at rest) then upper else suffix_at rest + x.amount;
      }
      ∷ rest

  -- What a search changes: the nodes that remain, the results, and whether it was cancelled.
  pub record SearchState : Type 0 where
    pub remaining : ℕ
    pub results : List (MatchResult fl)
    pub cancelled : Bool

  abbrev pub is_stopped : SearchState → Bool
  is_stopped st = st.cancelled || (st.remaining == 0)

  -- A result takes the place of the worst one, if it is better than that.
  unfoldable pub replace_worst : MatchResult fl → List (MatchResult fl) → List (MatchResult fl)
  replace_worst c [] = []
  replace_worst c (r ∷ rs) =
      let (slot, worst) = worst_from fl 0 r 1 rs in
      if better_match fl c worst then set (r ∷ rs) slot c else r ∷ rs

  -- `consider`
  unfoldable pub consider : Query → List Item → ℕ → ℕ → F → SearchState → SearchState
  unfolding replace_worst
  consider q picked sum abs_err age st =
      let c = candidate_of fl picked sum abs_err age q.time_pruned in
      record st {
        results =
            if ltb (length st.results) q.limit
            then st.results ++ (c ∷ [])
            else replace_worst c st.results;
      }

  -- A loop over the entries below a node, from the amount tried last on.
  abbrev pub Loop : Type 0
  Loop = Option ℕ → ℕ → F → List Item → SearchState → SearchState

  -- `dfs` at a node that is within the budget: record its match, and go on below it with `loop`.
  unfoldable pub visit : Query → Loop → List Entry → ℕ → F → List Item → SearchState → SearchState
  visit q loop entries sum age picked st =
      let found =
        if leb (abs_diff sum q.target) q.tolerance && not (length picked == 0)
        then consider q picked sum (abs_diff sum q.target) age st
        else st in
      let below = loop none sum age picked found in
      if (length entries == 0) || (length picked == q.max_depth) then found else below

  abbrev pub counted : SearchState → SearchState
  counted st = record st { remaining = st.remaining - 1 }

  abbrev pub interrupted : SearchState → SearchState
  interrupted st = record { remaining = st.remaining - 1; results = st.results; cancelled = true }

  -- The context is asked now and then, and is done.
  abbrev pub is_interrupted : Query → SearchState → Bool
  is_interrupted q st =
      ((st.remaining - 1) % context_check_interval == 0) && q.cancelled_at (st.remaining - 1)

  -- What is left to add cannot reach the target.
  abbrev pub is_short : Query → List Entry → ℕ → Bool
  is_short q entries sum = ltb (sum + suffix_at entries) (q.target - q.tolerance)

  -- `dfs`
  unfoldable pub dfs_with :
      Query → Loop → List Entry → ℕ → F → List Item → SearchState → SearchState
  dfs_with q loop entries sum age picked st =
      let inside = visit q loop entries sum age picked (counted st) in
      if is_stopped st
      then st
      else (if is_interrupted q st
          then interrupted st
          else (if ltb (upper_of q) sum
              then counted st
              else (if is_short q entries sum then counted st else inside)))

  -- The loop of `dfs` over the items from a place on.
  unfoldable pub explore : Query → List Entry → Loop
  explore q [] previous sum age picked st = st
  explore q (e ∷ es) previous sum age picked st =
      let amount = e.item.amount in
      let again = explore q es previous sum age picked st in
      let too_large = explore q es (some amount) sum age picked st in
      let inside =
        dfs_with q (explore q es) es (sum + amount) (add age e.age) (picked ++ (e.item ∷ [])) st in
      let next = explore q es (some amount) sum age picked inside in
      if same_amount previous amount
      then again
      else (if ltb (upper_of q - sum) amount
          then too_large
          else (if is_stopped inside then inside else next))

  unfoldable pub dfs : Query → List Entry → ℕ → F → List Item → SearchState → SearchState
  dfs q entries = dfs_with q (explore q entries) entries

  -- `searchMatchesCents`, from the nodes that remain.
  unfoldable pub search_matches : Query → ℕ → List Item → ℕ → SearchState
  unfolding dfs entries_of sort_stable
  search_matches q now items remaining =
      dfs q (entries_of (upper_of q) now (sort_stable item_before items)) 0 (of_ℕ 0) []
        (record { remaining = remaining; results = []; cancelled = false })
