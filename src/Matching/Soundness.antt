-- ===== src/Matching/Soundness.antt =====
-- Every result of the search is a combination that matches, and there are no more than the limit.
use fin_arch.Base.{
  ℕ, ◌+◌, ◌-◌, ◌≤◌, ◌<◌, ◌≡◌, refl, ap, subst, true, false, ◌&&◌, ◌||◌, not, Option, none, some,
  List, [], ◌∷◌, ◌++◌, arith, ltb, leb, ◌==◌, if◌then◌else◌, length, map, All, All-append, All-set,
  length-append, length-set, Bool-cases, inl, inr,
}
use mathlib.Core.List.{append_assoc, append-nil}
use fin_arch.Matching.Score.{
  Floats, Item, MatchResult, better_match, worst_from, candidate_of, abs_diff, sum_amounts,
  projects_of,
}
use fin_arch.Matching.Search.{
  Entry, SearchState, Query, Loop, replace_worst, consider, visit, dfs_with, explore, dfs, upper_of,
  is_stopped, same_amount, counted, interrupted, is_interrupted, is_short, entries_of,
  search_matches, sort_stable, item_before,
}
use fin_arch.Matching.Subsequences.{
  IsSubsequence, keep, skip, nil-IsSubsequence, sum_amounts-append, choose,
}

module _ (fl : Floats) where
  -- A result describes some of the items, in their order: their identifiers, their sum, its distance
  -- from the target, which is within the tolerance, and how many items and projects there are.
  pub record IsMatch (q : Query) (items : List Item) (r : MatchResult fl) : Type 0 where
    pub picked : List Item
    pub chosen : IsSubsequence picked items
    pub ids : r.transaction_ids ≡ map (λ x. x.id) picked
    pub total : r.total_cents ≡ sum_amounts picked
    pub count : r.item_count ≡ length picked
    pub projects : r.project_count ≡ length (projects_of picked)
    pub not_empty : 0 < length picked
    pub not_too_many : length picked ≤ q.max_depth
    pub error : r.abs_error_cents ≡ abs_diff r.total_cents q.target
    pub within : r.abs_error_cents ≤ q.tolerance

  -- What holds of the results at every node.
  pub record IsSound (q : Query) (items : List Item) (st : SearchState fl) : Type 0 where
    pub matches : All (IsMatch q items) st.results
    pub bounded : length st.results ≤ q.limit

  abbrev pub items_of : List (Entry fl) → List Item
  items_of [] = []
  items_of (e ∷ es) = e.item ∷ items_of es

  -- A node of the search: the items picked so far, with their sum, can be completed by any items
  -- from the node's place on, and more may be picked.
  record IsNode (q : Query) (items : List Item) (picked : List Item) (sum : ℕ)
      (entries : List (Entry fl)) : Type 0 where
    extends :
        (xs : List Item) → IsSubsequence xs (items_of entries) → IsSubsequence (picked ++ xs) items
    sums : sum ≡ sum_amounts picked
    room : length picked ≤ q.max_depth

  module _ (q : Query) (items : List Item) where
    replace_worst-IsSound :
        (c : MatchResult fl) (rs : List (MatchResult fl))
        → IsMatch q items c
        → All (IsMatch q items) rs
        → All (IsMatch q items) (replace_worst fl c rs)
          × (length (replace_worst fl c rs) ≡ length rs)
    unfolding replace_worst
    replace_worst-IsSound c [] h hs = (tt, refl)
    replace_worst-IsSound c (r ∷ rs) h hs =
        let slot = (worst_from fl 0 r 1 rs).0 in
        let better = better_match fl c (worst_from fl 0 r 1 rs).1 in
        (
          choose (All (IsMatch q items)) better (All-set (IsMatch q items) (r ∷ rs) slot c hs h) hs,
          choose (λ (l : List (MatchResult fl)). length l ≡ length (r ∷ rs)) better
              (length-set (r ∷ rs) slot c) refl,
        )

    consider-IsSound :
        (picked : List Item) (sum : ℕ) (age : fl.F) (st : SearchState fl)
        → IsMatch q items (candidate_of fl picked sum (abs_diff sum q.target) age q.time_pruned)
        → IsSound q items st
        → IsSound q items (consider fl q picked sum (abs_diff sum q.target) age st)
    unfolding consider
    consider-IsSound picked sum age st h v =
        let c = candidate_of fl picked sum (abs_diff sum q.target) age q.time_pruned in
        let (good, same) = replace_worst-IsSound c st.results h v.matches in
        record {
          matches =
              choose (All (IsMatch q items)) (ltb (length st.results) q.limit)
                (All-append (IsMatch q items) st.results (c ∷ []) v.matches (h, tt)) good;
          bounded = elim (Bool-cases (ltb (length st.results) q.limit)) [
            | inl free ↦ rw free (ground (arith, length-append st.results (c ∷ [])))
            | inr full ↦ rw full (omega (arith, same, v.bounded))
          ];
        }

    IsSound-results :
        (st st' : SearchState fl)
        → st'.results ≡ st.results
        → IsSound q items st
        → IsSound q items st'
    IsSound-results st st' e v = record { matches = rw e v.matches; bounded = rw e v.bounded }

    node-IsMatch :
        (picked : List Item) (sum : ℕ) (age : fl.F) (entries : List (Entry fl))
        → IsNode q items picked sum entries
        → (leb (abs_diff sum q.target) q.tolerance && not (length picked == 0)) ≡ true
        → IsMatch q items (candidate_of fl picked sum (abs_diff sum q.target) age q.time_pruned)
    unfolding candidate_of
    node-IsMatch picked sum age entries n h = record {
      picked = picked;
      chosen =
          subst (λ (l : List Item). IsSubsequence l items) (append-nil picked)
            (n.extends [] (nil-IsSubsequence (items_of entries)));
      ids = refl;
      total = n.sums;
      count = refl;
      projects = refl;
      not_empty = ground arith;
      not_too_many = n.room;
      error = refl;
      within = ground arith;
    }

    -- A loop that keeps the results sound below a node that has room for one more item.
    abbrev KeepsSound : List (Entry fl) → Loop fl → Type 0
    KeepsSound entries loop =
        (previous : Option ℕ) (sum : ℕ) (age : fl.F) (picked : List Item) (st : SearchState fl)
        → IsNode q items picked sum entries
        → length picked < q.max_depth
        → IsSound q items st
        → IsSound q items (loop previous sum age picked st)

    visit-IsSound :
        (loop : Loop fl) (entries : List (Entry fl)) (sum : ℕ) (age : fl.F) (picked : List Item)
        (st : SearchState fl)
        → KeepsSound entries loop
        → IsNode q items picked sum entries
        → IsSound q items st
        → IsSound q items (visit fl q loop entries sum age picked st)
    unfolding visit
    visit-IsSound loop entries sum age picked st keeps n v =
        let b = leb (abs_diff sum q.target) q.tolerance && not (length picked == 0) in
        let found : IsSound q items
            (if b then consider fl q picked sum (abs_diff sum q.target) age st else st) =
          elim (Bool-cases b) [
            | inl hit ↦
                rw hit
                  (consider-IsSound picked sum age st (node-IsMatch picked sum age entries n hit) v)
            | inr miss ↦ rw miss v
          ] in
        elim (Bool-cases ((length entries == 0) || (length picked == q.max_depth))) [
          | inl end ↦ rw end found
          | inr on ↦ rw on (
              keeps none sum age picked
                (if b then consider fl q picked sum (abs_diff sum q.target) age st else st) n
                (ground (arith, n.room)) found)
        ]

    dfs_with-IsSound :
        (loop : Loop fl) (entries : List (Entry fl)) (sum : ℕ) (age : fl.F) (picked : List Item)
        (st : SearchState fl)
        → KeepsSound entries loop
        → IsNode q items picked sum entries
        → IsSound q items st
        → IsSound q items (dfs_with fl q loop entries sum age picked st)
    unfolding dfs_with
    dfs_with-IsSound loop entries sum age picked st keeps n v =
        let start = IsSound-results st (counted fl st) refl v in
        choose (IsSound q items) (is_stopped fl st) v (
          choose (IsSound q items) (is_interrupted fl q st)
            (IsSound-results st (interrupted fl st) refl v)
            (choose (IsSound q items) (ltb (upper_of q) sum) start (
              choose (IsSound q items) (is_short fl q entries sum) start
                (visit-IsSound loop entries sum age picked (counted fl st) keeps n start))))

    next-IsNode :
        (e : Entry fl) (es : List (Entry fl)) (sum : ℕ) (picked : List Item)
        → IsNode q items picked sum (e ∷ es)
        → length picked < q.max_depth
        → IsNode q items (picked ++ (e.item ∷ [])) (sum + e.item.amount) es
    unfolding sum_amounts
    next-IsNode e es sum picked n more = record {
      extends = λ xs s.
          rw (append_assoc picked (e.item ∷ []) xs) (n.extends (e.item ∷ xs) (keep e.item s));
      sums = omega (arith, sum_amounts-append picked (e.item ∷ []), n.sums);
      room = omega (arith, length-append picked (e.item ∷ []), more);
    }

    skip-IsNode :
        (e : Entry fl) (es : List (Entry fl)) (sum : ℕ) (picked : List Item)
        → IsNode q items picked sum (e ∷ es)
        → IsNode q items picked sum es
    skip-IsNode e es sum picked n = record {
      extends = λ xs s. n.extends xs (skip e.item s);
      sums = n.sums;
      room = n.room;
    }

    explore-KeepsSound : (entries : List (Entry fl)) → KeepsSound entries (explore fl q entries)
    unfolding explore
    explore-KeepsSound [] previous sum age picked st n more v = v
    explore-KeepsSound (e ∷ es) previous sum age picked st n more v =
        let n' = skip-IsNode e es sum picked n in
        let amount = e.item.amount in
        let inside =
          dfs_with fl q (explore fl q es) es (sum + amount) (fl.add age e.age)
            (picked ++ (e.item ∷ [])) st in
        let sound =
          dfs_with-IsSound (explore fl q es) es (sum + amount) (fl.add age e.age)
            (picked ++ (e.item ∷ [])) st (explore-KeepsSound es)
            (next-IsNode e es sum picked n more) v in
        choose (IsSound q items) (same_amount previous amount)
          (explore-KeepsSound es previous sum age picked st n' more v)
          (choose (IsSound q items) (ltb (upper_of q - sum) amount)
            (explore-KeepsSound es (some amount) sum age picked st n' more v)
            (choose (IsSound q items) (is_stopped fl inside) sound
              (explore-KeepsSound es (some amount) sum age picked inside n' more sound)))

  pub items_of-entries_of :
      (upper now : ℕ) (xs : List Item) → items_of (entries_of fl upper now xs) ≡ xs
  unfolding entries_of
  items_of-entries_of upper now [] = refl
  items_of-entries_of upper now (x ∷ xs) = ap (λ l. x ∷ l) (items_of-entries_of upper now xs)

  -- Every result of a search is a combination of its items, in the order of the search, that is not
  -- empty, has at most `max_depth` items and is within the tolerance of the target, with the
  -- identifiers, the sum, the error and the counts of that combination. There are no more results
  -- than the limit.
  pub search_matches-IsSound :
      (q : Query) (now : ℕ) (items : List Item) (remaining : ℕ)
      → IsSound q (sort_stable item_before items) (search_matches fl q now items remaining)
  unfolding search_matches dfs sum_amounts
  search_matches-IsSound q now items remaining =
      let sorted = sort_stable item_before items in
      let entries = entries_of fl (upper_of q) now sorted in
      dfs_with-IsSound q sorted (explore fl q entries) entries 0 (fl.of_ℕ 0) []
        (record { remaining = remaining; results = []; cancelled = false })
        (explore-KeepsSound q sorted entries)
        (record {
          extends = λ xs s.
              subst (λ (l : List Item). IsSubsequence xs l)
                (items_of-entries_of (upper_of q) now sorted) s;
          sums = refl;
          room = omega arith;
        })
        (record { matches = tt; bounded = omega arith })
