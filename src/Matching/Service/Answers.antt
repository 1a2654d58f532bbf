-- ===== src/Matching/Service/Answers.antt =====
-- What the answers of find_best_matches and of match_request hold: combinations of the candidates
-- that are kept, no more than the limit, and errors only where the request or the context is at
-- fault.
use fin_arch.Base.{
  ℕ, zero, suc, ◌+◌, ◌/◌, ◌^◌, ◌≤◌, ◌≡◌, refl, ap, ◌↔◌, Bool, true, false, ◌&&◌, ◌||◌, not, List,
  [], ◌∷◌, arith, ltb, ◌==◌, if◌then◌else◌, ℤ, pos, negsuc, leb_ℤ, ltb_ℤ, abs, length, take,
  filterb, All, map,
}
use fin_arch.Money.{Float, ok, cents}
use fin_arch.Matching.Score.{Floats, Item, MatchResult, better_match}
use fin_arch.Matching.Search.{Query, sort_stable, insert_by, search_matches, item_before}
use fin_arch.Matching.Subsequences.{
  IsSubsequence, done, keep, skip, IsSubsequence_refl, nil-IsSubsequence, choose, choose_by,
}
use fin_arch.Matching.Soundness.{IsMatch, search_matches-IsSound}
use fin_arch.Matching.Service.{
  Candidate, Answer, answered, failed, Surroundings, context_done, normalize_match_depth, is_usable,
  item_of, prepared_from, prepare_matching_candidates, work_set, finished, search_twice,
  find_best_matches, recent, query_of, ◌>>=◌, validate_matching_amounts, max_matching_target_cents,
  max_matching_tolerance_cents,
}

-- The depth of a search is between 1 and 10.
pub normalize_match_depth_range :
    (depth : ℤ) → (1 ≤ normalize_match_depth depth) × (normalize_match_depth depth ≤ 10)
unfolding normalize_match_depth
normalize_match_depth_range (negsuc n) = ground arith
normalize_match_depth_range (pos n) = ground arith

insert_by-All {ℓ κ} :
    {A : Type ℓ} (P : A → Type κ) (less : A → A → Bool) (x : A) (xs : List A)
    → P x
    → All P xs
    → All P (insert_by less x xs)
unfolding insert_by
insert_by-All P less x [] p h = (p, tt)
insert_by-All P less x (y ∷ ys) p h =
    choose (All P) (less y x) (h.0, insert_by-All P less x ys p h.1) (p, h)

-- Sorting keeps what holds of all elements.
pub sort_stable-All {ℓ κ} :
    {A : Type ℓ} (P : A → Type κ) (less : A → A → Bool) (xs : List A)
    → All P xs
    → All P (sort_stable less xs)
unfolding sort_stable
sort_stable-All P less [] h = tt
sort_stable-All P less (x ∷ xs) h =
    insert_by-All P less x (sort_stable less xs) h.0 (sort_stable-All P less xs h.1)

length-insert_by {ℓ} :
    {A : Type ℓ} (less : A → A → Bool) (x : A) (xs : List A)
    → length (insert_by less x xs) ≡ suc (length xs)
unfolding insert_by
length-insert_by less x [] = refl
length-insert_by {A = A} less x (y ∷ ys) =
    choose (λ (l : List A). length l ≡ suc (suc (length ys))) (less y x)
      (ap (λ n. suc n) (length-insert_by less x ys)) refl

pub length-sort_stable {ℓ} :
    {A : Type ℓ} (less : A → A → Bool) (xs : List A) → length (sort_stable less xs) ≡ length xs
unfolding sort_stable
length-sort_stable less [] = refl
length-sort_stable less (x ∷ xs) =
    rw (length-insert_by less x (sort_stable less xs), length-sort_stable less xs) refl

-- The items are those of some of the candidates, in their order, and all of these are usable.
pub record IsPrepared (upper : ℕ) (candidates : List Candidate) (items : List Item) : Type 0 where
  pub kept : List Candidate
  pub chosen : IsSubsequence kept candidates
  pub same : items ≡ map item_of kept
  pub usable : All (λ c. is_usable upper c ≡ true) kept

skip-IsPrepared :
    (upper : ℕ) (c : Candidate) (cs : List Candidate) (items : List Item)
    → IsPrepared upper cs items
    → IsPrepared upper (c ∷ cs) items
skip-IsPrepared upper c cs items h = record {
  kept = h.kept;
  chosen = skip c h.chosen;
  same = h.same;
  usable = h.usable;
}

keep-IsPrepared :
    (upper : ℕ) (c : Candidate) (cs : List Candidate) (items : List Item)
    → is_usable upper c ≡ true
    → IsPrepared upper cs items
    → IsPrepared upper (c ∷ cs) (item_of c ∷ items)
keep-IsPrepared upper c cs items u h = record {
  kept = c ∷ h.kept;
  chosen = keep c h.chosen;
  same = ap (λ l. item_of c ∷ l) h.same;
  usable = (u, h.usable);
}

nil-IsPrepared : (upper : ℕ) (cs : List Candidate) → IsPrepared upper cs []
nil-IsPrepared upper cs = record {
  kept = [];
  chosen = nil-IsSubsequence cs;
  same = refl;
  usable = tt;
}

prepared_from-IsPrepared :
    (room upper : ℕ) (cs : List Candidate)
    → IsPrepared upper cs (prepared_from room upper cs)
      × (length (prepared_from room upper cs) ≤ room)
unfolding prepared_from
prepared_from-IsPrepared zero upper cs = (nil-IsPrepared upper cs, omega arith)
prepared_from-IsPrepared (suc room) upper [] = (nil-IsPrepared upper [], omega arith)
prepared_from-IsPrepared (suc room) upper (c ∷ cs) =
    let kept = prepared_from-IsPrepared room upper cs in
    let skipped = prepared_from-IsPrepared (suc room) upper cs in
    choose_by (λ (l : List Item). IsPrepared upper (c ∷ cs) l × (length l ≤ suc room))
      (is_usable upper c)
      (λ u.
        (keep-IsPrepared upper c cs (prepared_from room upper cs) u kept.0, omega (arith, kept.1)))
      (λ u. (skip-IsPrepared upper c cs (prepared_from (suc room) upper cs) skipped.0, skipped.1))

-- The candidates that are searched are usable ones among the first 2000, in their order, and there
-- are 500 at most.
pub prepare_matching_candidates_lem :
    (upper : ℕ) (cs : List Candidate)
    → IsPrepared upper (take 2000 cs) (prepare_matching_candidates upper cs)
      × (length (prepare_matching_candidates upper cs) ≤ 500)
unfolding prepare_matching_candidates
prepare_matching_candidates_lem upper cs = prepared_from-IsPrepared 500 upper (take 2000 cs)

filterb-IsSubsequence : (p : Item → Bool) (xs : List Item) → IsSubsequence (filterb p xs) xs
filterb-IsSubsequence p [] = done
filterb-IsSubsequence p (x ∷ xs) =
    choose (λ (l : List Item). IsSubsequence l (x ∷ xs)) (p x) (keep x (filterb-IsSubsequence p xs))
      (skip x (filterb-IsSubsequence p xs))

work_set-IsSubsequence :
    (target cutoff : ℕ) (items : List Item) → IsSubsequence (work_set target cutoff items).0 items
unfolding work_set
work_set-IsSubsequence target cutoff items =
    choose (λ (w : List Item × Bool). IsSubsequence w.0 items)
      (ltb (1_000_000_000 / length items) target && not (length (recent cutoff items) == 0))
      (filterb-IsSubsequence (λ x. ltb cutoff x.occurred_at) items) (IsSubsequence_refl items)

module _ (fl : Floats) where
  -- A result is a match of some of the items, in the order in which they are searched.
  pub record IsAnswer (q : Query) (items : List Item) (r : MatchResult fl) : Type 0 where
    pub searched : List Item
    pub from : IsSubsequence searched items
    pub match : IsMatch fl q (sort_stable item_before searched) r

  IsMatch-IsAnswer :
      (q : Query) (pruned : Bool) (items searched : List Item) (rs : List (MatchResult fl))
      → IsSubsequence searched items
      → All (IsMatch fl (record q { time_pruned = pruned }) (sort_stable item_before searched)) rs
      → All (IsAnswer q items) rs
  IsMatch-IsAnswer q pruned items searched [] s h = tt
  IsMatch-IsAnswer q pruned items searched (r ∷ rs) s h = (
    record {
      searched = searched;
      from = s;
      match = record {
        picked = h.0.picked;
        chosen = h.0.chosen;
        ids = h.0.ids;
        total = h.0.total;
        count = h.0.count;
        projects = h.0.projects;
        not_empty = h.0.not_empty;
        not_too_many = h.0.not_too_many;
        error = h.0.error;
        within = h.0.within;
      };
    },
    IsMatch-IsAnswer q pruned items searched rs s h.1,
  )

  -- What is said of an answer that is not an error.
  abbrev pub OnAnswer : {A : Type 0} → (A → Type 0) → Answer A → Type 0
  OnAnswer P (answered a) = P a
  OnAnswer P (failed e) = e ≡ context_done

  abbrev pub GoodResults : Query → List Item → List (MatchResult fl) → Type 0
  GoodResults q items rs = All (IsAnswer q items) rs × (length rs ≤ q.limit)

  search-GoodResults :
      (q : Query) (pruned : Bool) (now remaining : ℕ) (items searched : List Item)
      → IsSubsequence searched items
      → GoodResults q items
          (search_matches fl (record q { time_pruned = pruned }) now searched remaining).results
  search-GoodResults q pruned now remaining items searched s =
      let sound =
        search_matches-IsSound fl (record q { time_pruned = pruned }) now searched remaining in
      (
        IsMatch-IsAnswer q pruned items searched
            (search_matches fl (record q { time_pruned = pruned }) now searched remaining).results s
            sound.matches,
        sound.bounded,
      )

  OnAnswer-bind :
      {A B : Type 0} (P : A → Type 0) (Q : B → Type 0) (m : Answer A) (f : A → Answer B)
      → OnAnswer P m
      → ((a : A) → P a → OnAnswer Q (f a))
      → OnAnswer Q (m >>= f)
  OnAnswer-bind P Q (answered a) f h g = g a h
  OnAnswer-bind P Q (failed e) f h g = h

  -- A search from some of the items.
  finished-GoodResults :
      (q : Query) (pruned : Bool) (now remaining : ℕ) (items searched : List Item)
      → IsSubsequence searched items
      → OnAnswer
          (λ w. GoodResults q items w.0)
          (finished fl
            (search_matches fl (record q { time_pruned = pruned }) now searched remaining))
  finished-GoodResults q pruned now remaining items searched s =
      choose (OnAnswer (λ w. GoodResults q items w.0))
        (search_matches fl (record q { time_pruned = pruned }) now searched remaining).cancelled
        refl (search-GoodResults q pruned now remaining items searched s)

  search_twice-GoodResults :
      (env : Surroundings) (q : Query) (items : List Item)
      → OnAnswer (GoodResults q items) (search_twice fl env q items)
  unfolding search_twice
  search_twice-GoodResults env q items =
      let (first, pruned) = work_set q.target env.cutoff items in
      OnAnswer-bind (λ w. GoodResults q items w.0) (GoodResults q items)
        (finished fl (search_matches fl (record q { time_pruned = pruned }) env.now first 250_000))
        _
        (finished-GoodResults q pruned env.now 250_000 items first
          (work_set-IsSubsequence q.target env.cutoff items))
        (λ w good.
          choose (OnAnswer (GoodResults q items)) ((length w.0 == 0) && pruned && ltb 0 w.1)
            (OnAnswer-bind (λ w. GoodResults q items w.0) (GoodResults q items)
              (finished fl (search_matches fl (record q { time_pruned = false }) env.now items w.1))
              _ (finished-GoodResults q false env.now w.1 items items (IsSubsequence_refl items))
              (λ w2 good2. good2))
            good)

  limit_bounds :
      (limit : ℤ)
      → leb_ℤ limit (pos 0) ≡ false
      → ((if ltb_ℤ (pos 100) limit then 100 else abs limit) ≤ 100)
        × ((if ltb_ℤ (pos 100) limit then 100 else abs limit) ≤ abs limit)
  limit_bounds (pos n) h = ground arith
  limit_bounds (negsuc n) h = ground arith

  -- An answer to a request holds at most 100 results, and no more than the limit that was asked for.
  -- Each is a combination of the prepared candidates that is not empty, has at most the normalized
  -- depth of items and is within the tolerance of the target. The only error is a context that is
  -- done.
  pub find_best_matches_lem :
      (env : Surroundings) (candidates : List Candidate) (target tolerance max_depth limit : ℤ)
      → let q = query_of env target tolerance max_depth limit in
        OnAnswer
          (λ rs.
            All (IsAnswer q (prepare_matching_candidates (q.target + q.tolerance) candidates)) rs
            × (length rs ≤ 100)
            × (length rs ≤ abs limit))
          (find_best_matches fl env candidates target tolerance max_depth limit)
  unfolding find_best_matches
  find_best_matches_lem env candidates target tolerance max_depth limit =
      let q = query_of env target tolerance max_depth limit in
      let items = prepare_matching_candidates (q.target + q.tolerance) candidates in
      let Good : List (MatchResult fl) → Type 0 =
        λ rs. All (IsAnswer q items) rs × (length rs ≤ 100) × (length rs ≤ abs limit) in
      let empty : Good [] = (tt, omega arith, omega arith) in
      choose (OnAnswer Good)
        ((length candidates == 0)
          || leb_ℤ target (pos 0)
          || ltb_ℤ (pos max_matching_target_cents) target)
        empty
        (choose (OnAnswer Good)
          (ltb_ℤ tolerance (pos 0)
            || ltb_ℤ (pos max_matching_tolerance_cents) tolerance
            || ltb_ℤ target tolerance)
          empty
          (choose (OnAnswer Good) env.done_at_start refl (
            choose_by (OnAnswer Good) (leb_ℤ limit (pos 0)) (λ _. empty)
              (λ positive. choose (OnAnswer Good) (length items == 0) empty (
                OnAnswer-bind (GoodResults q items) Good (search_twice fl env q items)
                  (λ rs. answered (sort_stable (better_match fl) rs))
                  (search_twice-GoodResults env q items)
                  (λ rs good.
                    let bounds = limit_bounds limit positive in
                    let same = length-sort_stable (better_match fl) rs in
                    (
                      sort_stable-All (IsAnswer q items) (better_match fl) rs good.0,
                      omega (arith, same, good.1, bounds.0),
                      omega (arith, same, good.1, bounds.1),
                    )))))))

-- The amounts of a request are accepted exactly when both are whole cents, the target is between 1
-- and 10^12 cents, and the tolerance is between 0 and 10^5 cents and not above the target.
pub validate_matching_amounts_iff :
    (target_yuan tolerance_yuan : Float) (target tolerance : ℕ)
    → (validate_matching_amounts target_yuan tolerance_yuan ≡ answered (pos target, pos tolerance))
      ↔ ((cents target_yuan ≡ ok (pos target))
          × (cents tolerance_yuan ≡ ok (pos tolerance))
          × (1 ≤ target)
          × (target ≤ 10 ^ 12)
          × (tolerance ≤ 10 ^ 5)
          × (tolerance ≤ target))
unfolding validate_matching_amounts
validate_matching_amounts_iff target_yuan tolerance_yuan target tolerance =
    (λ h. ground (arith, h), λ h. ground (arith, h))
