-- ===== src/Matching/Completeness.antt =====
-- A search that ends with nodes to spare has reached the least error of all combinations: neither
-- the bounds nor the skipping of equal amounts loses a better one.
use fin_arch.Base.{
  ℕ, ◌+◌, ◌-◌, ◌≤◌, ◌<◌, ◌≡◌, refl, sym, subst, inl, inr, false, ◌&&◌, ◌||◌, not, Option, none,
  some, List, [], ◌∷◌, ◌++◌, arith, ltb, leb, ◌==◌, length, min, Bool-cases, length-append,
}
use fin_arch.Matching.Score.{Floats, Item, abs_diff, sum_amounts}
use fin_arch.Matching.Search.{
  Entry, SearchState, Query, Loop, visit, dfs_with, explore, dfs, upper_of, is_stopped, same_amount,
  counted, is_interrupted, is_short, entries_of, suffix_at, search_matches, sort_stable,
  item_before,
}
use fin_arch.Matching.Subsequences.{
  IsSubsequence, keep, skip, IsSubsequence-sum, choose, choose_then, choose_else, choose_by,
}
use fin_arch.Matching.Soundness.{items_of, items_of-entries_of}
use fin_arch.Matching.Growth.{Reaches, consider-Reaches}
use fin_arch.Matching.Progress.{Grows-running, recorded, dfs_with-Grows, explore-Grows}

IsSubsequence-tail {ℓ} :
    {A : Type ℓ} (x : A) {xs ys : List A} → IsSubsequence (x ∷ xs) ys → IsSubsequence xs ys
IsSubsequence-tail x (keep _ s) = skip _ s
IsSubsequence-tail x (skip y s) = skip y (IsSubsequence-tail x s)

-- Without its head, a subsequence lies in the tail.
IsSubsequence-tails {ℓ} :
    {A : Type ℓ} (x y : A) {xs ys : List A} → IsSubsequence (x ∷ xs) (y ∷ ys) → IsSubsequence xs ys
IsSubsequence-tails x y (keep _ s) = s
IsSubsequence-tails x y (skip _ s) = IsSubsequence-tail x s

-- A head of another amount lies further on.
IsSubsequence-further :
    (x y : Item) {xs ys : List Item}
    → IsSubsequence (x ∷ xs) (y ∷ ys)
    → (x.amount == y.amount) ≡ false
    → IsSubsequence (x ∷ xs) ys
IsSubsequence-further x y (keep _ s) other = absurd (ground arith)
IsSubsequence-further x y (skip _ s) other = s

module _ (fl : Floats) where
  -- The suffixes are the sums of the amounts from their place on, cut at the upper end.
  abbrev pub HasSuffixes : ℕ → List (Entry fl) → Type 0
  HasSuffixes upper [] = Unit
  HasSuffixes upper (e ∷ es) =
      (min upper (sum_amounts (items_of fl (e ∷ es))) ≤ e.suffix) × HasSuffixes upper es

  suffix_at-ge :
      (upper : ℕ) (es : List (Entry fl))
      → HasSuffixes upper es
      → min upper (sum_amounts (items_of fl es)) ≤ suffix_at fl es
  unfolding sum_amounts
  suffix_at-ge upper [] h = omega arith
  suffix_at-ge upper (e ∷ es) h = h.0

  pub entries_of-HasSuffixes :
      (upper now : ℕ) (xs : List Item) → HasSuffixes upper (entries_of fl upper now xs)
  unfolding entries_of sum_amounts
  entries_of-HasSuffixes upper now [] = tt
  entries_of-HasSuffixes upper now (x ∷ xs) =
      let below = entries_of-HasSuffixes upper now xs in
      (
        let least = suffix_at-ge upper (entries_of fl upper now xs) below in
            let same = items_of-entries_of fl upper now xs in ground (arith, least, same),
        below,
      )

  module _ (q : Query) (limit : 0 < q.limit) where
    -- The items `xs` complete the picked ones to a combination that matches.
    record Completes (picked xs : List Item) (sum : ℕ) : Type 0 where
      within : abs_diff (sum + sum_amounts xs) q.target ≤ q.tolerance
      room : length picked + length xs ≤ q.max_depth

    abbrev CoversLoop : List (Entry fl) → Loop fl → Type 0
    CoversLoop entries loop =
        (previous : Option ℕ) (sum : ℕ) (age : fl.F) (picked : List Item) (st : SearchState fl)
        (x : Item) (xs : List Item)
        → IsSubsequence (x ∷ xs) (items_of fl entries)
        → same_amount previous x.amount ≡ false
        → Completes picked (x ∷ xs) sum
        → is_stopped fl (loop previous sum age picked st) ≡ false
        → Reaches fl (abs_diff (sum + sum_amounts (x ∷ xs)) q.target)
            (loop previous sum age picked st).results

    -- A match at a node is reached when it is recorded.
    recorded-Reaches :
        (sum : ℕ) (age : fl.F) (picked : List Item) (st : SearchState fl)
        → 0 < length picked
        → abs_diff sum q.target ≤ q.tolerance
        → Reaches fl (abs_diff sum q.target) (recorded fl q limit sum age picked st).results
    recorded-Reaches sum age picked st some_item within =
        choose_then (λ (s : SearchState fl). Reaches fl (abs_diff sum q.target) s.results)
          (leb (abs_diff sum q.target) q.tolerance && not (length picked == 0)) st (ground arith)
          (consider-Reaches fl q (abs_diff sum q.target) picked sum (abs_diff sum q.target) age st
            limit).1

    -- A search that is still going has reached `b`.
    abbrev Ends : ℕ → SearchState fl → Type 0
    Ends b s = is_stopped fl s ≡ false → Reaches fl b s.results

    visit-covers :
        (entries : List (Entry fl)) (sum : ℕ) (age : fl.F) (picked : List Item)
        (st : SearchState fl) (xs : List Item)
        → CoversLoop entries (explore fl q entries)
        → IsSubsequence xs (items_of fl entries)
        → 0 < length picked + length xs
        → Completes picked xs sum
        → is_stopped fl (visit fl q (explore fl q entries) entries sum age picked st) ≡ false
        → Reaches fl
            (abs_diff (sum + sum_amounts xs) q.target)
            (visit fl q (explore fl q entries) entries sum age picked st).results
    unfolding visit sum_amounts
    visit-covers entries sum age picked st [] covers s some_item c run =
        let found = recorded fl q limit sum age picked st in
        let now =
          recorded-Reaches sum age picked st (omega arith)
            (subst (λ (k : ℕ). abs_diff k q.target ≤ q.tolerance) (omega arith) c.within) in
        subst
          (λ (k : ℕ).
            Reaches fl (abs_diff k q.target)
              (visit fl q (explore fl q entries) entries sum age picked st).results)
          (omega arith)
          (choose (λ (s : SearchState fl). Reaches fl (abs_diff sum q.target) s.results)
            ((length entries == 0) || (length picked == q.max_depth)) now
            ((explore-Grows fl q limit entries none sum age picked found).keeps
              (abs_diff sum q.target) now))
    visit-covers [] sum age picked st (x ∷ xs) covers s some_item c run = elim s [ ]
    visit-covers (e ∷ es) sum age picked st (x ∷ xs) covers s some_item c run =
        let found = recorded fl q limit sum age picked st in
        let deeper : (length (e ∷ es) == 0) || (length picked == q.max_depth) ≡ false =
          ground (arith, c.room) in
        choose_else (Ends (abs_diff (sum + sum_amounts (x ∷ xs)) q.target))
          ((length (e ∷ es) == 0) || (length picked == q.max_depth)) found deeper
          (covers none sum age picked found x xs s refl c) run

    dfs_with-covers :
        (entries : List (Entry fl)) (sum : ℕ) (age : fl.F) (picked : List Item)
        (st : SearchState fl) (xs : List Item)
        → CoversLoop entries (explore fl q entries)
        → HasSuffixes (upper_of q) entries
        → IsSubsequence xs (items_of fl entries)
        → 0 < length picked + length xs
        → Completes picked xs sum
        → is_stopped fl (dfs_with fl q (explore fl q entries) entries sum age picked st) ≡ false
        → Reaches fl
            (abs_diff (sum + sum_amounts xs) q.target)
            (dfs_with fl q (explore fl q entries) entries sum age picked st).results
    unfolding dfs_with
    dfs_with-covers entries sum age picked st xs covers suffixes s some_item c run =
        let running : is_stopped fl st ≡ false =
          Grows-running fl st (dfs_with fl q (explore fl q entries) entries sum age picked st)
            (dfs_with-Grows fl q limit (explore fl q entries) entries sum age picked st
              (explore-Grows fl q limit entries))
            run in
        let least = suffix_at-ge (upper_of q) entries suffixes in
        let whole = IsSubsequence-sum s in
        let fits : ltb (upper_of q) sum ≡ false = ground (arith, c.within) in
        let reaches : is_short fl q entries sum ≡ false = ground (arith, c.within, least, whole) in
        let b = abs_diff (sum + sum_amounts xs) q.target in
        choose_else (Ends b) (is_stopped fl st) st running
          (choose (Ends b) (is_interrupted fl q st) (λ h. absurd (ground arith))
            (choose_else (Ends b) (ltb (upper_of q) sum) (counted fl st) fits (
              choose_else (Ends b) (is_short fl q entries sum) (counted fl st) reaches
                (visit-covers entries sum age picked (counted fl st) xs covers s some_item c))))
          run

    explore-covers :
        (entries : List (Entry fl))
        → HasSuffixes (upper_of q) entries
        → CoversLoop entries (explore fl q entries)
    unfolding explore sum_amounts
    explore-covers [] suffixes previous sum age picked st x xs s new c = elim s [ ]
    explore-covers (e ∷ es) suffixes previous sum age picked st x xs s new c =
        let amount = e.item.amount in
        let b = abs_diff (sum + sum_amounts (x ∷ xs)) q.target in
        let inside =
          dfs_with fl q (explore fl q es) es (sum + amount) (fl.add age e.age)
            (picked ++ (e.item ∷ [])) st in
        choose_by (Ends b) (same_amount previous amount)
          (λ same.
            explore-covers es suffixes.1 previous sum age picked st x xs
              (IsSubsequence-further x e.item s (ground (arith, new, same))) new c)
          (λ differs.
            choose_by (Ends b) (ltb (upper_of q - sum) amount)
              (λ large.
                let other : (x.amount == amount) ≡ false = ground (arith, c.within, large) in
                explore-covers es suffixes.1 (some amount) sum age picked st x xs
                  (IsSubsequence-further x e.item s other) other c)
              (λ fits.
                choose_by (Ends b) (is_stopped fl inside) (λ stop going. absurd (ground arith))
                  (λ going run. elim (Bool-cases (x.amount == amount)) [
                    | inl equal ↦
                        let longer = length-append picked (e.item ∷ []) in
                        let below : Reaches fl (abs_diff (sum + amount + sum_amounts xs) q.target)
                            inside.results =
                          dfs_with-covers es (sum + amount) (fl.add age e.age)
                            (picked ++ (e.item ∷ [])) st xs (explore-covers es suffixes.1)
                            suffixes.1 (IsSubsequence-tails x e.item s) (omega (arith, longer))
                            (record {
                              within = ground (arith, c.within);
                              room = omega (arith, longer, c.room);
                            })
                            going in
                        (explore-Grows fl q limit es (some amount) sum age picked inside).keeps b (
                          subst (λ (k : ℕ). Reaches fl (abs_diff k q.target) inside.results)
                            (ground arith) below)
                    | inr other ↦
                        explore-covers es suffixes.1 (some amount) sum age picked inside x xs
                          (IsSubsequence-further x e.item s other) other c run
                  ])))

  -- A search with a positive limit that ends with nodes to spare, and is not cancelled, has found a
  -- result at least as close to the target as any combination of its items that is not empty, has at
  -- most `max_depth` items and is within the tolerance.
  pub search_matches-optimal :
      (q : Query) (now : ℕ) (items : List Item) (remaining : ℕ) (xs : List Item)
      → 0 < q.limit
      → IsSubsequence xs (sort_stable item_before items)
      → 0 < length xs
      → length xs ≤ q.max_depth
      → abs_diff (sum_amounts xs) q.target ≤ q.tolerance
      → is_stopped fl (search_matches fl q now items remaining) ≡ false
      → Reaches fl
          (abs_diff (sum_amounts xs) q.target)
          (search_matches fl q now items remaining).results
  unfolding search_matches dfs
  search_matches-optimal q now items remaining xs limit s some_item room within run =
      let sorted = sort_stable item_before items in
      let entries = entries_of fl (upper_of q) now sorted in
      let suffixes = entries_of-HasSuffixes (upper_of q) now sorted in
      let start : SearchState fl = record {
        remaining = remaining;
        results = [];
        cancelled = false;
      } in
      let same : sum_amounts xs ≡ 0 + sum_amounts xs = omega arith in
      subst
        (λ (k : ℕ).
          Reaches fl (abs_diff k q.target)
            (dfs_with fl q (explore fl q entries) entries 0 (fl.of_ℕ 0) [] start).results)
        (sym same)
        (dfs_with-covers q limit entries 0 (fl.of_ℕ 0) [] start xs
          (explore-covers q limit entries suffixes) suffixes
          (subst (λ (l : List Item). IsSubsequence xs l)
            (sym (items_of-entries_of fl (upper_of q) now sorted)) s)
          (ground (arith, some_item))
          (record {
            within = subst (λ (k : ℕ). abs_diff k q.target ≤ q.tolerance) same within;
            room = ground (arith, room);
          })
          run)
