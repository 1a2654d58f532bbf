-- ===== src/Matching/Progress.antt =====
-- How a search changes its state, from one node to a later one.
use fin_arch.Base.{
  ℕ, ◌+◌, ◌-◌, ◌≤◌, ◌<◌, ◌≡◌, refl, true, false, ◌&&◌, ◌||◌, not, Option, none, some, List, [], ◌∷◌,
  ◌++◌, arith, ltb, leb, ◌==◌, if◌then◌else◌, length, Bool-cases, inl, inr,
}
use native.Mathlib.Nat.{le_refl, le_trans}
use fin_arch.Matching.Score.{Floats, Item, abs_diff}
use fin_arch.Matching.Search.{
  Entry, SearchState, Query, Loop, consider, visit, dfs_with, explore, upper_of, is_stopped,
  same_amount, counted, is_interrupted, is_short,
}
use fin_arch.Matching.Subsequences.{choose}
use fin_arch.Matching.Growth.{Reaches, consider-Reaches}

module _ (fl : Floats) where
  -- Nodes are used up, a cancellation stays, and what is reached stays reached.
  pub record Grows (st st' : SearchState fl) : Type 0 where
    pub spends : st'.remaining ≤ st.remaining
    pub stays : st.cancelled ≡ true → st'.cancelled ≡ true
    pub keeps : (b : ℕ) → Reaches fl b st.results → Reaches fl b st'.results

  pub Grows-refl : (st : SearchState fl) → Grows st st
  Grows-refl st = record { spends = le_refl st.remaining; stays = λ h. h; keeps = λ b h. h }

  pub Grows-trans : (s t u : SearchState fl) → Grows s t → Grows t u → Grows s u
  Grows-trans s t u g h = record {
    spends = le_trans h.spends g.spends;
    stays = λ c. h.stays (g.stays c);
    keeps = λ b r. h.keeps b (g.keeps b r);
  }

  -- A search that has not stopped later had not stopped before.
  pub Grows-running :
      (s t : SearchState fl) → Grows s t → is_stopped fl t ≡ false → is_stopped fl s ≡ false
  Grows-running s t g h = elim (Bool-cases s.cancelled) [
    | inl off ↦ absurd (ground (arith, g.stays off))
    | inr on ↦ ground (arith, g.spends)
  ]

  module _ (q : Query) (limit : 0 < q.limit) where
    consider-Grows :
        (picked : List Item) (sum err : ℕ) (age : fl.F) (st : SearchState fl)
        → Grows st (consider fl q picked sum err age st)
    unfolding consider
    consider-Grows picked sum err age st = record {
      spends = le_refl st.remaining;
      stays = λ h. h;
      keeps = λ b. (consider-Reaches fl q b picked sum err age st limit).0;
    }

    abbrev pub Growing : Loop fl → Type 0
    Growing loop =
        (previous : Option ℕ) (sum : ℕ) (age : fl.F) (picked : List Item) (st : SearchState fl)
        → Grows st (loop previous sum age picked st)

    -- The state at a node once its own match is recorded.
    abbrev pub recorded : ℕ → fl.F → List Item → SearchState fl → SearchState fl
    recorded sum age picked st =
        if leb (abs_diff sum q.target) q.tolerance && not (length picked == 0)
        then consider fl q picked sum (abs_diff sum q.target) age st
        else st

    pub recorded-Grows :
        (sum : ℕ) (age : fl.F) (picked : List Item) (st : SearchState fl)
        → Grows st (recorded sum age picked st)
    recorded-Grows sum age picked st =
        choose (Grows st) (leb (abs_diff sum q.target) q.tolerance && not (length picked == 0))
          (consider-Grows picked sum (abs_diff sum q.target) age st) (Grows-refl st)

    pub visit-Grows :
        (loop : Loop fl) (entries : List (Entry fl)) (sum : ℕ) (age : fl.F) (picked : List Item)
        (st : SearchState fl)
        → Growing loop
        → Grows st (visit fl q loop entries sum age picked st)
    unfolding visit
    visit-Grows loop entries sum age picked st g =
        let found = recorded-Grows sum age picked st in
        choose (Grows st) ((length entries == 0) || (length picked == q.max_depth)) found (
          Grows-trans st (recorded sum age picked st)
            (loop none sum age picked (recorded sum age picked st)) found
            (g none sum age picked (recorded sum age picked st)))

    pub counted-Grows : (st : SearchState fl) → Grows st (counted fl st)
    counted-Grows st = record { spends = omega arith; stays = λ h. h; keeps = λ b h. h }

    pub dfs_with-Grows :
        (loop : Loop fl) (entries : List (Entry fl)) (sum : ℕ) (age : fl.F) (picked : List Item)
        (st : SearchState fl)
        → Growing loop
        → Grows st (dfs_with fl q loop entries sum age picked st)
    unfolding dfs_with
    dfs_with-Grows loop entries sum age picked st g =
        let start = counted-Grows st in
        choose (Grows st) (is_stopped fl st) (Grows-refl st) (
          choose (Grows st) (is_interrupted fl q st)
            (record { spends = omega arith; stays = λ h. refl; keeps = λ b h. h })
            (choose (Grows st) (ltb (upper_of q) sum) start (
              choose (Grows st) (is_short fl q entries sum) start (
                Grows-trans st (counted fl st)
                  (visit fl q loop entries sum age picked (counted fl st)) start
                  (visit-Grows loop entries sum age picked (counted fl st) g)))))

    pub explore-Grows : (entries : List (Entry fl)) → Growing (explore fl q entries)
    unfolding explore
    explore-Grows [] previous sum age picked st = Grows-refl st
    explore-Grows (e ∷ es) previous sum age picked st =
        let amount = e.item.amount in
        let inside =
          dfs_with fl q (explore fl q es) es (sum + amount) (fl.add age e.age)
            (picked ++ (e.item ∷ [])) st in
        let below =
          dfs_with-Grows (explore fl q es) es (sum + amount) (fl.add age e.age)
            (picked ++ (e.item ∷ [])) st (explore-Grows es) in
        choose (Grows st) (same_amount previous amount)
          (explore-Grows es previous sum age picked st)
          (choose (Grows st) (ltb (upper_of q - sum) amount)
            (explore-Grows es (some amount) sum age picked st)
            (choose (Grows st) (is_stopped fl inside) below (
              Grows-trans st inside (explore fl q es (some amount) sum age picked inside) below
                (explore-Grows es (some amount) sum age picked inside))))
