-- ===== src/Matching/Growth.antt =====
-- During a search no node is given back, a cancellation is not taken back, and a result is replaced
-- only by a better one: the least error that is reached never grows.
use fin_arch.Base.{
  ℕ, zero, suc, ◌+◌, ◌≤◌, ◌<◌, ◌≡◌, refl, subst, ◌⊎◌, true, false, some, List, [], ◌∷◌, ◌++◌, arith,
  ltb, length, set, get_elem?, Bool-cases, inl, inr,
}
use native.Mathlib.Nat.{le_refl, add-zero, add_comm}
use native.Mathlib.Numerals.{add-one}
use fin_arch.Matching.Score.{Floats, Item, MatchResult, better_match, worst_from, candidate_of}
use fin_arch.Matching.Search.{SearchState, Query, replace_worst, consider}

module _ (fl : Floats) where
  -- Some result is within `b` of the target.
  abbrev pub Reaches : ℕ → List (MatchResult fl) → Type 0
  Reaches b [] = ⊥
  Reaches b (r ∷ rs) = (r.abs_error_cents ≤ b) ⊎ Reaches b rs

  Reaches-append_left :
      (b : ℕ) (rs ss : List (MatchResult fl)) → Reaches b rs → Reaches b (rs ++ ss)
  Reaches-append_left b [] ss h = absurd h
  Reaches-append_left b (r ∷ rs) ss (inl h) = inl h
  Reaches-append_left b (r ∷ rs) ss (inr h) = inr (Reaches-append_left b rs ss h)

  Reaches-append_last :
      (rs : List (MatchResult fl)) (c : MatchResult fl) → Reaches c.abs_error_cents (rs ++ (c ∷ []))
  Reaches-append_last [] c = inl (le_refl c.abs_error_cents)
  Reaches-append_last (r ∷ rs) c = inr (Reaches-append_last rs c)

  Reaches-of_elem :
      (b : ℕ) (rs : List (MatchResult fl)) (i : ℕ) (w : MatchResult fl)
      → get_elem? rs i ≡ some w
      → w.abs_error_cents ≤ b
      → Reaches b rs
  Reaches-of_elem b [] i w e h = absurd (ground arith)
  Reaches-of_elem b (r ∷ rs) zero w e h = inl (ground arith)
  Reaches-of_elem b (r ∷ rs) (suc i) w e h = inr (Reaches-of_elem b rs i w e h)

  Reaches-set :
      (b : ℕ) (rs : List (MatchResult fl)) (i : ℕ) (w c : MatchResult fl)
      → get_elem? rs i ≡ some w
      → c.abs_error_cents ≤ w.abs_error_cents
      → Reaches b rs
      → Reaches b (set rs i c)
  Reaches-set b [] i w c e le h = h
  Reaches-set b (r ∷ rs) zero w c e le (inl h) = inl (ground arith)
  Reaches-set b (r ∷ rs) zero w c e le (inr h) = inr h
  Reaches-set b (r ∷ rs) (suc i) w c e le (inl h) = inl h
  Reaches-set b (r ∷ rs) (suc i) w c e le (inr h) = inr (Reaches-set b rs i w c e le h)

  Reaches-set_new :
      (rs : List (MatchResult fl)) (i : ℕ) (w c : MatchResult fl)
      → get_elem? rs i ≡ some w
      → Reaches c.abs_error_cents (set rs i c)
  Reaches-set_new [] i w c e = absurd (ground arith)
  Reaches-set_new (r ∷ rs) zero w c e = inl (le_refl c.abs_error_cents)
  Reaches-set_new (r ∷ rs) (suc i) w c e = inr (Reaches-set_new rs i w c e)

  -- The worst result is the one in its slot.
  worst_from-elem :
      (all : List (MatchResult fl)) (slot : ℕ) (current : MatchResult fl) (i : ℕ)
      (rest : List (MatchResult fl))
      → ((j : ℕ) → get_elem? all (i + j) ≡ get_elem? rest j)
      → get_elem? all slot ≡ some current
      → let (s, w) = worst_from fl slot current i rest in get_elem? all s ≡ some w
  unfolding worst_from
  worst_from-elem all slot current i [] at e = e
  worst_from-elem all slot current i (r ∷ rs) at e = elim (Bool-cases (better_match fl current r)) [
    | inl worse ↦
        rw (worse, worst_from) (worst_from-elem all i r (i + 1) rs shift (rw (← add-zero i) (at 0)))
    | inr kept ↦ rw (kept, worst_from) (worst_from-elem all slot current (i + 1) rs shift e)
  ]
    where
      shift : (j : ℕ) → get_elem? all (i + 1 + j) ≡ get_elem? rs j
      shift j = subst (λ (k : ℕ). get_elem? all k ≡ get_elem? rs j) (omega arith) (at (suc j))

  better_le :
      (c w : MatchResult fl) → better_match fl c w ≡ true → c.abs_error_cents ≤ w.abs_error_cents
  unfolding better_match
  better_le c w h = ground arith

  not_better_le :
      (c w : MatchResult fl) → better_match fl c w ≡ false → w.abs_error_cents ≤ c.abs_error_cents
  unfolding better_match
  not_better_le c w h = ground arith

  -- A result that is considered takes no better one away, and its own error is reached.
  replace_worst-Reaches :
      (b : ℕ) (c : MatchResult fl) (rs : List (MatchResult fl))
      → 0 < length rs
      → (Reaches b rs → Reaches b (replace_worst fl c rs))
        × Reaches c.abs_error_cents (replace_worst fl c rs)
  unfolding replace_worst
  replace_worst-Reaches b c [] h = absurd (ground arith)
  replace_worst-Reaches b c (r ∷ rs) h =
      let (slot, w) = worst_from fl 0 r 1 rs in
      let at = worst_from-elem (r ∷ rs) 0 r 1 rs (λ j. rw (add_comm 1 j) (rw add-one refl)) refl in
      elim (Bool-cases (better_match fl c w)) [
        | inl better ↦ rw better (
          Reaches-set b (r ∷ rs) slot w c at (better_le c w better),
          Reaches-set_new (r ∷ rs) slot w c at,
        )
        | inr worse ↦
            rw worse (
              λ h. h,
              Reaches-of_elem c.abs_error_cents (r ∷ rs) slot w at (not_better_le c w worse),
            )
      ]

  module _ (q : Query) where
    pub consider-Reaches :
        (b : ℕ) (picked : List Item) (sum err : ℕ) (age : fl.F) (st : SearchState fl)
        → 0 < q.limit
        → (Reaches b st.results → Reaches b (consider fl q picked sum err age st).results)
          × Reaches err (consider fl q picked sum err age st).results
    unfolding consider candidate_of
    consider-Reaches b picked sum err age st h =
        let c = candidate_of fl picked sum err age q.time_pruned in
        elim (Bool-cases (ltb (length st.results) q.limit)) [
          | inl free ↦
              rw free (Reaches-append_left b st.results (c ∷ []), Reaches-append_last st.results c)
          | inr full ↦ rw full (replace_worst-Reaches b c st.results (ground arith))
        ]
