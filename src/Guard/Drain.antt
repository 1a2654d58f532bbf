-- ===== src/Guard/Drain.antt =====
-- A maintenance that waits for the readers gets in.
use fin_arch.Base.{
  ℕ, zero, suc, ◌≤◌, ◌≡◌, refl, some, List, [], ◌∷◌, arith, get_elem?, length, inl, inr, ◌⊎◌,
}
use fin_arch.Guard.{
  SystemState, Pc, read_locked, refused, leasing, maintaining, System, Turn, schedule,
}
use fin_arch.Guard.Invariant.{total}

-- The turns that a thread needs before it no longer reads.
abbrev pub turns_left : Pc → ℕ
turns_left read_locked = 2
turns_left refused = 1
turns_left leasing = 1
turns_left _ = 0

pub zero_or_pos : (k : ℕ) → (k ≡ 0) ⊎ (1 ≤ k)
zero_or_pos zero = inl refl
zero_or_pos (suc k) = inr (omega arith)

module _ (w : Pc → ℕ) where
  -- A thread of positive weight, if there is weight at all.
  pub find_weight :
      (ps : List Pc) → 1 ≤ total w ps → (j : ℕ) × (q : Pc) × (get_elem? ps j ≡ some q) × (1 ≤ w q)
  unfolding total
  find_weight [] h = absurd (omega arith)
  find_weight (p ∷ ps) h = elim (zero_or_pos (w p)) [
    | inl e ↦ let (j, q, at, big) = find_weight ps (omega arith) in (suc j, q, at, big)
    | inr big ↦ (0, p, refl, big)
  ]

-- A schedule that leads to maintenance, of at most `k` turns.
abbrev pub CanMaintain : System → ℕ → SystemState → SystemState → ℕ → Type 0
CanMaintain s i target previous k =
    (ts : List Turn) × (length ts ≤ k)
    × (get_elem? (schedule s ts).threads i ≡ some (maintaining target previous))
