-- ===== src/Ledger/Book.antt =====
-- What the journal says of each account, with no cache and no bound on the numbers.
use fin_arch.Balance.{Cell, integer}
use fin_arch.Base.{
  ℕ, ◌+◌, ◌≤◌, ◌<◌, ◌≡◌, refl, Bool, true, false, Option, none, some, List, [], ◌∷◌, arith,
  if◌then◌else◌, ℤ, pos, pos_part, neg_part, ◌+ℤ◌, ◌-ℤ◌, is_int64, int64_bound, wrap, Text, All,
}
use fin_arch.Ledger.Records.{Line, LineRow, Store}
use fin_arch.Ledger.Post.{is_negative}
use fin_arch.Ledger.Check.{is_on, sum_of, net, any_line}

-- The sum of the lines that a test picks.
module _ (picks : LineRow → Bool) where
  unfoldable pub balance : List LineRow → ℤ
  balance [] = pos 0
  balance (l ∷ ls) = let rest = balance ls in if picks l then rest +ℤ net l.line else rest

-- The balance of an account, if the user has a line on it.
unfoldable pub book : Store → Text → Text → Option Cell
unfolding balance
book s user account =
    if any_line (is_on s.entries user account) s.lines
    then some (integer (balance (is_on s.entries user account) s.lines))
    else none

-- All that was ever debited or credited.
abbrev pub volume : List LineRow → ℕ
volume [] = 0
volume (l ∷ ls) = pos_part l.line.debit_cents + pos_part l.line.credit_cents + volume ls

abbrev pub AllPositive : List LineRow → Type 0
AllPositive = All (λ l. is_negative l.line ≡ false)

net-le :
    (l : Line)
    → is_negative l ≡ false
    → (pos_part (net l) ≤ pos_part l.debit_cents) × (neg_part (net l) ≤ pos_part l.credit_cents)
unfolding ◌-ℤ◌
net-le l h = ground arith

sum-le :
    (a b : ℤ) (m n : ℕ)
    → pos_part a ≤ m
    → neg_part a ≤ m
    → pos_part b ≤ n
    → neg_part b ≤ n
    → (pos_part (a +ℤ b) ≤ m + n) × (neg_part (a +ℤ b) ≤ m + n)
unfolding ◌+ℤ◌
sum-le a b m n h k h' k' = ground arith

module _ (picks : LineRow → Bool) where
  pub balance-le-volume :
      (ls : List LineRow)
      → AllPositive ls
      → (pos_part (balance picks ls) ≤ volume ls) × (neg_part (balance picks ls) ≤ volume ls)
  unfolding balance
  balance-le-volume [] h = (omega arith, omega arith)
  balance-le-volume (l ∷ ls) h =
      let (small_pos, small_neg) = balance-le-volume ls h.1 in
      let (up, down) = net-le l.line h.0 in
      let (p, n) =
        sum-le (balance picks ls) (net l.line) (volume ls)
          (pos_part l.line.debit_cents + pos_part l.line.credit_cents) small_pos small_neg
          (omega arith) (omega arith) in
      ground arith

is_int64_of_lt : (z : ℤ) → pos_part z < int64_bound → neg_part z < int64_bound → is_int64 z ≡ true
is_int64_of_lt z h k = ground arith

pub balance-is_int64 :
    (picks : LineRow → Bool) (ls : List LineRow)
    → AllPositive ls
    → volume ls < int64_bound
    → is_int64 (balance picks ls) ≡ true
balance-is_int64 picks ls h v =
    is_int64_of_lt (balance picks ls) (omega (arith, (balance-le-volume picks ls h).0))
      (omega (arith, (balance-le-volume picks ls h).1))

-- SQLite's sum does not overflow, and is the exact one.
pub sum_of-balance :
    (picks : LineRow → Bool) (ls : List LineRow)
    → AllPositive ls
    → volume ls < int64_bound
    → sum_of picks net ls ≡ some (balance picks ls)
unfolding sum_of balance
sum_of-balance picks [] h v = refl
sum_of-balance picks (l ∷ ls) h v =
    ground (arith, sum_of-balance picks ls h.1, balance-is_int64 picks (l ∷ ls) h v)

wrap_of_int64 : (z : ℤ) → pos_part z < int64_bound → neg_part z < int64_bound → wrap z ≡ z
wrap_of_int64 z h k = ground arith

pub wrap-net :
    (l : Line)
    → is_negative l ≡ false
    → pos_part l.debit_cents + pos_part l.credit_cents < int64_bound
    → wrap (net l) ≡ net l
wrap-net l h v =
    wrap_of_int64 (net l) (omega (arith, (net-le l h).0)) (omega (arith, (net-le l h).1))
