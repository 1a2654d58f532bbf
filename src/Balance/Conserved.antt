-- ===== src/Balance/Conserved.antt =====
-- A balance is what the account was opened with and the effects of its transactions, and it stays an
-- int64.
use fin_arch.Base.{
  ℕ, ◌≡◌, refl, Bool, true, false, not, Option, none, some, List, [], ◌∷◌, ◌⊎◌, arith,
  if◌then◌else◌, ℤ, pos, ◌+ℤ◌, ◌-ℤ◌, is_int64, Text, text_eq, text_eq_iff, update, subst, sym, ap,
  ◌∙◌, Option-cases, Bool-cases, inl, inr,
}
use fin_arch.Balance.{
  integer, TransactionRow, AccountRow, Store, is_credit, base_amount, is_blocked, shifted, bumped,
  post, find_row, remove_row, replace_row,
}

-- An amount is added to a sum, or taken from it.
abbrev pub shift : Bool → ℕ → ℤ → ℤ
shift adds n sum = if adds then sum +ℤ pos n else sum -ℤ pos n

abbrev pub shift_if : Bool → Bool → ℕ → ℤ → ℤ
shift_if mine adds n sum = if mine then shift adds n sum else sum

-- What the rows of an account add up to: credits less debits.
unfoldable pub posted : Text → List TransactionRow → ℤ
posted k [] = pos 0
posted k (t ∷ ts) =
    shift_if (text_eq t.account_id k) (is_credit t.direction) (base_amount t) (posted k ts)

-- The account is balanced: opened with `o`, it has `o` and all that was posted, as an int64.
abbrev pub IsBalancedAt : ℤ → ℤ → Option AccountRow → Type 0
IsBalancedAt o sum none = Unit
IsBalancedAt o sum (some a) =
    (b : ℤ) × (a.balance_cents ≡ integer b) × (b ≡ o +ℤ sum) × (is_int64 b ≡ true)

abbrev pub IsBalanced : Text → ℤ → Store → Type 0
IsBalanced k o s = IsBalancedAt o (posted k s.transactions) (s.accounts k)

-- The arithmetic of one guarded shift.
shift-IsBalancedAt :
    (adds : Bool) (n : ℕ) (o sum : ℤ) (a : AccountRow)
    → is_blocked adds n a ≡ false
    → IsBalancedAt o sum (some a)
    → IsBalancedAt o (shift adds n sum) (
        some
          (record { balance_cents = shifted adds n a.balance_cents; version = bumped a.version }))
unfolding is_blocked ◌+ℤ◌ ◌-ℤ◌
shift-IsBalancedAt true n o sum a free (b, is, eq, fits) =
    (b +ℤ pos n, ground arith, ground arith, ground (arith, free, is))
shift-IsBalancedAt false n o sum a free (b, is, eq, fits) =
    (b -ℤ pos n, ground arith, ground arith, ground (arith, free, is))

abbrev pub moved : Bool → ℕ → AccountRow → AccountRow
moved adds n a = record {
  balance_cents = shifted adds n a.balance_cents;
  version = bumped a.version;
}

-- What a guarded update that is not aborted has done.
pub post_cases :
    (adds : Bool) (n : ℕ) (at : Text) (accounts after : Text → Option AccountRow)
    → post adds n at accounts ≡ some after
    → ((accounts at ≡ none) × (after ≡ accounts))
      ⊎ ((a : AccountRow) × (accounts at ≡ some a)
          × (is_blocked adds n a ≡ false)
          × (after ≡ update accounts at (moved adds n a)))
unfolding post
post_cases adds n at accounts after e = elim (Option-cases (accounts at)) [
  | inl missing ↦ inl (missing, ground arith)
  | inr (a, found) ↦ elim (Bool-cases (is_blocked adds n a)) [
    | inl blocked ↦ absurd (ground arith)
    | inr free ↦ inr (a, found, free, ground arith)
  ]
]

-- A guarded update moves the balance of its account by the amount, and no other balance.
pub post-IsBalancedAt :
    (adds : Bool) (n : ℕ) (at k : Text) (o sum : ℤ) (accounts after : Text → Option AccountRow)
    → post adds n at accounts ≡ some after
    → IsBalancedAt o sum (accounts k)
    → IsBalancedAt o (shift_if (text_eq at k) adds n sum) (after k)
post-IsBalancedAt adds n at k o sum accounts after e h =
    elim (post_cases adds n at accounts after e) [
      | inl (missing, same) ↦ rw same (elim (Bool-cases (text_eq at k)) [
        | inl here ↦ let gone : accounts k ≡ none = ground (arith, text_eq_iff at k) in rw gone tt
        | inr away ↦ rw away h
      ])
      | inr (a, found, free, same) ↦ rw same (elim (Bool-cases (text_eq at k)) [
        | inl here ↦
            let mine : accounts k ≡ some a = ground (arith, text_eq_iff at k) in
            rw here (shift-IsBalancedAt adds n o sum a free (rw mine at h))
        | inr away ↦ rw away h
      ])
    ]

-- Two shifts commute, and a shift back undoes a shift.
shift_swap :
    (a b : Bool) (m n : ℕ) (sum : ℤ) → shift a m (shift b n sum) ≡ shift b n (shift a m sum)
unfolding ◌+ℤ◌ ◌-ℤ◌
shift_swap true true m n sum = ground arith
shift_swap true false m n sum = ground arith
shift_swap false true m n sum = ground arith
shift_swap false false m n sum = ground arith

pub shift_back : (a : Bool) (n : ℕ) (sum : ℤ) → shift (not a) n (shift a n sum) ≡ sum
unfolding ◌+ℤ◌ ◌-ℤ◌
shift_back true n sum = ground arith
shift_back false n sum = ground arith

shift_if_swap :
    (x y a b : Bool) (m n : ℕ) (sum : ℤ)
    → shift_if x a m (shift_if y b n sum) ≡ shift_if y b n (shift_if x a m sum)
shift_if_swap true true a b m n sum = shift_swap a b m n sum
shift_if_swap true false a b m n sum = refl
shift_if_swap false true a b m n sum = refl
shift_if_swap false false a b m n sum = refl

shift_if_back : (x a : Bool) (n : ℕ) (sum : ℤ) → shift_if x (not a) n (shift_if x a n sum) ≡ sum
shift_if_back true a n sum = shift_back a n sum
shift_if_back false a n sum = refl

abbrev with_row : Text → TransactionRow → ℤ → ℤ
with_row k t = shift_if (text_eq t.account_id k) (is_credit t.direction) (base_amount t)

abbrev without_row : Text → TransactionRow → ℤ → ℤ
without_row k t = shift_if (text_eq t.account_id k) (not (is_credit t.direction)) (base_amount t)

-- Without a row, the rest adds up to the sum with the row taken back.
pub posted-remove_row :
    (k id : Text) (ts : List TransactionRow) {t : TransactionRow}
    → find_row id ts ≡ some t
    → posted k (remove_row id ts) ≡ without_row k t (posted k ts)
unfolding posted find_row remove_row
posted-remove_row k id [] e = absurd (ground arith)
posted-remove_row k id (x ∷ ts) {t} e = elim (Bool-cases (text_eq id x.id)) [
  | inl hit ↦
      let same : x ≡ t = ground (arith, e, hit) in
      rw hit (
        subst (λ (r : TransactionRow). posted k ts ≡ without_row k r (with_row k x (posted k ts)))
          same
          (sym (
            shift_if_back (text_eq x.account_id k) (is_credit x.direction) (base_amount x)
              (posted k ts))))
  | inr miss ↦ rw miss (
      ap (with_row k x) (posted-remove_row k id ts (rw miss at e))
      ∙ shift_if_swap (text_eq x.account_id k) (text_eq t.account_id k) (is_credit x.direction)
          (not (is_credit t.direction)) (base_amount x) (base_amount t) (posted k ts))
]

pub posted-replace_row :
    (k id : Text) (new : TransactionRow) (ts : List TransactionRow) {t : TransactionRow}
    → find_row id ts ≡ some t
    → posted k (replace_row id new ts) ≡ with_row k new (posted k (remove_row id ts))
unfolding posted find_row remove_row replace_row
posted-replace_row k id new [] e = absurd (ground arith)
posted-replace_row k id new (x ∷ ts) {t} e = elim (Bool-cases (text_eq id x.id)) [
  | inl hit ↦ rw hit refl
  | inr miss ↦ rw miss (
      ap (with_row k x) (posted-replace_row k id new ts (rw miss at e))
      ∙ shift_if_swap (text_eq x.account_id k) (text_eq new.account_id k) (is_credit x.direction)
          (is_credit new.direction) (base_amount x) (base_amount new) (posted k (remove_row id ts)))
]
