-- ===== src/Balance.antt =====
-- The balances of accounts, which the triggers of internal/infrastructure/db/triggers_v9.go keep in
-- step with the transactions. A statement on one row of `transactions` or `accounts` is a function
-- to the tables after it; `none` is a statement that is aborted, which leaves the tables alone. A
-- column of an account or of a transaction is a cell, since SQLite stores any type in it. The
-- audit log is written and never read, so it is left out.
pub mod Conserved
pub mod Statements
pub mod Reversal
mod Tests
use fin_arch.Base.{
  ℕ, zero, suc, Bool, true, false, ◌&&◌, ◌||◌, not, Option, none, some, List, [], ◌∷◌,
  if◌then◌else◌, is_some, ℤ, pos, negsuc, ◌+ℤ◌, ◌-ℤ◌, leb_ℤ, ltb_ℤ, Text, text_eq, update, erase,
}

-- What SQLite stores: an integer, or a value of another type.
pub data Cell : Type 0 where
  integer : ℤ → Cell
  other : Cell

pub data Direction : Type 0 where
  credit debit unknown : Direction

-- The columns of `transactions` that the triggers read.
pub record TransactionRow : Type 0 where
  pub id : Text
  pub account_id : Text
  pub direction : Direction
  pub amount_cents : Cell
  pub base_amount_cents : Cell

-- The columns of `accounts` that the triggers write.
pub record AccountRow : Type 0 where
  pub balance_cents : Cell
  pub version : Cell

pub record Store : Type 0 where
  pub accounts : Text → Option AccountRow
  pub transactions : List TransactionRow

infixl 5 ◌>>=◌
abbrev pub ◌>>=◌ {ℓ κ} : {A : Type ℓ} {B : Type κ} → Option A → (A → Option B) → Option B
none >>= f = none
some a >>= f = f a

abbrev pub max_int64 : ℤ
max_int64 = pos 9_223_372_036_854_775_807

abbrev pub min_int64 : ℤ
min_int64 = negsuc 9_223_372_036_854_775_807

-- trg_transaction_amount_insert and trg_transaction_amount_update: an amount between 1 and the
-- largest one.
abbrev pub is_in_range : Cell → Bool
is_in_range (integer a) = not (leb_ℤ a (pos 0) || ltb_ℤ (pos 9_000_000_000_000_000) a)
is_in_range other = false

abbrev pub amounts_ok : TransactionRow → Bool
amounts_ok t = is_in_range t.amount_cents && is_in_range t.base_amount_cents

abbrev pub is_known : Direction → Bool
is_known credit = true
is_known debit = true
is_known unknown = false

abbrev pub is_positive : Cell → Bool
is_positive (integer a) = ltb_ℤ (pos 0) a
is_positive other = false

-- The first test of the balance triggers on a row.
abbrev pub is_postable : TransactionRow → Bool
is_postable t = is_positive t.base_amount_cents && is_known t.direction

-- The base amount of a row that passes that test.
abbrev pub base_amount : TransactionRow → ℕ
base_amount t = elim t.base_amount_cents [ integer (pos n) ↦ n | _ ↦ 0 ]

abbrev pub is_credit : Direction → Bool
is_credit credit = true
is_credit debit = false
is_credit unknown = false

-- Whether adding `n` to a balance, or taking it away, is refused: a column that is not an integer,
-- a version that is used up, or a balance that would leave int64.
unfoldable pub is_blocked : Bool → ℕ → AccountRow → Bool
is_blocked adds n a = elim a.balance_cents [
  | other ↦ true
  | integer b ↦ elim a.version [
    | other ↦ true
    | integer v ↦
        leb_ℤ max_int64 v
        || (if adds then ltb_ℤ (max_int64 -ℤ pos n) b else ltb_ℤ b (min_int64 +ℤ pos n))
  ]
]

abbrev pub shifted : Bool → ℕ → Cell → Cell
shifted adds n other = other
shifted adds n (integer b) = integer (if adds then b +ℤ pos n else b -ℤ pos n)

abbrev pub bumped : Cell → Cell
bumped other = other
bumped (integer v) = integer (v +ℤ pos 1)

-- The guard and the update of an account; an account that is not there is not updated.
unfoldable pub post :
    Bool → ℕ → Text → (Text → Option AccountRow) → Option (Text → Option AccountRow)
unfolding is_blocked
post adds n k accounts = elim (accounts k) [
  | none ↦ some accounts
  | some a ↦
      if is_blocked adds n a
      then none
      else some (
          update accounts k
            (record { balance_cents = shifted adds n a.balance_cents; version = bumped a.version }))
]

-- The effect of a row is applied, or taken back.
abbrev pub apply_row :
    TransactionRow → (Text → Option AccountRow) → Option (Text → Option AccountRow)
apply_row t = post (is_credit t.direction) (base_amount t) t.account_id

abbrev pub undo_row :
    TransactionRow → (Text → Option AccountRow) → Option (Text → Option AccountRow)
undo_row t = post (not (is_credit t.direction)) (base_amount t) t.account_id

unfoldable pub find_row : Text → List TransactionRow → Option TransactionRow
find_row k [] = none
find_row k (t ∷ ts) = if text_eq k t.id then some t else find_row k ts

unfoldable pub remove_row : Text → List TransactionRow → List TransactionRow
remove_row k [] = []
remove_row k (t ∷ ts) = if text_eq k t.id then ts else t ∷ remove_row k ts

unfoldable pub replace_row : Text → TransactionRow → List TransactionRow → List TransactionRow
replace_row k new [] = []
replace_row k new (t ∷ ts) = if text_eq k t.id then new ∷ ts else t ∷ replace_row k new ts

-- `INSERT INTO transactions`, with the primary key and the reference to the account.
unfoldable pub insert_transaction : Store → TransactionRow → Option Store
insert_transaction s t =
    if not (amounts_ok t)
      || is_some (find_row t.id s.transactions)
      || not (is_some (s.accounts t.account_id))
    then none
    else (if not (is_postable t)
        then none
        else (apply_row t s.accounts >>= λ accounts.
            some (record { accounts = accounts; transactions = t ∷ s.transactions })))

-- `DELETE FROM transactions WHERE id = ?`
unfoldable pub delete_transaction : Store → Text → Option Store
delete_transaction s k = elim (find_row k s.transactions) [
  | none ↦ some s
  | some t ↦
      if not (is_postable t)
      then none
      else (undo_row t s.accounts >>= λ accounts.
          some (record { accounts = accounts; transactions = remove_row k s.transactions }))
]

-- A row that an update gives the account, the direction and the amounts of `c`.
abbrev pub changed : TransactionRow → TransactionRow → TransactionRow
changed t c = record c { id = t.id }

-- `UPDATE transactions SET account_id = ?, direction = ?, amount_cents = ?, base_amount_cents = ?
-- WHERE id = ?`
unfoldable pub update_transaction : Store → Text → TransactionRow → Option Store
update_transaction s k c = elim (find_row k s.transactions) [
  | none ↦ some s
  | some t ↦
      let new = changed t c in
      if not (amounts_ok new) || not (is_some (s.accounts c.account_id))
      then none
      else (if not (is_postable t && is_postable new)
          then none
          else (undo_row t s.accounts >>= λ undone. apply_row new undone >>= λ accounts.
              some
                (record { accounts = accounts; transactions = replace_row k new s.transactions })))
]

abbrev pub has_transactions : Text → List TransactionRow → Bool
has_transactions k [] = false
has_transactions k (t ∷ ts) = text_eq t.account_id k || has_transactions k ts

-- `DELETE FROM accounts WHERE id = ?`, under trg_prevent_account_delete.
unfoldable pub delete_account : Store → Text → Option Store
delete_account s k =
    if is_some (s.accounts k) && has_transactions k s.transactions
    then none
    else some (record s { accounts = erase s.accounts k })
