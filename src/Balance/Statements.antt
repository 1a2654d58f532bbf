-- ===== src/Balance/Statements.antt =====
-- What the statements on transactions and accounts do to balances.
use fin_arch.Base.{
  ◌≡◌, ◌⊎◌, true, not, Option, none, some, List, [], ◌∷◌, arith, ℤ, Text, text_eq, erase,
  Option-cases, Bool-cases, inl, inr,
}
use fin_arch.Balance.{
  TransactionRow, AccountRow, Store, changed, is_credit, base_amount, apply_row, undo_row, find_row,
  remove_row, replace_row, is_postable, insert_transaction, delete_transaction, update_transaction,
  delete_account,
}
use fin_arch.Balance.Conserved.{
  IsBalanced, posted, post-IsBalancedAt, posted-remove_row, posted-replace_row,
}

-- What an insertion that is not aborted has done.
pub insert_cases :
    (s s' : Store) (t : TransactionRow)
    → insert_transaction s t ≡ some s'
    → (accounts : Text → Option AccountRow) × (apply_row t s.accounts ≡ some accounts)
      × (s' ≡ record { accounts = accounts; transactions = t ∷ s.transactions })
      × (is_postable t ≡ true)
      × (find_row t.id s.transactions ≡ none)
unfolding insert_transaction
insert_cases s s' t e = elim (Option-cases (apply_row t s.accounts)) [
  | inl aborted ↦ absurd (ground arith)
  | inr (accounts, done) ↦ (accounts, done, ground arith, ground arith, ground arith)
]

-- What a deletion that is not aborted has done: nothing, if there is no such row.
pub delete_cases :
    (s s' : Store) (id : Text)
    → delete_transaction s id ≡ some s'
    → ((find_row id s.transactions ≡ none) × (s' ≡ s))
      ⊎ ((t : TransactionRow) × (accounts : Text → Option AccountRow) × (find_row id s.transactions
            ≡ some t)
          × (undo_row t s.accounts ≡ some accounts)
          × (s' ≡ record { accounts = accounts; transactions = remove_row id s.transactions }))
unfolding delete_transaction
delete_cases s s' id e = elim (Option-cases (find_row id s.transactions)) [
  | inl missing ↦ inl (missing, ground arith)
  | inr (t, found) ↦ elim (Option-cases (undo_row t s.accounts)) [
    | inl aborted ↦ absurd (ground arith)
    | inr (accounts, done) ↦ inr (t, accounts, found, done, ground arith)
  ]
]

update_cases :
    (s s' : Store) (id : Text) (c : TransactionRow)
    → update_transaction s id c ≡ some s'
    → ((find_row id s.transactions ≡ none) × (s' ≡ s))
      ⊎ ((t : TransactionRow) × (undone : Text → Option AccountRow) × (accounts : Text
            → Option AccountRow)
          × (find_row id s.transactions ≡ some t)
          × (undo_row t s.accounts ≡ some undone)
          × (apply_row (changed t c) undone ≡ some accounts)
          × (s' ≡ record {
            accounts = accounts;
            transactions = replace_row id (changed t c) s.transactions;
          }))
unfolding update_transaction
update_cases s s' id c e = elim (Option-cases (find_row id s.transactions)) [
  | inl missing ↦ inl (missing, ground arith)
  | inr (t, found) ↦ elim (Option-cases (undo_row t s.accounts)) [
    | inl aborted ↦ absurd (ground arith)
    | inr (undone, back) ↦ elim (Option-cases (apply_row (changed t c) undone)) [
      | inl aborted ↦ absurd (ground arith)
      | inr (accounts, done) ↦ inr (t, undone, accounts, found, back, done, ground arith)
    ]
  ]
]

module _ (k : Text) (o : ℤ) where
  insert-IsBalanced :
      (s s' : Store) (t : TransactionRow)
      → insert_transaction s t ≡ some s'
      → IsBalanced k o s
      → IsBalanced k o s'
  unfolding posted
  insert-IsBalanced s s' t e h =
      let (accounts, done, same, _, _) = insert_cases s s' t e in
      rw same (
        post-IsBalancedAt (is_credit t.direction) (base_amount t) t.account_id k o
          (posted k s.transactions) s.accounts accounts done h)

  delete-IsBalanced :
      (s s' : Store) (id : Text)
      → delete_transaction s id ≡ some s'
      → IsBalanced k o s
      → IsBalanced k o s'
  delete-IsBalanced s s' id e h = elim (delete_cases s s' id e) [
    | inl (_, same) ↦ rw same h
    | inr (t, accounts, found, done, same) ↦
        rw (same, posted-remove_row k id s.transactions found)
          (post-IsBalancedAt (not (is_credit t.direction)) (base_amount t) t.account_id k o
            (posted k s.transactions) s.accounts accounts done h)
  ]

  update-IsBalanced :
      (s s' : Store) (id : Text) (c : TransactionRow)
      → update_transaction s id c ≡ some s'
      → IsBalanced k o s
      → IsBalanced k o s'
  update-IsBalanced s s' id c e h = elim (update_cases s s' id c e) [
    | inl (_, same) ↦ rw same h
    | inr (t, undone, accounts, found, back, done, same) ↦
        let new = changed t c in
        let without =
          post-IsBalancedAt (not (is_credit t.direction)) (base_amount t) t.account_id k o
            (posted k s.transactions) s.accounts undone back h in
        rw
          (
            same,
            posted-replace_row k id new s.transactions found,
            posted-remove_row k id s.transactions found,
          )
          (post-IsBalancedAt (is_credit new.direction) (base_amount new) new.account_id k o _ undone
            accounts done without)
  ]

  delete_account-IsBalanced :
      (s s' : Store) (id : Text)
      → delete_account s id ≡ some s'
      → IsBalanced k o s
      → IsBalanced k o s'
  unfolding delete_account
  delete_account-IsBalanced s s' id e h =
      let same : s' ≡ record s { accounts = erase s.accounts id } = ground arith in
      rw same (elim (Bool-cases (text_eq id k)) [ inl here ↦ rw here tt | inr away ↦ rw away h ])

-- A statement on the two tables.
pub data Statement : Type 0 where
  inserts : TransactionRow → Statement
  deletes : Text → Statement
  updates : Text → TransactionRow → Statement
  deletes_account : Text → Statement

abbrev or_unchanged : Store → Option Store → Store
or_unchanged s none = s
or_unchanged s (some s') = s'

abbrev attempt : Store → Statement → Option Store
attempt s (inserts t) = insert_transaction s t
attempt s (deletes id) = delete_transaction s id
attempt s (updates id c) = update_transaction s id c
attempt s (deletes_account id) = delete_account s id

-- A statement that is aborted leaves the tables as they are.
pub execute : Store → Statement → Store
execute s c = or_unchanged s (attempt s c)

unfoldable pub execute_all : Store → List Statement → Store
execute_all s [] = s
execute_all s (c ∷ cs) = execute_all (execute s c) cs

attempt-IsBalanced :
    (k : Text) (o : ℤ) (s s' : Store) (c : Statement)
    → attempt s c ≡ some s'
    → IsBalanced k o s
    → IsBalanced k o s'
attempt-IsBalanced k o s s' (inserts t) e h = insert-IsBalanced k o s s' t e h
attempt-IsBalanced k o s s' (deletes id) e h = delete-IsBalanced k o s s' id e h
attempt-IsBalanced k o s s' (updates id c) e h = update-IsBalanced k o s s' id c e h
attempt-IsBalanced k o s s' (deletes_account id) e h = delete_account-IsBalanced k o s s' id e h

execute-IsBalanced :
    (k : Text) (o : ℤ) (s : Store) (c : Statement) → IsBalanced k o s → IsBalanced k o (execute s c)
unfolding execute
execute-IsBalanced k o s c h = elim (Option-cases (attempt s c)) [
  | inl aborted ↦ rw aborted h
  | inr (s', done) ↦ rw done (attempt-IsBalanced k o s s' c done h)
]

-- After any statements, aborted ones among them, an account that was balanced still is: if it is
-- there, its balance is its opening balance and the credits less the debits of all transactions on
-- it, and it is an int64.
pub execute_all-IsBalanced :
    (k : Text) (o : ℤ) (s : Store) (cs : List Statement)
    → IsBalanced k o s
    → IsBalanced k o (execute_all s cs)
unfolding execute_all
execute_all-IsBalanced k o s [] h = h
execute_all-IsBalanced k o s (c ∷ cs) h =
    execute_all-IsBalanced k o (execute s c) cs (execute-IsBalanced k o s c h)
