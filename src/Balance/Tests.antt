-- ===== src/Balance/Tests.antt =====
-- The theorems on balances for one account with a credit and a debit.
use fin_arch.Base.{
  ◌≡◌, refl, Option, none, some, List, [], ◌∷◌, if◌then◌else◌, pos, ◌+ℤ◌, ◌-ℤ◌, Text, text, text_eq,
}
use fin_arch.Balance.{
  integer, credit, debit, TransactionRow, AccountRow, Store, changed, find_row, remove_row,
  insert_transaction, delete_transaction, update_transaction, post, is_blocked, ◌>>=◌,
}
use fin_arch.Balance.Conserved.{IsBalanced, posted}
use fin_arch.Balance.Statements.{
  inserts, deletes, updates, Statement, execute_all, execute_all-IsBalanced,
}
use fin_arch.Balance.Reversal.{balance_of, accounts_of, insert-delete_transaction, update_replaces}

abbrev cash : Text
cash = text "cash"

abbrev account : AccountRow
account = record { balance_cents = integer (pos 500); version = integer (pos 0) }

abbrev accounts : Text → Option AccountRow
accounts k = if text_eq cash k then some account else none

abbrev salary : TransactionRow
salary = record {
  id = text "t1";
  account_id = cash;
  direction = credit;
  amount_cents = integer (pos 900);
  base_amount_cents = integer (pos 900);
}

abbrev lunch : TransactionRow
lunch = record {
  id = text "t2";
  account_id = cash;
  direction = debit;
  amount_cents = integer (pos 40);
  base_amount_cents = integer (pos 40);
}

abbrev start : Store
start = record { accounts = accounts; transactions = [] }

abbrev statements : List Statement
statements = inserts salary ∷ inserts lunch ∷ updates (text "t2") salary ∷ deletes (text "t1") ∷ []

execute_all-IsBalanced_example : IsBalanced cash (pos 500) (execute_all start statements)
unfolding posted text_eq ◌+ℤ◌
execute_all-IsBalanced_example =
    execute_all-IsBalanced cash (pos 500) start statements (pos 500, refl, refl, refl)

abbrev paid : Store
paid = record {
  accounts = λ k.
      if text_eq cash k
      then some (record { balance_cents = integer (pos 1400); version = integer (pos 1) })
      else accounts k;
  transactions = salary ∷ [];
}

abbrev repaid : Store
repaid = record {
  accounts = λ k.
      if text_eq cash k
      then some (record { balance_cents = integer (pos 500); version = integer (pos 2) })
      else paid.accounts k;
  transactions = [];
}

insert-delete_transaction_example :
    (repaid.transactions ≡ start.transactions)
    × (balance_of (repaid.accounts cash) ≡ balance_of (start.accounts cash))
unfolding insert_transaction delete_transaction post is_blocked find_row remove_row text_eq ◌+ℤ◌
    ◌-ℤ◌
insert-delete_transaction_example =
    insert-delete_transaction start paid repaid salary cash refl refl

update_replaces_example :
    accounts_of (update_transaction paid (text "t1") lunch)
    ≡ accounts_of (
        delete_transaction paid (text "t1") >>= λ rest.
        insert_transaction rest (changed salary lunch))
unfolding find_row remove_row text_eq
update_replaces_example = update_replaces paid salary lunch refl refl
