-- ===== src/Reimbursement/Tests.antt =====
-- The theorems on reimbursements for two expenses of one user.
use fin_arch.Base.{
  ℕ, ◌≤◌, ◌≡◌, refl, true, none, [], ◌∷◌, ◌++◌, map, All, pos, ◌-ℤ◌, Text, text, text_eq, length,
  ascii_table, trim_space, trim_left, trim_right, is_space, to_upper, upper_rune,
}
use fin_arch.Reimbursement.{
  pending, TransactionRow, Reimbursement, Tables, Request, contains, deduplicate, deduplicate_from,
  is_cny, collect, mark, max_int64, has_item, items_conflict, reimburse, create_reimbursement,
}
use fin_arch.Reimbursement.Totals.{sum_base, item_of, IsReimbursable, create_reimbursement_lem}

abbrev expense : Text → ℕ → TransactionRow
expense id amount = record {
  id = id;
  user_id = text "u";
  is_personal_expense = true;
  status = pending;
  base_currency = text "CNY";
  base_amount_cents = pos amount;
  reimbursement_id = none;
}

abbrev tables : Tables
tables = record {
  transactions = expense (text "t1") 1200 ∷ expense (text "t2") 300 ∷ expense (text "t3") 70 ∷ [];
  reimbursements = [];
  items = [];
}

abbrev request : Request
request = record {
  user_id = text "u";
  applicant = text "Ann";
  transaction_ids = text "t1" ∷ text "t3" ∷ [];
  request_no = [];
  new_id = text "r";
  new_request_no = text "REIM-1";
}

abbrev created : Reimbursement
created = record {
  id = text "r";
  request_no = text "REIM-1";
  applicant = text "Ann";
  total_cents = 1270;
  status = text "submitted";
}

abbrev after : Tables
after = record {
  transactions = map (mark (text "u") request.transaction_ids (text "r")) tables.transactions;
  reimbursements = created ∷ [];
  items =
      item_of (text "r") (expense (text "t1") 1200)
      ∷ item_of (text "r") (expense (text "t3") 70)
      ∷ [];
}

create_reimbursement_lem_example :
    (length request.transaction_ids ≡ 2)
    × All (IsReimbursable ascii_table) (expense (text "t1") 1200 ∷ expense (text "t3") 70 ∷ [])
    × (1270 ≡ sum_base (expense (text "t1") 1200 ∷ expense (text "t3") 70 ∷ []))
    × (1270 ≤ max_int64)
    × (after.items
        ≡ map (item_of (text "r")) (expense (text "t1") 1200 ∷ expense (text "t3") 70 ∷ []) ++ [])
    × (after.transactions
        ≡ map (mark (text "u") request.transaction_ids (text "r")) tables.transactions)
unfolding create_reimbursement reimburse collect is_cny contains deduplicate deduplicate_from
    has_item items_conflict text_eq trim_space trim_left trim_right is_space to_upper upper_rune
    ◌-ℤ◌
create_reimbursement_lem_example =
    create_reimbursement_lem ascii_table tables after request created refl

abbrev again : Request
again = record request { transaction_ids = text "t2" ∷ text "t1" ∷ []; new_id = text "r2" }
