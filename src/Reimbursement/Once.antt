-- ===== src/Reimbursement/Once.antt =====
-- No transaction is reimbursed twice.
use fin_arch.Base.{◌≡◌, ◌⊎◌, List, [], ◌∷◌}
use fin_arch.Reimbursement.{TransactionRow, Reimbursement}

-- The row stands in the table.
abbrev pub Has : TransactionRow → List TransactionRow → Type 0
Has t [] = ⊥
Has t (x ∷ xs) = (x ≡ t) ⊎ Has t xs
