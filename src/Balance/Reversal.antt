-- ===== src/Balance/Reversal.antt =====
-- How the triggers agree with each other: a deletion takes an insertion back, and an update is a
-- deletion and an insertion.
use fin_arch.Base.{
  ℕ, ◌≡◌, refl, Bool, true, false, not, Option, none, some, arith, is_some, Text, text_eq,
  text_eq_iff, text_eq_self, subst, ap, ◌∙◌, Option-cases, Bool-cases, inl, inr,
}
use fin_arch.Balance.{
  Cell, integer, other, TransactionRow, AccountRow, Store, changed, is_credit, base_amount, post,
  apply_row, undo_row, find_row, remove_row, insert_transaction, delete_transaction,
  update_transaction, ◌>>=◌, shifted,
}
use fin_arch.Balance.Conserved.{post_cases, moved, shift_back}
use fin_arch.Balance.Statements.{insert_cases, delete_cases}

abbrev pub balance_of : Option AccountRow → Option Cell
balance_of none = none
balance_of (some a) = some a.balance_cents

shifted_back : (adds : Bool) (n : ℕ) (b : Cell) → shifted (not adds) n (shifted adds n b) ≡ b
shifted_back adds n other = refl
shifted_back true n (integer b) = ap integer (shift_back true n b)
shifted_back false n (integer b) = ap integer (shift_back false n b)

-- A guarded update and the opposite one leave every balance as it was.
post_back :
    (adds : Bool) (n : ℕ) (at k : Text) (m m1 m2 : Text → Option AccountRow)
    → post adds n at m ≡ some m1
    → post (not adds) n at m1 ≡ some m2
    → balance_of (m2 k) ≡ balance_of (m k)
post_back adds n at k m m1 m2 e1 e2 = elim (post_cases adds n at m m1 e1) [
  | inl (missing, same1) ↦ elim (post_cases (not adds) n at m1 m2 e2) [
    | inl (_, same2) ↦ rw (same2, same1) refl
    | inr (a, found, _, _) ↦ absurd (ground (arith, found, missing, same1))
  ]
  | inr (a, found, _, same1) ↦ elim (post_cases (not adds) n at m1 m2 e2) [
    | inl (missing, _) ↦ absurd (ground (arith, missing, same1, text_eq_self at))
    | inr (b, found2, _, same2) ↦
        let again : b ≡ moved adds n a = ground (arith, found2, same1, text_eq_self at) in
        rw (same2, same1)
          (elim (Bool-cases (text_eq at k)) [
            | inl here ↦
                let mine : m k ≡ some a = ground (arith, found, text_eq_iff at k) in
                rw (here, mine)
                  (ap (λ (r : AccountRow). some (shifted (not adds) n r.balance_cents)) again
                    ∙ ap some (shifted_back adds n a.balance_cents))
            | inr away ↦ rw away refl
          ])
  ]
]

-- An insertion and the deletion of its row, neither of them aborted, leave the transactions and
-- every balance as they were.
pub insert-delete_transaction :
    (s s1 s2 : Store) (t : TransactionRow) (k : Text)
    → insert_transaction s t ≡ some s1
    → delete_transaction s1 t.id ≡ some s2
    → (s2.transactions ≡ s.transactions) × (balance_of (s2.accounts k) ≡ balance_of (s.accounts k))
unfolding find_row remove_row
insert-delete_transaction s s1 s2 t k e1 e2 =
    let (m1, done, same1, _, _) = insert_cases s s1 t e1 in
    elim (delete_cases s1 s2 t.id e2) [
      | inl (missing, _) ↦ absurd (ground (arith, same1, missing, text_eq_self t.id))
      | inr (x, m2, found, back, same2) ↦
          let mine : x ≡ t = ground (arith, found, same1, text_eq_self t.id) in
          (
            ground (arith, same1, same2, text_eq_self t.id),
            ap (λ (z : Store). balance_of (z.accounts k)) same2
                ∙ post_back (is_credit t.direction) (base_amount t) t.account_id k s.accounts m1 m2
                    done
                    (subst (λ (m : Text → Option AccountRow). undo_row t m ≡ some m2)
                      (ap (λ (z : Store). z.accounts) same1)
                      (subst (λ (r : TransactionRow). undo_row r s1.accounts ≡ some m2) mine back)),
          )
    ]

abbrev pub accounts_of : Option Store → Option (Text → Option AccountRow)
accounts_of none = none
accounts_of (some s) = some s.accounts

post_present :
    (adds : Bool) (n : ℕ) (at k : Text) (m m1 : Text → Option AccountRow)
    → post adds n at m ≡ some m1
    → is_some (m1 k) ≡ is_some (m k)
post_present adds n at k m m1 e = elim (post_cases adds n at m m1 e) [
  | inl (_, same) ↦ rw same refl
  | inr (a, found, _, same) ↦ rw same (ground (arith, found, text_eq_iff at k))
]

-- A row that is updated has the same effect on the accounts as its deletion followed by an insertion
-- of the new row, also in which of them are aborted.
pub update_replaces :
    (s : Store) (t : TransactionRow) (c : TransactionRow)
    → find_row t.id s.transactions ≡ some t
    → find_row t.id (remove_row t.id s.transactions) ≡ none
    → accounts_of (update_transaction s t.id c)
      ≡ accounts_of (delete_transaction s t.id >>= λ rest. insert_transaction rest (changed t c))
unfolding update_transaction delete_transaction insert_transaction
update_replaces s t c found unique = elim (Option-cases (undo_row t s.accounts)) [
  | inl aborted ↦ ground (arith, found, aborted)
  | inr (undone, back) ↦
      let there =
        post_present (not (is_credit t.direction)) (base_amount t) t.account_id c.account_id
          s.accounts undone back in
      elim (Option-cases (apply_row (changed t c) undone)) [
        | inl aborted ↦ ground (arith, found, back, aborted, there, unique)
        | inr (accounts, done) ↦ ground (arith, found, back, done, there, unique)
      ]
]
