-- ===== src/Ledger/Check.antt =====
-- RebuildBalanceCache, GetAccountBalance and ValidateIntegrity of ledger_sqlite.go.
use fin_arch.Balance.{Cell, integer}
use fin_arch.Base.{
  Bool, true, false, ◌&&◌, ◌||◌, not, Option, none, some, List, [], ◌∷◌, if◌then◌else◌, is_some, ℤ,
  pos, ◌+ℤ◌, ◌-ℤ◌, eqb_ℤ, is_int64, Text, text_eq,
}
use fin_arch.Ledger.Records.{
  Line, EntryRow, LineRow, Store, sum_overflow, out_of_balance, orphan_line, unexpected_previous,
  broken_chain, Result, ok, err, ◌>>=◌, ◌>>◌, require,
}
use fin_arch.Ledger.Post.{ordered, has_entry}

-- The user of an entry, to which a line is joined.
abbrev pub user_of : List EntryRow → Text → Option Text
user_of [] k = none
user_of (e ∷ es) k = if text_eq e.id k then some e.user_id else user_of es k

abbrev pub is_text : Option Text → Text → Bool
is_text none k = false
is_text (some j) k = text_eq j k

-- Whether a line is one of the user's on the account.
abbrev pub is_on : List EntryRow → Text → Text → LineRow → Bool
is_on es user account l = is_text (user_of es l.entry_id) user && text_eq l.line.account_id account

-- SQLite's SUM of integers: an error as soon as a sum leaves int64.
abbrev pub add_checked : Option ℤ → ℤ → Option ℤ
add_checked none b = none
add_checked (some a) b = if is_int64 (a +ℤ b) then some (a +ℤ b) else none

module _ (picks : LineRow → Bool) (value : Line → ℤ) where
  unfoldable pub sum_of : List LineRow → Option ℤ
  sum_of [] = some (pos 0)
  sum_of (l ∷ ls) =
      let rest = sum_of ls in if picks l then add_checked rest (value l.line) else rest

abbrev pub any_line : (LineRow → Bool) → List LineRow → Bool
any_line p [] = false
any_line p (l ∷ ls) = p l || any_line p ls

abbrev pub net : Line → ℤ
net l = l.debit_cents -ℤ l.credit_cents

-- The group of the lines of a user on an account: no row without lines.
unfoldable pub group : Store → Text → Text → Option (Option ℤ)
unfolding sum_of
group s user account =
    if any_line (is_on s.entries user account) s.lines
    then some (sum_of (is_on s.entries user account) net s.lines)
    else none

abbrev pub cell_of : Option (Option ℤ) → Option Cell
cell_of none = none
cell_of (some none) = none
cell_of (some (some b)) = some (integer b)

abbrev pub overflows : Option (Option ℤ) → Bool
overflows none = false
overflows (some none) = true
overflows (some (some b)) = false

-- Whether some group of the user has a sum that overflows; a group has a line.
abbrev pub any_overflow : Store → Text → List LineRow → Bool
any_overflow s user [] = false
any_overflow s user (l ∷ ls) = overflows (group s user l.line.account_id) || any_overflow s user ls

-- `RebuildBalanceCache`
unfoldable pub rebuild_balance_cache : Store → Text → Result Store
unfolding group
rebuild_balance_cache s user =
    if any_overflow s user s.lines
    then err sum_overflow
    else ok
        (record s { cache = λ u a. if text_eq user u then cell_of (group s u a) else s.cache u a })

-- `GetAccountBalance`: a balance that is not cached is looked for again after a rebuild.
unfoldable pub get_account_balance : Store → Text → Text → Result (Option Cell × Store)
unfolding rebuild_balance_cache
get_account_balance s user account = elim (s.cache user account) [
  | some b ↦ ok (some b, s)
  | none ↦ rebuild_balance_cache s user >>= λ s'. ok (s'.cache user account, s')
]

abbrev pub is_in : Text → LineRow → Bool
is_in k l = text_eq l.entry_id k

abbrev pub debit : Line → ℤ
debit l = l.debit_cents

abbrev pub credit : Line → ℤ
credit l = l.credit_cents

-- `HAVING SUM(debit_cents) != SUM(credit_cents)`, for one entry.
abbrev pub sums_agree : Option ℤ → Option ℤ → Text → Result (Unit {0})
sums_agree (some a) (some b) k = require (eqb_ℤ a b) (out_of_balance k)
sums_agree _ _ k = err sum_overflow

unfoldable pub check_entries : Text → List LineRow → List EntryRow → Result (Unit {0})
unfolding sum_of
check_entries user ls [] = ok tt
check_entries user ls (e ∷ es) =
    (if text_eq e.user_id user
      then sums_agree (sum_of (is_in e.id) debit ls) (sum_of (is_in e.id) credit ls) e.id
      else ok tt)
    >> check_entries user ls es

-- Lines whose entry is not there.
unfoldable pub check_orphans : List EntryRow → List LineRow → Result (Unit {0})
check_orphans es [] = ok tt
check_orphans es (l ∷ ls) =
    require (has_entry l.entry_id es) (orphan_line l.line_id) >> check_orphans es ls

-- The hash of the row before, if there is one.
unfoldable pub check_chain : Option Text → List EntryRow → Result (Unit {0})
check_chain last [] = ok tt
check_chain none (e ∷ es) =
    require (not (is_some e.previous_hash)) (unexpected_previous e.id)
    >> check_chain (some e.entry_hash) es
check_chain (some h) (e ∷ es) =
    require (is_text e.previous_hash h) (broken_chain e.id) >> check_chain (some e.entry_hash) es

-- `ValidateIntegrity`: the tables after it, which have a new cache.
unfoldable pub validate_integrity : Store → Text → Result Store
unfolding check_entries check_orphans check_chain rebuild_balance_cache
validate_integrity s user = do
  check_entries user s.lines s.entries
  check_orphans s.entries s.lines
  check_chain none (ordered user s.entries)
  rebuild_balance_cache s user
