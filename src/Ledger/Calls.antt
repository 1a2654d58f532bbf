-- ===== src/Ledger/Calls.antt =====
-- Runs of calls on the ledger, and what its reads answer after them.
use fin_arch.Balance.{Cell}
use fin_arch.Base.{Bool, Option, none, List, [], ◌∷◌, Text}
use fin_arch.Ledger.Records.{Line, PostEntryRequest, EntryRow, Store, Engine, Draw, Result, ok, err}
use fin_arch.Ledger.Post.{post_entry, reverse_entry}
use fin_arch.Ledger.Check.{get_account_balance, rebuild_balance_cache, validate_integrity}

pub data Call : Type 0 where
  posts : Draw → PostEntryRequest → Call
  reverses : Draw → Draw → EntryRow → List Line → Option PostEntryRequest → Call
  rebuilds : Text → Call
  reads : Text → Text → Call
  validates : Text → Call

-- The tables after a call that may fail.
abbrev pub kept : Store → Result Store → Store
kept s (ok s') = s'
kept s (err e) = s

abbrev pub kept_read : Store → Result (Option Cell × Store) → Store
kept_read s (ok (c, s')) = s'
kept_read s (err e) = s

unfoldable pub apply : Engine → Store → Call → Store
apply g s (posts d req) = kept s (post_entry g s d req)
apply g s (reverses d d' original ls corrected) = (reverse_entry g s d d' original ls corrected).0
apply g s (rebuilds user) = kept s (rebuild_balance_cache s user)
apply g s (reads user account) = kept_read s (get_account_balance s user account)
apply g s (validates user) = kept s (validate_integrity s user)

unfoldable pub run : Engine → Store → List Call → Store
run g s [] = s
run g s (c ∷ cs) = run g (apply g s c) cs

-- The ledger before its first entry.
abbrev pub new_ledger : (Text → Bool) → (Text → Bool) → Store
new_ledger users accounts = record {
  users = users;
  accounts = accounts;
  entries = [];
  lines = [];
  cache = λ u a. none;
}
