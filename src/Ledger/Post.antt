-- ===== src/Ledger/Post.antt =====
-- PostEntry and ReverseEntry of ledger_service.go, and CreateJournalEntry of ledger_sqlite.go.
use fin_arch.Balance.{integer}
use fin_arch.Base.{
  ℕ, suc, Bool, true, false, ◌&&◌, ◌||◌, not, Option, none, some, List, [], ◌∷◌, if◌then◌else◌, ltb,
  ◌==◌, ℤ, pos, ◌+ℤ◌, ◌-ℤ◌, ltb_ℤ, eqb_ℤ, wrap, Text, text, text_eq, text_lt, is_empty, ◌++◌,
}
use fin_arch.Ledger.Records.{
  Line, PostEntryRequest, EntryRow, LineRow, Store, Engine, Draw, Error, no_lines, negative_amount,
  unbalanced, store_failed, Result, ok, err, ◌>>=◌, ◌>>◌, require,
}

abbrev pub is_nil : List Line → Bool
is_nil [] = true
is_nil (l ∷ ls) = false

abbrev pub is_negative : Line → Bool
is_negative l = ltb_ℤ l.debit_cents (pos 0) || ltb_ℤ l.credit_cents (pos 0)

abbrev pub any_negative : List Line → Bool
any_negative [] = false
any_negative (l ∷ ls) = is_negative l || any_negative ls

-- `totalDebit += l.DebitCents`, in int64.
unfoldable pub total_debit : ℤ → List Line → ℤ
total_debit acc [] = acc
total_debit acc (l ∷ ls) = total_debit (wrap (acc +ℤ l.debit_cents)) ls

-- `totalCredit += l.CreditCents`, in int64.
unfoldable pub total_credit : ℤ → List Line → ℤ
total_credit acc [] = acc
total_credit acc (l ∷ ls) = total_credit (wrap (acc +ℤ l.credit_cents)) ls

abbrev pub totals_agree : List Line → Bool
totals_agree ls = eqb_ℤ (total_debit (pos 0) ls) (total_credit (pos 0) ls)

-- `ORDER BY created_at, id`
abbrev pub comes_before : EntryRow → EntryRow → Bool
comes_before a b =
    ltb a.created_at b.created_at || ((a.created_at == b.created_at) && text_lt a.id b.id)

unfoldable pub insert_ordered : EntryRow → List EntryRow → List EntryRow
insert_ordered e [] = e ∷ []
insert_ordered e (x ∷ xs) = if comes_before e x then e ∷ x ∷ xs else x ∷ insert_ordered e xs

-- `SELECT … WHERE user_id = ? ORDER BY created_at ASC, id ASC`
unfoldable pub ordered : Text → List EntryRow → List EntryRow
unfolding insert_ordered
ordered user [] = []
ordered user (e ∷ es) =
    let rest = ordered user es in if text_eq e.user_id user then insert_ordered e rest else rest

-- The hash of the last row: with `DESC` and `LIMIT 1` the rows are read from the end.
unfoldable pub last_hash : Option Text → List EntryRow → Option Text
last_hash h [] = h
last_hash h (e ∷ es) = last_hash (some e.entry_hash) es

abbrev pub has_entry : Text → List EntryRow → Bool
has_entry k [] = false
has_entry k (e ∷ es) = text_eq e.id k || has_entry k es

abbrev pub has_line : Text → List LineRow → Bool
has_line k [] = false
has_line k (l ∷ ls) = text_eq l.line_id k || has_line k ls

-- The lines of an entry, numbered with the drawn identifiers.
unfoldable pub line_rows : Draw → ℕ → List Line → List LineRow
line_rows d n [] = []
line_rows d n (l ∷ ls) =
    record { line_id = d.line_ids n; entry_id = d.entry_id; line = l } ∷ line_rows d (suc n) ls

-- `INSERT INTO ledger_journal_entries`, with the primary key and the reference to the user.
unfoldable pub insert_entry : Store → EntryRow → Result Store
insert_entry s e =
    if has_entry e.id s.entries || not (s.users e.user_id)
    then err store_failed
    else ok (record s { entries = e ∷ s.entries })

-- `INSERT INTO ledger_balance_cache … ON CONFLICT DO UPDATE`
unfoldable pub upsert : Engine → Text → Text → ℤ → Store → Store
upsert g user account delta s = record s {
  cache = λ u a.
      if text_eq user u && text_eq account a
      then elim (s.cache u a) [ none ↦ some (integer delta) | some b ↦ some (g.add b delta) ]
      else s.cache u a;
}

-- One round of the loop over the lines: the row, with its key, its references and its checks, and
-- then the cache.
unfoldable pub insert_line : Engine → Text → Store → LineRow → Result Store
unfolding upsert
insert_line g user s l =
    if has_line l.line_id s.lines || not (s.accounts l.line.account_id) || is_negative l.line
    then err store_failed
    else ok (
        upsert g user l.line.account_id (wrap (l.line.debit_cents -ℤ l.line.credit_cents))
          (record s { lines = l ∷ s.lines }))

unfoldable pub insert_lines : Engine → Text → Store → List LineRow → Result Store
unfolding insert_line
insert_lines g user s [] = ok s
insert_lines g user s (l ∷ ls) = elim (insert_line g user s l) [
  | err e ↦ err e
  | ok s' ↦ insert_lines g user s' ls
]

-- The entry that is stored, linked to the last one of its user.
unfoldable pub linked : Engine → Store → EntryRow → List LineRow → EntryRow
unfolding ordered last_hash
linked g s e ls =
    let chained = record e { previous_hash = last_hash none (ordered e.user_id s.entries) } in
    record chained { entry_hash = g.digest chained ls }

-- `CreateJournalEntry`
unfoldable pub create_journal_entry :
    Engine → Store → EntryRow → List Line → List LineRow → Result Store
unfolding linked insert_entry insert_lines total_debit total_credit
create_journal_entry g s e lines rows = do
  require (not (is_nil lines)) no_lines
  require (totals_agree lines) unbalanced
  s' ← insert_entry s (linked g s e rows)
  insert_lines g e.user_id s' rows

abbrev pub entry_of : Draw → PostEntryRequest → EntryRow
entry_of d req = record {
  id = d.entry_id;
  user_id = req.user_id;
  reference_id = req.reference_id;
  description = req.description;
  source = if is_empty req.source then text "transaction" else req.source;
  created_at = d.now;
  entry_hash = [];
  previous_hash = none;
}

-- `PostEntry`
unfoldable pub post_entry : Engine → Store → Draw → PostEntryRequest → Result Store
unfolding create_journal_entry line_rows total_debit total_credit
post_entry g s d req = do
  require (not (is_nil req.lines)) no_lines
  require (not (any_negative req.lines)) negative_amount
  require (totals_agree req.lines) unbalanced
  create_journal_entry g s (entry_of d req) req.lines (line_rows d 0 req.lines)

abbrev pub swapped : List Line → List Line
swapped [] = []
swapped (l ∷ ls) =
    record l { debit_cents = l.credit_cents; credit_cents = l.debit_cents } ∷ swapped ls

abbrev pub reversal_of : EntryRow → List Line → PostEntryRequest
reversal_of original ls = record {
  user_id = original.user_id;
  reference_id = some original.id;
  description = text "Reversal of " ++ original.id;
  source = text "system_repair";
  lines = swapped ls;
}

abbrev pub referring : EntryRow → PostEntryRequest → PostEntryRequest
referring original c = elim c.reference_id [
  | none ↦ record c { reference_id = some original.id }
  | some k ↦ c
]

-- The tables after a call, with its error if it has one.
abbrev pub settled : Store → Result Store → Store × Option Error
settled s (ok s') = (s', none)
settled s (err e) = (s, some e)

-- `ReverseEntry`: the reversal stays if the corrected entry is refused.
unfoldable pub reverse_entry :
    Engine
    → Store
    → Draw
    → Draw
    → EntryRow
    → List Line
    → Option PostEntryRequest
    → Store × Option Error
unfolding post_entry
reverse_entry g s d d' original ls corrected = elim (post_entry g s d (reversal_of original ls)) [
  | err e ↦ (s, some e)
  | ok s' ↦ elim corrected [
    | none ↦ (s', none)
    | some c ↦ settled s' (post_entry g s' d' (referring original c))
  ]
]
