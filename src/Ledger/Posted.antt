-- ===== src/Ledger/Posted.antt =====
-- What a call of `PostEntry` that succeeds has done.
use fin_arch.Base.{◌≡◌, refl, true, false, List, [], ◌∷◌, arith, Text, inl, inr, ◌⊎◌, ◌∙◌}
use fin_arch.Ledger.Records.{
  PostEntryRequest, EntryRow, LineRow, Store, Engine, Draw, Error, Result, ok, err,
}
use fin_arch.Ledger.Post.{
  insert_entry, insert_line, insert_lines, linked, line_rows, create_journal_entry, post_entry,
  entry_of, has_entry, is_nil, any_negative, totals_agree,
}

pub Result-cases {ℓ} :
    {A : Type ℓ} (r : Result A) → ((e : Error) × (r ≡ err e)) ⊎ ((a : A) × (r ≡ ok a))
Result-cases (ok a) = inr (a, refl)
Result-cases (err e) = inl (e, refl)

pub insert_line-entries :
    (g : Engine) (user : Text) (s s' : Store) (l : LineRow)
    → insert_line g user s l ≡ ok s'
    → s'.entries ≡ s.entries
unfolding insert_line
insert_line-entries g user s s' l h = ground arith

-- The lines leave the entries alone.
pub insert_lines-entries :
    (g : Engine) (user : Text) (s s' : Store) (ls : List LineRow)
    → insert_lines g user s ls ≡ ok s'
    → s'.entries ≡ s.entries
unfolding insert_lines insert_line
insert_lines-entries g user s s' [] h = ground arith
insert_lines-entries g user s s' (l ∷ ls) h = elim (Result-cases (insert_line g user s l)) [
  | inl (e, bad) ↦ absurd (ground arith)
  | inr (s1, good) ↦
      insert_lines-entries g user s1 s' ls (ground arith) ∙ insert_line-entries g user s s1 l good
]

-- The row that a call of `PostEntry` adds.
abbrev pub posted_row : Engine → Store → Draw → PostEntryRequest → EntryRow
posted_row g s d req = linked g s (entry_of d req) (line_rows d 0 req.lines)

-- The tests that a posted entry has passed, and the loop over its lines.
pub record IsPosted (g : Engine) (s : Store) (d : Draw) (req : PostEntryRequest) (s' : Store)
    : Type 0 where
  pub some_line : is_nil req.lines ≡ false
  pub none_negative : any_negative req.lines ≡ false
  pub balanced : totals_agree req.lines ≡ true
  pub new_id : has_entry d.entry_id s.entries ≡ false
  pub looped :
      insert_lines g req.user_id
        (record s { entries = posted_row g s d req ∷ s.entries })
        (line_rows d 0 req.lines)
      ≡ ok s'

pub post_entry-IsPosted :
    (g : Engine) (s s' : Store) (d : Draw) (req : PostEntryRequest)
    → post_entry g s d req ≡ ok s'
    → IsPosted g s d req s'
unfolding post_entry create_journal_entry insert_entry
post_entry-IsPosted g s s' d req h = record {
  some_line = ground arith;
  none_negative = ground arith;
  balanced = ground arith;
  new_id = ground arith;
  looped = ground arith;
}
