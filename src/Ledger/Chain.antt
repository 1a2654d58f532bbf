-- ===== src/Ledger/Chain.antt =====
-- The chain of hashes through the entries of a user.
use fin_arch.Base.{
  ◌≡◌, ◌≢◌, refl, Bool, true, false, ◌||◌, Option, none, some, List, [], ◌∷◌, ◌++◌, arith, Text,
  text_eq, text_eq_iff, text_eq_self, All, Bool-cases, Option-cases, inl, inr, ◌↔◌, sym, ap, ◌∙◌,
}
use fin_arch.Ledger.Records.{PostEntryRequest, EntryRow, Store, Engine, Draw, ok}
use fin_arch.Ledger.Post.{
  comes_before, insert_ordered, ordered, last_hash, linked, line_rows, post_entry,
}
use fin_arch.Ledger.Check.{check_chain}
use fin_arch.Ledger.Posted.{posted_row, post_entry-IsPosted, insert_lines-entries}

-- Whether some row is ordered after the entry.
abbrev pub any_after : EntryRow → List EntryRow → Bool
any_after e [] = false
any_after e (x ∷ xs) = comes_before e x || any_after e xs

insert-last :
    (e : EntryRow) (xs : List EntryRow)
    → any_after e xs ≡ false
    → insert_ordered e xs ≡ xs ++ e ∷ []
unfolding insert_ordered
insert-last e [] h = refl
insert-last e (x ∷ xs) h = ground (arith, insert-last e xs)

append-chain :
    (h : Option Text) (xs : List EntryRow) (e : EntryRow)
    → check_chain h xs ≡ ok tt
    → e.previous_hash ≡ last_hash h xs
    → check_chain h (xs ++ e ∷ []) ≡ ok tt
unfolding check_chain last_hash
append-chain none [] e c p = ground arith
append-chain (some h) [] e c p = ground (arith, text_eq_self h)
append-chain none (x ∷ xs) e c p = ground (arith, append-chain (some x.entry_hash) xs e)
append-chain (some h) (x ∷ xs) e c p = ground (arith, append-chain (some x.entry_hash) xs e)

-- The rows that follow the first are linked to it.
chain-tail :
    (h : Option Text) (x : EntryRow) (xs : List EntryRow)
    → check_chain h (x ∷ xs) ≡ ok tt
    → check_chain (some x.entry_hash) xs ≡ ok tt
unfolding check_chain
chain-tail none x xs c = ground arith
chain-tail (some h) x xs c = ground arith

linked_to :
    (h : Option Text) (x : EntryRow) (xs : List EntryRow) (p : Text)
    → x.previous_hash ≡ some p
    → check_chain h (x ∷ xs) ≡ ok tt
    → h ≡ some p
unfolding check_chain
linked_to none x xs p e c = absurd (ground arith)
linked_to (some j) x xs p e c = ground (arith, text_eq_iff p j)

-- A row is linked to one hash at most.
chain_unique :
    (h : Option Text) (k : Text) (x : EntryRow) (xs ys : List EntryRow)
    → check_chain h (x ∷ xs) ≡ ok tt
    → check_chain (some k) (x ∷ ys) ≡ ok tt
    → h ≡ some k
unfolding check_chain
chain_unique h k x xs ys c d = elim (Option-cases x.previous_hash) [
  | inl e ↦ absurd (ground arith)
  | inr (p, e) ↦ linked_to h x xs p e c ∙ sym (linked_to (some k) x ys p e d)
]

-- A hash that is none of the others.
abbrev pub IsFreshHash : Text → List EntryRow → Type 0
IsFreshHash k = All (λ x. x.entry_hash ≢ k)

-- The row that follows the new one no longer finds the hash that it was linked to.
insert-breaks :
    (h : Option Text) (xs : List EntryRow) (e : EntryRow)
    → check_chain h xs ≡ ok tt
    → any_after e xs ≡ true
    → h ≢ some e.entry_hash
    → IsFreshHash e.entry_hash xs
    → check_chain h (insert_ordered e xs) ≢ ok tt
unfolding check_chain insert_ordered
insert-breaks h [] e c a f fs r = cc
insert-breaks h (x ∷ xs) e c a f fs r = elim (Bool-cases (comes_before e x)) [
  | inl here ↦
      let r' : check_chain h (e ∷ x ∷ xs) ≡ ok tt =
        ap (check_chain h) {x = e ∷ x ∷ xs} (ground arith) ∙ r in
      f (chain_unique h e.entry_hash x xs xs c (chain-tail h e (x ∷ xs) r'))
  | inr later ↦
      let r' : check_chain h (x ∷ insert_ordered e xs) ≡ ok tt =
        ap (check_chain h) {x = x ∷ insert_ordered e xs} (ground arith) ∙ r in
      insert-breaks (some x.entry_hash) xs e (chain-tail h x xs c) (ground arith) (λ q. fs.0 (cc))
        fs.1 (chain-tail h x (insert_ordered e xs) r')
]

module _ (g : Engine) (s s' : Store) (d : Draw) (req : PostEntryRequest)
    (posted : post_entry g s d req ≡ ok s') where
  entries-post : s'.entries ≡ posted_row g s d req ∷ s.entries
  entries-post =
      insert_lines-entries g req.user_id (record s { entries = posted_row g s d req ∷ s.entries })
        s' (line_rows d 0 req.lines) (post_entry-IsPosted g s s' d req posted).looped

  ordered-post :
      ordered req.user_id s'.entries
      ≡ insert_ordered (posted_row g s d req) (ordered req.user_id s.entries)
  unfolding ordered linked
  ordered-post = rw entries-post (rw (text_eq_self req.user_id) refl)

  ordered-post_other :
      (u : Text) → text_eq req.user_id u ≡ false → ordered u s'.entries ≡ ordered u s.entries
  unfolding ordered linked
  ordered-post_other u other = rw entries-post (rw other refl)

  -- A posted entry whose hash is new keeps an unbroken chain unbroken exactly if no row of its user
  -- is ordered after it, by time and then identifier. The chains of other users stay.
  pub chain_iff :
      check_chain none (ordered req.user_id s.entries) ≡ ok tt
      → IsFreshHash (posted_row g s d req).entry_hash (ordered req.user_id s.entries)
      → ((check_chain none (ordered req.user_id s'.entries) ≡ ok tt)
          ↔ (any_after (posted_row g s d req) (ordered req.user_id s.entries) ≡ false))
        × ((u : Text) → text_eq req.user_id u ≡ false → ordered u s'.entries ≡ ordered u s.entries)
  unfolding linked
  chain_iff c fs = (
    (
      λ r. elim (Bool-cases (any_after row rows)) [
        | inl after ↦ absurd (
            insert-breaks none rows row c after (λ e. cc) fs
              (ap (check_chain none) (sym ordered-post) ∙ r))
        | inr last ↦ last
      ],
      λ last.
          ap (check_chain none) (ordered-post ∙ insert-last row rows last)
          ∙ append-chain none rows row c refl,
    ),
    ordered-post_other,
  )
    where
      row : EntryRow
      row = posted_row g s d req

      rows : List EntryRow
      rows = ordered req.user_id s.entries
