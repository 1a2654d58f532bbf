-- ===== src/Ledger/Refines.antt =====
-- Every call on the ledger keeps the cache in step, so that a read answers from the journal.
use fin_arch.Balance.{integer}
use fin_arch.Base.{
  ℕ, suc, ◌<◌, ◌≡◌, refl, true, false, some, List, [], ◌∷◌, arith, if◌then◌else◌, ℤ, ◌+ℤ◌, is_int64,
  int64_bound, wrap, Text, text_eq, text_eq_self, All, Bool-cases, Option-cases, inl, inr, ap, ◌∙◌,
  sym, subst,
}
use fin_arch.Ledger.Records.{Line, PostEntryRequest, LineRow, Store, Engine, Draw, ok}
use fin_arch.Ledger.Post.{
  is_negative, upsert, insert_line, insert_lines, line_rows, linked, post_entry,
}
use fin_arch.Ledger.Check.{
  user_of, is_on, net, any_line, group, cell_of, overflows, any_overflow, rebuild_balance_cache,
  get_account_balance,
}
use fin_arch.Ledger.Book.{book, volume, sum_of-balance}
use fin_arch.Ledger.Posted.{Result-cases, posted_row, post_entry-IsPosted}
use fin_arch.Ledger.Cache.{IsLedger, line-IsLedger, entry-IsLedger}

line_rows-entry_id :
    (d : Draw) (n : ℕ) (ls : List Line) → All (λ l. l.entry_id ≡ d.entry_id) (line_rows d n ls)
unfolding line_rows
line_rows-entry_id d n [] = tt
line_rows-entry_id d n (l ∷ ls) = (refl, line_rows-entry_id d (suc n) ls)

insert_line_cases :
    (g : Engine) (user : Text) (s s' : Store) (l : LineRow)
    → insert_line g user s l ≡ ok s'
    → (is_negative l.line ≡ false)
      × (s'
          ≡ upsert g user l.line.account_id (wrap (net l.line)) (record s { lines = l ∷ s.lines }))
unfolding insert_line
insert_line_cases g user s s' l h = (ground arith, ground arith)

rebuilds_to : Store → Text → Store
rebuilds_to s user = record s {
  cache = λ u a. if text_eq user u then cell_of (group s u a) else s.cache u a;
}

-- The group that a rebuild makes is the book.
module _ (s : Store) (v : IsLedger s) (small : volume s.lines < int64_bound) where
  group-book : (u a : Text) → cell_of (group s u a) ≡ book s u a
  unfolding group book
  group-book u a =
      rw (sum_of-balance (is_on s.entries u a) s.lines v.positive small)
        (elim (Bool-cases (any_line (is_on s.entries u a) s.lines)) [
          | inl e ↦ rw e refl
          | inr e ↦ rw e refl
        ])

  group-fits : (u a : Text) → overflows (group s u a) ≡ false
  unfolding group
  group-fits u a =
      rw (sum_of-balance (is_on s.entries u a) s.lines v.positive small)
        (elim (Bool-cases (any_line (is_on s.entries u a) s.lines)) [
          | inl e ↦ rw e refl
          | inr e ↦ rw e refl
        ])

  none-overflows : (u : Text) (ls : List LineRow) → any_overflow s u ls ≡ false
  none-overflows u [] = refl
  none-overflows u (l ∷ ls) = rw (group-fits u l.line.account_id) (none-overflows u ls)

  rebuild-ok : (user : Text) → rebuild_balance_cache s user ≡ ok (rebuilds_to s user)
  unfolding rebuild_balance_cache rebuilds_to
  rebuild-ok user = rw (none-overflows user s.lines) refl

  rebuilt-book : (user u a : Text) → (rebuilds_to s user).cache u a ≡ book s u a
  unfolding rebuilds_to
  rebuilt-book user u a = elim (Bool-cases (text_eq user u)) [
    | inl e ↦ rw e (group-book u a)
    | inr e ↦ rw e (v.cached small u a)
  ]

  -- A read answers with the book.
  pub reads_book : (u a : Text) → (s' : Store) × (get_account_balance s u a ≡ ok (book s u a, s'))
  unfolding get_account_balance
  reads_book u a = elim (Option-cases (s.cache u a)) [
    | inl missing ↦ (
      rebuilds_to s u,
      rw (get_account_balance, missing)
          (rw (rebuild-ok u) (ap ok (λ i. (rebuilt-book u u a i, rebuilds_to s u)))),
    )
    | inr (b, there) ↦
        (s, rw (get_account_balance, there) (ap (λ c. ok (c, s)) (sym there ∙ v.cached small u a)))
  ]

-- A rebuild that succeeds replaces the cache of one user.
rebuild_cases :
    (s s' : Store) (user : Text) → rebuild_balance_cache s user ≡ ok s' → s' ≡ rebuilds_to s user
unfolding rebuild_balance_cache rebuilds_to
rebuild_cases s s' user h = ground arith

pub rebuild-IsLedger :
    (s s' : Store) (user : Text) → IsLedger s → rebuild_balance_cache s user ≡ ok s' → IsLedger s'
unfolding rebuilds_to book
rebuild-IsLedger s s' user v h = subst IsLedger (sym (rebuild_cases s s' user h)) (record {
  joined = v.joined;
  positive = v.positive;
  cached = λ small u a. rebuilt-book s v small user u a;
})

module _ (g : Engine)
    (adds : (a b : ℤ) → is_int64 (a +ℤ b) ≡ true → g.add (integer a) b ≡ integer (a +ℤ b)) where
  insert_line-IsLedger :
      (user : Text) (s s' : Store) (l : LineRow)
      → user_of s.entries l.entry_id ≡ some user
      → IsLedger s
      → insert_line g user s l ≡ ok s'
      → IsLedger s' × (user_of s'.entries ≡ user_of s.entries)
  unfolding upsert
  insert_line-IsLedger user s s' l its v h =
      let (good, e) = insert_line_cases g user s s' l h in
      subst (λ t. IsLedger t × (user_of t.entries ≡ user_of s.entries)) (sym e)
        (line-IsLedger g adds s user l its good v, refl)

  insert_lines-IsLedger :
      (user k : Text) (s s' : Store) (ls : List LineRow)
      → All (λ l. l.entry_id ≡ k) ls
      → user_of s.entries k ≡ some user
      → IsLedger s
      → insert_lines g user s ls ≡ ok s'
      → IsLedger s'
  unfolding insert_lines
  insert_lines-IsLedger user k s s' [] ids its v h = subst IsLedger (cc) v
  insert_lines-IsLedger user k s s' (l ∷ ls) ids its v h =
      elim (Result-cases (insert_line g user s l)) [
        | inl (e, bad) ↦ absurd (ground arith)
        | inr (s1, good) ↦
            let (v1, same) =
              insert_line-IsLedger user s s1 l (ap (user_of s.entries) ids.0 ∙ its) v good in
            insert_lines-IsLedger user k s1 s' ls ids.1 (ap (λ f. f k) same ∙ its) v1 (ground arith)
      ]

  pub post-IsLedger :
      (s s' : Store) (d : Draw) (req : PostEntryRequest)
      → IsLedger s
      → post_entry g s d req ≡ ok s'
      → IsLedger s'
  unfolding linked
  post-IsLedger s s' d req v h =
      let p = post_entry-IsPosted g s s' d req h in
      insert_lines-IsLedger req.user_id d.entry_id
        (record s { entries = posted_row g s d req ∷ s.entries }) s' (line_rows d 0 req.lines)
        (line_rows-entry_id d 0 req.lines) (rw (text_eq_self d.entry_id) refl)
        (entry-IsLedger s (posted_row g s d req) p.new_id v) p.looped
