-- ===== src/Ledger/Cache.antt =====
-- The balance cache is kept in step with the journal.
use fin_arch.Balance.{Cell, integer}
use fin_arch.Base.{
  ◌<◌, ◌≡◌, refl, Bool, true, false, ◌&&◌, Option, none, some, List, [], ◌∷◌, arith, if◌then◌else◌,
  is_some, ℤ, pos, ◌+ℤ◌, is_int64, int64_bound, wrap, Text, text_eq, text_eq_iff, All, Bool-cases,
  inl, inr, ap, ◌∙◌, sym, subst,
}
use fin_arch.Ledger.Records.{EntryRow, LineRow, Store, Engine}
use fin_arch.Ledger.Post.{is_negative, has_entry, upsert}
use fin_arch.Ledger.Check.{user_of, is_on, net, any_line}
use fin_arch.Ledger.Book.{balance, book, volume, AllPositive, balance-is_int64, wrap-net}

-- Lines belong to entries, their amounts are not negative, and while all that was ever booked fits
-- an int64 the cache is the book.
pub record IsLedger (s : Store) : Type 0 where
  pub joined : All (λ l. is_some (user_of s.entries l.entry_id) ≡ true) s.lines
  pub positive : AllPositive s.lines
  pub cached : volume s.lines < int64_bound → (u a : Text) → s.cache u a ≡ book s u a

any_line-ext :
    (p q : LineRow → Bool) (ls : List LineRow)
    → All (λ l. p l ≡ q l) ls
    → any_line p ls ≡ any_line q ls
any_line-ext p q [] h = refl
any_line-ext p q (l ∷ ls) h = rw (h.0, any_line-ext p q ls h.1) refl

balance-ext :
    (p q : LineRow → Bool) (ls : List LineRow)
    → All (λ l. p l ≡ q l) ls
    → balance p ls ≡ balance q ls
unfolding balance
balance-ext p q [] h = refl
balance-ext p q (l ∷ ls) h = rw (h.0, balance-ext p q ls h.1) refl

balance-none :
    (p : LineRow → Bool) (ls : List LineRow) → any_line p ls ≡ false → balance p ls ≡ pos 0
unfolding balance
balance-none p [] h = refl
balance-none p (l ∷ ls) h = ground (arith, balance-none p ls)

user_of-fresh : (es : List EntryRow) (k : Text) → has_entry k es ≡ false → user_of es k ≡ none
user_of-fresh [] k h = refl
user_of-fresh (e ∷ es) k h = ground (arith, user_of-fresh es k)

user_of-cons :
    (e : EntryRow) (es : List EntryRow) (k : Text)
    → has_entry e.id es ≡ false
    → is_some (user_of es k) ≡ true
    → user_of (e ∷ es) k ≡ user_of es k
user_of-cons e es k new old = elim (Bool-cases (text_eq e.id k)) [
  | inl same ↦ absurd (ground (arith, user_of-fresh es e.id new, text_eq_iff e.id k))
  | inr other ↦ rw other refl
]

module _ (s : Store) (e : EntryRow) (new : has_entry e.id s.entries ≡ false) (v : IsLedger s) where
  abbrev pub with_entry : Store
  with_entry = record s { entries = e ∷ s.entries }

  still_joined :
      (ls : List LineRow)
      → All (λ l. is_some (user_of s.entries l.entry_id) ≡ true) ls
      → All (λ l. is_some (user_of (e ∷ s.entries) l.entry_id) ≡ true) ls
  still_joined [] h = tt
  still_joined (l ∷ ls) h =
      (rw (user_of-cons e s.entries l.entry_id new h.0) h.0, still_joined ls h.1)

  same_lines :
      (u a : Text) (ls : List LineRow)
      → All (λ l. is_some (user_of s.entries l.entry_id) ≡ true) ls
      → All (λ l. is_on (e ∷ s.entries) u a l ≡ is_on s.entries u a l) ls
  same_lines u a [] h = tt
  same_lines u a (l ∷ ls) h =
      (rw (user_of-cons e s.entries l.entry_id new h.0) refl, same_lines u a ls h.1)

  book-entry : (u a : Text) → book with_entry u a ≡ book s u a
  unfolding book
  book-entry u a =
      let same = same_lines u a s.lines v.joined in
      rw (any_line-ext _ _ s.lines same, balance-ext _ _ s.lines same) refl

  pub entry-IsLedger : IsLedger with_entry
  entry-IsLedger = record {
    joined = still_joined s.lines v.joined;
    positive = v.positive;
    cached = λ small u a. v.cached small u a ∙ sym (book-entry u a);
  }

zero_add : (z : ℤ) → z ≡ pos 0 +ℤ z
unfolding ◌+ℤ◌
zero_add z = ground arith

module _ (g : Engine)
    (adds : (a b : ℤ) → is_int64 (a +ℤ b) ≡ true → g.add (integer a) b ≡ integer (a +ℤ b))
    (s : Store) (user : Text) (l : LineRow) (its : user_of s.entries l.entry_id ≡ some user)
    (good : is_negative l.line ≡ false) (v : IsLedger s) where
  abbrev pub with_line : Store
  with_line = upsert g user l.line.account_id (wrap (net l.line)) (record s { lines = l ∷ s.lines })

  abbrev on : Text → Text → Bool
  on u a = text_eq user u && text_eq l.line.account_id a

  abbrev sum : Text → Text → ℤ
  sum u a = balance (is_on s.entries u a) s.lines

  book-line :
      (u a : Text)
      → book with_line u a ≡ (if on u a then some (integer (sum u a +ℤ net l.line)) else book s u a)
  unfolding book balance upsert
  book-line u a =
      rw its
        (elim (Bool-cases (on u a)) [ inl yes_on ↦ rw yes_on refl | inr no_on ↦ rw no_on refl ])

  sum-is_int64 :
      volume (l ∷ s.lines) < int64_bound
      → (u a : Text) → on u a ≡ true
      → is_int64 (sum u a +ℤ net l.line) ≡ true
  unfolding balance
  sum-is_int64 small u a yes_on =
      subst (λ b. is_int64 (if b then sum u a +ℤ net l.line else sum u a) ≡ true)
        {x = is_on s.entries u a l} {y = true} (rw its yes_on)
        (balance-is_int64 (is_on s.entries u a) (l ∷ s.lines) (good, v.positive) small)

  line_wraps : volume (l ∷ s.lines) < int64_bound → wrap (net l.line) ≡ net l.line
  line_wraps small = wrap-net l.line good (omega arith)

  -- The row of the cache on the account of the line.
  row_after :
      volume (l ∷ s.lines) < int64_bound
      → (u a : Text) → on u a ≡ true
      → elim (book s u a) as (λ _. Option Cell) [
        | none ↦ some (integer (wrap (net l.line)))
        | some b ↦ some (g.add b (wrap (net l.line)))
      ]
        ≡ some (integer (sum u a +ℤ net l.line))
  unfolding book
  row_after small u a yes_on = elim (Bool-cases (any_line (is_on s.entries u a) s.lines)) [
    | inl some_line ↦
        rw (some_line, line_wraps small)
          (ap some (adds (sum u a) (net l.line) (sum-is_int64 small u a yes_on)))
    | inr no_line ↦
        rw (no_line, line_wraps small)
          (ap (λ z. some (integer z))
            (zero_add (net l.line)
              ∙ ap (λ z. z +ℤ net l.line) (sym (balance-none _ s.lines no_line))))
  ]

  cached_after :
      volume (l ∷ s.lines) < int64_bound → (u a : Text) → with_line.cache u a ≡ book with_line u a
  unfolding upsert
  cached_after small u a =
      let before = v.cached (omega arith) u a in
      rw (book-line u a) (elim (Bool-cases (on u a)) [
        | inl yes_on ↦ rw (yes_on, before) (row_after small u a yes_on)
        | inr no_on ↦ rw no_on before
      ])

  pub line-IsLedger : IsLedger with_line
  unfolding upsert
  line-IsLedger = record {
    joined = (rw its refl, v.joined);
    positive = (good, v.positive);
    cached = cached_after;
  }
