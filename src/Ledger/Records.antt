-- ===== src/Ledger/Records.antt =====
-- The data of the ledger: requests, the tables, what is drawn from elsewhere, and errors.
use fin_arch.Balance.{Cell}
use fin_arch.Base.{ℕ, Bool, true, false, Option, List, ℤ, Text}

-- `PostEntryLine`
pub record Line : Type 0 where
  pub account_id : Text
  pub debit_cents : ℤ
  pub credit_cents : ℤ
  pub currency : Text

-- `PostEntryRequest`
pub record PostEntryRequest : Type 0 where
  pub user_id : Text
  pub reference_id : Option Text
  pub description : Text
  pub source : Text
  pub lines : List Line

-- A row of `ledger_journal_entries`; its status is always posted.
pub record EntryRow : Type 0 where
  pub id : Text
  pub user_id : Text
  pub reference_id : Option Text
  pub description : Text
  pub source : Text
  pub created_at : ℕ
  pub entry_hash : Text
  pub previous_hash : Option Text

-- A row of `ledger_journal_lines`.
pub record LineRow : Type 0 where
  pub line_id : Text
  pub entry_id : Text
  pub line : Line

-- The tables: which users and accounts there are, the journal with the newest row first, and
-- `ledger_balance_cache` by user and account.
pub record Store : Type 0 where
  pub users : Text → Bool
  pub accounts : Text → Bool
  pub entries : List EntryRow
  pub lines : List LineRow
  pub cache : Text → Text → Option Cell

-- What the ledger takes from elsewhere: the digest of an entry with its lines, and SQLite's `+`.
pub record Engine : Type 0 where
  pub digest : EntryRow → List LineRow → Text
  pub add : Cell → ℤ → Cell

-- What a call of `PostEntry` draws: `uuid.NewString` for the entry and its lines, and the time.
pub record Draw : Type 0 where
  pub entry_id : Text
  pub line_ids : ℕ → Text
  pub now : ℕ

pub data Error : Type 0 where
  no_lines negative_amount unbalanced store_failed sum_overflow : Error
  out_of_balance orphan_line unexpected_previous broken_chain : Text → Error

pub data Result {ℓ} (A : Type ℓ) : Type ℓ where
  ok : A → Result A
  err : Error → Result A

infixl 5 ◌>>=◌
abbrev pub ◌>>=◌ {ℓ κ} : {A : Type ℓ} {B : Type κ} → Result A → (A → Result B) → Result B
ok a >>= f = f a
err e >>= f = err e

abbrev pub require : Bool → Error → Result (Unit {0})
require true e = ok tt
require false e = err e

infixl 5 ◌>>◌
abbrev pub ◌>>◌ {ℓ} : {B : Type ℓ} → Result (Unit {0}) → Result B → Result B
m >> k = m >>= λ _. k
