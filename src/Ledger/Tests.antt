-- ===== src/Ledger/Tests.antt =====
-- The theorems on the ledger for one user with two accounts.
use fin_arch.Balance.{Cell, integer, other}
use fin_arch.Base.{
  ℕ, ◌%◌, ◌<◌, ◌≡◌, refl, Bool, true, false, none, some, List, [], ◌∷◌, ◌↔◌, ℤ, pos, negsuc, ◌+ℤ◌,
  ◌-ℤ◌, Text, text, text_eq, text_eq_iff, text_lt, ◌≢◌, sym,
}
use fin_arch.Ledger.Records.{Line, PostEntryRequest, Store, Engine, Draw, Result, ok, err}
use fin_arch.Ledger.Post.{total_debit, total_credit, totals_agree, ordered, linked, post_entry}
use fin_arch.Ledger.Records.{unexpected_previous}
use fin_arch.Ledger.Post.{reverse_entry}
use fin_arch.Ledger.Check.{check_chain}
use fin_arch.Ledger.Totals.{debits, credits, words, totals_agree_iff}
use fin_arch.Ledger.Posted.{posted_row}
use fin_arch.Ledger.Chain.{any_after, chain_iff}
use fin_arch.Ledger.Calls.{Call, posts, reverses, run, apply, new_ledger}

abbrev sqlite_add : Cell → ℤ → Cell
sqlite_add (integer a) b = integer (a +ℤ b)
sqlite_add other b = other

abbrev engine : Engine
engine = record { digest = λ e ls. e.id; add = sqlite_add }

abbrev line : Text → ℤ → ℤ → Line
line account d c = record {
  account_id = account;
  debit_cents = d;
  credit_cents = c;
  currency = text "CNY";
}

abbrev lunch : PostEntryRequest
lunch = record {
  user_id = text "u";
  reference_id = none;
  description = text "lunch";
  source = [];
  lines = line (text "food") (pos 30) (pos 0) ∷ line (text "cash") (pos 0) (pos 30) ∷ [];
}

abbrev draw : Text → ℕ → Draw
draw k now = record { entry_id = k; line_ids = λ n. n ∷ k; now = now }

abbrev everyone : Text → Bool
everyone k = true

abbrev empty_ledger : Store
empty_ledger = new_ledger everyone everyone

abbrev tables : Result Store → Store
tables (ok s) = s
tables (err e) = empty_ledger

-- The second entry is posted in the same second, with an identifier that sorts first.
abbrev first_posted : Store
first_posted = tables (post_entry engine empty_ledger (draw (text "b") 10) lunch)

abbrev both_posted : Store
both_posted = tables (post_entry engine first_posted (draw (text "a") 10) lunch)

second_posts : post_entry engine first_posted (draw (text "a") 10) lunch ≡ ok both_posted
unfolding post_entry ◌+ℤ◌ text_eq
second_posts = refl

chain_breaks :
    check_chain none (ordered (text "u") both_posted.entries) ≡ err (unexpected_previous (text "a"))
unfolding post_entry ordered check_chain text_eq text_lt ◌+ℤ◌
chain_breaks = refl

apart : true ≢ false
apart e = cc

b_is_not_a : text "b" ≢ text "a"
unfolding text_eq
b_is_not_a e = apart (sym ((text_eq_iff (text "b") (text "a")).1 e))

chain_iff_example :
    ((check_chain none (ordered (text "u") both_posted.entries) ≡ ok tt) ↔ (
      any_after
        (posted_row engine first_posted (draw (text "a") 10) lunch)
        (ordered (text "u") first_posted.entries)
      ≡ false))
    × ((u : Text)
        → text_eq (text "u") u ≡ false
        → ordered u both_posted.entries ≡ ordered u first_posted.entries)
unfolding post_entry ordered check_chain text_eq linked ◌+ℤ◌
chain_iff_example =
    chain_iff engine first_posted both_posted (draw (text "a") 10) lunch second_posts refl
      (b_is_not_a, tt)

-- Debits of 2^64 in all against no credit.
abbrev too_much : List Line
too_much =
    line (text "food") (pos 9_223_372_036_854_775_807) (pos 0)
    ∷ line (text "food") (pos 9_223_372_036_854_775_807) (pos 0)
    ∷ line (text "food") (pos 2) (pos 0)
    ∷ []

wraps_to_zero : totals_agree too_much ≡ true
unfolding total_debit total_credit ◌+ℤ◌
wraps_to_zero = refl

totals_agree_iff_example :
    ((totals_agree too_much ≡ true) ↔ (debits too_much % words ≡ credits too_much % words))
    × (debits too_much < words
        → credits too_much < words
        → (totals_agree too_much ≡ true) ↔ (debits too_much ≡ credits too_much))
totals_agree_iff_example = totals_agree_iff too_much refl

abbrev day : List Call
day =
    posts (draw (text "a") 10) lunch
    ∷ reverses (draw (text "c") 12) (draw (text "d") 13)
        (posted_row engine empty_ledger (draw (text "a") 10) lunch) lunch.lines (some lunch)
    ∷ []

cash_after :
    (run engine empty_ledger day).cache (text "u") (text "cash") ≡ some (integer (negsuc 29))
unfolding run apply reverse_entry post_entry text_eq ◌+ℤ◌ ◌-ℤ◌
cash_after = refl
