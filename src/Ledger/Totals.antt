-- ===== src/Ledger/Totals.antt =====
-- The totals of an entry, which PostEntry adds up in int64.
use fin_arch.Base.{
  ℕ, ◌+◌, ◌%◌, ◌<◌, ◌≡◌, true, false, List, [], ◌∷◌, arith, ◌↔◌, ℤ, pos, pos_part, ◌+ℤ◌, wrap,
  signed_word, eqb_ℤ, ap, ◌∙◌, sym,
}
use fin_arch.Ledger.Records.{Line}
use fin_arch.Ledger.Post.{any_negative, total_debit, total_credit, totals_agree}

-- The sums of the amounts, as plain numbers.
abbrev pub debits : List Line → ℕ
debits [] = 0
debits (l ∷ ls) = pos_part l.debit_cents + debits ls

abbrev pub credits : List Line → ℕ
credits [] = 0
credits (l ∷ ls) = pos_part l.credit_cents + credits ls

abbrev pub words : ℕ
words = 18_446_744_073_709_551_616

-- One addition in int64.
wrap-add : (r n : ℕ) → r < words → wrap (signed_word r +ℤ pos n) ≡ signed_word ((r + n) % words)
unfolding ◌+ℤ◌
wrap-add r n h = ground arith

signed_word_inj : (a b : ℕ) → a < words → b < words → signed_word a ≡ signed_word b → a ≡ b
signed_word_inj a b h k e = ground arith

total_debit-eq :
    (ls : List Line) (r : ℕ)
    → any_negative ls ≡ false
    → r < words
    → total_debit (signed_word r) ls ≡ signed_word ((r + debits ls) % words)
unfolding total_debit
total_debit-eq [] r h lt = ap signed_word (omega arith)
total_debit-eq (l ∷ ls) r h lt =
    let e : l.debit_cents ≡ pos (pos_part l.debit_cents) = ground arith in
    ap (λ z. total_debit (wrap (signed_word r +ℤ z)) ls) e
    ∙ ap (λ z. total_debit z ls) (wrap-add r (pos_part l.debit_cents) lt)
    ∙ total_debit-eq ls ((r + pos_part l.debit_cents) % words) (ground arith) (omega arith)
    ∙ ap signed_word (omega arith)

total_credit-eq :
    (ls : List Line) (r : ℕ)
    → any_negative ls ≡ false
    → r < words
    → total_credit (signed_word r) ls ≡ signed_word ((r + credits ls) % words)
unfolding total_credit
total_credit-eq [] r h lt = ap signed_word (omega arith)
total_credit-eq (l ∷ ls) r h lt =
    let e : l.credit_cents ≡ pos (pos_part l.credit_cents) = ground arith in
    ap (λ z. total_credit (wrap (signed_word r +ℤ z)) ls) e
    ∙ ap (λ z. total_credit z ls) (wrap-add r (pos_part l.credit_cents) lt)
    ∙ total_credit-eq ls ((r + pos_part l.credit_cents) % words) (ground arith) (omega arith)
    ∙ ap signed_word (omega arith)

eqb_ℤ_iff : (a b : ℤ) → (eqb_ℤ a b ≡ true) ↔ (a ≡ b)
eqb_ℤ_iff a b = (λ h. ground arith, λ e. ground arith)

agree_iff_mod :
    (ls : List Line)
    → any_negative ls ≡ false
    → (totals_agree ls ≡ true) ↔ (debits ls % words ≡ credits ls % words)
agree_iff_mod ls h =
    let d = total_debit-eq ls 0 h (omega arith) in
    let c = total_credit-eq ls 0 h (omega arith) in
    let both = eqb_ℤ_iff (total_debit (pos 0) ls) (total_credit (pos 0) ls) in
    (
      λ t. signed_word_inj (debits ls % words) (credits ls % words) (omega arith) (omega arith) (
          sym (
            d ∙ ap (λ n. signed_word (n % words)) {x = 0 + debits ls} {y = debits ls} (omega arith))
          ∙ both.0 t
          ∙ c
          ∙ ap (λ n. signed_word (n % words)) {x = 0 + credits ls} {y = credits ls} (omega arith)),
      λ e. both.1 (
          d
          ∙ ap signed_word {x = (0 + debits ls) % words} {y = (0 + credits ls) % words}
              (omega arith)
          ∙ sym c),
    )

-- The totals of amounts that are not negative agree exactly if the sums of debits and of credits
-- leave the same remainder modulo 2^64; if both sums are below 2^64, exactly if they are equal.
pub totals_agree_iff :
    (ls : List Line)
    → any_negative ls ≡ false
    → ((totals_agree ls ≡ true) ↔ (debits ls % words ≡ credits ls % words))
      × (debits ls < words
          → credits ls < words
          → (totals_agree ls ≡ true) ↔ (debits ls ≡ credits ls))
totals_agree_iff ls h =
    let (there, back) = agree_iff_mod ls h in
    ((there, back), λ a b. (λ t. omega (arith, there t), λ e. back (ap (λ n. n % words) e)))
