-- ===== src/Budget/Sums.antt =====
-- The sums of GetMonthlyExpenseActuals against the sums of the rows.
use fin_arch.Base.{
  ℕ, ◌+◌, ◌<◌, ◌≡◌, refl, Bool, true, false, ◌&&◌, not, ◌⊎◌, some, List, [], ◌∷◌, if◌then◌else◌,
  arith, ℤ, pos, negsuc, ◌+ℤ◌, wrap, Text, text_eq, eq_of_text_eq, text_eq_self, int64_bound,
  Bool-cases, inl, inr, ap, ◌∙◌, sym, subst, All, abs,
}
use fin_arch.Calendar.{Civil, parse_date}
use fin_arch.Transaction.Records.{Mode}
use fin_arch.Budget.{ok, ◌>>=◌, first_day}
use fin_arch.Budget.Actuals.{
  Row, category_of, Group, add_to, group_rows, cents_of, total_from, any_row, Actuals, actuals_of,
  monthly_actuals, is_monthly, or_bad_month,
}

abbrev pub IsNatural : ℤ → Type 0
IsNatural a = a ≡ pos (abs a)

-- The sum of the rows that a test picks.
unfoldable pub sum_rows : (Row → Bool) → List Row → ℕ
sum_rows p [] = 0
sum_rows p (r ∷ rs) = (if p r then abs r.base_amount_cents else 0) + sum_rows p rs

sum_groups : List Group → ℕ
sum_groups [] = 0
sum_groups (g ∷ gs) = abs g.cents + sum_groups gs

record AddsTo (c : Text) (v : ℕ) (gs gs' : List Group) : Type 0 where
  natural : All (λ g. IsNatural g.cents) gs'
  total : sum_groups gs' ≡ sum_groups gs + v
  same : cents_of c gs' ≡ cents_of c gs +ℤ pos v
  others : (d : Text) → text_eq c d ≡ false → cents_of d gs' ≡ cents_of d gs

adds_here :
    (c m : Text) (v n : ℕ) (gs : List Group)
    → All (λ g. IsNatural g.cents) gs
    → n + sum_groups gs + v < int64_bound
    → text_eq m c ≡ true
    → (add_to c (pos v) (record { name = m; cents = pos n } ∷ gs)
        ≡ ok (record { name = m; cents = pos (n + v) } ∷ gs))
      × AddsTo c v
          (record { name = m; cents = pos n } ∷ gs)
          (record { name = m; cents = pos (n + v) } ∷ gs)
unfolding add_to cents_of ◌+ℤ◌ sum_groups
adds_here c m v n gs nat small e = (
  ground arith,
  record {
    natural = (refl, nat);
    total = omega arith;
    same = ground arith;
    others = λ d ne.
        (let differs : text_eq m d ≡ false = ap (λ k. text_eq k d) (eq_of_text_eq m c e) ∙ ne in
          ground arith);
  },
)

adds_later :
    (c m : Text) (v n : ℕ) (gs gs' : List Group)
    → text_eq m c ≡ false
    → add_to c (pos v) gs ≡ ok gs'
    → AddsTo c v gs gs'
    → (add_to c (pos v) (record { name = m; cents = pos n } ∷ gs)
        ≡ ok (record { name = m; cents = pos n } ∷ gs'))
      × AddsTo c v
          (record { name = m; cents = pos n } ∷ gs)
          (record { name = m; cents = pos n } ∷ gs')
unfolding add_to cents_of ◌+ℤ◌ sum_groups
adds_later c m v n gs gs' e h added = (
  ground arith,
  record {
    natural = (refl, added.natural);
    total = omega (arith, added.total);
    same = ground (arith, added.same);
    others = λ d ne. (let rest = added.others d ne in ground arith);
  },
)

add_to_lem :
    (c : Text) (v : ℕ) (gs : List Group)
    → All (λ g. IsNatural g.cents) gs
    → sum_groups gs + v < int64_bound
    → (gs' : List Group) × (add_to c (pos v) gs ≡ ok gs') × AddsTo c v gs gs'
unfolding add_to cents_of ◌+ℤ◌ sum_groups
add_to_lem c v [] nat small = (
  record { name = c; cents = pos v } ∷ [],
  ground arith,
  record {
    natural = (refl, tt);
    total = omega arith;
    same = ground (arith, text_eq_self c);
    others = λ d e. ground arith;
  },
)
add_to_lem c v (g ∷ gs) (head, nat) small =
    subst
      (λ x.
        (gs' : List Group) × (add_to c (pos v) (record { name = g.name; cents = x } ∷ gs) ≡ ok gs')
        × AddsTo c v (record { name = g.name; cents = x } ∷ gs) gs')
      (sym head) (added (Bool-cases (text_eq g.name c)) (add_to_lem c v gs nat (omega arith)))
  where
    added :
        (text_eq g.name c ≡ true) ⊎ (text_eq g.name c ≡ false)
        → ((gs' : List Group) × (add_to c (pos v) gs ≡ ok gs') × AddsTo c v gs gs')
        → (gs' : List Group) × (add_to c
              (pos v)
              (record { name = g.name; cents = pos (abs g.cents) } ∷ gs)
            ≡ ok gs')
          × AddsTo c v (record { name = g.name; cents = pos (abs g.cents) } ∷ gs) gs'
    added (inl e) rest =
        (let (f, added) = adds_here c g.name v (abs g.cents) gs nat small e in (_, f, added))
    added (inr e) (gs', h, rest) =
        (let (f, added) = adds_later c g.name v (abs g.cents) gs gs' e h rest in (_, f, added))

-- The groups of the rows that a test picks.
record Groups (p : Row → Bool) (rs : List Row) (gs : List Group) : Type 0 where
  natural : All (λ g. IsNatural g.cents) gs
  total : sum_groups gs ≡ sum_rows p rs
  each : (c : Text) → cents_of c gs ≡ pos (sum_rows (λ r. p r && text_eq (category_of r) c) rs)

picked_row :
    (p : Row → Bool) (r : Row) (rs : List Row) (gs gs' : List Group)
    → p r ≡ true
    → IsNatural r.base_amount_cents
    → Groups p rs gs
    → AddsTo (category_of r) (abs r.base_amount_cents) gs gs'
    → Groups p (r ∷ rs) gs'
unfolding sum_rows sum_groups ◌+ℤ◌
picked_row p r rs gs gs' here natural old added = record {
  natural = added.natural;
  total = rw here (omega (arith, added.total, old.total));
  each = λ c. by_category c (Bool-cases (text_eq (category_of r) c));
}
  where
    by_category :
        (c : Text)
        → (text_eq (category_of r) c ≡ true) ⊎ (text_eq (category_of r) c ≡ false)
        → cents_of c gs' ≡ pos (sum_rows (λ x. p x && text_eq (category_of x) c) (r ∷ rs))
    by_category c (inl e) =
        let same = eq_of_text_eq (category_of r) c e in
        let now : cents_of c gs' ≡ cents_of c gs +ℤ pos (abs r.base_amount_cents) =
          subst (λ k. cents_of k gs' ≡ cents_of k gs +ℤ pos (abs r.base_amount_cents)) same
            added.same in
        let before = old.each c in ground arith
    by_category c (inr ne) = let now = added.others c ne in let before = old.each c in ground arith

skipped_row :
    (p : Row → Bool) (r : Row) (rs : List Row) (gs : List Group)
    → p r ≡ false
    → Groups p rs gs
    → Groups p (r ∷ rs) gs
unfolding sum_rows
skipped_row p r rs gs away old = record {
  natural = old.natural;
  total = old.total ∙ ground arith;
  each = λ c. old.each c ∙ ap pos (ground arith);
}

group_rows_lem :
    (p : Row → Bool) (rs : List Row)
    → All (λ r. IsNatural r.base_amount_cents) rs
    → sum_rows p rs < int64_bound
    → (gs : List Group) × (group_rows p rs ≡ ok gs) × Groups p rs gs
unfolding group_rows sum_rows sum_groups cents_of
group_rows_lem p [] nat small = ([], refl, record { natural = tt; total = refl; each = λ c. refl })
group_rows_lem p (r ∷ rs) (head, nat) small =
    let (gs, h, old) = group_rows_lem p rs nat (omega arith) in
    elim (Bool-cases (p r)) [
      | inl here ↦
          let fits : sum_groups gs + abs r.base_amount_cents < int64_bound =
            fits_with here (old.total) in
          let (gs', f, added) =
            add_to_lem (category_of r) (abs r.base_amount_cents) gs old.natural fits in
          (
            gs',
            rw (here, h) (ap (λ v. add_to (category_of r) v gs) head ∙ f),
            picked_row p r rs gs gs' here head old added,
          )
      | inr away ↦ (gs, rw away h, skipped_row p r rs gs away old)
    ]
  where
    fits_with : {n : ℕ} → p r ≡ true → n ≡ sum_rows p rs → n + abs r.base_amount_cents < int64_bound
    fits_with here e = ground (arith, small)

wrap_lem :
    (t : ℕ) (a : ℤ) → IsNatural a → t + abs a < int64_bound → wrap (pos t +ℤ a) ≡ pos (t + abs a)
unfolding ◌+ℤ◌
wrap_lem t (pos n) nat small = ground arith
wrap_lem t (negsuc n) nat small = absurd (ground arith)

total_from_lem :
    (t : ℕ) (gs : List Group)
    → All (λ g. IsNatural g.cents) gs
    → t + sum_groups gs < int64_bound
    → total_from (pos t) gs ≡ pos (t + sum_groups gs)
unfolding total_from sum_groups
total_from_lem t [] nat small = ap pos (omega arith)
total_from_lem t (g ∷ gs) (head, nat) small =
    ap (λ x. total_from x gs) (wrap_lem t g.cents head (omega arith))
    ∙ total_from_lem (t + abs g.cents) gs nat (omega arith)
    ∙ ap pos (omega arith)

actuals_of-ok :
    (p : Row → Bool) (rows : List Row) (gs : List Group)
    → any_row (λ r. p r && not r.is_cny) rows ≡ false
    → group_rows p rows ≡ ok gs
    → actuals_of p rows ≡ ok (record { total_cents = total_from (pos 0) gs; groups = gs })
unfolding actuals_of
actuals_of-ok p rows gs cny h = rw (cny, h) refl

-- For a month that parses, if no expense of the user and mode in it is in another base currency, no
-- row has a negative amount and the picked ones add up to less than 2^63, then
-- `GetMonthlyExpenseActuals` succeeds, its total is the sum of the picked rows, and what its map has
-- for a category is the sum of the picked rows of the category.
pub monthly_actuals_lem :
    (user : Text) (mode : Mode) (month : Text) (start : Civil) (rows : List Row)
    → parse_date (first_day month) ≡ some start
    → any_row (λ r. is_monthly user mode start r && not r.is_cny) rows ≡ false
    → All (λ r. IsNatural r.base_amount_cents) rows
    → sum_rows (is_monthly user mode start) rows < int64_bound
    → (a : Actuals) × (monthly_actuals user mode month rows ≡ ok a)
      × (a.total_cents ≡ pos (sum_rows (is_monthly user mode start) rows))
      × ((c : Text)
          → cents_of c a.groups
            ≡ pos (sum_rows (λ r. is_monthly user mode start r && text_eq (category_of r) c) rows))
unfolding monthly_actuals
monthly_actuals_lem user mode month start rows e cny nat small =
    let p = is_monthly user mode start in
    let (gs, h, sums) = group_rows_lem p rows nat small in
    (
      record { total_cents = total_from (pos 0) gs; groups = gs },
      ap (λ m. or_bad_month m >>= λ c. actuals_of (is_monthly user mode c) rows) e
          ∙ actuals_of-ok p rows gs cny h,
      total_from_lem 0 gs sums.natural (omega (arith, sums.total))
          ∙ ap pos (omega (arith, sums.total)),
      sums.each,
    )
