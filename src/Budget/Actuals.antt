-- ===== src/Budget/Actuals.antt =====
-- GetMonthlyExpenseActuals, Summary and makeBudgetProgress.
use fin_arch.Base.{
  ℕ, ◌+◌, ◌*◌, Bool, false, ◌&&◌, ◌||◌, not, Option, none, some, List, [], ◌∷◌, if◌then◌else◌, ℤ,
  pos, negsuc, ◌++◌, leb_ℤ, ◌+ℤ◌, ◌-ℤ◌, is_int64, wrap, Text, text, text_eq, text_lt, is_empty,
}
use fin_arch.Calendar.{Civil, parse_date, format_date, month_civil, month_index}
use fin_arch.Money.{Float, nan, infinite, finite}
use fin_arch.Transaction.Records.{Mode}
use fin_arch.Budget.{
  Budget, Setting, bad_month, other_currency, sum_overflow, Result, ok, err, ◌>>=◌,
  normalize_budget_mode, normalize_period_month, first_day, is_mode, or_else, normal, is_positive,
}

-- The order of `ListByUserMonth`: the empty category is the first of all.
unfoldable pub insert_sorted : Budget → List Budget → List Budget
insert_sorted b [] = b ∷ []
insert_sorted b (x ∷ xs) =
    if text_lt x.category b.category then x ∷ insert_sorted b xs else b ∷ x ∷ xs

abbrev pub is_listed : Text → Mode → Text → Budget → Bool
is_listed user mode month b =
    text_eq b.user_id user && is_mode b.mode mode && text_eq b.period_month month && b.is_active

-- `ListByUserMonth`
unfoldable pub list_by_user_month : Text → Mode → Text → List Budget → List Budget
unfolding insert_sorted
list_by_user_month user mode month [] = []
list_by_user_month user mode month (b ∷ bs) =
    let rest = list_by_user_month user mode month bs in
    if is_listed user mode month b then insert_sorted b rest else rest

-- What the queries read of a transaction; `is_cny` is their test on its base currency.
pub record Row : Type 0 where
  pub user_id : Text
  pub mode : Mode
  pub is_expense : Bool
  pub date : Text
  pub category : Option Text
  pub is_cny : Bool
  pub base_amount_cents : ℤ

abbrev pub category_of : Row → Text
category_of r = elim r.category [ none ↦ [] | some c ↦ c ]

-- The condition that both queries have.
abbrev pub is_picked : Text → Mode → Text → Text → Row → Bool
is_picked user mode from to r =
    text_eq r.user_id user
    && is_mode r.mode mode
    && r.is_expense
    && not (text_lt r.date from)
    && text_lt r.date to

pub record Group : Type 0 where
  pub name : Text
  pub cents : ℤ

-- A row is added to the sum of its group, which fails outside of int64.
unfoldable pub add_to : Text → ℤ → List Group → Result (List Group)
add_to c v [] = if is_int64 v then ok (record { name = c; cents = v } ∷ []) else err sum_overflow
add_to c v (g ∷ gs) =
    let rest = add_to c v gs in
    if text_eq g.name c
    then (if is_int64 (g.cents +ℤ v)
        then ok (record g { cents = g.cents +ℤ v } ∷ gs)
        else err sum_overflow)
    else rest >>= λ done. ok (g ∷ done)

-- `SUM` and `GROUP BY` over the rows that a test picks.
unfoldable pub group_rows : (Row → Bool) → List Row → Result (List Group)
group_rows p [] = ok []
group_rows p (r ∷ rs) =
    let rest = group_rows p rs in
    if p r then (rest >>= add_to (category_of r) r.base_amount_cents) else rest

-- The value that the map of the groups has for a category.
unfoldable pub cents_of : Text → List Group → ℤ
cents_of c [] = pos 0
cents_of c (g ∷ gs) = if text_eq g.name c then g.cents else cents_of c gs

-- The total, in the arithmetic of int64.
unfoldable pub total_from : ℤ → List Group → ℤ
total_from t [] = t
total_from t (g ∷ gs) = total_from (wrap (t +ℤ g.cents)) gs

abbrev pub any_row : (Row → Bool) → List Row → Bool
any_row p [] = false
any_row p (r ∷ rs) = p r || any_row p rs

-- `model.BudgetActuals`
pub record Actuals : Type 0 where
  pub total_cents : ℤ
  pub groups : List Group

abbrev pub or_bad_month : Option Civil → Result Civil
or_bad_month none = err bad_month
or_bad_month (some c) = ok c

-- The sums of the rows of the month.
unfoldable pub actuals_of : (Row → Bool) → List Row → Result Actuals
actuals_of p rows =
    if any_row (λ r. p r && not r.is_cny) rows
    then err other_currency
    else group_rows p rows >>= λ gs.
        ok (record { total_cents = total_from (pos 0) gs; groups = gs })

-- The condition for the month of a date.
abbrev pub is_monthly : Text → Mode → Civil → Row → Bool
is_monthly user mode start =
    is_picked user mode (format_date start) (format_date (month_civil (month_index start + 1) 1))

-- `GetMonthlyExpenseActuals`
unfoldable pub monthly_actuals : Text → Mode → Text → List Row → Result Actuals
monthly_actuals user mode month rows = or_bad_month (parse_date (first_day month)) >>= λ start.
    actuals_of (is_monthly user mode start) rows

pub data Status : Type 0 where
  fine warning over : Status

-- `BudgetProgress`
pub record Progress : Type 0 where
  pub budget : Budget
  pub actual_cents : ℤ
  pub remaining_cents : ℤ
  pub usage_ratio : Float
  pub status : Status

abbrev pub scale : ℕ → ℤ → ℤ
scale den (pos n) = pos (n * den)
scale den (negsuc n) = negsuc n

-- `BudgetSummary`
pub record Summary : Type 0 where
  pub mode : Mode
  pub period_month : Text
  pub total_actual_cents : ℤ
  pub total_budget : Option Progress
  pub category_budgets : List Progress

-- `x >= num / den` for a float64 `x` and a positive `den`: the shortest decimal forms are in the
-- order of the floats.
abbrev pub reaches : Float → ℕ → ℕ → Bool
reaches nan num den = false
reaches (infinite negative) num den = not negative
reaches (finite v) num den = leb_ℤ (pos (num * v.den)) (scale den v.num)

module _ (quotient : ℤ → ℤ → Float) where
  -- `makeBudgetProgress`; `quotient` divides two int64 as float64.
  unfoldable pub make_budget_progress : Budget → ℤ → Progress
  make_budget_progress b actual =
      let usage =
        if is_positive b.base_amount_cents
        then quotient actual b.base_amount_cents
        else finite (record { num = pos 0; den = 1 }) in
      record {
        budget = b;
        actual_cents = actual;
        remaining_cents = wrap (b.base_amount_cents -ℤ actual);
        usage_ratio = usage;
        status = if reaches usage 1 1 then over else if reaches usage 4 5 then warning else fine;
      }

  -- The loop of `Summary`.
  unfoldable pub add_budgets : Setting → Actuals → List Budget → Summary → Result Summary
  unfolding make_budget_progress
  add_budgets w a [] s = ok s
  add_budgets w a (b ∷ bs) s =
      if not (text_eq (or_else (normal w b.base_currency) (text "CNY")) (text "CNY"))
      then err other_currency
      else if is_empty b.category
      then add_budgets w a bs
          (record s { total_budget = some (make_budget_progress b a.total_cents) })
      else add_budgets w a bs (record s {
        category_budgets =
            s.category_budgets ++ (make_budget_progress b (cents_of b.category a.groups) ∷ []);
      })

  -- `Summary`
  unfoldable pub summary : Setting → Text → Mode → Text → List Budget → List Row → Result Summary
  summary w user mode month budgets rows = normalize_budget_mode mode >>= λ m.
      normalize_period_month w.this_month month >>= λ period.
      monthly_actuals user m period rows >>= λ a.
      add_budgets w a (list_by_user_month user m period budgets) (record {
        mode = m;
        period_month = period;
        total_actual_cents = a.total_cents;
        total_budget = none;
        category_budgets = [];
      })
