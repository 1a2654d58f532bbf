-- ===== src/Budget/Tests.antt =====
-- The theorems on budgets for one user.
use fin_arch.Base.{
  ℕ, ◌≡◌, refl, true, ◌&&◌, none, some, List, [], ◌∷◌, pos, Text, text, text_eq, text_lt,
  ascii_table, trim_space, trim_left, trim_right, is_space, to_upper, upper_rune, arith,
}
use fin_arch.Calendar.{Civil, parse_date, format_date}
use fin_arch.Transaction.Records.{work, life}
use fin_arch.Budget.{
  Budget, Setting, Result, ok, err, Request, rewritten, get_by_id, update_row, write_row, priced,
  normalize_budget, normalize_budget_mode, normalize_period_month, update_budget,
}
use fin_arch.Budget.Actuals.{Row, Actuals, category_of, is_monthly, cents_of, monthly_actuals}
use fin_arch.Budget.Sums.{sum_rows, monthly_actuals_lem}
use fin_arch.Budget.Stored.{update_budget_lem}

abbrev setting : Setting
setting = record {
  letters = ascii_table;
  equal_fold = text_eq;
  this_month = text "2024-02";
  new_id = text "n";
}

abbrev food : Budget
food = record {
  id = text "b";
  user_id = text "u";
  mode = work;
  period_month = text "2024-02";
  category = text "food";
  amount_cents = pos 50000;
  currency = text "CNY";
  base_currency = text "CNY";
  base_amount_cents = pos 50000;
  is_active = true;
}

abbrev request : Request
request = record {
  id = text "b";
  user_id = text "u";
  mode = life;
  period_month = [];
  category = none;
  amount_cents = pos 60000;
  currency = [];
  base_currency = [];
  base_amount_cents = pos 0;
}

abbrev outcome : Result (List Budget × Budget)
outcome = update_budget setting request (food ∷ [])

abbrev result_of : Result (List Budget × Budget) → List Budget × Budget
result_of (ok r) = r
result_of (err e) = ([], food)

updates : outcome ≡ ok (result_of outcome)
unfolding update_budget get_by_id text_eq trim_space trim_left trim_right is_space normalize_budget
    priced normalize_period_month to_upper upper_rune parse_date update_row write_row
updates = refl

-- The request names another mode: the answer has it, and the stored budget does not.
loses_mode :
    ((result_of outcome).1.mode ≡ life)
    × (get_by_id (text "b") (text "u") (result_of outcome).0
        ≡ some (record food { amount_cents = pos 60000; base_amount_cents = pos 60000 }))
unfolding update_budget get_by_id text_eq trim_space trim_left trim_right is_space normalize_budget
    priced normalize_period_month to_upper upper_rune parse_date update_row write_row
loses_mode = (refl, refl)

update_budget_lem_example :
    (old : Budget) × (get_by_id (text "b") (text "u") (food ∷ []) ≡ some old)
    × (get_by_id (text "b") (text "u") (result_of outcome).0
        ≡ some (rewritten (result_of outcome).1 old))
    × (normalize_budget_mode life ≡ ok (result_of outcome).1.mode)
update_budget_lem_example =
    update_budget_lem setting request (food ∷ []) (result_of outcome).0 (result_of outcome).1
      updates

abbrev row : Text → Text → ℕ → Row
row day category cents = record {
  user_id = text "u";
  mode = work;
  is_expense = true;
  date = day;
  category = some category;
  is_cny = true;
  base_amount_cents = pos cents;
}

abbrev rows : List Row
rows =
    row (text "2024-02-03") (text "food") 1200
    ∷ row (text "2024-03-01") (text "food") 800
    ∷ row (text "2024-02-29") (text "rent") 90000
    ∷ []

abbrev february : Civil
february = record { year = 2024; month = 2; day = 1 }

monthly_actuals_lem_example :
    (a : Actuals) × (monthly_actuals (text "u") work (text "2024-02") rows ≡ ok a)
    × (a.total_cents ≡ pos (sum_rows (is_monthly (text "u") work february) rows))
    × ((c : Text)
        → cents_of c a.groups
          ≡ pos (
              sum_rows
                (λ r. is_monthly (text "u") work february r && text_eq (category_of r) c)
                rows))
unfolding parse_date format_date text_eq text_lt sum_rows
monthly_actuals_lem_example =
    monthly_actuals_lem (text "u") work (text "2024-02") february rows refl refl
      (refl, (refl, (refl, tt))) (omega arith)
