-- ===== src/Budget.antt =====
-- internal/domain/service/budget_service.go over
-- internal/infrastructure/repository/budget_sqlite.go and the table of migration_v23.sql. The times
-- of creation and update are left out; a statement that fails for another reason than a constraint
-- is too.
pub mod Actuals
pub mod Sums
pub mod Stored
mod Tests
use fin_arch.Base.{
  ℕ, Bool, true, false, ◌&&◌, ◌||◌, not, Option, none, some, List, [], ◌∷◌, if◌then◌else◌, is_some,
  ◌==◌, ℤ, pos, ltb_ℤ, Text, text, text_eq, is_empty, trim_space, to_upper, CaseTable, length, ◌++◌,
}
use fin_arch.Calendar.{parse_date}
use fin_arch.Transaction.Records.{Mode, mode_unset, work, life, mode_unknown}

-- `model.Budget`
pub record Budget : Type 0 where
  pub id : Text
  pub user_id : Text
  pub mode : Mode
  pub period_month : Text
  pub category : Text
  pub amount_cents : ℤ
  pub currency : Text
  pub base_currency : Text
  pub base_amount_cents : ℤ
  pub is_active : Bool

-- What the service is given: letters in upper case, `strings.EqualFold`, the current month and a new
-- identifier.
pub record Setting : Type 0 where
  pub letters : CaseTable
  pub equal_fold : Text → Text → Bool
  pub this_month : Text
  pub new_id : Text

pub data Error : Type 0 where
  no_user bad_mode bad_month amount_not_positive no_base_amount budget_missing not_saved : Error
  other_currency sum_overflow : Error

pub data Result (A : Type 0) : Type 0 where
  ok : A → Result A
  err : Error → Result A

infixl 5 ◌>>=◌
abbrev pub ◌>>=◌ : {A B : Type 0} → Result A → (A → Result B) → Result B
ok a >>= f = f a
err e >>= f = err e

abbrev pub is_positive : ℤ → Bool
is_positive a = ltb_ℤ (pos 0) a

-- `normalizeBudgetMode`
abbrev pub normalize_budget_mode : Mode → Result Mode
normalize_budget_mode mode_unset = ok work
normalize_budget_mode work = ok work
normalize_budget_mode life = ok life
normalize_budget_mode mode_unknown = err bad_mode

-- The text of the first day of a month.
abbrev pub first_day : Text → Text
first_day month = month ++ text "-01"

-- `normalizePeriodMonth`
unfoldable pub normalize_period_month : Text → Text → Result Text
normalize_period_month this_month month =
    let m = trim_space month in
    if is_empty m
    then ok this_month
    else if (length m == 7) && is_some (parse_date (first_day m))
    then ok m
    else err bad_month

abbrev pub or_else : Text → Text → Text
or_else t default = if is_empty t then default else t

-- The base amount of a budget, from the one that is given.
abbrev pub base_amount_of : Text → Text → ℤ → ℤ → Result ℤ
base_amount_of currency base amount given =
    if is_positive given
    then ok given
    else if text_eq currency base
    then ok amount
    else err no_base_amount

module _ (w : Setting) where
  -- `ToUpper` of `TrimSpace`
  abbrev pub normal : Text → Text
  normal t = to_upper w.letters (trim_space t)

  -- The currencies and amounts of `normalizeBudget`, once it has the mode and the month.
  unfoldable pub priced : Budget → Mode → Text → Result Budget
  priced b mode month =
      if not (is_positive b.amount_cents)
      then err amount_not_positive
      else (let currency = or_else (normal b.currency) (text "CNY") in
          let base = or_else (normal b.base_currency) currency in
          base_amount_of currency base b.amount_cents b.base_amount_cents >>= λ base_amount.
          ok (record b {
            mode = mode;
            period_month = month;
            category = trim_space b.category;
            currency = currency;
            base_currency = base;
            base_amount_cents = base_amount;
          }))

  -- `normalizeBudget`
  unfoldable pub normalize_budget : Budget → Result Budget
  unfolding priced
  normalize_budget b =
      if is_empty (trim_space b.user_id)
      then err no_user
      else normalize_budget_mode b.mode >>= λ mode.
          normalize_period_month w.this_month b.period_month >>= λ month. priced b mode month

abbrev pub is_mode : Mode → Mode → Bool
is_mode work work = true
is_mode life life = true
is_mode _ _ = false

-- The columns of the unique index on active budgets.
abbrev pub same_scope : Budget → Budget → Bool
same_scope a b =
    text_eq a.user_id b.user_id
    && is_mode a.mode b.mode
    && text_eq a.period_month b.period_month
    && text_eq a.category b.category

abbrev pub any_budget : (Budget → Bool) → List Budget → Bool
any_budget p [] = false
any_budget p (b ∷ bs) = p b || any_budget p bs

-- Whether an active budget covers what `b` covers.
abbrev pub is_covered : Budget → List Budget → Bool
is_covered b bs = any_budget (λ x. x.is_active && same_scope x b) bs

abbrev pub has_budget : Text → List Budget → Bool
has_budget k bs = any_budget (λ x. text_eq x.id k) bs

abbrev pub amounts_allowed : Budget → Bool
amounts_allowed b = is_positive b.amount_cents && is_positive b.base_amount_cents

-- `Create`
unfoldable pub insert_budget : Budget → List Budget → Result (List Budget)
insert_budget b bs =
    if not (amounts_allowed b) || has_budget b.id bs || (b.is_active && is_covered b bs)
    then err not_saved
    else ok (b ∷ bs)

abbrev pub is_own : Text → Text → Budget → Bool
is_own k user x = text_eq x.id k && text_eq x.user_id user && x.is_active

-- `GetByID`
unfoldable pub get_by_id : Text → Text → List Budget → Option Budget
get_by_id k user [] = none
get_by_id k user (b ∷ bs) = if is_own k user b then some b else get_by_id k user bs

-- The columns that `Update` writes; the mode is not one of them.
abbrev pub rewritten : Budget → Budget → Budget
rewritten b x = record x {
  period_month = b.period_month;
  category = b.category;
  amount_cents = b.amount_cents;
  currency = b.currency;
  base_currency = b.base_currency;
  base_amount_cents = b.base_amount_cents;
}

-- The row `x` rewritten, if the others allow it.
unfoldable pub write_row : Budget → List Budget → Budget → List Budget → Result (List Budget)
write_row b before x bs =
    if not (amounts_allowed b) || is_covered (rewritten b x) before || is_covered (rewritten b x) bs
    then err not_saved
    else ok (rewritten b x ∷ bs)

-- `Update`; the other budgets are the ones that the index compares with.
unfoldable pub update_row : Budget → List Budget → List Budget → Result (List Budget)
unfolding write_row
update_row b before [] = err budget_missing
update_row b before (x ∷ bs) =
    let rest = update_row b (x ∷ before) bs in
    if is_own b.id b.user_id x then write_row b before x bs else rest >>= λ done. ok (x ∷ done)

-- `Delete`
unfoldable pub delete_row : Text → Text → List Budget → Result (List Budget)
delete_row k user [] = err budget_missing
delete_row k user (x ∷ bs) =
    let rest = delete_row k user bs in
    if is_own k user x
    then ok (record x { is_active = false } ∷ bs)
    else rest >>= λ done. ok (x ∷ done)

abbrev pub or_missing : Option Budget → Result Budget
or_missing none = err budget_missing
or_missing (some b) = ok b

-- `CreateBudgetRequest`, and `UpdateBudgetRequest` with its identifier, whose category may be left
-- out.
pub record Request : Type 0 where
  pub id : Text
  pub user_id : Text
  pub mode : Mode
  pub period_month : Text
  pub category : Option Text
  pub amount_cents : ℤ
  pub currency : Text
  pub base_currency : Text
  pub base_amount_cents : ℤ

abbrev pub category_or : Option Text → Text → Text
category_or none default = default
category_or (some c) default = c

abbrev pub mode_or : Mode → Mode → Mode
mode_or mode_unset default = default
mode_or m default = m

abbrev pub given_or : Text → Text → Text
given_or t default = if is_empty (trim_space t) then default else t

abbrev pub positive_or : ℤ → ℤ → ℤ
positive_or a default = if is_positive a then a else default

module _ (w : Setting) where
  -- `CreateBudget`
  unfoldable pub create_budget : Request → List Budget → Result (List Budget × Budget)
  create_budget r bs =
      normalize_budget w (record {
        id = w.new_id;
        user_id = r.user_id;
        mode = r.mode;
        period_month = r.period_month;
        category = category_or r.category [];
        amount_cents = r.amount_cents;
        currency = r.currency;
        base_currency = r.base_currency;
        base_amount_cents = r.base_amount_cents;
        is_active = true;
      })
      >>= λ b. insert_budget b bs >>= λ bs1. ok (bs1, b)

  -- The base amount that `UpdateBudget` takes.
  abbrev pub updated_base_amount : Request → Budget → Result ℤ
  updated_base_amount r old =
      if is_positive r.base_amount_cents
      then ok r.base_amount_cents
      else if not (
          is_positive r.amount_cents
          || not (is_empty (trim_space r.currency))
          || not (is_empty (trim_space r.base_currency)))
      then ok old.base_amount_cents
      else if w.equal_fold (trim_space (given_or r.currency old.currency))
          (trim_space (given_or r.base_currency old.base_currency))
      then ok (positive_or r.amount_cents old.amount_cents)
      else err no_base_amount

  -- The budget that `UpdateBudget` writes and returns.
  abbrev pub updated_budget : Request → Budget → Result Budget
  updated_budget r old = updated_base_amount r old >>= λ base_amount.
      normalize_budget w (record old {
        mode = mode_or r.mode old.mode;
        period_month = given_or r.period_month old.period_month;
        category = category_or r.category old.category;
        amount_cents = positive_or r.amount_cents old.amount_cents;
        currency = given_or r.currency old.currency;
        base_currency = given_or r.base_currency old.base_currency;
        base_amount_cents = base_amount;
        is_active = true;
      })

  -- `UpdateBudget`; an update that finds no row is one that is not saved.
  unfoldable pub update_budget : Request → List Budget → Result (List Budget × Budget)
  update_budget r bs =
      if is_empty (trim_space r.id)
      then err budget_missing
      else or_missing (get_by_id r.id r.user_id bs) >>= λ old. updated_budget r old >>= λ b.
          elim (update_row b [] bs) [ err e ↦ err not_saved | ok bs1 ↦ ok (bs1, b) ]

-- `DeleteBudget`
unfoldable pub delete_budget : Text → Text → List Budget → Result (List Budget)
delete_budget user k bs =
    if is_empty (trim_space k) then err budget_missing else delete_row k user bs
