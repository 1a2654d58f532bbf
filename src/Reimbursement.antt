-- ===== src/Reimbursement.antt =====
-- internal/domain/service/reimbursement_service.go, with the repository calls that it makes:
-- GetByIDs and MarkReimbursed of internal/infrastructure/repository/transaction_sqlite.go, Create and
-- AddItems of internal/infrastructure/repository/reimbursement_sqlite.go. One creation is one SQL
-- transaction: an error leaves the tables as they are.
pub mod Totals
pub mod Once
mod Tests
use fin_arch.Base.{
  ℕ, zero, suc, ◌+◌, ◌-◌, Bool, true, false, ◌&&◌, ◌||◌, not, Option, none, some, List, [], ◌∷◌,
  ◌++◌, map, ltb, ◌==◌, if◌then◌else◌, ℤ, pos, negsuc, leb_ℤ, ltb_ℤ, ◌-ℤ◌, abs, Text, text, text_eq,
  is_empty, length, filterb, trim_space, to_upper, CaseTable,
}

pub data Status : Type 0 where
  not_reimbursable pending reimbursed : Status

-- The columns of a transaction that this service reads and writes; `is_personal_expense` is the
-- test on its source and its direction.
pub record TransactionRow : Type 0 where
  pub id : Text
  pub user_id : Text
  pub is_personal_expense : Bool
  pub status : Status
  pub base_currency : Text
  pub base_amount_cents : ℤ
  pub reimbursement_id : Option Text

-- `model.Reimbursement`, but for the amount in yuan and the times.
pub record Reimbursement : Type 0 where
  pub id : Text
  pub request_no : Text
  pub applicant : Text
  pub total_cents : ℕ
  pub status : Text

-- `model.ReimbursementItem`, but for the amount in yuan.
pub record Item : Type 0 where
  pub reimbursement_id : Text
  pub transaction_id : Text
  pub amount_cents : ℕ

pub record Tables : Type 0 where
  pub transactions : List TransactionRow
  pub reimbursements : List Reimbursement
  pub items : List Item

-- `CreateReimbursementRequest`, with the identifier and the number that the service makes up.
pub record Request : Type 0 where
  pub user_id : Text
  pub applicant : Text
  pub transaction_ids : List Text
  pub request_no : Text
  pub new_id : Text
  pub new_request_no : Text

pub data Error : Type 0 where
  no_user no_applicant no_transaction repeated_transaction missing_transaction : Error
  not_personal_expense not_pending other_currency invalid_amount create_failed : Error
  concurrent_modification : Error

pub data Result (A : Type 0) : Type 0 where
  ok : A → Result A
  err : Error → Result A

-- `slices.Contains`
unfoldable pub contains : List Text → Text → Bool
contains [] x = false
contains (y ∷ ys) x = text_eq y x || contains ys x

-- The loop of `deduplicate`, after the identifiers it has kept.
unfoldable pub deduplicate_from : List Text → List Text → List Text
unfolding contains
deduplicate_from kept [] = kept
deduplicate_from kept (x ∷ xs) =
    deduplicate_from (if contains kept x then kept else kept ++ (x ∷ [])) xs

-- `deduplicate`
unfoldable pub deduplicate : List Text → List Text
unfolding deduplicate_from
deduplicate = deduplicate_from []

-- `WHERE user_id = ? AND id IN (...)`
abbrev pub is_selected : Text → List Text → TransactionRow → Bool
is_selected user ids t = text_eq t.user_id user && contains ids t.id

-- `GetByIDs`
abbrev pub get_by_ids : Text → List Text → List TransactionRow → List TransactionRow
get_by_ids user ids = filterb (is_selected user ids)

abbrev pub is_pending : Status → Bool
is_pending pending = true
is_pending _ = false

abbrev pub max_int64 : ℕ
max_int64 = 9_223_372_036_854_775_807

-- The currency of a row: CNY if it has none.
unfoldable pub is_cny : CaseTable → TransactionRow → Bool
is_cny u t =
    let currency = to_upper u (trim_space t.base_currency) in
    is_empty currency || text_eq currency (text "CNY")

abbrev pub add_item : Item → Result (ℕ × List Item) → Result (ℕ × List Item)
add_item i (ok (total, items)) = ok (total, i ∷ items)
add_item i (err e) = err e

-- The loop of `CreateReimbursement` over the transactions: the total, from what is added up so far,
-- and the items.
unfoldable pub collect : CaseTable → Text → ℕ → List TransactionRow → Result (ℕ × List Item)
unfolding is_cny
collect u id total [] = ok (total, [])
collect u id total (t ∷ ts) =
    let amount = abs t.base_amount_cents in
    let rest = collect u id (total + amount) ts in
    if not t.is_personal_expense
    then err not_personal_expense
    else (if not (is_pending t.status)
        then err not_pending
        else (if not (is_cny u t)
            then err other_currency
            else (if leb_ℤ t.base_amount_cents (pos 0)
                  || ltb_ℤ (pos max_int64 -ℤ t.base_amount_cents) (pos total)
                then err invalid_amount
                else add_item
                    (record { reimbursement_id = id; transaction_id = t.id; amount_cents = amount })
                    rest)))

-- The rows that `MarkReimbursed` updates, what it writes, and how many they are.
abbrev pub is_markable : Text → List Text → TransactionRow → Bool
is_markable user ids t = is_selected user ids t && is_pending t.status

abbrev pub mark : Text → List Text → Text → TransactionRow → TransactionRow
mark user ids id t =
    if is_markable user ids t
    then record t { status = reimbursed; reimbursement_id = some id }
    else t

abbrev pub marked_count : Text → List Text → List TransactionRow → ℕ
marked_count user ids ts = length (filterb (is_markable user ids) ts)

abbrev pub conflicts : Reimbursement → List Reimbursement → Bool
conflicts r [] = false
conflicts r (x ∷ xs) = text_eq r.id x.id || text_eq r.request_no x.request_no || conflicts r xs

-- Whether a transaction has an item already: the transactions of items are unique.
unfoldable pub has_item : List Item → Text → Bool
has_item [] x = false
has_item (i ∷ is) x = text_eq i.transaction_id x || has_item is x

unfoldable pub items_conflict : List Item → List Item → Bool
unfolding has_item
items_conflict [] old = false
items_conflict (i ∷ is) old = has_item old i.transaction_id || items_conflict is old

abbrev pub reimbursement_of : Request → ℕ → Reimbursement
reimbursement_of req total = record {
  id = req.new_id;
  request_no = if is_empty req.request_no then req.new_request_no else req.request_no;
  applicant = req.applicant;
  total_cents = total;
  status = text "submitted";
}

-- The part of `CreateReimbursement` inside the SQL transaction, for identifiers without repetition.
unfoldable pub reimburse : CaseTable → Tables → Request → List Text → Result Reimbursement × Tables
reimburse u s req ids =
    let selected = get_by_ids req.user_id ids s.transactions in
    if not (length selected == length ids)
    then (err missing_transaction, s)
    else elim (collect u req.new_id 0 selected) [
      | err e ↦ (err e, s)
      | ok (total, items) ↦
          let r = reimbursement_of req total in
          if (total == 0) || conflicts r s.reimbursements || items_conflict items s.items
          then (err create_failed, s)
          else (if not (marked_count req.user_id ids s.transactions == length ids)
              then (err concurrent_modification, s)
              else (
                ok r,
                record {
                  transactions = map (mark req.user_id ids req.new_id) s.transactions;
                  reimbursements = r ∷ s.reimbursements;
                  items = items ++ s.items;
                },
              ))
    ]

-- `CreateReimbursement`
unfoldable pub create_reimbursement : CaseTable → Tables → Request → Result Reimbursement × Tables
unfolding reimburse
create_reimbursement u s req =
    let unique = deduplicate req.transaction_ids in
    if is_empty req.user_id
    then (err no_user, s)
    else (if is_empty req.applicant
        then (err no_applicant, s)
        else (if length req.transaction_ids == 0
            then (err no_transaction, s)
            else (if not (length unique == length req.transaction_ids)
                then (err repeated_transaction, s)
                else reimburse u s req unique)))
