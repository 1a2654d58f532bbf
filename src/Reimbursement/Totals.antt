-- ===== src/Reimbursement/Totals.antt =====
-- What a reimbursement that is created adds up, and which transactions it takes.
use fin_arch.Base.{
  ℕ, ◌+◌, ◌≤◌, ◌<◌, ◌≡◌, refl, sym, subst, ap, ◌∙◌, ◌⊎◌, true, List, [], ◌∷◌, ◌++◌, map, arith, pos,
  ◌-ℤ◌, abs, Text, length, length-append, All, CaseTable, Bool-cases, inl, inr,
}
use mathlib.Core.List.{append_assoc, append-nil}
use fin_arch.Reimbursement.{
  TransactionRow, Reimbursement, Item, Tables, Request, Error, Result, ok, err, contains,
  deduplicate_from, deduplicate, get_by_ids, is_pending, is_cny, collect, mark, max_int64,
  reimburse, create_reimbursement,
}

-- The sum of the base amounts.
abbrev pub sum_base : List TransactionRow → ℕ
sum_base [] = 0
sum_base (t ∷ ts) = abs t.base_amount_cents + sum_base ts

abbrev pub item_of : Text → TransactionRow → Item
item_of id t = record {
  reimbursement_id = id;
  transaction_id = t.id;
  amount_cents = abs t.base_amount_cents;
}

-- A pending personal expense in CNY with a positive amount.
pub record IsReimbursable (u : CaseTable) (t : TransactionRow) : Type 0 where
  pub personal : t.is_personal_expense ≡ true
  pub waiting : is_pending t.status ≡ true
  pub cny : is_cny u t ≡ true
  pub positive : t.base_amount_cents ≡ pos (abs t.base_amount_cents)
  pub not_zero : 0 < abs t.base_amount_cents

pub Result-cases :
    {A : Type 0} (r : Result A) → ((x : Error) × (r ≡ err x)) ⊎ ((a : A) × (r ≡ ok a))
Result-cases (ok a) = inr (a, refl)
Result-cases (err x) = inl (x, refl)

-- One round of the loop.
collect_cons :
    (u : CaseTable) (id : Text) (n : ℕ) (t : TransactionRow) (ts : List TransactionRow) {total : ℕ}
    {items : List Item}
    → collect u id n (t ∷ ts) ≡ ok (total, items)
    → (rest : List Item) × (collect u id (n + abs t.base_amount_cents) ts ≡ ok (total, rest))
      × (items ≡ item_of id t ∷ rest)
      × (n + abs t.base_amount_cents ≤ max_int64)
      × IsReimbursable u t
unfolding collect ◌-ℤ◌
collect_cons u id n t ts {total} {items} e =
    elim (Result-cases (collect u id (n + abs t.base_amount_cents) ts)) [
      | inl (x, failed) ↦ absurd (ground (arith, e, failed))
      | inr ((sum, rest), done) ↦ (
        rest,
        ground (arith, e, done),
        ground (arith, e, done),
        ground (arith, e, done),
        record {
          personal = ground (arith, e);
          waiting = ground (arith, e);
          cny = ground (arith, e);
          positive = ground (arith, e);
          not_zero = ground (arith, e);
        },
      )
    ]

pub collect_lem :
    (u : CaseTable) (id : Text) (n : ℕ) (ts : List TransactionRow) {total : ℕ} {items : List Item}
    → n ≤ max_int64
    → collect u id n ts ≡ ok (total, items)
    → (total ≡ n + sum_base ts)
      × (total ≤ max_int64)
      × (items ≡ map (item_of id) ts)
      × All (IsReimbursable u) ts
unfolding collect
collect_lem u id n [] {total} {items} le e =
    (ground (arith, e), ground (arith, e), ground (arith, e), tt)
collect_lem u id n (t ∷ ts) {total} {items} le e =
    let (rest, more, is, fits, good) = collect_cons u id n t ts e in
    let (sum, bound, each, all) = collect_lem u id (n + abs t.base_amount_cents) ts fits more in
    (omega (arith, sum), bound, is ∙ ap (λ l. item_of id t ∷ l) each, (good, all))

-- The loop of `deduplicate` adds at most what is left, and adds all of it where none is lost.
deduplicate_from-length :
    (kept xs : List Text) → length (deduplicate_from kept xs) ≤ length kept + length xs
unfolding deduplicate_from
deduplicate_from-length kept [] = omega arith
deduplicate_from-length kept (x ∷ xs) = ground (
  arith,
  deduplicate_from-length kept xs,
  deduplicate_from-length (kept ++ (x ∷ [])) xs,
  length-append kept (x ∷ []),
)

deduplicate_from_all :
    (kept xs : List Text)
    → length (deduplicate_from kept xs) ≡ length kept + length xs
    → deduplicate_from kept xs ≡ kept ++ xs
unfolding deduplicate_from
deduplicate_from_all kept [] e = sym (append-nil kept)
deduplicate_from_all kept (x ∷ xs) e = elim (Bool-cases (contains kept x)) [
  | inl double ↦ absurd (ground (arith, deduplicate_from-length kept xs))
  | inr new ↦ rw new (
      deduplicate_from_all (kept ++ (x ∷ [])) xs
        (ground (arith, e, new, length-append kept (x ∷ [])))
      ∙ append_assoc kept (x ∷ []) xs)
]

deduplicate_all : (xs : List Text) → length (deduplicate xs) ≡ length xs → deduplicate xs ≡ xs
unfolding deduplicate
deduplicate_all xs e = deduplicate_from_all [] xs (ground (arith, e))

reimburse_lem :
    (u : CaseTable) (s s' : Tables) (req : Request) (ids : List Text) (r : Reimbursement)
    → reimburse u s req ids ≡ (ok r, s')
    → let selected = get_by_ids req.user_id ids s.transactions in
      (length selected ≡ length ids)
      × All (IsReimbursable u) selected
      × (r.total_cents ≡ sum_base selected)
      × (r.total_cents ≤ max_int64)
      × (s'.items ≡ map (item_of r.id) selected ++ s.items)
      × (s'.transactions ≡ map (mark req.user_id ids r.id) s.transactions)
unfolding reimburse
reimburse_lem u s s' req ids r e =
    let selected = get_by_ids req.user_id ids s.transactions in
    elim (Result-cases (collect u req.new_id 0 selected)) [
      | inl (x, failed) ↦ absurd (ground (arith, e, failed))
      | inr ((total, items), done) ↦
          let (sum, bound, each, all) = collect_lem u req.new_id 0 selected (omega arith) done in
          (
            ground (arith, e, done),
            all,
            ground (arith, e, done, sum),
            ground (arith, e, done, bound),
            ground (arith, e, done, each),
            ground (arith, e, done),
          )
    ]

-- A reimbursement that is created takes one transaction for each identifier of the request, all of
-- them pending personal expenses of the user in CNY with a positive amount. Its total is the sum of
-- their base amounts, which fits an int64; it has an item with its amount for each; and these
-- transactions are marked with it, and no others are changed.
pub create_reimbursement_lem :
    (u : CaseTable) (s s' : Tables) (req : Request) (r : Reimbursement)
    → create_reimbursement u s req ≡ (ok r, s')
    → let selected = get_by_ids req.user_id req.transaction_ids s.transactions in
      (length selected ≡ length req.transaction_ids)
      × All (IsReimbursable u) selected
      × (r.total_cents ≡ sum_base selected)
      × (r.total_cents ≤ max_int64)
      × (s'.items ≡ map (item_of r.id) selected ++ s.items)
      × (s'.transactions ≡ map (mark req.user_id req.transaction_ids r.id) s.transactions)
unfolding create_reimbursement
create_reimbursement_lem u s s' req r e =
    let unique : deduplicate req.transaction_ids ≡ req.transaction_ids =
      deduplicate_all req.transaction_ids (ground (arith, e)) in
    reimburse_lem u s s' req req.transaction_ids r
      (subst (λ (ids : List Text). reimburse u s req ids ≡ (ok r, s')) unique (ground (arith, e)))
