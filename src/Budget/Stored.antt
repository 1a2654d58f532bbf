-- ===== src/Budget/Stored.antt =====
-- The budget that UpdateBudget stores, and the one that it returns.
use fin_arch.Base.{
  ◌≡◌, refl, Bool, true, false, ◌||◌, not, Option, none, some, List, [], ◌∷◌, if◌then◌else◌, arith,
  Text, is_empty, trim_space, Bool-cases, inl, inr, ap, ◌∙◌, sym, subst, eq_of_text_eq,
}
use fin_arch.Transaction.Records.{Mode}
use fin_arch.Budget.{
  Budget, Setting, Error, Result, ok, err, ◌>>=◌, Request, amounts_allowed, is_covered, is_own,
  rewritten, get_by_id, update_row, write_row, priced, update_budget, updated_budget,
  updated_base_amount, or_missing, normalize_budget, normalize_budget_mode, normalize_period_month,
  mode_or, budget_missing, not_saved, no_user,
}

ok-inv :
    {A B : Type 0} (first : Result A) (next : A → Result B) {done : B}
    → (first >>= next) ≡ ok done
    → (a : A) × (first ≡ ok a) × (next a ≡ ok done)
ok-inv (ok a) next e = (a, refl, e)
ok-inv (err x) next e = absurd (ground arith)

unless-inv :
    {A : Type 0} (b : Bool) (x : Error) (m : Result A) {done : A}
    → (if b then err x else m) ≡ ok done
    → m ≡ ok done
unless-inv true x m e = absurd (ground arith)
unless-inv false x m e = e

ok-eq : {A : Type 0} {a b : A} → ok a ≡ ok b → a ≡ b
ok-eq e = ground arith

some-eq : {A : Type 0} {a b : A} → some a ≡ some b → a ≡ b
some-eq e = ground arith

get_by_id-own :
    (k user : Text) (bs : List Budget) (old : Budget)
    → get_by_id k user bs ≡ some old
    → is_own k user old ≡ true
unfolding get_by_id
get_by_id-own k user [] old e = absurd (ground arith)
get_by_id-own k user (x ∷ bs) old e =
    let chosen : Bool → Option Budget = λ q. if q then some x else get_by_id k user bs in
    elim (Bool-cases (is_own k user x)) [
      | inl own ↦
          let same : x ≡ old = some-eq (subst (λ q. chosen q ≡ some old) own e) in
          subst (λ y. is_own k user y ≡ true) same own
      | inr other ↦ get_by_id-own k user bs old (subst (λ q. chosen q ≡ some old) other e)
    ]

write_row-inv :
    (b x : Budget) (before bs after : List Budget)
    → write_row b before x bs ≡ ok after
    → after ≡ rewritten b x ∷ bs
unfolding write_row
write_row-inv b x before bs after e = sym (
    ok-eq (
      unless-inv
        (not (amounts_allowed b)
          || is_covered (rewritten b x) before
          || is_covered (rewritten b x) bs)
        not_saved (ok (rewritten b x ∷ bs)) e))

update_row-get_by_id :
    (b : Budget) (before bs after : List Budget) (old : Budget)
    → get_by_id b.id b.user_id bs ≡ some old
    → update_row b before bs ≡ ok after
    → get_by_id b.id b.user_id after ≡ some (rewritten b old)
unfolding get_by_id update_row
update_row-get_by_id b before [] after old found e = absurd (ground arith)
update_row-get_by_id b before (x ∷ bs) after old found e =
    let chosen : Bool → Option Budget = λ q. if q then some x else get_by_id b.id b.user_id bs in
    let done_as : Bool → Result (List Budget) = λ q.
      if q
      then write_row b before x bs
      else update_row b (x ∷ before) bs >>= λ done. ok (x ∷ done) in
    elim (Bool-cases (is_own b.id b.user_id x)) [
      | inl own ↦
          let written =
            write_row-inv b x before bs after (subst (λ q. done_as q ≡ ok after) own e) in
          let same : x ≡ old = some-eq (subst (λ q. chosen q ≡ some old) own found) in
          subst (λ l. get_by_id b.id b.user_id l ≡ some (rewritten b old)) (sym written)
            (heads (rewritten b x) bs own ∙ ap (λ y. some (rewritten b y)) same)
      | inr other ↦
          let (done, f, rest) =
            ok-inv (update_row b (x ∷ before) bs) (λ done. ok (x ∷ done))
              (subst (λ q. done_as q ≡ ok after) other e) in
          let later =
            update_row-get_by_id b (x ∷ before) bs done old
              (subst (λ q. chosen q ≡ some old) other found) f in
          subst (λ l. get_by_id b.id b.user_id l ≡ some (rewritten b old)) (ok-eq rest)
            (tails x done other ∙ later)
    ]
  where
    heads :
        (y : Budget) (l : List Budget)
        → is_own b.id b.user_id y ≡ true
        → get_by_id b.id b.user_id (y ∷ l) ≡ some y
    heads y l own = ap (λ q. if q then some y else get_by_id b.id b.user_id l) own

    tails :
        (y : Budget) (l : List Budget)
        → is_own b.id b.user_id y ≡ false
        → get_by_id b.id b.user_id (y ∷ l) ≡ get_by_id b.id b.user_id l
    tails y l other = ap (λ q. if q then some y else get_by_id b.id b.user_id l) other

priced-keeps :
    (w : Setting) (b done : Budget) (mode : Mode) (month : Text)
    → priced w b mode month ≡ ok done
    → (done.id ≡ b.id) × (done.user_id ≡ b.user_id) × (done.mode ≡ mode)
unfolding priced
priced-keeps w b done mode month e = (ground arith, ground arith, ground arith)

normalize_budget-keeps :
    (w : Setting) (b done : Budget)
    → normalize_budget w b ≡ ok done
    → (done.id ≡ b.id) × (done.user_id ≡ b.user_id) × (normalize_budget_mode b.mode ≡ ok done.mode)
unfolding normalize_budget
normalize_budget-keeps w b done e =
    let (mode, m, rest) =
      ok-inv (normalize_budget_mode b.mode) _
        (unless-inv (is_empty (trim_space b.user_id)) no_user _ e) in
    let (month, p, rest1) = ok-inv (normalize_period_month w.this_month b.period_month) _ rest in
    let (same_id, same_user, same_mode) = priced-keeps w b done mode month rest1 in
    (same_id, same_user, m ∙ ap ok (sym same_mode))

updated_budget-keeps :
    (w : Setting) (r : Request) (old b : Budget)
    → updated_budget w r old ≡ ok b
    → (b.id ≡ old.id)
      × (b.user_id ≡ old.user_id)
      × (normalize_budget_mode (mode_or r.mode old.mode) ≡ ok b.mode)
updated_budget-keeps w r old b e =
    let (base, f, rest) = ok-inv (updated_base_amount w r old) _ e in
    normalize_budget-keeps w _ b rest

missing-inv : (m : Option Budget) (b : Budget) → or_missing m ≡ ok b → m ≡ some b
missing-inv none b e = absurd (ground arith)
missing-inv (some x) b e = ap some (ok-eq e)

saved-inv :
    (m : Result (List Budget)) (b1 b : Budget) (after : List Budget)
    → ◌≡◌ {A = Result (List Budget × Budget)}
        (elim m [ err e ↦ err not_saved | ok bs1 ↦ ok (bs1, b1) ])
        (ok (after, b))
    → (m ≡ ok after) × (b1 ≡ b)
saved-inv (ok bs1) b1 b after e =
    let same : ◌≡◌ {A = List Budget × Budget} (bs1, b1) (after, b) = ok-eq e in
    (ap (λ q. ok q.0) same, ap (λ q. q.1) same)
saved-inv (err x) b1 b after e = absurd (ground arith)

-- When `UpdateBudget` succeeds, the budget that is then found under the identifier has the fields of
-- the one that is returned, but the mode that it had before; the one that is returned has the mode
-- of the request, if that names one.
pub update_budget_lem :
    (w : Setting) (r : Request) (bs after : List Budget) (b : Budget)
    → update_budget w r bs ≡ ok (after, b)
    → (old : Budget) × (get_by_id r.id r.user_id bs ≡ some old)
      × (get_by_id r.id r.user_id after ≡ some (rewritten b old))
      × (normalize_budget_mode (mode_or r.mode old.mode) ≡ ok b.mode)
unfolding update_budget
update_budget_lem w r bs after b e =
    let (old, loaded, rest) =
      ok-inv (or_missing (get_by_id r.id r.user_id bs)) _
        (unless-inv (is_empty (trim_space r.id)) budget_missing _ e) in
    let found = missing-inv (get_by_id r.id r.user_id bs) old loaded in
    let (b1, f, rest1) = ok-inv (updated_budget w r old) _ rest in
    let (m, same) = saved-inv (update_row b1 [] bs) b1 b after rest1 in
    let f : updated_budget w r old ≡ ok b = f ∙ ap ok same in
    let m : update_row b [] bs ≡ ok after = ap (λ x. update_row x [] bs) (sym same) ∙ m in
    let (same_id, same_user, mode) = updated_budget-keeps w r old b f in
    let own = get_by_id-own r.id r.user_id bs old found in
    let k : b.id ≡ r.id = same_id ∙ eq_of_text_eq old.id r.id (ground arith) in
    let user : b.user_id ≡ r.user_id =
      same_user ∙ eq_of_text_eq old.user_id r.user_id (ground arith) in
    (
      old,
      found,
      ap (λ i. get_by_id i r.user_id after) (sym k)
          ∙ ap (λ i. get_by_id b.id i after) (sym user)
          ∙ update_row-get_by_id b [] bs after old
              (ap (λ i. get_by_id b.id i bs) user ∙ ap (λ i. get_by_id i r.user_id bs) k ∙ found) m,
      mode,
    )
