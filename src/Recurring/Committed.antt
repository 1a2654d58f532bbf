-- ===== src/Recurring/Committed.antt =====
-- What the database transaction of generateOne has done when it succeeds.
use fin_arch.Base.{
  ◌≡◌, Bool, not, Option, none, some, ◌∷◌, arith, Text, CaseTable, Option-cases, inl, inr, ap, ◌∙◌,
  sym, subst,
}
use fin_arch.Transaction.Records.{Services, Transaction}
use fin_arch.Transaction.Records.{
  Result as TransactionResult, ok as transaction_ok, err as transaction_err,
}
use fin_arch.Transaction.Create.{create_transaction}
use fin_arch.Recurring.Rule.{Rule, Zones}
use fin_arch.Recurring.Tables.{
  Instance, Tables, Result, ok, require, has_expected, advance_rule, mark_instance_generated,
  get_by_idempotency_key,
}
use fin_arch.Recurring.Generate.{
  Plan, Outcome, was_skipped, was_generated, of_transaction, is_recurring_transaction,
  is_linked_elsewhere, request_of, storing, instance_for, move_on, link_existing, take_over,
  create_new, generate_for, commit, recurring_idempotency_key,
}
use fin_arch.Recurring.Moved.{
  ok-inv, IsMoved, move_on-IsMoved, SameBooks, mark-SameBooks, take_over-SameBooks,
  instance_for-SameBooks,
}

-- The call has created the transaction of the occurrence and moved the rule on.
pub record IsCreated (u : CaseTable) (z : Zones) (env : Services) (s : Tables) (p : Plan)
    (s' : Tables) : Type 0 where
  pub made : Transaction
  pub created :
      create_transaction u
        (storing env s.transactions)
        (request_of p.snapshot p.date p.resolved_rate)
      ≡ transaction_ok made
  pub stored_are : s'.transactions ≡ made ∷ s.transactions
  pub moved : IsMoved z s p.snapshot p.date s'

-- The transaction of the occurrence was there: the call has linked it and moved the rule on.
pub record IsLinked (z : Zones) (s : Tables) (p : Plan) (s' : Tables) : Type 0 where
  pub there : Transaction
  pub found :
      get_by_idempotency_key p.snapshot.user_id
        (recurring_idempotency_key p.snapshot.id p.date)
        s.transactions
      ≡ some there
  pub kept : s'.transactions ≡ s.transactions
  pub moved : IsMoved z s p.snapshot p.date s'

-- What a database transaction of `generateOne` that succeeds has done.
pub data Work (u : CaseTable) (z : Zones) (env : Services) (s : Tables) (p : Plan) (s' : Tables)
    (o : Outcome) : Type 0 where
  passed : o ≡ was_skipped → SameBooks s s' → Work u z env s p s' o
  linked : o ≡ was_skipped → IsLinked z s p s' → Work u z env s p s' o
  created : o ≡ was_generated → IsCreated u z env s p s' → Work u z env s p s' o

of_transaction-inv :
    (m : TransactionResult Transaction) (t : Transaction)
    → of_transaction m ≡ ok t
    → m ≡ transaction_ok t
of_transaction-inv (transaction_ok a) t e = ground arith
of_transaction-inv (transaction_err x) t e = absurd (ground arith)

IsMoved-from :
    (z : Zones) (s s1 : Tables) (r : Rule) (date : Text) (s' : Tables)
    → s1.rules ≡ s.rules
    → IsMoved z s1 r date s'
    → IsMoved z s r date s'
IsMoved-from z s s1 r date s' e m = record {
  next = m.next;
  status = m.status;
  expected = ap (has_expected r.id r.user_id r.version r.next_run_at) (sym e) ∙ m.expected;
  later = m.later;
  found = m.found;
  rules_are =
      m.rules_are
      ∙ ap
          (advance_rule r.id r.user_id r.version r.next_run_at m.next.scheduled_at (some date)
            m.status)
          e;
}

link_existing-inv :
    (u : CaseTable) (z : Zones) (s s' : Tables) (r : Rule) (date : Text) (i : Instance)
    (t : Transaction) (o : Outcome)
    → link_existing u z s r date i t ≡ ok (s', o)
    → (o ≡ was_skipped) × (s'.transactions ≡ s.transactions) × IsMoved z s r date s'
unfolding link_existing SameBooks
link_existing-inv u z s s' r date i t o h =
    let (_, e1, r1) = ok-inv (require (is_recurring_transaction t r date) _) _ h in
    let (_, e2, r2) = ok-inv (require (not (is_linked_elsewhere i t)) _) _ r1 in
    let (s1, e3, r3) = ok-inv (mark_instance_generated s i.id t.id) _ r2 in
    let (s2, e4, r4) = ok-inv (move_on u z s1 r date) _ r3 in
    let same : ◌≡◌ {A = Tables × Outcome} (s', o) (s2, was_skipped) = ground arith in
    let (moved, kept) = move_on-IsMoved u z s1 s2 r date e4 in
    let (rules, transactions) = mark-SameBooks s s1 i.id t.id e3 in
    (
      ap (λ q. q.1) same,
      ap (λ q. q.0.transactions) same ∙ kept ∙ transactions,
      subst (IsMoved z s r date) (sym (ap (λ q. q.0) same))
          (IsMoved-from z s s1 r date s2 rules moved),
    )

create_new-inv :
    (u : CaseTable) (z : Zones) (env : Services) (s s' : Tables) (p : Plan) (i : Instance)
    (claimed : Bool) (o : Outcome)
    → create_new u z env s p i claimed ≡ ok (s', o)
    → (o ≡ was_generated) × IsCreated u z env s p s'
unfolding create_new SameBooks
create_new-inv u z env s s' p i claimed o h =
    let (_, e1, r1) = ok-inv (require (not p.preexisting) _) _ h in
    let (s1, e2, r2) = ok-inv (take_over u z s p.snapshot i claimed) _ r1 in
    let (t, e3, r3) =
      ok-inv
        (of_transaction (
          create_transaction u (storing env s1.transactions)
            (request_of p.snapshot p.date p.resolved_rate)))
        _ r2 in
    let s1' : Tables = record s1 { transactions = t ∷ s1.transactions } in
    let (s2, e4, r4) = ok-inv (mark_instance_generated s1' i.id t.id) _ r3 in
    let (s3, e5, r5) = ok-inv (move_on u z s2 p.snapshot p.date) _ r4 in
    let same : ◌≡◌ {A = Tables × Outcome} (s', o) (s3, was_generated) = ground arith in
    let (rules, transactions) = take_over-SameBooks u z s s1 p.snapshot i claimed e2 in
    let marked = mark-SameBooks s1' s2 i.id t.id e4 in
    let (moved, kept) = move_on-IsMoved u z s2 s3 p.snapshot p.date e5 in
    (
      ap (λ q. q.1) same,
      record {
        made = t;
        created =
            ap
              (λ ts.
                create_transaction u (storing env ts)
                  (request_of p.snapshot p.date p.resolved_rate))
              (sym transactions)
            ∙ of_transaction-inv _ t e3;
        stored_are =
            ap (λ q. q.0.transactions) same ∙ kept ∙ marked.1 ∙ ap (λ ts. t ∷ ts) transactions;
        moved =
            subst (IsMoved z s p.snapshot p.date) (sym (ap (λ q. q.0) same))
              (IsMoved-from z s s2 p.snapshot p.date s3 (marked.0 ∙ rules) moved);
      },
    )

IsCreated-from :
    (u : CaseTable) (z : Zones) (env : Services) (s s1 : Tables) (p : Plan) (s' : Tables)
    → SameBooks s s1
    → IsCreated u z env s1 p s'
    → IsCreated u z env s p s'
unfolding SameBooks
IsCreated-from u z env s s1 p s' (rules, transactions) c = record {
  made = c.made;
  created =
      ap
        (λ ts. create_transaction u (storing env ts) (request_of p.snapshot p.date p.resolved_rate))
        (sym transactions)
      ∙ c.created;
  stored_are = c.stored_are ∙ ap (λ ts. c.made ∷ ts) transactions;
  moved = IsMoved-from z s s1 p.snapshot p.date s' rules c.moved;
}

IsLinked-from :
    (z : Zones) (s s1 : Tables) (p : Plan) (s' : Tables)
    → SameBooks s s1
    → IsLinked z s1 p s'
    → IsLinked z s p s'
unfolding SameBooks
IsLinked-from z s s1 p s' (rules, transactions) c = record {
  there = c.there;
  found =
      ap
        (get_by_idempotency_key p.snapshot.user_id (recurring_idempotency_key p.snapshot.id p.date))
        (sym transactions)
      ∙ c.found;
  kept = c.kept ∙ transactions;
  moved = IsMoved-from z s s1 p.snapshot p.date s' rules c.moved;
}

generate_for_cases :
    (u : CaseTable) (z : Zones) (env : Services) (s s' : Tables) (p : Plan) (i : Instance)
    (claimed : Bool) (o : Outcome)
    → generate_for u z env s p (some (i, claimed)) ≡ ok (s', o)
    → Work u z env s p s' o
unfolding generate_for
generate_for_cases u z env s s' p i claimed o h =
    let branch : Option Transaction → Result (Tables × Outcome) = λ m. elim m [
      | some t ↦ link_existing u z s p.snapshot p.date i t
      | none ↦ create_new u z env s p i claimed
    ] in
    elim (Option-cases (
      get_by_idempotency_key p.snapshot.user_id (recurring_idempotency_key p.snapshot.id p.date)
        s.transactions)) [
          | inl e ↦
              let (skips, made) =
                create_new-inv u z env s s' p i claimed o
                  (subst (λ m. branch m ≡ ok (s', o)) e h) in
              created skips made
          | inr (t, e) ↦
              let (skips, kept, moved) =
                link_existing-inv u z s s' p.snapshot p.date i t o
                  (subst (λ m. branch m ≡ ok (s', o)) e h) in
              linked skips (record { there = t; found = e; kept = kept; moved = moved })
        ]

pub commit_cases :
    (u : CaseTable) (z : Zones) (env : Services) (s s' : Tables) (p : Plan) (k : Text) (o : Outcome)
    → commit u z env s p k ≡ ok (s', o)
    → Work u z env s p s' o
unfolding commit generate_for SameBooks
commit_cases u z env s s' p k o h =
    let ((s1, work), e, rest) = ok-inv (instance_for s p.snapshot p.date k) _ h in
    worked s1 work (instance_for-SameBooks s s1 p.snapshot p.date k work e) rest
  where
    worked :
        (s1 : Tables) (work : Option (Instance × Bool))
        → SameBooks s s1
        → generate_for u z env s1 p work ≡ ok (s', o)
        → Work u z env s p s' o
    worked s1 none books r =
        let same : ◌≡◌ {A = Tables × Outcome} (s', o) (s1, was_skipped) = ground arith in
        passed (ap (λ q. q.1) same)
          (ap (λ q. q.0.rules) same ∙ books.0, ap (λ q. q.0.transactions) same ∙ books.1)
    worked s1 (some (i, claimed)) books r =
        elim (generate_for_cases u z env s1 s' p i claimed o r) [
          | passed e same ↦ passed e (same.0 ∙ books.0, same.1 ∙ books.1)
          | linked e c ↦ linked e (IsLinked-from z s s1 p s' books c)
          | created e c ↦ created e (IsCreated-from u z env s s1 p s' books c)
        ]
