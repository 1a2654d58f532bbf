-- ===== src/Recurring/Status.antt =====
-- SetStatus and the accounts of the rules.
use fin_arch.Base.{ℕ, ◌≡◌, refl, true, false, Option, some, List, [], ◌∷◌, arith, Text, ◌⊎◌}
use fin_arch.Transaction.Records.{Account}
use fin_arch.Recurring.Rule.{Rule, RuleStatus, active, paused, ended, Zones}
use fin_arch.Recurring.Tables.{Tables, concurrent_modification, ok, err, get_rule_by_id}
use fin_arch.Recurring.Edit.{
  account_fits, any_rule, is_named, deleted, update_rule, update_rules, delete_rule, with_status,
  set_status,
}

update_rule-unfit :
    (accounts : Text → Option Account) (r : Rule) (s : Tables)
    → account_fits accounts r ≡ false
    → update_rule accounts r s ≡ err concurrent_modification
unfolding update_rule
update_rule-unfit accounts r s h = ground arith

any_rule-get_rule_by_id :
    (k user : Text) (r : Rule) (rs : List Rule)
    → get_rule_by_id k user rs ≡ some r
    → any_rule (is_named k user) rs ≡ true
unfolding get_rule_by_id
any_rule-get_rule_by_id k user r [] h = absurd (ground arith)
any_rule-get_rule_by_id k user r (x ∷ rs) h = ground (arith, any_rule-get_rule_by_id k user r rs)

-- A rule that is there and whose account is not active, or not its user's, or does not fit its mode,
-- can be neither paused nor ended by `SetStatus`, which reports a concurrent modification; but
-- `DeleteRule` succeeds.
pub set_status-unfit :
    (z : Zones) (accounts : Text → Option Account) (now : ℕ) (user k : Text) (status : RuleStatus)
    (s : Tables) (r : Rule)
    → (status ≡ paused) ⊎ (status ≡ ended)
    → get_rule_by_id k user s.rules ≡ some r
    → account_fits accounts r ≡ false
    → (set_status z accounts now user k status s ≡ err concurrent_modification)
      × (delete_rule k user s
          ≡ ok (record s { rules = update_rules (is_named k user) deleted s.rules }))
unfolding set_status with_status delete_rule
set_status-unfit z accounts now user k status s r which found unfit =
    (refuses status which, ground (arith, any_rule-get_rule_by_id k user r s.rules found))
  where
    refuses :
        (status : RuleStatus)
        → (status ≡ paused) ⊎ (status ≡ ended)
        → set_status z accounts now user k status s ≡ err concurrent_modification
    refuses active which = absurd (ground arith)
    refuses paused which =
        rw (found, update_rule-unfit accounts (record r { status = paused }) s unfit) refl
    refuses ended which =
        rw (found, update_rule-unfit accounts (record r { status = ended }) s unfit) refl
