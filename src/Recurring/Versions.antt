-- ===== src/Recurring/Versions.antt =====
-- How the statements change the rules: no row goes away, and versions only grow.
use fin_arch.Base.{
  ℕ, ◌<◌, ◌≤◌, ◌≡◌, refl, Bool, true, false, not, ◌&&◌, ◌||◌, Option, some, List, [], ◌∷◌, arith,
  if◌then◌else◌, is_some, Text, Bool-cases, inl, inr, ap, ◌∙◌, subst, ltb, text_eq, eq_of_text_eq,
}
use fin_arch.Recurring.Rule.{Rule, RuleStatus}
use fin_arch.Recurring.Tables.{is_expected, has_expected, advance_rule, get_rule_by_id}
use fin_arch.Recurring.Edit.{has_rule, update_rules}

-- The rules of one state against those of a later one.
pub data Grows : List Rule → List Rule → Type 0 where
  ends : Grows [] []
  keeps :
      {r x : Rule} {rs xs : List Rule}
      → x.id ≡ r.id
      → x.user_id ≡ r.user_id
      → r.version ≤ x.version
      → Grows rs xs
      → Grows (r ∷ rs) (x ∷ xs)

pub Grows-refl : (rs : List Rule) → Grows rs rs
Grows-refl [] = ends
Grows-refl (r ∷ rs) = keeps refl refl (omega arith) (Grows-refl rs)

pub Grows-advance_rule :
    (k user : Text) (version expected next : ℕ) (last : Option Text) (status : RuleStatus)
    (rs : List Rule)
    → Grows rs (advance_rule k user version expected next last status rs)
unfolding advance_rule
Grows-advance_rule k user version expected next last status [] = ends
Grows-advance_rule k user version expected next last status (r ∷ rs) =
    let rest = Grows-advance_rule k user version expected next last status rs in
    elim (Bool-cases (is_expected k user version expected r)) [
      | inl e ↦ keeps (ground arith) (ground arith) (ground arith) rest
      | inr e ↦ keeps (ground arith) (ground arith) (ground arith) rest
    ]

pub Grows-update_rules :
    (p : Rule → Bool) (f : Rule → Rule)
    → ((r : Rule) → ((f r).id ≡ r.id) × ((f r).user_id ≡ r.user_id) × (r.version ≤ (f r).version))
    → (rs : List Rule) → Grows rs (update_rules p f rs)
unfolding update_rules
Grows-update_rules p f h [] = ends
Grows-update_rules p f h (r ∷ rs) =
    let rest = Grows-update_rules p f h rs in
    let (same_id, same_user, grown) = h r in
    elim (Bool-cases (p r)) [
      | inl e ↦ keeps (ground arith) (ground arith) (ground arith) rest
      | inr e ↦ keeps (ground arith) (ground arith) (ground arith) rest
    ]

-- Whether every row of an identifier has a version beyond a given one.
unfoldable pub is_newer : Text → ℕ → List Rule → Bool
is_newer k version [] = true
is_newer k version (r ∷ rs) =
    (not (text_eq r.id k) || ltb version r.version) && is_newer k version rs

-- Whether no two rows have the same identifier.
unfoldable pub has_distinct_ids : List Rule → Bool
has_distinct_ids [] = true
has_distinct_ids (r ∷ rs) = not (has_rule r.id rs) && has_distinct_ids rs

pub has_expected-is_newer :
    (k user : Text) (version at : ℕ) (rs : List Rule)
    → is_newer k version rs ≡ true
    → has_expected k user version at rs ≡ false
unfolding is_newer
has_expected-is_newer k user version at [] h = refl
has_expected-is_newer k user version at (r ∷ rs) h =
    ground (arith, has_expected-is_newer k user version at rs)

is_newer-has_rule :
    (k : Text) (version : ℕ) (rs : List Rule) → has_rule k rs ≡ false → is_newer k version rs ≡ true
unfolding is_newer
is_newer-has_rule k version [] h = refl
is_newer-has_rule k version (r ∷ rs) h = ground (arith, is_newer-has_rule k version rs)

has_expected-has_rule :
    (k user : Text) (version at : ℕ) (rs : List Rule)
    → has_rule k rs ≡ false
    → has_expected k user version at rs ≡ false
has_expected-has_rule k user version at [] h = refl
has_expected-has_rule k user version at (r ∷ rs) h =
    ground (arith, has_expected-has_rule k user version at rs)

has_rule-advance_rule :
    (j k user : Text) (version expected next : ℕ) (last : Option Text) (status : RuleStatus)
    (rs : List Rule)
    → has_rule j (advance_rule k user version expected next last status rs) ≡ has_rule j rs
unfolding advance_rule
has_rule-advance_rule j k user version expected next last status [] = refl
has_rule-advance_rule j k user version expected next last status (r ∷ rs) =
    ground (arith, has_rule-advance_rule j k user version expected next last status rs)

pub is_newer-advance_rule :
    (k user : Text) (version expected next : ℕ) (last : Option Text) (status : RuleStatus)
    (rs : List Rule)
    → has_distinct_ids rs ≡ true
    → has_expected k user version expected rs ≡ true
    → is_newer k version (advance_rule k user version expected next last status rs) ≡ true
unfolding is_newer advance_rule has_distinct_ids
is_newer-advance_rule k user version expected next last status [] d h = refl
is_newer-advance_rule k user version expected next last status (r ∷ rs) d h =
    elim (Bool-cases (text_eq r.id k)) [
      | inl same ↦
          let only : has_rule k rs ≡ false =
            subst (λ i. has_rule i rs ≡ false) (eq_of_text_eq r.id k same) (ground arith) in
          let none_there =
            is_newer-has_rule k version (advance_rule k user version expected next last status rs)
              (has_rule-advance_rule k k user version expected next last status rs ∙ only) in
          let not_there = has_expected-has_rule k user version expected rs only in ground arith
      | inr differs ↦
          let rest = is_newer-advance_rule k user version expected next last status rs in
          ground arith
    ]

pub has_distinct_ids-Grows :
    (rs xs : List Rule) → Grows rs xs → has_distinct_ids rs ≡ true → has_distinct_ids xs ≡ true
unfolding has_distinct_ids
has_distinct_ids-Grows [] xs ends d = refl
has_distinct_ids-Grows (r ∷ rs) [] g d = elim g [ ]
has_distinct_ids-Grows (r ∷ rs) (x ∷ xs) (keeps same_id same_user grown g) d =
    let absent : has_rule x.id xs ≡ has_rule r.id rs =
      same_rules x.id rs xs g ∙ ap (λ i. has_rule i rs) same_id in
    ground (arith, has_distinct_ids-Grows rs xs g)
  where
    same_rules : (k : Text) (rs xs : List Rule) → Grows rs xs → has_rule k xs ≡ has_rule k rs
    same_rules k [] xs ends = refl
    same_rules k (r ∷ rs) [] g = elim g [ ]
    same_rules k (r ∷ rs) (x ∷ xs) (keeps same_id same_user grown g) =
        ground (arith, same_rules k rs xs g, ap (λ i. text_eq i k) same_id)

-- A rule that is found is found later, with its identifier.
pub get_rule_by_id-Grows :
    (k user : Text) (rs xs : List Rule)
    → Grows rs xs
    → is_some (get_rule_by_id k user rs) ≡ true
    → is_some (get_rule_by_id k user xs) ≡ true
unfolding get_rule_by_id
get_rule_by_id-Grows k user [] xs ends h = h
get_rule_by_id-Grows k user (r ∷ rs) [] g h = elim g [ ]
get_rule_by_id-Grows k user (r ∷ rs) (x ∷ xs) (keeps same_id same_user grown g) h = ground (
  arith,
  get_rule_by_id-Grows k user rs xs g,
  ap (λ i. text_eq i k) same_id,
  ap (λ i. text_eq i user) same_user,
)

pub is_some-get_rule_by_id :
    (k user : Text) (version at : ℕ) (rs : List Rule)
    → has_expected k user version at rs ≡ true
    → is_some (get_rule_by_id k user rs) ≡ true
unfolding get_rule_by_id
is_some-get_rule_by_id k user version at [] h = absurd (ground arith)
is_some-get_rule_by_id k user version at (r ∷ rs) h =
    ground (arith, is_some-get_rule_by_id k user version at rs)

pub get_rule_by_id-is_newer :
    (k user : Text) (version : ℕ) (rs : List Rule) (cur : Rule)
    → is_newer k version rs ≡ true
    → get_rule_by_id k user rs ≡ some cur
    → version < cur.version
unfolding is_newer get_rule_by_id
get_rule_by_id-is_newer k user version [] cur n h = absurd (ground arith)
get_rule_by_id-is_newer k user version (r ∷ rs) cur n h =
    elim (Bool-cases (text_eq r.id k && text_eq r.user_id user)) [
      | inl e ↦
          let here : r ≡ cur =
            some-eq
              (subst (λ b. (if b then some r else get_rule_by_id k user rs) ≡ some cur) e h) in
          subst (λ c. version < c.version) here (ground arith)
      | inr e ↦
          get_rule_by_id-is_newer k user version rs cur (ground arith)
            (subst (λ b. (if b then some r else get_rule_by_id k user rs) ≡ some cur) e h)
    ]
  where
    some-eq : {a b : Rule} → some a ≡ some b → a ≡ b
    some-eq e = ground arith

pub has_rule-get_rule_by_id :
    (k user : Text) (rs : List Rule)
    → is_some (get_rule_by_id k user rs) ≡ true
    → has_rule k rs ≡ true
unfolding get_rule_by_id
has_rule-get_rule_by_id k user [] h = absurd (ground arith)
has_rule-get_rule_by_id k user (r ∷ rs) h = ground (arith, has_rule-get_rule_by_id k user rs)

pub is_newer-Grows :
    (k : Text) (version : ℕ) (rs xs : List Rule)
    → Grows rs xs
    → is_newer k version rs ≡ true
    → is_newer k version xs ≡ true
unfolding is_newer
is_newer-Grows k version [] xs ends n = n
is_newer-Grows k version (r ∷ rs) [] g n = elim g [ ]
is_newer-Grows k version (r ∷ rs) (x ∷ xs) (keeps same_id same_user grown g) n =
    ground (arith, is_newer-Grows k version rs xs g, ap (λ i. text_eq i k) same_id)
