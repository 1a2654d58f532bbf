-- ===== src/Session/Tokens.antt =====
-- Lemmas on the list of refresh tokens: lookups, insertion and consumption.
use fin_arch.Base.{
  ℕ, ◌+◌, ◌<◌, ◌≡◌, refl, true, false, ◌&&◌, not, Option, none, some, List, [], ◌∷◌, arith,
  if◌then◌else◌, is_some, Text, text_eq, text_eq_iff, All, Bool-cases, inl, inr, subst,
}
use fin_arch.Session.Store.{
  TokenRow, has_hash, find_token, find_in_session, conflicts, Consumption, consume, is_fresh,
  consume_token, affected,
}

-- The active tokens of a session.
abbrev pub active_count : Text → List TokenRow → ℕ
active_count sid [] = 0
active_count sid (r ∷ rs) =
    (if text_eq sid r.session_id && not (is_some r.consumed_at) then 1 else 0) + active_count sid rs

abbrev pub consumed_if : Text → Consumption → TokenRow → TokenRow
consumed_if id c r = if is_fresh id r then consume c r else r

abbrev pub on_row : (TokenRow → TokenRow) → Option TokenRow → Option TokenRow
on_row f none = none
on_row f (some r) = some (f r)

pub find_token-All {κ} :
    (P : TokenRow → Type κ) (h : Text) (rs : List TokenRow) {r : TokenRow}
    → All P rs
    → find_token h rs ≡ some r
    → P r
unfolding find_token
find_token-All P h [] a e = absurd (ground arith)
find_token-All P h (x ∷ rs) {r} a e = elim (Bool-cases (has_hash h x)) [
  | inl hit ↦ let same : x ≡ r = ground (arith, e, hit) in subst P same a.0
  | inr miss ↦ find_token-All P h rs a.1 (rw miss at e)
]

pub find_token-hash :
    (h : Text) (rs : List TokenRow) {r : TokenRow} → find_token h rs ≡ some r → h ≡ r.token_hash
unfolding find_token
find_token-hash h [] e = absurd (ground arith)
find_token-hash h (x ∷ rs) {r} e =
    ground (arith, text_eq_iff h x.token_hash, find_token-hash h rs {r = r})

pub find_in_session-All {κ} :
    (P : TokenRow → Type κ) (h s : Text) (rs : List TokenRow) {r : TokenRow}
    → All P rs
    → find_in_session h s rs ≡ some r
    → P r
unfolding find_in_session
find_in_session-All P h s [] a e = absurd (ground arith)
find_in_session-All P h s (x ∷ rs) {r} a e =
    elim (Bool-cases (has_hash h x && text_eq s x.session_id)) [
      | inl hit ↦ let same : x ≡ r = ground (arith, e, hit) in subst P same a.0
      | inr miss ↦ find_in_session-All P h s rs a.1 (rw miss at e)
    ]

pub find_in_session-session :
    (h s : Text) (rs : List TokenRow) {r : TokenRow}
    → find_in_session h s rs ≡ some r
    → (h ≡ r.token_hash) × (s ≡ r.session_id)
unfolding find_in_session
find_in_session-session h s [] e = absurd (ground arith)
find_in_session-session h s (x ∷ rs) {r} e = ground (
  arith,
  text_eq_iff h x.token_hash,
  text_eq_iff s x.session_id,
  find_in_session-session h s rs {r = r},
)

-- Consumption keeps the columns that rows are looked up by.
pub find_token-consume :
    (h id : Text) (c : Consumption) (rs : List TokenRow)
    → find_token h (consume_token id c rs) ≡ on_row (consumed_if id c) (find_token h rs)
unfolding find_token consume_token
find_token-consume h id c [] = refl
find_token-consume h id c (x ∷ rs) = ground (arith, find_token-consume h id c rs)

pub find_in_session-consume :
    (h s id : Text) (c : Consumption) (rs : List TokenRow)
    → find_in_session h s (consume_token id c rs)
      ≡ on_row (consumed_if id c) (find_in_session h s rs)
unfolding find_in_session consume_token
find_in_session-consume h s id c [] = refl
find_in_session-consume h s id c (x ∷ rs) = ground (arith, find_in_session-consume h s id c rs)

-- A row that breaks no constraint has another primary key and another hash than every row.
pub conflicts_apart :
    (t : TokenRow) (h : Text) (rs : List TokenRow) {r : TokenRow}
    → conflicts t rs ≡ false
    → find_token h rs ≡ some r
    → (text_eq t.id r.id ≡ false) × (text_eq t.token_hash r.token_hash ≡ false)
unfolding find_token conflicts
conflicts_apart t h [] n e = absurd (ground arith)
conflicts_apart t h (x ∷ rs) {r} n e = ground (arith, conflicts_apart t h rs {r = r})

pub affected-zero :
    (id : Text) (c : Consumption) (rs : List TokenRow)
    → affected id rs ≡ 0
    → consume_token id c rs ≡ rs
unfolding affected consume_token
affected-zero id c [] e = refl
affected-zero id c (x ∷ rs) e = ground (arith, affected-zero id c rs)

affected-pos :
    (id h : Text) (rs : List TokenRow) {r : TokenRow}
    → find_token h rs ≡ some r
    → is_fresh id r ≡ true
    → 0 < affected id rs
unfolding affected find_token
affected-pos id h [] e f = absurd (ground arith)
affected-pos id h (x ∷ rs) {r} e f = ground (arith, affected-pos id h rs {r = r})

-- Consuming the one fresh row of a key takes one active token from its session, and from no other.
pub active_count-consume :
    (sid id h : Text) (c : Consumption) (rs : List TokenRow) {r : TokenRow}
    → affected id rs ≡ 1
    → find_token h rs ≡ some r
    → is_fresh id r ≡ true
    → active_count sid (consume_token id c rs) + (if text_eq sid r.session_id then 1 else 0)
      ≡ active_count sid rs
unfolding affected find_token consume_token
active_count-consume sid id h c [] a e f = absurd (ground arith)
active_count-consume sid id h c (x ∷ rs) {r} a e f = ground (
  arith,
  affected-zero id c rs,
  affected-pos id h rs {r = r},
  active_count-consume sid id h c rs {r = r},
)
