-- ===== src/Session/Invariant.antt =====
-- What holds of the tables between two calls: every session has exactly one active token, and every
-- token belongs to a session and expires no later than it.
use fin_arch.Base.{
  ℕ, ◌≤◌, ◌≡◌, refl, Bool, Option, none, some, List, [], ◌∷◌, arith, if◌then◌else◌, is_some, Text,
  text_eq, text_eq_iff, All, Option-cases, inl, inr, subst, sym, ◌∙◌, text_eq_self,
}
use fin_arch.Session.Store.{
  SessionRow, TokenRow, Store, unix, find_token, consume_token, Consumption, revoke_session,
  touch_session, adjust, mark_revoked,
}
use fin_arch.Session.Rotate.{RotationState, Successor, rotate, consumption}
use fin_arch.Session.Tokens.{active_count, active_count-consume, conflicts_apart, find_token-hash}
use fin_arch.Session.Changes.{Exchange, Change, same, revoked, touched, exchanged, rotate-Change}

-- The token's session is there and lasts at least as long as the token.
abbrev pub Covers : Option SessionRow → ℕ → Type 0
Covers none e = ⊥
Covers (some a) e = e ≤ a.absolute_expires_at

abbrev pub IsOwned : (Text → Option SessionRow) → TokenRow → Type 0
IsOwned m t = Covers (m t.session_id) t.expires_at

pub record IsStore (s : Store) : Type 0 where
  pub one_active :
      (sid : Text) → active_count sid s.tokens ≡ (if is_some (s.sessions sid) then 1 else 0)
  pub owned : All (IsOwned s.sessions) s.tokens

-- Two session tables with the same keys and the same expiries.
abbrev pub SameSpans : (Text → Option SessionRow) → (Text → Option SessionRow) → Type 0
SameSpans m m' =
    (sid : Text)
    → (is_some (m' sid) ≡ is_some (m sid)) × ((e : ℕ) → Covers (m sid) e → Covers (m' sid) e)

All-IsOwned :
    (m m' : Text → Option SessionRow) (ts : List TokenRow)
    → SameSpans m m'
    → All (IsOwned m) ts
    → All (IsOwned m') ts
All-IsOwned m m' [] h a = tt
All-IsOwned m m' (t ∷ ts) h a = ((h t.session_id).1 t.expires_at a.0, All-IsOwned m m' ts h a.1)

pub spans-IsStore :
    (s : Store) (m : Text → Option SessionRow)
    → SameSpans s.sessions m
    → IsStore s
    → IsStore (record s { sessions = m })
spans-IsStore s m h v = record {
  one_active = λ sid. ground (arith, v.one_active sid, (h sid).0);
  owned = All-IsOwned s.sessions m s.tokens h v.owned;
}

pub adjust-SameSpans :
    (f : SessionRow → SessionRow)
    → ((a : SessionRow) → (f a).absolute_expires_at ≡ a.absolute_expires_at)
    → (m : Text → Option SessionRow) (b : Text → Bool)
    → SameSpans m (λ k. if b k then adjust f (m k) else m k)
adjust-SameSpans f h m b sid = elim (Option-cases (m sid)) [
  | inl missing ↦ (ground arith, λ e c. ground arith)
  | inr (a, found) ↦ (ground arith, λ e c. ground (arith, h a))
]

pub revoke-IsStore :
    (s : Store) (sid : Text) (now : ℕ) (reason : Text)
    → IsStore s
    → IsStore (revoke_session sid now reason s)
unfolding revoke_session
revoke-IsStore s sid now reason v =
    spans-IsStore s _
      (adjust-SameSpans (mark_revoked now reason) (λ a. refl) s.sessions (λ k. text_eq sid k)) v

touch-IsStore : (s : Store) (sid : Text) (now : ℕ) → IsStore s → IsStore (touch_session sid now s)
touch-IsStore s sid now v =
    spans-IsStore s _
      (adjust-SameSpans (λ a. record a { last_used_at = now }) (λ a. refl) s.sessions
        (λ k. text_eq sid k))
      v

consume-IsOwned :
    (m : Text → Option SessionRow) (id : Text) (c : Consumption) (ts : List TokenRow)
    → All (IsOwned m) ts
    → All (IsOwned m) (consume_token id c ts)
unfolding consume_token
consume-IsOwned m id c [] a = tt
consume-IsOwned m id c (t ∷ ts) a = (ground arith, consume-IsOwned m id c ts a.1)

still_found :
    (s : Store) (st : RotationState) (h : Text) (row : TokenRow)
    → Exchange s st h row
    → find_token h (row ∷ s.tokens) ≡ some st.token
unfolding find_token
still_found s st h row x = ground (
  arith,
  conflicts_apart row h s.tokens {r = st.token} x.apart x.found,
  find_token-hash h s.tokens {r = st.token} x.found,
  text_eq_iff h row.token_hash,
  text_eq_iff row.token_hash st.token.token_hash,
)

Exchange-active_count :
    (s : Store) (st : RotationState) (h : Text) (row : TokenRow) (c : Consumption) (sid : Text)
    → Exchange s st h row
    → active_count sid (consume_token st.token.id c (row ∷ s.tokens)) ≡ active_count sid s.tokens
Exchange-active_count s st h row c sid x = ground (
  arith,
  active_count-consume sid st.token.id h c (row ∷ s.tokens) {r = st.token} x.one
      (still_found s st h row x) (ground (arith, x.fresh, text_eq_self st.token.id)),
  x.active,
  x.same_session,
)

Exchange-IsStore :
    (s : Store) (st : RotationState) (h : Text) (row : TokenRow) (c : Consumption)
    → Exchange s st h row
    → IsStore s
    → IsStore (record s { tokens = consume_token st.token.id c (row ∷ s.tokens) })
Exchange-IsStore s st h row c x v = record {
  one_active = λ sid. Exchange-active_count s st h row c sid x ∙ v.one_active sid;
  owned =
      consume-IsOwned s.sessions st.token.id c (row ∷ s.tokens)
        (ground (arith, x.bounded, x.session, x.same_session), v.owned);
}

Change-IsStore : (s s' : Store) → Change s s' → IsStore s → IsStore s'
Change-IsStore s s' (same e) v = subst IsStore (sym e) v
Change-IsStore s s' (revoked sid now reason e) v =
    subst IsStore (sym e) (revoke-IsStore s sid now reason v)
Change-IsStore s s' (touched sid now e) v = subst IsStore (sym e) (touch-IsStore s sid now v)
Change-IsStore s s' (exchanged st h row succ now grace x e) v = subst IsStore (sym e) (
    touch-IsStore _ st.token.session_id (unix now)
      (Exchange-IsStore s st h row (consumption succ now grace) x v))

-- A rotation keeps the tables well formed: each session has exactly one active token, and each
-- token belongs to a session and expires no later than it.
pub rotate-IsStore :
    (s : Store) (h : Text) (succ : Successor) (now ttl grace : ℕ)
    → IsStore s
    → IsStore (rotate s h succ now ttl grace).1
rotate-IsStore s h succ now ttl grace v =
    Change-IsStore s (rotate s h succ now ttl grace).1 (rotate-Change s h succ now ttl grace) v
