-- ===== src/Session/Changes.antt =====
-- The four ways in which `Rotate` changes the tables, and the operations of the repository as one
-- step function.
use fin_arch.Base.{
  ℕ, ◌≤◌, ◌≡◌, refl, ◌⊎◌, inl, inr, false, none, some, List, [], ◌∷◌, arith, Text, text, update,
  Option-cases,
}
use fin_arch.Session.Store.{
  UserRow, SessionRow, TokenRow, Store, ok, err, unix, find_token, consume_token, conflicts,
  affected, revoke_session, touch_session,
}
use fin_arch.Session.Rotate.{
  Outcome, Successor, Rotation, RotationState, load, rotate, rotate_loaded, successor_row, expiry,
  consumption,
}
use fin_arch.Session.Lifecycle.{
  create_session, revoke_by_token_hash, revoke_all_for_user, delete_expired,
}
use fin_arch.Session.Success.{rotate_loaded_success, replay_success, advance_success, load_parts}
use fin_arch.Session.Failure.{Failed, rotate_loaded-Failed}

-- An exchange of the token that `h` finds.
pub record Exchange (s : Store) (st : RotationState) (h : Text) (row : TokenRow) : Type 0 where
  pub found : find_token h s.tokens ≡ some st.token
  pub session : s.sessions st.token.session_id ≡ some st.session
  pub fresh : st.token.consumed_at ≡ none
  pub apart : conflicts row s.tokens ≡ false
  pub one : affected st.token.id (row ∷ s.tokens) ≡ 1
  pub bounded : row.expires_at ≤ st.session.absolute_expires_at
  pub active : row.consumed_at ≡ none
  pub same_session : row.session_id ≡ st.token.session_id

pub data Change (s s' : Store) : Type 0 where
  same : s' ≡ s → Change s s'
  revoked :
      (sid : Text) (now : ℕ) (reason : Text) → s' ≡ revoke_session sid now reason s → Change s s'
  touched : (sid : Text) (now : ℕ) → s' ≡ touch_session sid now s → Change s s'
  exchanged :
      (st : RotationState) (h : Text) (row : TokenRow) (succ : Successor) (now grace : ℕ)
      → Exchange s st h row
      → s'
        ≡ touch_session st.token.session_id (unix now) (record s {
          tokens = consume_token st.token.id (consumption succ now grace) (row ∷ s.tokens);
        })
      → Change s s'

Failed-Change : (s s' : Store) (sid : Text) (now : ℕ) → Failed s sid now s' → Change s s'
Failed-Change s s' sid now (inl e) = same e
Failed-Change s s' sid now (inr (inl e)) = revoked sid now (text "refresh_reuse") e
Failed-Change s s' sid now (inr (inr (inl e))) = revoked sid now (text "refresh_expired") e
Failed-Change s s' sid now (inr (inr (inr (inl e)))) = revoked sid now (text "absolute_expired") e
Failed-Change s s' sid now (inr (inr (inr (inr e)))) =
    revoked sid now (text "credentials_changed") e

expiry-le : (st : RotationState) (now ttl : ℕ) → expiry st now ttl ≤ st.session.absolute_expires_at
expiry-le st now ttl = ground arith

success-Change :
    (s s' : Store) (st : RotationState) (h : Text) (succ : Successor) (now ttl grace : ℕ)
    (r : Rotation)
    → load s h ≡ some st
    → rotate_loaded s st succ now ttl grace ≡ (ok r, s')
    → Change s s'
success-Change s s' st h succ now ttl grace r l e =
    elim ((rotate_loaded_success s s' st succ now ttl grace r e).1) [
      | inl (_, again) ↦
          let (_, (child, (_, _, _, _, se))) = replay_success s s' st (unix now) r again in
          touched st.token.session_id (unix now) se
      | inr (fresh, _, exchange) ↦
          let (_, _, apart, one, _, se) = advance_success s s' st succ now ttl grace r exchange in
          let (found, session, _) = load_parts s h l in
          exchanged st h (successor_row st succ (expiry st now ttl) (unix now)) succ now grace
            (record {
              found = found;
              session = session;
              fresh = fresh;
              apart = apart;
              one = one;
              bounded = expiry-le st now ttl;
              active = refl;
              same_session = refl;
            })
            se
    ]

loaded-Change :
    (s : Store) (st : RotationState) (h : Text) (succ : Successor) (now ttl grace : ℕ)
    → load s h ≡ some st
    → (o : Outcome) → rotate_loaded s st succ now ttl grace ≡ o
    → Change s o.1
loaded-Change s st h succ now ttl grace l (ok r, s') e =
    success-Change s s' st h succ now ttl grace r l e
loaded-Change s st h succ now ttl grace l (err x, s') e =
    Failed-Change s s' st.token.session_id (unix now)
      (rotate_loaded-Failed s s' st succ now ttl grace x e)

rotate_unknown :
    (s : Store) (h : Text) (succ : Successor) (now ttl grace : ℕ)
    → load s h ≡ none
    → (rotate s h succ now ttl grace).1 ≡ s
unfolding rotate
rotate_unknown s h succ now ttl grace l = ground arith

rotate_known :
    (s : Store) (st : RotationState) (h : Text) (succ : Successor) (now ttl grace : ℕ)
    → load s h ≡ some st
    → ((rotate s h succ now ttl grace).1 ≡ s)
      ⊎ ((rotate s h succ now ttl grace).1 ≡ (rotate_loaded s st succ now ttl grace).1)
unfolding rotate
rotate_known s st h succ now ttl grace l = ground arith

-- Every rotation leaves the tables alone, revokes or touches one session, or exchanges one token.
pub rotate-Change :
    (s : Store) (h : Text) (succ : Successor) (now ttl grace : ℕ)
    → Change s (rotate s h succ now ttl grace).1
rotate-Change s h succ now ttl grace = elim (Option-cases (load s h)) [
  | inl l ↦ same (rotate_unknown s h succ now ttl grace l)
  | inr (st, l) ↦ elim (rotate_known s st h succ now ttl grace l) [
    | inl kept ↦ same kept
    | inr run ↦
        rw run
          (loaded-Change s st h succ now ttl grace l (rotate_loaded s st succ now ttl grace) refl)
  ]
]

-- A call of the repository, or a change of a user's row by another part of the program.
pub data Call : Type 0 where
  rotates : Text → Successor → ℕ → ℕ → ℕ → Call
  creates : SessionRow → TokenRow → Call
  revokes : Text → ℕ → Text → Call
  revokes_all : Text → ℕ → Call
  cleans : ℕ → Call
  sets_user : Text → UserRow → Call

unfoldable pub apply : Store → Call → Store
apply s (rotates h succ now ttl grace) = (rotate s h succ now ttl grace).1
apply s (creates a t) = (create_session s a t).1
apply s (revokes hash now reason) = revoke_by_token_hash s hash now reason
apply s (revokes_all user now) = revoke_all_for_user s user now
apply s (cleans now) = delete_expired s now
apply s (sets_user id u) = record s { users = update s.users id u }

unfoldable pub run : Store → List Call → Store
unfolding apply
run s [] = s
run s (c ∷ cs) = run (apply s c) cs
