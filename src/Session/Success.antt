-- ===== src/Session/Success.antt =====
-- What a successful `Rotate` says: of the session, and of how the answer was found.
use fin_arch.Base.{
  ℕ, zero, suc, ◌+◌, ◌<◌, ◌≡◌, refl, ◌⊎◌, inl, inr, true, false, none, some, List, ◌∷◌, arith,
  is_some, Text, text_eq_iff, Option-cases, Bool-cases, text_eq_self,
}
use fin_arch.Session.Store.{
  TokenRow, Store, ok, unix, find_token, find_in_session, insert_token, conflicts, consume_token,
  affected, touch_session, bytes_of,
}
use fin_arch.Session.Tokens.{conflicts_apart}
use fin_arch.Session.Rotate.{
  Successor, Rotation, RotationState, Recovery, recovered, stopped, walk, settle, load, rotate,
  rotate_loaded, replay, advance, follow, has_credentials, in_grace, successor_row,
  max_recovery_hops, expiry, consumption, granted, is_request,
}

-- The session of a token may be used at a time: not revoked, with the password of the login, and
-- before its absolute expiry.
pub record IsUsable (st : RotationState) (now : ℕ) : Type 0 where
  pub not_revoked : st.session.revoked_at ≡ none
  pub credentials : has_credentials st ≡ true
  pub before_end : now < st.session.absolute_expires_at

pub rotate_loaded_success :
    (s s' : Store) (st : RotationState) (succ : Successor) (now ttl grace : ℕ) (r : Rotation)
    → rotate_loaded s st succ now ttl grace ≡ (ok r, s')
    → IsUsable st (unix now)
      × (((is_some st.token.consumed_at ≡ true) × (replay s st (unix now) ≡ (ok r, s')))
          ⊎ ((st.token.consumed_at ≡ none)
              × (unix now < st.token.expires_at)
              × (advance s st succ now ttl grace ≡ (ok r, s'))))
unfolding rotate_loaded
rotate_loaded_success s s' st succ now ttl grace r e = ground arith

pub load_parts :
    (s : Store) (h : Text) {st : RotationState}
    → load s h ≡ some st
    → (find_token h s.tokens ≡ some st.token)
      × (s.sessions st.token.session_id ≡ some st.session)
      × (s.users st.session.user_id ≡ some st.user)
unfolding load
load_parts s h e = ground arith

pub rotate_success :
    (s s' : Store) (h : Text) (succ : Successor) (now ttl grace : ℕ) (r : Rotation)
    → rotate s h succ now ttl grace ≡ (ok r, s')
    → (is_request h succ ttl grace ≡ true)
      × ((st : RotationState) × (load s h ≡ some st)
          × (rotate_loaded s st succ now ttl grace ≡ (ok r, s')))
unfolding rotate
rotate_success s s' h succ now ttl grace r e = ground arith

-- The tables and the answer after an exchange.
pub advance_success :
    (s s' : Store) (st : RotationState) (succ : Successor) (now ttl grace : ℕ) (r : Rotation)
    → advance s st succ now ttl grace ≡ (ok r, s')
    → let expires_at = expiry st now ttl in
      let row = successor_row st succ expires_at (unix now) in
      (unix now < expires_at)
      × (insert_token row s.tokens ≡ some (row ∷ s.tokens))
      × (conflicts row s.tokens ≡ false)
      × (affected st.token.id (row ∷ s.tokens) ≡ 1)
      × (r
          ≡ granted st succ.token_hash succ.recovery_ciphertext expires_at
              (st.token.generation + 1))
      × (s'
          ≡ touch_session st.token.session_id (unix now) (record s {
            tokens = consume_token st.token.id (consumption succ now grace) (row ∷ s.tokens);
          }))
unfolding advance insert_token
advance_success s s' st succ now ttl grace r e = ground arith

-- The walk along the successors ends at an active token of the session, under its hash.
follow_found :
    (hops : ℕ) (tokens : List TokenRow) (sid : Text) (now : ℕ) (h c : Text) (g : ℕ) (h' c' : Text)
    (child : TokenRow)
    → follow hops tokens sid now h c g ≡ recovered h' c' child
    → (find_in_session h' sid tokens ≡ some child) × (child.consumed_at ≡ none)
unfolding follow
follow_found zero tokens sid now h c g h' c' child e = absurd (ground arith)
follow_found (suc hops) tokens sid now h c g h' c' child e =
    elim (Option-cases (find_in_session h sid tokens)) [
      | inl missing ↦ absurd (ground arith)
      | inr (t, found) ↦ ground (
        arith,
        follow_found hops tokens sid now (bytes_of t.replaced_by_hash)
            (bytes_of t.recovery_ciphertext) (g + 1) h' c' child,
      )
    ]

abbrev pub Recovers : Store → Store → RotationState → ℕ → Rotation → TokenRow → Type 0
Recovers s s' st now r child =
    (find_in_session r.successor_hash st.token.session_id s.tokens ≡ some child)
    × (child.consumed_at ≡ none)
    × (now < child.expires_at)
    × (r ≡ granted st r.successor_hash r.recovery_ciphertext child.expires_at child.generation)
    × (s' ≡ touch_session st.token.session_id now s)

settle_success :
    (s s' : Store) (st : RotationState) (now : ℕ) (r : Rotation) (rc : Recovery)
    → walk s st now ≡ rc
    → settle s st now rc ≡ (ok r, s')
    → (child : TokenRow) × Recovers s s' st now r child
unfolding settle
settle_success s s' st now r (recovered h c child) w e =
    let found = follow_found max_recovery_hops s.tokens st.token.session_id now _ _ _ h c child w in
    (child, (ground (arith, found), found.1, ground arith, ground arith, ground arith))
settle_success s s' st now r (stopped g) w e = absurd (ground arith)

pub replay_success :
    (s s' : Store) (st : RotationState) (now : ℕ) (r : Rotation)
    → replay s st now ≡ (ok r, s')
    → (in_grace now st.token ≡ true) × ((child : TokenRow) × Recovers s s' st now r child)
unfolding replay
replay_success s s' st now r e = elim (Bool-cases (in_grace now st.token)) [
  | inl open_yet ↦ (open_yet, settle_success s s' st now r (walk s st now) refl (rw open_yet at e))
  | inr closed ↦ absurd (ground arith)
]

-- The token that an answer names is active in the tables after it, under the answer's hash, in the
-- session of the answer, with the expiry and the generation of the answer.
abbrev pub Names : Store → Rotation → Type 0
Names s r =
    (t : TokenRow) × (find_in_session r.successor_hash r.principal.session_id s.tokens ≡ some t)
    × (t.consumed_at ≡ none)
    × (t.expires_at ≡ r.principal.refresh_expires_at)
    × (t.generation ≡ r.principal.refresh_generation)

advance-Names :
    (s s' : Store) (st : RotationState) (h : Text) (succ : Successor) (now ttl grace : ℕ)
    (r : Rotation)
    → find_token h s.tokens ≡ some st.token
    → advance s st succ now ttl grace ≡ (ok r, s')
    → Names s' r
unfolding consume_token find_in_session
advance-Names s s' st h succ now ttl grace r found e =
    let (_, _, apart, _, re, se) = advance_success s s' st succ now ttl grace r e in
    let row = successor_row st succ (expiry st now ttl) (unix now) in
    let other = conflicts_apart row h s.tokens {r = st.token} apart found in
    (
      row,
      ground (
        arith,
        other,
        text_eq_iff st.token.id succ.id,
        text_eq_iff succ.id st.token.id,
        text_eq_self succ.token_hash,
        text_eq_self st.token.session_id,
      ),
      refl,
      ground arith,
      ground arith,
    )

-- A rotation that succeeds belongs to a session that may be used: it is not revoked, its account is
-- live and has the password of the login, and it has not reached its absolute expiry. The answer
-- names an active token of that session, which expires later than now, and the tables hold it.
pub rotate_success_lem :
    (s s' : Store) (h : Text) (succ : Successor) (now ttl grace : ℕ) (r : Rotation)
    → rotate s h succ now ttl grace ≡ (ok r, s')
    → ((st : RotationState) × (load s h ≡ some st)
        × IsUsable st (unix now)
        × (r.principal.session_id ≡ st.token.session_id)
        × (r.principal.user_id ≡ st.session.user_id))
      × (unix now < r.principal.refresh_expires_at)
      × Names s' r
rotate_success_lem s s' h succ now ttl grace r e =
    let (_, (st, loaded, run)) = rotate_success s s' h succ now ttl grace r e in
    let (usable, path) = rotate_loaded_success s s' st succ now ttl grace r run in
    elim path [
      | inl (_, again) ↦
          let (_, (child, (found, fresh, later, re, se))) =
            replay_success s s' st (unix now) r again in
          (
            (st, loaded, usable, ground arith, ground arith),
            ground arith,
            (child, ground arith, fresh, ground arith, ground arith),
          )
      | inr (_, _, exchange) ↦
          let (later, _, _, _, re, _) = advance_success s s' st succ now ttl grace r exchange in
          (
            (st, loaded, usable, ground arith, ground arith),
            ground arith,
            advance-Names s s' st h succ now ttl grace r (load_parts s h loaded).0 exchange,
          )
    ]
