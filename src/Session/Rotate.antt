-- ===== src/Session/Rotate.antt =====
-- `Rotate` of refresh_token_sqlite.go: one refresh token is exchanged for its successor, a retry
-- within the grace time recovers the newest token, and any other replay revokes the session.
use fin_arch.Base.{
  ℕ, zero, suc, ◌+◌, ◌-◌, Bool, false, ◌&&◌, not, Option, none, some, List, ltb, leb, ◌==◌,
  if◌then◌else◌, is_some, Text, text, is_empty, length,
}
use fin_arch.Session.Store.{
  UserRow, SessionRow, TokenRow, Store, Result, ok, err, refresh_token_invalid, refresh_token_reuse,
  chain_too_long, constraint_failed, unix, bytes_of, find_token, find_in_session, revoke_session,
  touch_session, insert_token, Consumption, consume_token, affected, is_live,
}

-- `RefreshTokenSuccessor`
pub record Successor : Type 0 where
  pub id : Text
  pub token_hash : Text
  pub recovery_ciphertext : Text

-- `SessionPrincipal`
pub record Principal : Type 0 where
  pub session_id : Text
  pub user_id : Text
  pub email : Text
  pub username : Text
  pub nickname : Text
  pub role : Text
  pub pwd_version : ℕ
  pub absolute_expires_at : ℕ
  pub refresh_expires_at : ℕ
  pub refresh_generation : ℕ

-- `RefreshTokenRotation`
pub record Rotation : Type 0 where
  pub principal : Principal
  pub successor_hash : Text
  pub recovery_ciphertext : Text

-- `refreshRotationState`: a token joined with its session and its user.
pub record RotationState : Type 0 where
  pub token : TokenRow
  pub session : SessionRow
  pub user : UserRow

unfoldable pub load : Store → Text → Option RotationState
load s h = elim (find_token h s.tokens) [
  | none ↦ none
  | some t ↦ elim (s.sessions t.session_id) [
    | none ↦ none
    | some a ↦ elim (s.users a.user_id) [
      | none ↦ none
      | some u ↦ some (record { token = t; session = a; user = u })
    ]
  ]
]

abbrev username_of : UserRow → Text
username_of u = elim u.username [ none ↦ u.name | some n ↦ n ]

abbrev pub principal_of : RotationState → ℕ → ℕ → Principal
principal_of st expires_at generation = record {
  session_id = st.token.session_id;
  user_id = st.session.user_id;
  email = st.user.email;
  username = username_of st.user;
  nickname = st.user.nickname;
  role = st.user.role;
  pwd_version = st.session.pwd_version;
  absolute_expires_at = st.session.absolute_expires_at;
  refresh_expires_at = expires_at;
  refresh_generation = generation;
}

abbrev pub Outcome : Type 0
Outcome = Result Rotation × Store

-- The session is revoked, which commits, and then the error is returned.
abbrev revoking : Store → RotationState → ℕ → Text → Outcome
revoking s st now reason =
    (err refresh_token_invalid, revoke_session st.token.session_id now reason s)

-- Whether a consumed token may still lead to its successor.
abbrev pub in_grace : ℕ → TokenRow → Bool
in_grace now t =
    elim t.retry_until [ none ↦ false | some until ↦ leb now until ]
    && (length (bytes_of t.replaced_by_hash) == 32)
    && not (is_empty (bytes_of t.recovery_ciphertext))

abbrev pub max_recovery_hops : ℕ
max_recovery_hops = 256

-- How the walk along the successors ends: at an active token, with the hash and the ciphertext
-- that led to it, or with the generation that it expected next.
pub data Recovery : Type 0 where
  recovered : Text → Text → TokenRow → Recovery
  stopped : ℕ → Recovery

-- The loop over the hops.
unfoldable pub follow : ℕ → List TokenRow → Text → ℕ → Text → Text → ℕ → Recovery
follow zero tokens sid now hash cipher expected = stopped expected
follow (suc hops) tokens sid now hash cipher expected = elim (find_in_session hash sid tokens) [
  | none ↦ stopped expected
  | some child ↦
      let next =
        follow hops tokens sid now (bytes_of child.replaced_by_hash)
          (bytes_of child.recovery_ciphertext) (expected + 1) in
      if not (child.generation == expected)
      then stopped expected
      else (if not (is_some child.consumed_at)
          then recovered hash cipher child
          else (if in_grace now child then next else stopped expected))
]

abbrev pub granted : RotationState → Text → Text → ℕ → ℕ → Rotation
granted st hash cipher expires_at generation = record {
  principal = principal_of st expires_at generation;
  successor_hash = hash;
  recovery_ciphertext = cipher;
}

-- The session is revoked for the reuse of a token.
abbrev reused : Store → RotationState → ℕ → Outcome
reused s st now =
    (err refresh_token_reuse, revoke_session st.token.session_id now (text "refresh_reuse") s)

-- What follows from the end of the walk.
unfoldable pub settle : Store → RotationState → ℕ → Recovery → Outcome
settle s st now (recovered hash cipher child) =
    if leb child.expires_at now then revoking s st now (text "refresh_expired") else (
      ok (granted st hash cipher child.expires_at child.generation),
      touch_session st.token.session_id now s,
    )
settle s st now (stopped expected) =
    if ltb max_recovery_hops (expected - st.token.generation)
    then (err chain_too_long, s)
    else reused s st now

-- The walk from the successor of a consumed token.
abbrev pub walk : Store → RotationState → ℕ → Recovery
walk s st now =
    follow max_recovery_hops s.tokens st.token.session_id now (bytes_of st.token.replaced_by_hash)
      (bytes_of st.token.recovery_ciphertext) (st.token.generation + 1)

-- A consumed token is shown again.
unfoldable pub replay : Store → RotationState → ℕ → Outcome
replay s st now = if in_grace now st.token then settle s st now (walk s st now) else reused s st now

-- When the successor of a token expires: after its time to live, and never after the session.
abbrev pub expiry : RotationState → ℕ → ℕ → ℕ
expiry st now ttl =
    let limit = st.session.absolute_expires_at in
    if ltb limit (unix (now + ttl)) then limit else unix (now + ttl)

abbrev pub successor_row : RotationState → Successor → ℕ → ℕ → TokenRow
successor_row st succ expires_at now = record {
  id = succ.id;
  session_id = st.token.session_id;
  token_hash = succ.token_hash;
  generation = st.token.generation + 1;
  expires_at = expires_at;
  consumed_at = none;
  replaced_by_hash = none;
  retry_until = none;
  recovery_ciphertext = none;
  created_at = now;
}

abbrev pub consumption : Successor → ℕ → ℕ → Consumption
consumption succ now grace = record {
  at = unix now;
  successor_hash = succ.token_hash;
  until = unix (now + grace);
  ciphertext = succ.recovery_ciphertext;
}

-- An active token is exchanged for its successor.
unfoldable pub advance : Store → RotationState → Successor → ℕ → ℕ → ℕ → Outcome
advance s st succ now ttl grace =
    let expires_at = expiry st now ttl in
    if leb expires_at (unix now)
    then revoking s st (unix now) (text "absolute_expired")
    else elim (insert_token (successor_row st succ expires_at (unix now)) s.tokens) [
      | none ↦ (err constraint_failed, s)
      | some tokens ↦
          if not (affected st.token.id tokens == 1) then (err refresh_token_invalid, s) else (
            ok (
                granted st succ.token_hash succ.recovery_ciphertext expires_at
                  (st.token.generation + 1)),
            touch_session st.token.session_id (unix now) (record s {
              tokens = consume_token st.token.id (consumption succ now grace) tokens;
            }),
          )
    ]

-- The account may use the session: it is live and its password is that of the login.
abbrev pub has_credentials : RotationState → Bool
has_credentials st = is_live st.user && (st.user.pwd_version == st.session.pwd_version)

unfoldable pub rotate_loaded : Store → RotationState → Successor → ℕ → ℕ → ℕ → Outcome
rotate_loaded s st succ now ttl grace =
    if is_some st.session.revoked_at
    then (err refresh_token_invalid, s)
    else (if not (has_credentials st)
        then revoking s st (unix now) (text "credentials_changed")
        else (if leb st.session.absolute_expires_at (unix now)
            then revoking s st (unix now) (text "absolute_expired")
            else (if is_some st.token.consumed_at
                then replay s st (unix now)
                else (if leb st.token.expires_at (unix now)
                    then revoking s st (unix now) (text "refresh_expired")
                    else advance s st succ now ttl grace))))

-- The checks on the arguments; a duration that is not positive is 0 here.
abbrev pub is_request : Text → Successor → ℕ → ℕ → Bool
is_request old_hash succ ttl grace =
    (length old_hash == 32)
    && not (is_empty succ.id)
    && (length succ.token_hash == 32)
    && not (is_empty succ.recovery_ciphertext)
    && ltb 0 ttl
    && ltb 0 grace

-- `Rotate`
unfoldable pub rotate : Store → Text → Successor → ℕ → ℕ → ℕ → Outcome
rotate s old_hash succ now ttl grace =
    if is_request old_hash succ ttl grace
    then elim (load s old_hash) [
      | none ↦ (err refresh_token_invalid, s)
      | some st ↦ rotate_loaded s st succ now ttl grace
    ]
    else (err refresh_token_invalid, s)
