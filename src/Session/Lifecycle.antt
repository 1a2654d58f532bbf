-- ===== src/Session/Lifecycle.antt =====
-- The other operations of refresh_token_sqlite.go: creating, revoking, validating and cleaning up
-- sessions.
use fin_arch.Base.{
  ℕ, Bool, false, ◌&&◌, not, Option, none, some, ltb, leb, ◌==◌, if◌then◌else◌, is_some, Text, text,
  text_eq, is_empty, length, update, filterb, map,
}
use fin_arch.Session.Store.{
  UserRow, SessionRow, TokenRow, Store, Result, ok, err, session_invalid, constraint_failed, unix,
  find_token, adjust, mark_revoked, revoke_session, insert_token, is_live,
}

-- The checks on the arguments of `CreateSession`.
abbrev pub is_new_login : SessionRow → TokenRow → Bool
is_new_login a t =
    not (is_empty a.id)
    && not (is_empty a.user_id)
    && not (is_empty t.id)
    && text_eq t.session_id a.id
    && (t.generation == 0)
    && (length t.token_hash == 32)
    && ltb a.created_at a.absolute_expires_at
    && ltb t.created_at t.expires_at
    && leb t.expires_at a.absolute_expires_at

-- The rows that `CreateSession` writes: never revoked, and a token that is active.
abbrev pub opened : SessionRow → SessionRow
opened a = record a { revoked_at = none; revoke_reason = none }

abbrev pub active : TokenRow → TokenRow
active t = record t {
  consumed_at = none;
  replaced_by_hash = none;
  retry_until = none;
  recovery_ciphertext = none;
}

abbrev owner_ok : Option UserRow → SessionRow → Bool
owner_ok none a = false
owner_ok (some u) a = is_live u && (u.pwd_version == a.pwd_version)

-- `CreateSession`, for rows whose times are given in Unix seconds.
unfoldable pub create_session : Store → SessionRow → TokenRow → Result (Unit {0}) × Store
create_session s a t =
    if not (is_new_login a t)
    then (err session_invalid, s)
    else (if not (owner_ok (s.users a.user_id) a)
        then (err session_invalid, s)
        else (if is_some (s.sessions a.id)
            then (err constraint_failed, s)
            else elim (insert_token (active t) s.tokens) [
              | none ↦ (err constraint_failed, s)
              | some tokens ↦ (
                ok tt,
                record s { sessions = update s.sessions a.id (opened a); tokens = tokens },
              )
            ]))

-- `RevokeByTokenHash`
unfoldable pub revoke_by_token_hash : Store → Text → ℕ → Text → Store
revoke_by_token_hash s hash now reason =
    if not (length hash == 32) then s else elim (find_token hash s.tokens) [
      | none ↦ s
      | some t ↦
          revoke_session t.session_id (unix now) (if is_empty reason then text "logout" else reason)
            s
    ]

-- `RevokeAllForUser`
unfoldable pub revoke_all_for_user : Store → Text → ℕ → Store
revoke_all_for_user s user now = record s { sessions = λ k. adjust revoke_own (s.sessions k) }
  where
    revoke_own : SessionRow → SessionRow
    revoke_own a =
        if text_eq user a.user_id then mark_revoked (unix now) (text "credentials_changed") a else a

-- `ValidateSession`
unfoldable pub validate_session : Store → Text → Text → ℕ → ℕ → Result (Unit {0})
validate_session s sid user pwd now = elim (s.sessions sid) [
  | none ↦ err session_invalid
  | some a ↦ elim (s.users a.user_id) [
    | none ↦ err session_invalid
    | some u ↦
        if text_eq a.user_id user
          && (a.pwd_version == pwd)
          && (u.pwd_version == a.pwd_version)
          && not (is_some a.revoked_at)
          && ltb (unix now) a.absolute_expires_at
          && is_live u
        then ok tt
        else err session_invalid
  ]
]

abbrev pub clear_recovery : ℕ → TokenRow → TokenRow
clear_recovery now t = elim t.retry_until [
  | none ↦ t
  | some until ↦ if ltb until now then record t { recovery_ciphertext = none } else t
]

abbrev pub is_expired : ℕ → Option SessionRow → Bool
is_expired now none = false
is_expired now (some a) = leb a.absolute_expires_at now

-- `DeleteExpired`: the tokens of a deleted session go with it.
unfoldable pub delete_expired : Store → ℕ → Store
delete_expired s now = record s {
  sessions = λ k. if is_expired (unix now) (s.sessions k) then none else s.sessions k;
  tokens =
      filterb (λ t. not (is_expired (unix now) (s.sessions t.session_id)))
        (map (clear_recovery (unix now)) s.tokens);
}
