-- ===== src/Session/Access.antt =====
-- Which accesses `ValidateSession` admits after the other operations.
use fin_arch.Base.{
  ℕ, ◌≤◌, ◌<◌, ◌≡◌, some, arith, if◌then◌else◌, Text, text_eq, text_eq_iff, text_eq_self,
  Option-cases, inl, inr,
}
use fin_arch.Session.Store.{
  SessionRow, TokenRow, Store, ok, err, session_invalid, unix, insert_token, find_token,
}
use fin_arch.Session.Lifecycle.{
  create_session, revoke_all_for_user, delete_expired, validate_session, active,
}

-- A login that succeeds opens a session that admits its account, with the password version of the
-- login, until the absolute expiry, and its first token is active and is found by its hash.
pub login_admits :
    (s s' : Store) (a : SessionRow) (t : TokenRow) (now : ℕ)
    → create_session s a t ≡ (ok tt, s')
    → unix now < a.absolute_expires_at
    → (validate_session s' a.id a.user_id a.pwd_version now ≡ ok tt)
      × (find_token t.token_hash s'.tokens ≡ some (active t))
unfolding create_session validate_session insert_token find_token
login_admits s s' a t now e before =
    ground (arith, text_eq_self a.id, text_eq_self a.user_id, text_eq_self t.token_hash)

-- A cleanup that is not later than an access changes nothing for it.
pub delete_expired-validate :
    (s : Store) (sid user : Text) (pwd cleaned now : ℕ)
    → cleaned ≤ now
    → validate_session (delete_expired s cleaned) sid user pwd now
      ≡ validate_session s sid user pwd now
unfolding validate_session delete_expired
delete_expired-validate s sid user pwd cleaned now le = ground arith

-- Revoking all sessions of a user refuses every access of that user, and leaves unchanged what
-- other users are answered.
pub revoke_all-validate :
    (s : Store) (sid user other : Text) (pwd revoked_at now : ℕ)
    → validate_session (revoke_all_for_user s user revoked_at) sid other pwd now
      ≡ (if text_eq user other then err session_invalid else validate_session s sid other pwd now)
unfolding validate_session revoke_all_for_user
revoke_all-validate s sid user other pwd revoked_at now = elim (Option-cases (s.sessions sid)) [
  | inl missing ↦ ground arith
  | inr (a, found) ↦
      ground
        (arith, text_eq_iff user a.user_id, text_eq_iff a.user_id other, text_eq_iff user other)
]
