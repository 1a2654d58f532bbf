-- ===== src/Session/Revocation.antt =====
-- A revoked session stays revoked: it validates no access, and none of its tokens rotates.
use fin_arch.Base.{
  ℕ, ◌≡◌, ◌≢◌, Option, none, some, List, [], ◌∷◌, arith, Text, text_eq_iff, All, inl, inr,
}
use fin_arch.Session.Store.{SessionRow, Store, ok, err, session_invalid, unix, revoke_session}
use fin_arch.Session.Rotate.{Successor, Rotation, rotate}
use fin_arch.Session.Lifecycle.{
  create_session, revoke_all_for_user, delete_expired, validate_session,
}
use fin_arch.Session.Changes.{
  Change, same, revoked, touched, exchanged, rotate-Change, Call, rotates, creates, revokes,
  revokes_all, cleans, sets_user, apply, run,
}
use fin_arch.Session.Success.{load_parts, rotate_success_lem}
use fin_arch.Session.Reachable.{revoke_cases}

-- The session is revoked since `at`, or its row is gone.
abbrev pub IsRevoked : ℕ → Option SessionRow → Type 0
IsRevoked at none = Unit
IsRevoked at (some a) = a.revoked_at ≡ some at

-- The call is no login that takes the session's identifier again.
abbrev pub NotRecreated : Text → Call → Type 0
NotRecreated sid (rotates h succ now ttl grace) = Unit
NotRecreated sid (creates a t) = a.id ≢ sid
NotRecreated sid (revokes hash now reason) = Unit
NotRecreated sid (revokes_all user now) = Unit
NotRecreated sid (cleans now) = Unit
NotRecreated sid (sets_user id u) = Unit

module _ (sid : Text) (at : ℕ) where
  revoke-IsRevoked :
      (s : Store) (k : Text) (now : ℕ) (reason : Text)
      → IsRevoked at (s.sessions sid)
      → IsRevoked at ((revoke_session k now reason s).sessions sid)
  unfolding revoke_session
  revoke-IsRevoked s k now reason h = ground arith

  Change-IsRevoked :
      (s s' : Store) → Change s s' → IsRevoked at (s.sessions sid) → IsRevoked at (s'.sessions sid)
  Change-IsRevoked s s' (same e) h = rw e h
  Change-IsRevoked s s' (revoked k now reason e) h = rw e (revoke-IsRevoked s k now reason h)
  Change-IsRevoked s s' (touched k now e) h = rw e (ground arith)
  Change-IsRevoked s s' (exchanged st k row succ now grace x e) h = rw e (ground arith)

  apply-IsRevoked :
      (s : Store) (c : Call)
      → NotRecreated sid c
      → IsRevoked at (s.sessions sid)
      → IsRevoked at ((apply s c).sessions sid)
  unfolding apply create_session revoke_all_for_user delete_expired
  apply-IsRevoked s (rotates k succ now ttl grace) n h =
      Change-IsRevoked s _ (rotate-Change s k succ now ttl grace) h
  apply-IsRevoked s (creates a t) n h = ground (arith, text_eq_iff a.id sid)
  apply-IsRevoked s (revokes hash now reason) n h = elim (revoke_cases s hash now reason) [
    | inl kept ↦ rw kept h
    | inr (t, _, e) ↦ rw e (revoke-IsRevoked s t.session_id (unix now) _ h)
  ]
  apply-IsRevoked s (revokes_all user now) n h = ground arith
  apply-IsRevoked s (cleans now) n h = ground arith
  apply-IsRevoked s (sets_user id u) n h = h

  run-IsRevoked :
      (s : Store) (cs : List Call)
      → All (NotRecreated sid) cs
      → IsRevoked at (s.sessions sid)
      → IsRevoked at ((run s cs).sessions sid)
  unfolding run
  run-IsRevoked s [] n h = h
  run-IsRevoked s (c ∷ cs) n h = run-IsRevoked (apply s c) cs n.1 (apply-IsRevoked s c n.0 h)

  IsRevoked-validate :
      (s : Store) (user : Text) (pwd now : ℕ)
      → IsRevoked at (s.sessions sid)
      → validate_session s sid user pwd now ≡ err session_invalid
  unfolding validate_session
  IsRevoked-validate s user pwd now h = ground arith

  IsRevoked-rotate :
      (s s' : Store) (h : Text) (succ : Successor) (now ttl grace : ℕ) (r : Rotation)
      → IsRevoked at (s.sessions sid)
      → r.principal.session_id ≡ sid
      → rotate s h succ now ttl grace ≢ (ok r, s')
  IsRevoked-rotate s s' h succ now ttl grace r v own e =
      let ((st, loaded, usable, id, _), _, _) = rotate_success_lem s s' h succ now ttl grace r e in
      let (_, session, _) = load_parts s h loaded in
      let at_sid : s.sessions sid ≡ some st.session = ground (arith, own, id, session) in
      absurd (ground (arith, usable.not_revoked, at_sid, v))

-- Once a session is revoked, then after any calls none of which is a login under its identifier,
-- it validates no access, whoever asks and when, and no rotation grants a token of it.
pub revoked_forever :
    (s : Store) (a : SessionRow) (sid : Text) (at : ℕ) (cs : List Call)
    → s.sessions sid ≡ some a
    → a.revoked_at ≡ some at
    → All (NotRecreated sid) cs
    → ((user : Text) (pwd now : ℕ)
        → validate_session (run s cs) sid user pwd now ≡ err session_invalid)
      × ((s' : Store) (h : Text) (succ : Successor) (now ttl grace : ℕ) (r : Rotation)
          → r.principal.session_id ≡ sid
          → rotate (run s cs) h succ now ttl grace ≢ (ok r, s'))
revoked_forever s a sid at cs found dead n =
    let later = run-IsRevoked sid at s cs n (ground arith) in
    (
      λ user pwd now. IsRevoked-validate sid at (run s cs) user pwd now later,
      λ s' h succ now ttl grace r own.
          IsRevoked-rotate sid at (run s cs) s' h succ now ttl grace r later own,
    )
