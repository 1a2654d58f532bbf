-- ===== src/Session/Failure.antt =====
-- What a `Rotate` that fails has done: nothing, or revoked the session of the token.
use fin_arch.Base.{ℕ, ◌≡◌, ◌⊎◌, arith, Text, text}
use fin_arch.Session.Store.{Store, Error, err, unix, revoke_session}
use fin_arch.Session.Rotate.{
  Successor, RotationState, Recovery, recovered, stopped, rotate_loaded, replay, settle, walk,
  advance,
}

-- The tables are the old ones, or the session is revoked for one of four reasons.
abbrev pub Failed : Store → Text → ℕ → Store → Type 0
Failed s sid now s' =
    (s' ≡ s)
    ⊎ ((s' ≡ revoke_session sid now (text "refresh_reuse") s)
        ⊎ ((s' ≡ revoke_session sid now (text "refresh_expired") s)
            ⊎ ((s' ≡ revoke_session sid now (text "absolute_expired") s)
                ⊎ (s' ≡ revoke_session sid now (text "credentials_changed") s))))

settle-Failed :
    (s s' : Store) (st : RotationState) (now : ℕ) (rc : Recovery) (x : Error)
    → settle s st now rc ≡ (err x, s')
    → Failed s st.token.session_id now s'
unfolding settle
settle-Failed s s' st now (recovered h c child) x e = ground arith
settle-Failed s s' st now (stopped g) x e = ground arith

advance-Failed :
    (s s' : Store) (st : RotationState) (succ : Successor) (now ttl grace : ℕ) (x : Error)
    → advance s st succ now ttl grace ≡ (err x, s')
    → Failed s st.token.session_id (unix now) s'
unfolding advance
advance-Failed s s' st succ now ttl grace x e = ground arith

replay-Failed :
    (s s' : Store) (st : RotationState) (now : ℕ) (x : Error)
    → replay s st now ≡ (err x, s')
    → Failed s st.token.session_id now s'
unfolding replay
replay-Failed s s' st now x e = ground (arith, settle-Failed s s' st now (walk s st now) x)

pub rotate_loaded-Failed :
    (s s' : Store) (st : RotationState) (succ : Successor) (now ttl grace : ℕ) (x : Error)
    → rotate_loaded s st succ now ttl grace ≡ (err x, s')
    → Failed s st.token.session_id (unix now) s'
unfolding rotate_loaded
rotate_loaded-Failed s s' st succ now ttl grace x e =
    ground (arith, replay-Failed s s' st (unix now) x, advance-Failed s s' st succ now ttl grace x)
