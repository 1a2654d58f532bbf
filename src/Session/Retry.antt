-- ===== src/Session/Retry.antt =====
-- A lost response: the same token shown again within the grace time gets the same answer.
use fin_arch.Base.{
  ℕ, suc, ◌+◌, ◌≤◌, ◌<◌, ◌≡◌, refl, true, false, none, some, List, ◌∷◌, arith, Text, text_eq_iff,
  text_eq_self, length, is_empty, inl, inr, text, sym, ap, ◌∙◌,
}
use fin_arch.Session.Store.{
  TokenRow, Store, ok, err, unix, find_token, find_in_session, consume, consume_token,
  touch_session, refresh_token_reuse, conflicts, revoke_session,
}
use fin_arch.Session.Rotate.{
  Outcome, Successor, Rotation, RotationState, recovered, load, rotate, rotate_loaded, replay,
  settle, walk, advance, follow, successor_row, expiry, consumption, granted, is_request,
}
use fin_arch.Session.Tokens.{conflicts_apart, find_token-consume, find_token-hash}
use fin_arch.Session.Success.{
  IsUsable, rotate_success, rotate_loaded_success, advance_success, load_parts,
}

-- The state that a used token is loaded with after its exchange.
abbrev after : RotationState → Successor → ℕ → ℕ → RotationState
after st succ now grace = record {
  token = consume (consumption succ now grace) st.token;
  session = record st.session { last_used_at = unix now };
  user = st.user;
}

follow_active :
    (hops : ℕ) (tokens : List TokenRow) (sid : Text) (now : ℕ) (h c : Text) (g : ℕ)
    (child : TokenRow)
    → find_in_session h sid tokens ≡ some child
    → child.generation ≡ g
    → child.consumed_at ≡ none
    → follow (suc hops) tokens sid now h c g ≡ recovered h c child
unfolding follow
follow_active hops tokens sid now h c g child found same fresh = ground arith

module _ (s : Store) (st : RotationState) (h : Text) (succ : Successor) (now ttl grace : ℕ)
    (found : find_token h s.tokens ≡ some st.token) (fresh : st.token.consumed_at ≡ none) where
  abbrev row : TokenRow
  row = successor_row st succ (expiry st now ttl) (unix now)

  -- The tables after the exchange.
  abbrev exchanged : Store
  exchanged = touch_session st.token.session_id (unix now) (record s {
    tokens = consume_token st.token.id (consumption succ now grace) (row ∷ s.tokens);
  })

  used_token :
      conflicts row s.tokens ≡ false
      → find_token h exchanged.tokens ≡ some (consume (consumption succ now grace) st.token)
  unfolding find_token
  used_token apart =
      let other = conflicts_apart row h s.tokens {r = st.token} apart found in
      let same = find_token-hash h s.tokens {r = st.token} found in
      rw (find_token-consume h st.token.id (consumption succ now grace) (row ∷ s.tokens)) (
        ground (
          arith,
          other,
          same,
          text_eq_self st.token.id,
          text_eq_iff h succ.token_hash,
          text_eq_iff succ.token_hash st.token.token_hash,
        ))

  new_token :
      conflicts row s.tokens ≡ false
      → find_in_session succ.token_hash st.token.session_id exchanged.tokens ≡ some row
  unfolding find_in_session consume_token
  new_token apart =
      let other = conflicts_apart row h s.tokens {r = st.token} apart found in
      ground (
        arith,
        other,
        text_eq_iff st.token.id succ.id,
        text_eq_iff succ.id st.token.id,
        text_eq_self succ.token_hash,
        text_eq_self st.token.session_id,
      )

  load-exchanged :
      conflicts row s.tokens ≡ false
      → load s h ≡ some st
      → load exchanged h ≡ some (after st succ now grace)
  unfolding load
  load-exchanged apart l = ground (
    arith,
    used_token apart,
    (load_parts s h l).1,
    (load_parts s h l).2,
    text_eq_self st.token.session_id,
  )

  -- The walk from the used token ends at once, at its successor.
  walk-exchanged :
      (later : ℕ)
      → conflicts row s.tokens ≡ false
      → walk exchanged (after st succ now grace) later
        ≡ recovered succ.token_hash succ.recovery_ciphertext row
  walk-exchanged later apart =
      follow_active 255 exchanged.tokens st.token.session_id later succ.token_hash
        succ.recovery_ciphertext (st.token.generation + 1) row (new_token apart) refl refl

  again :
      (succ' : Successor) (later ttl' grace' : ℕ)
      → IsUsable st (unix later)
      → rotate_loaded exchanged (after st succ now grace) succ' later ttl' grace'
        ≡ replay exchanged (after st succ now grace) (unix later)
  unfolding rotate_loaded
  again succ' later ttl' grace' usable = ground arith

  retried :
      (later : ℕ)
      → conflicts row s.tokens ≡ false
      → length succ.token_hash ≡ 32
      → is_empty succ.recovery_ciphertext ≡ false
      → unix later ≤ unix (now + grace)
      → unix later < expiry st now ttl
      → (replay exchanged (after st succ now grace) (unix later)).0
        ≡ ok (
            granted st succ.token_hash succ.recovery_ciphertext
              (expiry st now ttl)
              (st.token.generation + 1))
  unfolding replay settle
  retried later apart hash cipher within before =
      rw (walk-exchanged (unix later) apart) (ground arith)

  refused :
      (later : ℕ)
      → unix (now + grace) < unix later
      → replay exchanged (after st succ now grace) (unix later) ≡ (
        err refresh_token_reuse,
        revoke_session st.token.session_id (unix later) (text "refresh_reuse") exchanged,
      )
  unfolding replay
  refused later after_grace = ground arith

rotate_at :
    (s : Store) (st : RotationState) (h : Text) (succ : Successor) (now ttl grace : ℕ)
    → is_request h succ ttl grace ≡ true
    → load s h ≡ some st
    → rotate s h succ now ttl grace ≡ rotate_loaded s st succ now ttl grace
unfolding rotate
rotate_at s st h succ now ttl grace request l = ground arith

well_formed :
    (h : Text) (succ : Successor) (ttl grace : ℕ)
    → is_request h succ ttl grace ≡ true
    → (length succ.token_hash ≡ 32) × (is_empty succ.recovery_ciphertext ≡ false)
well_formed h succ ttl grace request = ground arith

-- A rotation of an active token that succeeds is an exchange.
exchange :
    (s s' : Store) (st : RotationState) (h : Text) (succ : Successor) (now ttl grace : ℕ)
    (r : Rotation)
    → rotate s h succ now ttl grace ≡ (ok r, s')
    → load s h ≡ some st
    → st.token.consumed_at ≡ none
    → (is_request h succ ttl grace ≡ true)
      × IsUsable st (unix now)
      × (advance s st succ now ttl grace ≡ (ok r, s'))
exchange s s' st h succ now ttl grace r e l fresh =
    let (request, _) = rotate_success s s' h succ now ttl grace r e in
    let run = sym (rotate_at s st h succ now ttl grace request l) ∙ e in
    let (usable, path) = rotate_loaded_success s s' st succ now ttl grace r run in
    elim path [
      | inl (used, _) ↦ absurd (ground (arith, used, fresh))
      | inr (_, _, a) ↦ (request, usable, a)
    ]

module _ (s s' : Store) (h : Text) (succ succ' : Successor) (now ttl grace : ℕ) (r : Rotation) where
  -- A token that is active is exchanged. If it is shown again within the grace time, in any further
  -- request that is well formed, before the new token expires, the answer is the same one: the same
  -- successor, under the same ciphertext, expiry and generation.
  pub retry_same :
      (st : RotationState) (later ttl' grace' : ℕ)
      → rotate s h succ now ttl grace ≡ (ok r, s')
      → load s h ≡ some st
      → st.token.consumed_at ≡ none
      → is_request h succ' ttl' grace' ≡ true
      → unix later ≤ unix (now + grace)
      → unix later < r.principal.refresh_expires_at
      → (rotate s' h succ' later ttl' grace').0 ≡ ok r
  retry_same st later ttl' grace' e l fresh request within before =
      let (first, usable, a) = exchange s s' st h succ now ttl grace r e l fresh in
      let (hash, cipher) = well_formed h succ ttl grace first in
      let (_, _, apart, _, re, se) = advance_success s s' st succ now ttl grace r a in
      let found = (load_parts s h l).0 in
      let before' : unix later < expiry st now ttl = ground arith in
      let usable' : IsUsable st (unix later) = record {
        not_revoked = usable.not_revoked;
        credentials = usable.credentials;
        before_end = ground arith;
      } in
      let tables = exchanged s st h succ now ttl grace found fresh in
      ap (λ (z : Store). (rotate z h succ' later ttl' grace').0) se
      ∙ ap (λ (o : Outcome). o.0)
          (rotate_at tables (after st succ now grace) h succ' later ttl' grace' request
              (load-exchanged s st h succ now ttl grace found fresh apart l)
            ∙ again s st h succ now ttl grace found fresh succ' later ttl' grace' usable')
      ∙ retried s st h succ now ttl grace found fresh later apart hash cipher within before'
      ∙ ap ok (sym re)

  -- A token that was exchanged and is shown again after the grace time, in a request that is well
  -- formed, before the session's absolute expiry, is refused as reused, and its session is revoked.
  pub reuse_revokes :
      (st : RotationState) (later ttl' grace' : ℕ)
      → rotate s h succ now ttl grace ≡ (ok r, s')
      → load s h ≡ some st
      → st.token.consumed_at ≡ none
      → is_request h succ' ttl' grace' ≡ true
      → unix (now + grace) < unix later
      → unix later < st.session.absolute_expires_at
      → rotate s' h succ' later ttl' grace' ≡ (
        err refresh_token_reuse,
        revoke_session st.token.session_id (unix later) (text "refresh_reuse") s',
      )
  reuse_revokes st later ttl' grace' e l fresh request passed before =
      let (first, usable, a) = exchange s s' st h succ now ttl grace r e l fresh in
      let (_, _, apart, _, re, se) = advance_success s s' st succ now ttl grace r a in
      let found = (load_parts s h l).0 in
      let usable' : IsUsable st (unix later) = record {
        not_revoked = usable.not_revoked;
        credentials = usable.credentials;
        before_end = before;
      } in
      let tables = exchanged s st h succ now ttl grace found fresh in
      rw se (
        rotate_at tables (after st succ now grace) h succ' later ttl' grace' request
          (load-exchanged s st h succ now ttl grace found fresh apart l)
        ∙ again s st h succ now ttl grace found fresh succ' later ttl' grace' usable'
        ∙ refused s st h succ now ttl grace found fresh later passed)
