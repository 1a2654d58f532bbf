-- ===== src/Session/Reachable.antt =====
-- The invariant of the tables under every call of the repository.
use fin_arch.Base.{
  ℕ, ◌≤◌, ◌≡◌, refl, true, not, Option, none, some, List, [], ◌∷◌, arith, if◌then◌else◌, Text, text,
  text_eq_iff, update, All, filterb, map, Bool-cases, Option-cases, inl, inr, subst, sym,
  text_eq_self, is_empty, ◌⊎◌, length, ◌==◌,
}
use fin_arch.Session.Store.{
  UserRow, SessionRow, TokenRow, Store, unix, find_token, insert_token, revoke_session,
}
use fin_arch.Session.Lifecycle.{
  create_session, revoke_by_token_hash, revoke_all_for_user, delete_expired, opened, active,
  clear_recovery, is_expired,
}
use fin_arch.Session.Tokens.{active_count}
use fin_arch.Session.Changes.{
  Call, rotates, creates, revokes, revokes_all, cleans, sets_user, apply, run,
}
use fin_arch.Session.Invariant.{
  IsStore, IsOwned, spans-IsStore, adjust-SameSpans, revoke-IsStore, rotate-IsStore,
}

module _ (m : Text → Option SessionRow) (a : SessionRow) (new : m a.id ≡ none) where
  create-IsOwned :
      (ts : List TokenRow) → All (IsOwned m) ts → All (IsOwned (update m a.id (opened a))) ts
  create-IsOwned [] h = tt
  create-IsOwned (t ∷ ts) h =
      (ground (arith, h.0, text_eq_iff a.id t.session_id), create-IsOwned ts h.1)

-- What `CreateSession` has done: nothing, or written a session and its active token.
create_cases :
    (s : Store) (a : SessionRow) (t : TokenRow)
    → ((create_session s a t).1 ≡ s)
      ⊎ ((s.sessions a.id ≡ none)
          × (t.session_id ≡ a.id)
          × (t.expires_at ≤ a.absolute_expires_at)
          × ((create_session s a t).1 ≡ record s {
            sessions = update s.sessions a.id (opened a);
            tokens = active t ∷ s.tokens;
          }))
unfolding create_session insert_token
create_cases s a t = ground (arith, text_eq_iff t.session_id a.id)

created-IsStore :
    (s : Store) (a : SessionRow) (t : TokenRow)
    → s.sessions a.id ≡ none
    → t.session_id ≡ a.id
    → t.expires_at ≤ a.absolute_expires_at
    → IsStore s
    → IsStore
        (record s { sessions = update s.sessions a.id (opened a); tokens = active t ∷ s.tokens })
created-IsStore s a t new same bound v = record {
  one_active = λ sid. ground (
    arith,
    v.one_active sid,
    text_eq_iff sid t.session_id,
    text_eq_iff a.id sid,
    text_eq_self a.id,
  );
  owned = (
    ground (arith, same, bound, text_eq_iff a.id t.session_id),
    create-IsOwned s.sessions a new s.tokens v.owned,
  );
}

-- A login keeps the tables well formed.
create-IsStore :
    (s : Store) (a : SessionRow) (t : TokenRow) → IsStore s → IsStore (create_session s a t).1
create-IsStore s a t v = elim (create_cases s a t) [
  | inl kept ↦ subst IsStore (sym kept) v
  | inr (new, same, bound, e) ↦ subst IsStore (sym e) (created-IsStore s a t new same bound v)
]

-- What `RevokeByTokenHash` has done: nothing, or revoked the session of the token.
pub revoke_cases :
    (s : Store) (hash : Text) (now : ℕ) (reason : Text)
    → (revoke_by_token_hash s hash now reason ≡ s)
      ⊎ ((t : TokenRow) × (find_token hash s.tokens ≡ some t)
          × (revoke_by_token_hash s hash now reason
              ≡ revoke_session t.session_id
                  (unix now)
                  (if is_empty reason then text "logout" else reason)
                  s))
unfolding revoke_by_token_hash
revoke_cases s hash now reason = elim (Bool-cases (length hash == 32)) [
  | inl whole ↦ elim (Option-cases (find_token hash s.tokens)) [
    | inl missing ↦ inl (ground arith)
    | inr (t, found) ↦ inr (t, found, ground arith)
  ]
  | inr short ↦ inl (ground arith)
]

revoke_by_token_hash-IsStore :
    (s : Store) (hash : Text) (now : ℕ) (reason : Text)
    → IsStore s
    → IsStore (revoke_by_token_hash s hash now reason)
revoke_by_token_hash-IsStore s hash now reason v = elim (revoke_cases s hash now reason) [
  | inl kept ↦ subst IsStore (sym kept) v
  | inr (t, _, e) ↦ subst IsStore (sym e) (revoke-IsStore s t.session_id (unix now) _ v)
]

revoke_all-IsStore :
    (s : Store) (user : Text) (now : ℕ) → IsStore s → IsStore (revoke_all_for_user s user now)
unfolding revoke_all_for_user
revoke_all-IsStore s user now v =
    spans-IsStore s _ (adjust-SameSpans _ (λ a. ground arith) s.sessions (λ k. true)) v

module _ (m : Text → Option SessionRow) (now : ℕ) where
  abbrev kept_tokens : List TokenRow → List TokenRow
  kept_tokens ts =
      filterb (λ t. not (is_expired now (m t.session_id))) (map (clear_recovery now) ts)

  abbrev kept_sessions : Text → Option SessionRow
  kept_sessions k = if is_expired now (m k) then none else m k

  kept_session_id :
      (t : TokenRow)
      → ((clear_recovery now t).session_id ≡ t.session_id)
        × ((clear_recovery now t).consumed_at ≡ t.consumed_at)
        × ((clear_recovery now t).expires_at ≡ t.expires_at)
  kept_session_id t = ground arith

  active_count-kept :
      (sid : Text) (ts : List TokenRow)
      → active_count sid (kept_tokens ts)
        ≡ (if is_expired now (m sid) then 0 else active_count sid ts)
  active_count-kept sid [] = ground arith
  active_count-kept sid (t ∷ ts) =
      ground (arith, kept_session_id t, text_eq_iff sid t.session_id, active_count-kept sid ts)

  kept-IsOwned :
      (ts : List TokenRow) → All (IsOwned m) ts → All (IsOwned kept_sessions) (kept_tokens ts)
  kept-IsOwned [] h = tt
  kept-IsOwned (t ∷ ts) h = ground (arith, kept_session_id t, kept-IsOwned ts h.1)

delete_expired-IsStore : (s : Store) (now : ℕ) → IsStore s → IsStore (delete_expired s now)
unfolding delete_expired
delete_expired-IsStore s now v = record {
  one_active =
      λ sid. ground (arith, active_count-kept s.sessions (unix now) sid s.tokens, v.one_active sid);
  owned = kept-IsOwned s.sessions (unix now) s.tokens v.owned;
}

-- Every call of the repository keeps the tables well formed: each session has exactly one active
-- token, and each token belongs to a session and expires no later than it.
pub apply-IsStore : (s : Store) (c : Call) → IsStore s → IsStore (apply s c)
unfolding apply
apply-IsStore s (rotates h succ now ttl grace) v = rotate-IsStore s h succ now ttl grace v
apply-IsStore s (creates a t) v = create-IsStore s a t v
apply-IsStore s (revokes hash now reason) v = revoke_by_token_hash-IsStore s hash now reason v
apply-IsStore s (revokes_all user now) v = revoke_all-IsStore s user now v
apply-IsStore s (cleans now) v = delete_expired-IsStore s now v
apply-IsStore s (sets_user id u) v = record { one_active = v.one_active; owned = v.owned }

-- Tables with no session and no token are well formed.
pub empty-IsStore :
    (users : Text → Option UserRow)
    → IsStore (record { users = users; sessions = λ _. none; tokens = [] })
empty-IsStore users = record { one_active = λ sid. refl; owned = tt }

-- After any calls on well-formed tables they are well formed: each session has exactly one active
-- token, and each token belongs to a session and expires no later than it.
pub run-IsStore : (s : Store) (cs : List Call) → IsStore s → IsStore (run s cs)
unfolding run
run-IsStore s [] v = v
run-IsStore s (c ∷ cs) v = run-IsStore (apply s c) cs (apply-IsStore s c v)
