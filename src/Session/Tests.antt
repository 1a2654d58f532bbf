-- ===== src/Session/Tests.antt =====
-- The theorems on sessions for one account with one login, whose token is exchanged and shown again.
use fin_arch.Base.{
  ℕ, ◌*◌, ◌<◌, ◌≡◌, ◌≢◌, refl, Option, none, some, List, [], ◌∷◌, arith, Text, text, text_eq,
  if◌then◌else◌,
}
use fin_arch.Session.Store.{
  UserRow, SessionRow, TokenRow, Store, Result, ok, err, refresh_token_reuse, session_invalid,
  find_token, conflicts, insert_token, consume_token, affected, revoke_session,
}
use fin_arch.Session.Rotate.{
  Successor, Rotation, RotationState, load, rotate, rotate_loaded, advance, granted,
}
use fin_arch.Session.Lifecycle.{create_session, revoke_all_for_user, validate_session}
use fin_arch.Session.Changes.{Call, creates, rotates, cleans, run}
use fin_arch.Session.Success.{IsUsable, Names, rotate_success_lem}
use fin_arch.Session.Invariant.{IsStore}
use fin_arch.Session.Reachable.{empty-IsStore, run-IsStore}
use fin_arch.Session.Revocation.{revoked_forever}
use fin_arch.Session.Access.{revoke_all-validate}
use fin_arch.Session.Retry.{retry_same, reuse_revokes}

abbrev second : ℕ
second = 1_000_000_000

-- A hash of 32 bytes.
abbrev hash_of : ℕ → Text
hash_of b =
    b ∷ 1 ∷ 2 ∷ 3 ∷ 4 ∷ 5 ∷ 6 ∷ 7 ∷ b ∷ 1 ∷ 2 ∷ 3 ∷ 4 ∷ 5 ∷ 6 ∷ 7 ∷ b ∷ 1 ∷ 2 ∷ 3 ∷ 4 ∷ 5 ∷ 6 ∷ 7
    ∷ b ∷ 1 ∷ 2 ∷ 3 ∷ 4 ∷ 5 ∷ 6 ∷ 7 ∷ []

abbrev ann : UserRow
ann = record {
  id = text "u";
  email = text "ann@x.org";
  name = text "Ann";
  username = none;
  nickname = text "ann";
  role = text "owner";
  email_verified = 1;
  pwd_version = 3;
  deleted_at = none;
}

abbrev users_of_ann : Text → Option UserRow
users_of_ann k = if text_eq (text "u") k then some ann else none

abbrev empty : Store
empty = record { users = users_of_ann; sessions = λ k. none; tokens = [] }

abbrev login : SessionRow
login = record {
  id = text "s";
  user_id = text "u";
  pwd_version = 3;
  absolute_expires_at = 5000;
  revoked_at = none;
  revoke_reason = none;
  created_at = 100;
  last_used_at = 100;
}

abbrev first : TokenRow
first = record {
  id = text "t0";
  session_id = text "s";
  token_hash = hash_of 8;
  generation = 0;
  expires_at = 900;
  consumed_at = none;
  replaced_by_hash = none;
  retry_until = none;
  recovery_ciphertext = none;
  created_at = 100;
}

abbrev logged_in : Store
logged_in = record {
  users = users_of_ann;
  sessions = λ k. if text_eq (text "s") k then some login else none;
  tokens = first ∷ [];
}

abbrev loaded : RotationState
loaded = record { token = first; session = login; user = ann }

abbrev successor : ℕ → Successor
successor b = record { id = b ∷ []; token_hash = hash_of b; recovery_ciphertext = text "c" }

-- The exchange at 200 s, with 600 s to live and 30 s of grace.
abbrev exchange : Result Rotation × Store
exchange = rotate logged_in (hash_of 8) (successor 9) (200 * second) (600 * second) (30 * second)

abbrev answer : Rotation
answer = granted loaded (hash_of 9) (text "c") 800 1

retry_same_example :
    (rotate exchange.1 (hash_of 8) (successor 10) (225 * second) (600 * second) (30 * second)).0
    ≡ ok answer
unfolding rotate load find_token rotate_loaded advance insert_token conflicts affected consume_token
    text_eq
retry_same_example =
    retry_same logged_in exchange.1 (hash_of 8) (successor 9) (successor 10) (200 * second)
      (600 * second) (30 * second) answer loaded (225 * second) (600 * second) (30 * second) refl
      refl refl refl (ground arith) (ground arith)

reuse_revokes_example :
    rotate exchange.1 (hash_of 8) (successor 10) (300 * second) (600 * second) (30 * second)
    ≡ (err refresh_token_reuse, revoke_session (text "s") 300 (text "refresh_reuse") exchange.1)
unfolding rotate load find_token rotate_loaded advance insert_token conflicts affected consume_token
    text_eq
reuse_revokes_example =
    reuse_revokes logged_in exchange.1 (hash_of 8) (successor 9) (successor 10) (200 * second)
      (600 * second) (30 * second) answer loaded (300 * second) (600 * second) (30 * second) refl
      refl refl refl (ground arith) (ground arith)

rotate_success_lem_example :
    ((st : RotationState) × (load logged_in (hash_of 8) ≡ some st)
      × IsUsable st 200
      × (answer.principal.session_id ≡ st.token.session_id)
      × (answer.principal.user_id ≡ st.session.user_id))
    × (200 < answer.principal.refresh_expires_at)
    × Names exchange.1 answer
unfolding rotate load find_token rotate_loaded advance insert_token conflicts affected consume_token
    text_eq
rotate_success_lem_example =
    rotate_success_lem logged_in exchange.1 (hash_of 8) (successor 9) (200 * second) (600 * second)
      (30 * second) answer refl

abbrev calls : List Call
calls =
    rotates (hash_of 8) (successor 9) (200 * second) (600 * second) (30 * second)
    ∷ rotates (hash_of 8) (successor 10) (300 * second) (600 * second) (30 * second)
    ∷ cleans (400 * second)
    ∷ []

run-IsStore_example : IsStore (run empty (creates login first ∷ calls))
run-IsStore_example = run-IsStore empty (creates login first ∷ calls) (empty-IsStore users_of_ann)

abbrev stolen : SessionRow
stolen = record login { revoked_at = some 150 }

abbrev refused : Store
refused = record logged_in { sessions = λ k. if text_eq (text "s") k then some stolen else none }

revoked_forever_example :
    ((user : Text) (pwd now : ℕ)
      → validate_session (run refused calls) (text "s") user pwd now ≡ err session_invalid)
    × ((s' : Store) (h : Text) (succ : Successor) (now ttl grace : ℕ) (r : Rotation)
        → r.principal.session_id ≡ text "s"
        → rotate (run refused calls) h succ now ttl grace ≢ (ok r, s'))
unfolding text_eq
revoked_forever_example =
    revoked_forever refused stolen (text "s") 150 calls refl refl (tt, (tt, (tt, tt)))

abbrev opened_store : Store
opened_store = (create_session empty login first).1

revoke_all-validate_example :
    validate_session
      (revoke_all_for_user logged_in (text "u") (300 * second))
      (text "s")
      (text "u")
      3
      (500 * second)
    ≡ (if text_eq (text "u") (text "u")
        then err session_invalid
        else validate_session logged_in (text "s") (text "u") 3 (500 * second))
revoke_all-validate_example =
    revoke_all-validate logged_in (text "s") (text "u") (text "u") 3 (300 * second) (500 * second)
