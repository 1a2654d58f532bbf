-- ===== src/Session/Store.antt =====
-- The tables of sessions, refresh tokens and users, and the SQL that several operations share.
-- Hashes and ciphertexts are lists of bytes; times in the tables are Unix seconds, and times in
-- Go are nanoseconds since the Unix epoch.
use fin_arch.Base.{
  ℕ, ◌+◌, ◌/◌, Bool, false, ◌&&◌, ◌||◌, not, Option, none, some, List, [], ◌∷◌, leb, ◌==◌,
  if◌then◌else◌, is_some, Text, text_eq, length,
}

pub record UserRow : Type 0 where
  pub id : Text
  pub email : Text
  pub name : Text
  pub username : Option Text
  pub nickname : Text
  pub role : Text
  pub email_verified : ℕ
  pub pwd_version : ℕ
  pub deleted_at : Option ℕ

-- `auth_sessions`
pub record SessionRow : Type 0 where
  pub id : Text
  pub user_id : Text
  pub pwd_version : ℕ
  pub absolute_expires_at : ℕ
  pub revoked_at : Option ℕ
  pub revoke_reason : Option Text
  pub created_at : ℕ
  pub last_used_at : ℕ

-- `refresh_tokens`
pub record TokenRow : Type 0 where
  pub id : Text
  pub session_id : Text
  pub token_hash : Text
  pub generation : ℕ
  pub expires_at : ℕ
  pub consumed_at : Option ℕ
  pub replaced_by_hash : Option Text
  pub retry_until : Option ℕ
  pub recovery_ciphertext : Option Text
  pub created_at : ℕ

-- The tables with a primary key that the code looks rows up by are maps; tokens are looked up by
-- several columns, so they are a list.
pub record Store : Type 0 where
  pub users : Text → Option UserRow
  pub sessions : Text → Option SessionRow
  pub tokens : List TokenRow

pub data Error : Type 0 where
  refresh_token_invalid refresh_token_reuse session_invalid chain_too_long : Error
  constraint_failed : Error

pub data Result (A : Type 0) : Type 0 where
  ok : A → Result A
  err : Error → Result A

-- `time.Time.Unix`
abbrev pub unix : ℕ → ℕ
unix t = t / 1_000_000_000

-- A NULL blob is scanned as an empty slice.
abbrev pub bytes_of : Option Text → Text
bytes_of none = []
bytes_of (some b) = b

-- `COALESCE(x, y)`
abbrev pub coalesce {ℓ} : {A : Type ℓ} → Option A → A → Option A
coalesce none y = some y
coalesce (some x) y = some x

abbrev pub has_hash : Text → TokenRow → Bool
has_hash h r = text_eq h r.token_hash

-- `SELECT ... WHERE token_hash = ?`
unfoldable pub find_token : Text → List TokenRow → Option TokenRow
find_token h [] = none
find_token h (r ∷ rs) = if has_hash h r then some r else find_token h rs

-- `SELECT ... WHERE token_hash = ? AND session_id = ?`
unfoldable pub find_in_session : Text → Text → List TokenRow → Option TokenRow
find_in_session h s [] = none
find_in_session h s (r ∷ rs) =
    if has_hash h r && text_eq s r.session_id then some r else find_in_session h s rs

-- `UPDATE auth_sessions SET ... WHERE id = ?`
abbrev pub adjust : (SessionRow → SessionRow) → Option SessionRow → Option SessionRow
adjust f none = none
adjust f (some s) = some (f s)

abbrev pub update_session : Text → (SessionRow → SessionRow) → Store → Store
update_session id f s = record s {
  sessions = λ k. if text_eq id k then adjust f (s.sessions k) else s.sessions k;
}

abbrev pub mark_revoked : ℕ → Text → SessionRow → SessionRow
mark_revoked now reason s = record s {
  revoked_at = coalesce s.revoked_at now;
  revoke_reason = coalesce s.revoke_reason reason;
}

-- `revokeSessionTx`
unfoldable pub revoke_session : Text → ℕ → Text → Store → Store
revoke_session id now reason = update_session id (mark_revoked now reason)

abbrev pub touch_session : Text → ℕ → Store → Store
touch_session id now = update_session id (λ s. record s { last_used_at = now })

-- Whether a new token breaks a constraint: its primary key, its unique hash, its generation within
-- the session, or that it expires after it is created.
unfoldable pub conflicts : TokenRow → List TokenRow → Bool
conflicts t [] = false
conflicts t (r ∷ rs) =
    text_eq t.id r.id
    || text_eq t.token_hash r.token_hash
    || (text_eq t.session_id r.session_id && (t.generation == r.generation))
    || conflicts t rs

-- `INSERT INTO refresh_tokens`: no row where a constraint is broken.
unfoldable pub insert_token : TokenRow → List TokenRow → Option (List TokenRow)
unfolding conflicts
insert_token t rs =
    if conflicts t rs || not (length t.token_hash == 32) || leb t.expires_at t.created_at
    then none
    else some (t ∷ rs)

pub record Consumption : Type 0 where
  pub at : ℕ
  pub successor_hash : Text
  pub until : ℕ
  pub ciphertext : Text

abbrev pub consume : Consumption → TokenRow → TokenRow
consume c r = record r {
  consumed_at = some c.at;
  replaced_by_hash = some c.successor_hash;
  retry_until = some c.until;
  recovery_ciphertext = some c.ciphertext;
}

abbrev pub is_fresh : Text → TokenRow → Bool
is_fresh id r = text_eq id r.id && not (is_some r.consumed_at)

-- `UPDATE refresh_tokens SET consumed_at = ?, ... WHERE id = ? AND consumed_at IS NULL`
unfoldable pub consume_token : Text → Consumption → List TokenRow → List TokenRow
consume_token id c [] = []
consume_token id c (r ∷ rs) = (if is_fresh id r then consume c r else r) ∷ consume_token id c rs

-- The number of rows that the update affects.
unfoldable pub affected : Text → List TokenRow → ℕ
affected id [] = 0
affected id (r ∷ rs) = (if is_fresh id r then 1 else 0) + affected id rs

-- A live account: not deleted, and with a verified email.
abbrev pub is_live : UserRow → Bool
is_live u = not (is_some u.deleted_at) && (u.email_verified == 1)
