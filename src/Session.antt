-- ===== src/Session.antt =====
-- Login sessions and refresh tokens: internal/domain/model/refresh_token.go, and
-- internal/infrastructure/repository/refresh_token_sqlite.go over the tables of
-- internal/infrastructure/db/migration_v27.sql. `Store` holds the tables, `Rotate` the rotation and
-- `Lifecycle` the other operations. Each operation is one SQL transaction: a function from the
-- tables to its result and the tables after it, which are the tables before it where the code
-- rolls back. The engine's own failures (disk, lock, cancelled context) are not modelled; a broken
-- constraint of a table is.
pub mod Store
pub mod Tokens
pub mod Rotate
pub mod Lifecycle
pub mod Success
pub mod Failure
pub mod Changes
pub mod Invariant
pub mod Reachable
pub mod Revocation
pub mod Access
mod Tests
pub mod Retry
