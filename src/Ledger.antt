-- ===== src/Ledger.antt =====
-- The double-entry ledger: internal/domain/service/ledger_service.go over
-- internal/infrastructure/repository/ledger_sqlite.go and the tables of migration_v17.sql. A SQL
-- transaction is one step: if it fails the tables stay as they were. Times are seconds, since the
-- rows hold RFC 3339 texts, which order like them. The file log is written and never read.
pub mod Records
pub mod Post
pub mod Check
pub mod Totals
pub mod Posted
pub mod Book
pub mod Cache
pub mod Refines
pub mod Calls
mod Tests
pub mod Chain
