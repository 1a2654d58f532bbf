-- ===== src/Recurring.antt =====
-- Recurring transactions: internal/domain/service/recurring_service.go over
-- internal/infrastructure/repository/recurring_sqlite.go and the tables of migration_v24.sql and
-- migration_v28.sql. Times are seconds since Go's zero time.
pub mod Rule
pub mod Schedule
pub mod Steps
pub mod Tables
pub mod Generate
pub mod Moved
pub mod Committed
pub mod Edit
pub mod Versions
pub mod Runs
pub mod Once
pub mod Status
pub mod Preview
pub mod Months
mod Tests
