-- ===== src/Transaction.antt =====
-- internal/domain/service/transaction_service.go: how a transaction is prepared and created. The
-- repositories, the rate service, the clock and the source of identifiers are the record
-- `Services`. Times are nanoseconds since Go's zero time.
pub mod Records
pub mod Rates
pub mod Create
pub mod Prepare
pub mod Created
pub mod Evidence
mod Tests
