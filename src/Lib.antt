-- ===== src/Lib.antt =====
-- A model of the core of FinArch, a personal and work ledger with reimbursements: its arithmetic
-- on money, the limits on logins, the sessions with their refresh tokens, and the matching of
-- expenses to an amount; and of the transactions on accounts, with the balances that the database
-- keeps of them.
--
-- Which file models which part:
--   Base              Booleans, lists, integers, texts and maps as the code uses them.
--   Money             internal/domain/model/money.go: Money.Cents, ConvertCentsByRate,
--                     ValidateTransactionAmountCents and roundRatToInt64; and convertByRate of
--                     internal/domain/service/transaction_service.go.
--   RateLimit         internal/infrastructure/auth/ratelimit.go: RateLimit.Limiter for
--                     IPRateLimiter, RateLimit.Login for LoginAttemptTracker.
--   Session           internal/domain/model/refresh_token.go and
--                     internal/infrastructure/repository/refresh_token_sqlite.go, over the tables
--                     of internal/infrastructure/db/migration_v27.sql. Session.Rotate is Rotate;
--                     Session.Lifecycle has the other operations.
--   Balance           the triggers of internal/infrastructure/db/triggers_v9.go, over the tables of
--                     internal/infrastructure/db/migration_v9.sql.
--   Transaction.*     internal/domain/service/transaction_service.go: PrepareCreateTransaction,
--                     CreateTransaction, resolveRate and what they call.
--   Reimbursement     internal/domain/service/reimbursement_service.go, with the calls that it makes
--                     of internal/infrastructure/repository/transaction_sqlite.go and
--                     reimbursement_sqlite.go.
--   Matching          internal/domain/service/matching_service.go and matching_limits.go.
--                     Matching.Search is searchMatchesCents with dfs and consider;
--                     Matching.Service is findBestMatchesCentsContext and Match.
--
--   Guard             internal/infrastructure/db/concurrency_guard.go: the write leases and the
--                     maintenance of the database.
--   Ledger            internal/domain/service/ledger_service.go (Ledger.Post) over
--                     internal/infrastructure/repository/ledger_sqlite.go (Ledger.Post for
--                     CreateJournalEntry, Ledger.Check for the rest) and the tables of
--                     internal/infrastructure/db/migration_v17.sql.
--   Recurring.*       internal/domain/service/recurring_service.go over
--                     internal/infrastructure/repository/recurring_sqlite.go: Recurring.Schedule is
--                     NextRecurringOccurrence, Recurring.Tables the statements on rules and
--                     instances, Recurring.Generate is generateOne, Recurring.Edit what users do.
--   Budget            internal/domain/service/budget_service.go over
--                     internal/infrastructure/repository/budget_sqlite.go: Budget.Actuals has the
--                     sums of a month and Summary.
--   Calendar          The dates and clocks of Go's package time that schedules and budgets use.
--
-- How the parts meet: Matching.Service reads its amounts with Money.cents; Transaction converts with
-- Money.convert_by_rate, and the row that it stores is one that the triggers of Balance see; Recurring.Generate creates its
-- transactions with Transaction.Create inside its own database transaction, which is one step; the
-- login tracker, the sessions, the guard and the ledger are independent states. A method that holds
-- a mutex or a SQL transaction is one step, so a concurrent run is a sequence of steps, and the
-- theorems on runs hold for each. The methods of the guard take and give back locks one by one: there
-- each access is a step.
--
-- Numbers. A natural number is the kernel's. An int64 is an integer with its range stated: sums in
-- the search stay below 2 * 10^12 + 2 * 10^5 by its bounds, and rounding is proved to refuse what
-- does not fit. A float64 amount is the fraction that its shortest decimal form spells. Scores of
-- matches are float64 values that only rank results: their arithmetic is the parameter Floats.
-- Times are natural numbers of nanoseconds, and of seconds in the tables.
--
-- Fuel. The search counts the nodes that remain, as the code does (250000 for both searches); it is
-- structural in the items. The walk along the successors of a token has the code's 256 hops. A
-- schedule looks at the code's 5000 candidates and 240 months; the loop to a day of the week has no
-- bound in the code, and is proved to end within the 7 rounds that it is given. Catching up takes
-- the code's 24 rounds, and a preview as many as it lists.
--
-- Parameters. The Unicode case tables outside ASCII (CaseTable), the clock and the cancellation of a
-- context (Surroundings, Query.cancelled_at), the repositories and the rate service that
-- Transaction calls (Services), float64 arithmetic (Floats), and the rows that the
-- database returns to Match; the digest of an entry, identifiers, and SQLite's
-- addition to a stored balance, of which only sums within int64 are used (Engine, Draw); the
-- zones of the time package, as a clock of each zone and back (Location, Zones): theorems that need a
-- zone with a fixed offset say so; and the quotient of two float64 that a budget's usage is.
--
-- Not modelled: failures of the database engine, HTTP, mail, OCR and the user interface, which only
-- call these parts or are I/O; the checks on a request for a recurring
-- rule; and the services on attachments and restores, which build on them.
pub mod Balance
pub mod Base
pub mod Budget
pub mod Calendar
pub mod Guard
pub mod Ledger
pub mod Matching
pub mod Money
pub mod RateLimit
pub mod Recurring
pub mod Reimbursement
pub mod Session
pub mod Transaction
