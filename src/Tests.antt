-- ===== src/Tests.antt =====
-- Concrete runs of the modelled services.
pub mod Disputes
pub mod Outbox
pub mod Validation
pub mod Retry
pub mod Idempotency
pub mod Fixtures
pub mod Services
pub mod Runs
pub mod RouteRuns
pub mod WalletRuns
pub mod Wallets
pub mod Lifecycle
pub mod Orders
pub mod Marketplace
pub mod Sessions
