-- ===== src/Orders.antt =====
-- backend/src/modules/orders: the order graph, the transition service and the double-entry ledger.
pub mod Transitions
pub mod Policy
pub mod Lifecycle
pub mod Accounting
pub mod Bookings
pub mod Books
pub mod Escrow
pub mod Reconciliation
pub mod Routes
pub mod AutoRelease
