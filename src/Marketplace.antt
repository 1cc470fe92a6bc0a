-- ===== src/Marketplace.antt =====
-- The operations of backend/src/modules/orders and backend/src/modules/users/wallet.service.ts together:
-- what any sequence of committed transactions, of any users, keeps.
pub mod Openings
pub mod Moves
pub mod Orders
pub mod Escrow
pub mod Requests
pub mod Writes
pub mod Wallets
pub mod Agreement
pub mod Routes
pub mod Sweep
pub mod Runs
