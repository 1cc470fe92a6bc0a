-- ===== src/Db.antt =====
-- backend/migrations and backend/src/db/pool.ts: the tables of the database that the modelled
-- services use, and the transactions over them.
pub mod Keys
pub mod Rows
pub mod Tx
pub mod Retry
pub mod Tables
pub mod Frame
pub mod Steps
pub mod Keeps
pub mod Requests
pub mod Files
