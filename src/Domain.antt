-- ===== src/Domain.antt =====
-- backend/src/domain: the lifecycle enumerations and exact money arithmetic.
pub mod Enums
pub mod Money
