-- ===== src/Common.antt =====
-- backend/src/common: the error values that every service throws.
pub mod Errors
pub mod Validation
