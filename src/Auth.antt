-- ===== src/Auth.antt =====
-- backend/src/modules/auth: refresh sessions and their revocation, as far as the keys of Redis tell.
pub mod Redis
pub mod Sessions
