-- ===== src/Security.antt =====
-- modules/security: the sessions of users.
pub mod SessionStore
