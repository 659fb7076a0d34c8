-- ===== src/Auth.antt =====
-- internal/auth: credentials.
pub mod Password
pub mod Token
