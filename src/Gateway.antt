-- ===== src/Gateway.antt =====
-- internal/gateway: the HTTP edge.
pub mod Errors
pub mod Decode
pub mod Middleware
pub mod Accounts
mod Canonical
mod Identity
mod Examples
