-- ===== src/User.antt =====
-- internal/grain/user: the grain of one user, which relays the user's commands to the rooms and
-- caches the rooms that the user has joined.
pub mod State
pub mod Grain
pub mod Relay
pub mod Agreement
pub mod Connections
pub mod FanOut
mod Examples
