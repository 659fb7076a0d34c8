-- ===== src/Connection.antt =====
-- internal/actor/connection: the actor of one client connection, with its heartbeat, its decoder and
-- encoder and its two pumps.
pub mod Messages
pub mod Heartbeat
pub mod Actor
pub mod Behaviour
pub mod Run
pub mod Closing
mod Pump
pub mod Phases
pub mod Protocol
pub mod Bounds
pub mod Retry
pub mod Encoder
mod Examples
