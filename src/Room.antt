-- ===== src/Room.antt =====
-- internal/grain/room: the grain that owns a room's membership and posts its messages.
pub mod State
pub mod Ports
pub mod Grain
pub mod FailClosed
pub mod Delivery
pub mod Store
pub mod Roles
mod Atomic
pub mod Ownership
pub mod Authority
pub mod Activation
pub mod Hydration
mod Examples
