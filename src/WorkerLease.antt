-- ===== src/WorkerLease.antt =====
-- internal/persistence/workerlease: the lease of a Snowflake worker id, its table and its manager.
pub mod Repo
pub mod Manager
pub mod Touches
pub mod Rows
pub mod System
pub mod Leases
pub mod Deadline
pub mod Invariant
pub mod Operations
pub mod Beats
pub mod Fencing
pub mod Capacity
pub mod Renewal
mod Examples
