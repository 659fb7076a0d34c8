-- ===== src/Account.antt =====
-- The life of an account: registration, verification by mail, re-sending and the sweep of abandoned
-- accounts.
pub mod World
pub mod Users
pub mod Verifications
pub mod Registration
pub mod Verify
pub mod Sweep
mod Sound
mod Triples
mod Kept
mod Transactions
mod Registering
mod Checked
mod Swept
mod Landing
pub mod System
mod Accepting
mod Verdicts
pub mod Activation
pub mod Retries
pub mod Sweeping
pub mod Directory
pub mod Credentials
mod Issued
mod Issuing
pub mod Delivered
pub mod Acceptance
mod Examples
