-- ===== src/Persistence.antt =====
-- internal/persistence: the tables that the membership store and the message store write, and the
-- statements on them (membership_repo.go, journal.go, postgres/tx.go). A statement may fail for
-- reasons of its own (a lost connection, a timeout): `faults` says for each statement to come
-- whether it does, and after the list none does.
pub mod Rows
pub mod Sql
pub mod Timeline
pub mod Pages
pub mod Reader
mod Examples
pub mod Repo
pub mod Effects
pub mod Atomic
