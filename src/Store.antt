-- ===== src/Store.antt =====
-- internal/postgres: the database, the statements of the repositories and the transactions of
-- db.go. What the program does not decide (which statements fail, how a commit ends, the clock,
-- the fresh UUIDs, Unicode case, SHA-256) is a field of `Env`.
pub mod State
pub mod Objects
pub mod Rows
pub mod Sources
pub mod Audit
pub mod Tx
pub mod Atomic
