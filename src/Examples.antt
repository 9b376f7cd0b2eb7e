-- ===== src/Examples.antt =====
-- Tests, and the theorems applied at concrete inputs.
mod Stores
mod Aggregates
mod Messaging
mod Erasure
mod Privacy
mod Accounts
mod Users
mod Streams
mod Locks
mod Postgres
mod Tables
