-- ===== src/Db.antt =====
-- pkg/db/postgresql: the batches of queries and the routine that fills and flushes them.
pub mod Batch
pub mod Persister
pub mod Distributions
pub mod Sql
pub mod Times
pub mod Tables
pub mod Peers
mod Tests
