-- ===== src/Models.antt =====
-- pkg/db/models: the records that the crawler keeps of its peers.
pub mod HostInfo
pub mod ConnEvent
pub mod ConnAttempt
