-- ===== src/Ethereum.antt =====
-- pkg/networks/ethereum: what the crawler knows of the consensus layer.
pub mod Topics
pub mod ForkDigests
pub mod Node
pub mod Records
pub mod Stamps
mod Tests
