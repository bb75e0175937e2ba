-- ===== src/Utils.antt =====
-- pkg/utils: what user agents and addresses say of a peer.
pub mod UserAgent
pub mod Addresses
mod Tests
