-- ===== src/Peering.antt =====
-- pkg/peering: the pruning strategy, which decides which peer is dialled next and when a peer is
-- given up. `Delay` and `Peer` are the state of one peer, `Queue` the list of all of them.
pub mod Metrics
pub mod Delay
pub mod Peer
pub mod Queue
pub mod Recorder
pub mod Iterator
pub mod Worker
pub mod Exports
mod Tests
