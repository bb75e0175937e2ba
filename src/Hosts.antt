-- ===== src/Hosts.antt =====
-- pkg/hosts: the classification of dial errors and the notices of connections.
pub mod ConnErrors
pub mod Notify
