-- ===== src/Db/Peers/View/Refines.antt =====
-- The statements of pkg/db/postgresql/peer_info.go against what they say of a peer in one line.
use armiarma.Base.{Option}
use mathlib.Core.Option
use armiarma.Models.HostInfo.{HostInfo, PeerInfo}
