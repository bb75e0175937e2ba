-- ===== src/Discovery/Tests.antt =====
-- A discovered peer without a public IP, and peers that kad-dht finds.
use armiarma.Base.{ℕ, ◌≡◌, some, List, [], ◌∷◌, ◌++◌, refl}
use armiarma.Base.Int.{pos}
use armiarma.Base.Text.{codes}
use armiarma.Utils.UserAgent.{ethereum_network}
use armiarma.Utils.Addresses.{Ip, nil_ip}
use armiarma.Models.HostInfo.{HostInfo, new_host_info, with_multiaddress}
use armiarma.Discovery.{Handled, peer_handler}
use armiarma.Discovery.Located.{peer_handler-with_multiaddress}
use armiarma.Models.HostInfo.{AddrInfo}
use armiarma.Discovery.Kdht.{
  PeersEvent, new_discovery_peers, peers_step, peers_run, has_key, add_peer, pick, adds, stores,
  appends, counts, looks, reads,
}
use armiarma.Discovery.Kdht.Neighbours.{
  no_random_peer_id, no_closest_peers, fetch, fetch_all, fetch_neighbors,
}
use armiarma.Discovery.Kdht.Pointers.{IsOrdered, peers_run-IsOrdered}
use armiarma.Base.{arith}

abbrev no_ipv6 : List ℕ → Ip
no_ipv6 s = nil_ip

abbrev no_text : List ℕ → List ℕ
no_text bs = []

abbrev private_peer : HostInfo ℕ
private_peer =
    new_host_info (pos 0) "peer" ethereum_network
      (with_multiaddress no_ipv6 no_text (some (codes "/ip4/10.0.0.7/tcp/9000") ∷ []) ∷ [])

abbrev before : Handled ℕ
before = record { persisted = []; located = [] }

peer_handler-with_multiaddress_example : peer_handler no_ipv6 no_text private_peer before ≡ record {
  persisted = before.persisted ++ (private_peer ∷ []);
  located = before.located ++ (private_peer.ip ∷ []);
}
peer_handler-with_multiaddress_example =
    peer_handler-with_multiaddress no_ipv6 no_text (pos 0) "peer" ethereum_network
      (some (codes "/ip4/10.0.0.7/tcp/9000") ∷ []) before (λ t. tt)

abbrev alice : AddrInfo
alice = record { id = "alice"; addrs = some (codes "/ip4/1.1.1.1/tcp/9000") ∷ [] }

abbrev iterates : List PeersEvent
iterates = adds alice ∷ adds alice ∷ stores 1 ∷ appends 0 ∷ looks ∷ counts 0 ∷ looks ∷ reads ∷ []

peers_run-IsOrdered_example : IsOrdered (peers_run iterates new_discovery_peers)
peers_run-IsOrdered_example = peers_run-IsOrdered iterates (omega arith)

-- Two calls of `addPeer` for one peer that both miss it in the map put it into the array twice.
twice :
    (peers_run
      (adds alice ∷ adds alice ∷ stores 0 ∷ stores 0 ∷ appends 0 ∷ appends 0 ∷ [])
      new_discovery_peers).p_array
    ≡ alice ∷ alice ∷ []
unfolding peers_run peers_step new_discovery_peers add_peer has_key pick
twice = refl

-- Two failures of different prefix lengths leave the bit of the later one.
bits_of_errors :
    (fetch_neighbors
      (λ ns. ns)
      "peer"
      ((3, no_closest_peers) ∷ (0, no_random_peer_id) ∷ [])).error_bits
    ≡ 1
unfolding fetch_neighbors fetch_all fetch
bits_of_errors = refl
