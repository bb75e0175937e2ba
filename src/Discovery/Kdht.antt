-- ===== src/Discovery/Kdht.antt =====
-- pkg/discovery/kdht/service.go: the `discoveredPeers` that the workers and the iterator share. A call of one of its
-- methods stops between two accesses to shared memory, so a step is what one call does up to its next stop; the event
-- says which call moves. A call that has not ended stands in the list or the count of those that have got as far.
pub mod Entries
pub mod Neighbours
pub mod Pointers
pub mod Race
use armiarma.Base.{
  ℕ, zero, suc, ◌+◌, ◌%◌, ◌^◌, min, String, refl, sym, ap, inl, inr, Bool, true, false, not, ◌||◌,
  Option, none, some, List, [], ◌∷◌, ◌++◌, map, arith, eq_iff, eq_refl, str_eq, ltb, leb, ◌==◌,
  if◌then◌else◌, ltb→lt, lt→ltb, leb→le, ==_iff, Bool-cases, Option-cases, All, length, get_elem?,
  take, drop, length-append, length-take, length-drop, take-append-drop, Dict, lookup, insert,
  delete, lookup-insert, lookup-delete,
}
use armiarma.Base.Int.{ℤ, pos}
use armiarma.Utils.Addresses.{Ip}
use armiarma.Utils.UserAgent.{NetworkType, other_network}
use armiarma.Models.HostInfo.{AddrInfo, HostInfo, new_host_info, with_multiaddress}

-- Calls of `addPeer`: `absent` did not find the peer in the map, `stored` put it there, `appended` put it into the array.
-- Calls of `getBootstrapPeer`: `seeking` saw that the array is not empty, `loaded` read the pointer, `resetting` will set
-- it to 0, `chosen` will read the array. `ready` says that the iterator's call of `next` gave true. `delivered` is what
-- the iterator got, `requested` what the workers got.
pub record DiscoveredPeers : Type 0 where
  pub p_map : List String
  pub p_array : List AddrInfo
  pub rp : ℕ
  pub wp : ℕ
  pub bp : ℕ
  pub absent : List AddrInfo
  pub stored : List AddrInfo
  pub appended : List AddrInfo
  pub seeking : ℕ
  pub loaded : List ℕ
  pub resetting : ℕ
  pub chosen : ℕ
  pub ready : Bool
  pub delivered : List AddrInfo
  pub requested : List AddrInfo
  pub crashed : Bool

pub data PeersEvent : Type 0 where
  adds : AddrInfo → PeersEvent
  stores appends counts compares : ℕ → PeersEvent
  looks reads seeks loads resets takes : PeersEvent
  draws : ℕ → PeersEvent

unfoldable pub new_discovery_peers : DiscoveredPeers
new_discovery_peers = record {
  p_map = [];
  p_array = [];
  rp = 0;
  wp = 0;
  bp = 0;
  absent = [];
  stored = [];
  appended = [];
  seeking = 0;
  loaded = [];
  resetting = 0;
  chosen = 0;
  ready = false;
  delivered = [];
  requested = [];
  crashed = false;
}

unfoldable pub has_key : String → List String → Bool
has_key k [] = false
has_key k (x ∷ xs) = str_eq x k || has_key k xs

abbrev pub keep : {A : Type 0} → A → Option (A × List A) → Option (A × List A)
keep x none = none
keep x (some (y, ys)) = some (y, x ∷ ys)

-- The element at the index and the others.
unfoldable pub pick : {A : Type 0} → ℕ → List A → Option (A × List A)
pick i [] = none
pick zero (x ∷ xs) = some (x, xs)
pick (suc i) (x ∷ xs) = keep x (pick i xs)

unfoldable pub increment : ℕ → ℕ
increment n = (n + 1) % 2 ^ 64

-- The parts of `addPeer`.
unfoldable pub add_peer : AddrInfo → DiscoveredPeers → DiscoveredPeers
add_peer p d = if has_key p.id d.p_map then d else record d { absent = p ∷ d.absent }

abbrev pub store_peer : Option (AddrInfo × List AddrInfo) → DiscoveredPeers → DiscoveredPeers
store_peer none d = d
store_peer (some (p, ps)) d = record d {
  absent = ps;
  stored = p ∷ d.stored;
  p_map = p.id ∷ d.p_map;
}

abbrev pub append_peer : Option (AddrInfo × List AddrInfo) → DiscoveredPeers → DiscoveredPeers
append_peer none d = d
append_peer (some (p, ps)) d = record d {
  stored = ps;
  appended = p ∷ d.appended;
  p_array = d.p_array ++ (p ∷ []);
}

abbrev pub count_peer : Option (AddrInfo × List AddrInfo) → DiscoveredPeers → DiscoveredPeers
count_peer none d = d
count_peer (some (p, ps)) d = record d { appended = ps; wp = increment d.wp }

unfoldable pub next : DiscoveredPeers → Bool
next d = ltb d.rp d.wp

-- `getNextPeer` behind its test.
abbrev pub get_next_peer : Bool → Option AddrInfo → DiscoveredPeers → DiscoveredPeers
get_next_peer false p d = d
get_next_peer true none d = record d { crashed = true }
get_next_peer true (some p) d = record d {
  ready = false;
  delivered = d.delivered ++ (p ∷ []);
  rp = increment d.rp;
}

-- The parts of `getBootstrapPeer`.
unfoldable pub get_bootstrap_peer : DiscoveredPeers → DiscoveredPeers
get_bootstrap_peer d = if length d.p_array == 0 then d else record d { seeking = d.seeking + 1 }

abbrev pub load_pointer : ℕ → DiscoveredPeers → DiscoveredPeers
load_pointer zero d = d
load_pointer (suc k) d = record d { seeking = k; loaded = d.bp ∷ d.loaded }

abbrev pub compare_pointer : Option (ℕ × List ℕ) → DiscoveredPeers → DiscoveredPeers
compare_pointer none d = d
compare_pointer (some (v, vs)) d =
    if leb (length d.p_array) v
    then record d { loaded = vs; resetting = d.resetting + 1 }
    else record d { loaded = vs; chosen = d.chosen + 1 }

abbrev pub reset_pointer : ℕ → DiscoveredPeers → DiscoveredPeers
reset_pointer zero d = d
reset_pointer (suc k) d = record d { resetting = k; chosen = d.chosen + 1; bp = 0 }

-- The read of the array and the increment, under the lock.
abbrev pub take_peer : ℕ → Option AddrInfo → DiscoveredPeers → DiscoveredPeers
take_peer zero p d = d
take_peer (suc k) none d = record d { crashed = true }
take_peer (suc k) (some p) d = record d {
  chosen = k;
  requested = d.requested ++ (p ∷ []);
  bp = increment d.bp;
}

-- `getRandomPeer`, with what the generator gave before it is reduced.
abbrev pub get_random_peer : Option AddrInfo → DiscoveredPeers → DiscoveredPeers
get_random_peer none d = d
get_random_peer (some p) d = record d { requested = d.requested ++ (p ∷ []) }

unfoldable pub draw : ℕ → List AddrInfo → Option AddrInfo
draw r [] = none
draw r (p ∷ ps) = get_elem? (p ∷ ps) (r % length (p ∷ ps))

unfoldable pub peers_step : PeersEvent → DiscoveredPeers → DiscoveredPeers
peers_step (adds p) d = add_peer p d
peers_step (stores i) d = store_peer (pick i d.absent) d
peers_step (appends i) d = append_peer (pick i d.stored) d
peers_step (counts i) d = count_peer (pick i d.appended) d
peers_step looks d = record d { ready = next d }
peers_step reads d = get_next_peer d.ready (get_elem? d.p_array d.rp) d
peers_step seeks d = get_bootstrap_peer d
peers_step loads d = load_pointer d.seeking d
peers_step (compares i) d = compare_pointer (pick i d.loaded) d
peers_step resets d = reset_pointer d.resetting d
peers_step takes d = take_peer d.chosen (get_elem? d.p_array d.bp) d
peers_step (draws r) d = get_random_peer (draw r d.p_array) d

-- A crash ends the program.
unfoldable pub peers_run : List PeersEvent → DiscoveredPeers → DiscoveredPeers
peers_run [] d = d
peers_run (e ∷ es) d = let rest = peers_run es (peers_step e d) in if d.crashed then d else rest

-- `Peer`: the record for the database, and whether the peer had addresses.
unfoldable pub peer_record :
    {Attr : Type 0}
    → (List ℕ → Ip)
    → (List ℕ → List ℕ)
    → ℤ
    → NetworkType
    → AddrInfo
    → HostInfo Attr × Bool
peer_record parse_ipv6 print_ipv6 zero_time network p = elim p.addrs [
  | [] ↦ (new_host_info zero_time "" other_network [], false)
  | a ∷ as' ↦ (
    new_host_info zero_time p.id network (with_multiaddress parse_ipv6 print_ipv6 p.addrs ∷ []),
    true,
  )
]
