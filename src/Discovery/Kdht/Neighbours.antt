-- ===== src/Discovery/Kdht/Neighbours.antt =====
-- pkg/discovery/kdht/neighbours.go: what the requests for the neighbours of a peer leave, and what is noted of a peer. The requests run at
-- the same time; they are listed in the order in which they end, and
-- the bits of an error are stored when its request ends. The order in which Go visits a map is an argument.
use armiarma.Base.{
  ℕ, ◌%◌, ◌^◌, String, Bool, true, false, Option, none, some, List, [], ◌∷◌, if◌then◌else◌, Dict,
  insert,
}
use armiarma.Base.Int.{ℤ, pos}
use armiarma.Utils.Addresses.{Ip, extract_ip_from_maddr, is_ip_public}
use armiarma.Utils.UserAgent.{NetworkType}
use armiarma.Models.HostInfo.{
  AddrInfo, HostInfo, new_host_info, with_multiaddress, new_peer_info, identify_host,
}

pub data Fetched : Type 0 where
  no_random_peer_id no_closest_peers : Fetched
  got_closest_peers : List AddrInfo → Fetched

-- What the requests share: the neighbours by their ids, the bits of the errors and the first error, with its prefix length.
pub record Fetching : Type 0 where
  pub all_neighbors : Dict AddrInfo
  pub error_bits : ℕ
  pub first_error : Option (Fetched × ℕ)

abbrev pub or_first : Option (Fetched × ℕ) → Fetched × ℕ → Option (Fetched × ℕ)
or_first none e = some e
or_first (some before) e = some before

-- `atomic.StoreUint32(&errorBits, 1<<count)` and the error that is returned to the group.
abbrev pub fail : Fetched → ℕ → Fetching → Fetching
fail e count s = record s {
  error_bits = 2 ^ count % 2 ^ 32;
  first_error = or_first s.first_error (e, count);
}

unfoldable pub add_neighbors : List AddrInfo → Dict AddrInfo → Dict AddrInfo
add_neighbors [] all = all
add_neighbors (n ∷ ns) all = add_neighbors ns (insert n.id n all)

unfoldable pub fetch : ℕ → Fetched → Fetching → Fetching
fetch count no_random_peer_id s = fail no_random_peer_id count s
fetch count no_closest_peers s = fail no_closest_peers count s
fetch count (got_closest_peers ns) s = record s { all_neighbors = add_neighbors ns s.all_neighbors }

unfoldable pub fetch_all : List (ℕ × Fetched) → Fetching → Fetching
fetch_all [] s = s
fetch_all ((count, f) ∷ rest) s = fetch_all rest (fetch count f s)

pub record RoutingTable : Type 0 where
  pub peer_id : String
  pub neighbors : List AddrInfo
  pub error : Option (Fetched × ℕ)
  pub error_bits : ℕ

abbrev pub values : Dict AddrInfo → List AddrInfo
values [] = []
values ((id, n) ∷ rest) = n ∷ values rest

-- The routing table of the library is made without an error, for one that is refused gives no result.
unfoldable pub fetch_neighbors :
    (List AddrInfo → List AddrInfo) → String → List (ℕ × Fetched) → RoutingTable
fetch_neighbors order id ended =
    let s = fetch_all ended (record { all_neighbors = []; error_bits = 0; first_error = none }) in
    record {
      peer_id = id;
      neighbors = order (values s.all_neighbors);
      error = s.first_error;
      error_bits = s.error_bits % 2 ^ 16;
    }

abbrev pub text_or_empty : Option String → String
text_or_empty none = ""
text_or_empty (some s) = s

module _ (parse_ipv6 : List ℕ → Ip) (print_ipv6 : List ℕ → List ℕ) where
  unfoldable pub public_addrs : List (Option (List ℕ)) → List (Option (List ℕ))
  public_addrs [] = []
  public_addrs (a ∷ addrs) =
      let rest = public_addrs addrs in
      if is_ip_public (extract_ip_from_maddr parse_ipv6 print_ipv6 a) then a ∷ rest else rest

module _ {Attr : Type 0} (parse_ipv6 : List ℕ → Ip) (print_ipv6 : List ℕ → List ℕ) where
  -- The agent and the version of the protocol that the peerstore has; whether there is no error. The protocols are copied into a
  -- slice of length 0, and there are none.
  unfoldable pub req_ipfs_peer_info :
      Option String → Option String → String → HostInfo Attr → HostInfo Attr × Bool
  req_ipfs_peer_info agent_version protocol_version id h = (
    identify_host
        (new_peer_info id (text_or_empty agent_version) (text_or_empty protocol_version) [] (pos 0))
        h,
    elim agent_version [ none ↦ false | some ua ↦ true ],
  )

  unfoldable pub extract_host_info :
      ℤ → NetworkType → Option String → Option String → AddrInfo → HostInfo Attr
  extract_host_info zero_time network agent_version protocol_version p =
      (req_ipfs_peer_info agent_version protocol_version p.id (
        new_host_info zero_time p.id network (
          with_multiaddress parse_ipv6 print_ipv6 (public_addrs parse_ipv6 print_ipv6 p.addrs)
          ∷ []))).0
