-- ===== src/Models/HostInfo.antt =====
-- pkg/db/models/peer_info.go: the records of a peer and their options. A time is a number of nanoseconds; the values of the
-- attributes are not read.
use armiarma.Base.{
  ℕ, String, Bool, true, false, not, ◌||◌, Option, none, some, List, [], ◌∷◌, ◌++◌, str_eq, ltb,
  if◌then◌else◌, length, Dict, insert,
}
use armiarma.Base.Int.{ℤ, pos}
use armiarma.Utils.Addresses.{
  Ip, extract_ip_from_maddr, get_port_from_maddrs, is_ip_public, ip_string,
}
use armiarma.Utils.UserAgent.{NetworkType}
use armiarma.Base.Text.{codes}

pub record PeerInfo : Type 0 where
  pub remote_peer : String
  pub user_agent : String
  pub protocol_version : String
  pub protocols : List String
  pub latency : ℤ

pub record ControlInfo : Type 0 where
  pub deprecated : Bool
  pub left_network : Bool
  pub attempted : Bool
  pub last_activity : ℤ
  pub last_conn_attempt : ℤ
  pub last_error : String

-- A multiaddress is nil or its text.
pub record HostInfo (Attr : Type 0) : Type 0 where
  pub id : String
  pub ip : List ℕ
  pub port : ℤ
  pub maddrs : List (Option (List ℕ))
  pub network : NetworkType
  pub peer_info : PeerInfo
  pub control_info : ControlInfo
  pub attr : Dict Attr

pub record AddrInfo : Type 0 where
  pub id : String
  pub addrs : List (Option (List ℕ))

pub record RemoteConnectablePeer : Type 0 where
  pub id : String
  pub addrs : List (Option (List ℕ))
  pub network : NetworkType

abbrev pub empty_peer_info : PeerInfo
empty_peer_info = record {
  remote_peer = "";
  user_agent = "";
  protocol_version = "";
  protocols = [];
  latency = pos 0;
}

-- `zero_time` is the time of year 1.
abbrev pub empty_control_info : ℤ → ControlInfo
empty_control_info zero_time = record {
  deprecated = false;
  left_network = false;
  attempted = false;
  last_activity = zero_time;
  last_conn_attempt = zero_time;
  last_error = "";
}

unfoldable pub new_peer_info : String → String → String → List String → ℤ → PeerInfo
new_peer_info remote_peer user_agent protocol_version protocols latency = record {
  remote_peer = remote_peer;
  user_agent = user_agent;
  protocol_version = protocol_version;
  protocols = protocols;
  latency = latency;
}

unfoldable pub is_peer_identified : PeerInfo → Bool
is_peer_identified p =
    not (str_eq p.user_agent "")
    || (not (str_eq p.protocol_version "") || ltb 0 (length p.protocols))

-- The IP and the port of the first multiaddress with a public IP.
unfoldable pub first_public :
    (List ℕ → Ip) → (List ℕ → List ℕ) → List (Option (List ℕ)) → List ℕ × ℤ
first_public parse_ipv6 print_ipv6 [] = ([], pos 0)
first_public parse_ipv6 print_ipv6 (addr ∷ addrs) =
    let ip = extract_ip_from_maddr parse_ipv6 print_ipv6 addr in
    if is_ip_public ip
    then (ip_string parse_ipv6 print_ipv6 ip, get_port_from_maddrs parse_ipv6 print_ipv6 addr)
    else first_public parse_ipv6 print_ipv6 addrs

-- An option changes the record and says whether it had no error.
abbrev pub RemoteHostOption : Type 0 → Type 0
RemoteHostOption Attr = HostInfo Attr → HostInfo Attr × Bool

module _ {Attr : Type 0} where
  unfoldable pub apply_options : List (RemoteHostOption Attr) → HostInfo Attr → HostInfo Attr
  apply_options [] h = h
  apply_options (opt ∷ opts) h = apply_options opts (opt h).0

  unfoldable pub new_host_info :
      ℤ → String → NetworkType → List (RemoteHostOption Attr) → HostInfo Attr
  new_host_info zero_time peer_id network opts = apply_options opts (record {
    id = peer_id;
    ip = [];
    port = pos 0;
    maddrs = [];
    network = network;
    peer_info = empty_peer_info;
    control_info = empty_control_info zero_time;
    attr = [];
  })

  -- `new_multiaddr` is the library's parser, with the text of what it parsed.
  unfoldable pub with_ip_and_ports :
      (List ℕ → Option (List ℕ)) → (ℤ → List ℕ) → List ℕ → ℤ → RemoteHostOption Attr
  with_ip_and_ports new_multiaddr print_int ip port h =
      let h' = record h { ip = ip; port = port } in
      elim (new_multiaddr (codes "/ip4/" ++ (ip ++ (codes "/tcp/" ++ print_int port)))) [
        | none ↦ (h', false)
        | some maddr ↦ (record h' { maddrs = h.maddrs ++ (some maddr ∷ []) }, true)
      ]

  module _ (parse_ipv6 : List ℕ → Ip) (print_ipv6 : List ℕ → List ℕ) where
    unfoldable pub with_multiaddress : List (Option (List ℕ)) → RemoteHostOption Attr
    with_multiaddress maddrs h =
        let (pub_ip, port) = first_public parse_ipv6 print_ipv6 maddrs in
        (record h { maddrs = h.maddrs ++ maddrs; ip = pub_ip; port = port }, true)

  unfoldable pub compose_addrs_info : HostInfo Attr → AddrInfo
  compose_addrs_info h = record { id = h.id; addrs = h.maddrs }

  unfoldable pub compose_persistable : HostInfo Attr → RemoteConnectablePeer
  compose_persistable h = record { id = h.id; addrs = h.maddrs; network = h.network }

  unfoldable pub add_att : String → Attr → HostInfo Attr → HostInfo Attr
  add_att key attr h = record h { attr = insert key attr h.attr }

  unfoldable pub identify_host : PeerInfo → HostInfo Attr → HostInfo Attr
  identify_host p h = record h { peer_info = p }

  unfoldable pub is_host_identified : HostInfo Attr → Bool
  is_host_identified h = is_peer_identified h.peer_info
