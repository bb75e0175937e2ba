-- ===== src/Hosts/Notify.antt =====
-- pkg/hosts/notify.go and identify.go: the notices of a connection and of its end. What libp2p, the identification and
-- the requests to the peer give are arguments; an error is its text.
pub mod Errors
use armiarma.Base.{
  ℕ, zero, suc, min, String, refl, sym, ap, inl, inr, Bool, true, false, not, Option, none, some,
  List, [], ◌∷◌, map, arith, eq_iff, eq_refl, str_eq, ltb, leb, if◌then◌else◌, ltb→lt, lt→ltb,
  leb→le, ==_iff, Bool-cases, Option-cases, All, length, get_elem?, take, drop, length-append,
  length-take, length-drop, take-append-drop, Dict, lookup, insert, delete, lookup-insert,
  lookup-delete,
}
use armiarma.Base.Int.{ℤ, pos}
use armiarma.Utils.Addresses.{Ip, extract_ip_from_maddr, ip_string}
use armiarma.Utils.UserAgent.{NetworkType}
use armiarma.Models.ConnEvent.{ConnDirection, inbound, outbound, unset, ConnInfo, EndConnInfo}
use armiarma.Models.HostInfo.{
  HostInfo, PeerInfo, new_host_info, with_multiaddress, add_att, is_host_identified,
}

-- Whether the host has the service and it is enabled, the time that the identification took, if it was in time, and what
-- the peerstore has of the peer.
pub record Identify : Type 0 where
  pub supported : Bool
  pub enabled : Bool
  pub rtt : Option ℤ
  pub protocol_version : Option String
  pub protocols : Option (List String)
  pub agent_version : Option String

pub record Conn : Type 0 where
  pub remote_peer : String
  pub direction : ConnDirection
  pub remote_maddr : Option (List ℕ)

abbrev pub get_or_empty : Option String → String
get_or_empty none = ""
get_or_empty (some s) = s

abbrev pub agent_error : Option String → String
agent_error none = "unable to identify peer"
agent_error (some ua) = "None"

abbrev pub get_or_none : Option (List String) → List String
get_or_none none = []
get_or_none (some ps) = ps

-- What a notice hands to the locator and to the two channels.
pub record ConnectNotice (Attr : Type 0) : Type 0 where
  pub located : List (List ℕ)
  pub peer_id : String
  pub event : ConnInfo Attr
  pub host_info : HostInfo Attr
  pub timestamp : ℤ

module _ {Attr : Type 0} where
  -- The part of `ReqHostInfo` behind the identification, with the text of the error.
  abbrev pub fill_host_info : String → Identify → Option ℤ → HostInfo Attr → HostInfo Attr × String
  fill_host_info peer_id i none h = (h, "identification error caused by timed out")
  fill_host_info peer_id i (some rtt) h =
      let info : PeerInfo = record {
        remote_peer = peer_id;
        user_agent = get_or_empty i.agent_version;
        protocol_version = get_or_empty i.protocol_version;
        protocols = get_or_none i.protocols;
        latency = rtt;
      } in
      (record h { peer_info = info }, agent_error i.agent_version)

  -- `ReqHostInfo` of a record whose `PeerInfo` is empty.
  unfoldable pub req_host_info : String → Identify → HostInfo Attr → HostInfo Attr × String
  req_host_info peer_id i h =
      if not i.supported
      then (h, "host does not support libp2p identify protocol")
      else if not i.enabled
      then (h, "libp2p identify not enabled on this host")
      else fill_host_info peer_id i i.rtt h

  -- The attribute of a request that had no error.
  abbrev pub note_attribute : String → Option Attr → HostInfo Attr → HostInfo Attr
  note_attribute key none h = h
  note_attribute key (some a) h = add_att key a h

  -- The status and the metadata are `none` after an error and in another network than Ethereum's.
  unfoldable pub standard_connect_f :
      (List ℕ → Ip)
      → (List ℕ → List ℕ)
      → ℤ
      → ℤ
      → NetworkType
      → Conn
      → Identify
      → Option Attr
      → Option Attr
      → ConnectNotice Attr
  standard_connect_f parse_ipv6 print_ipv6 zero_time t network conn i status metadata =
      let ip =
        ip_string parse_ipv6 print_ipv6
          (extract_ip_from_maddr parse_ipv6 print_ipv6 conn.remote_maddr) in
      let fresh =
        new_host_info zero_time conn.remote_peer network
          (with_multiaddress parse_ipv6 print_ipv6 (conn.remote_maddr ∷ []) ∷ []) in
      let (filled, error) = req_host_info conn.remote_peer i fresh in
      let h =
        note_attribute "beaconmetadata" metadata (note_attribute "beacon-status" status filled) in
      record {
        located = elim conn.direction [ inbound ↦ ip ∷ [] | outbound ↦ [] | unset ↦ [] ];
        peer_id = conn.remote_peer;
        event = record {
          direction = conn.direction;
          conn_time = t;
          latency = h.peer_info.latency;
          identified = is_host_identified h;
          att = [];
          error = error;
        };
        host_info = h;
        timestamp = t;
      }

unfoldable pub standard_disconnect_f : ℤ → Conn → String × EndConnInfo
standard_disconnect_f t conn = (conn.remote_peer, record { disc_time = t; conn_duration = pos 0 })
