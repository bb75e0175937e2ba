-- ===== src/Db/Peers.antt =====
-- pkg/db/postgresql/peer_info.go: what is read back of the table `peer_info`. The database is a parameter, and so are the
-- library's parsers of multiaddresses and peer ids. A result of an operation that is `none` is an error.
pub mod View
mod Writes
mod Tests
pub mod RoundTrip
pub mod Listing
use armiarma.Base.{
  ℕ, Option, none, some, String, Bool, true, false, List, [], ◌∷◌, ◌++◌, map, if◌then◌else◌,
}
use armiarma.Base.Int.{ℤ, pos}
use armiarma.Models.HostInfo.{
  HostInfo, PeerInfo, ControlInfo, RemoteConnectablePeer, new_host_info, empty_peer_info,
}
use armiarma.Utils.UserAgent.{NetworkType, ethereum_network}
use armiarma.Db.Sql.{
  Kind, text_kind, int4, int8, bool_kind, text_array, Value, text, bytes, int, bool, strings, texts,
  Row, Database, cell,
}
use armiarma.Db.Times.{from_unix, of_milliseconds}

infixl 5 ◌>>=◌
abbrev pub ◌>>=◌ {ℓ κ} : {A : Type ℓ} {B : Type κ} → Option A → (A → Option B) → Option B
none >>= f = none
some a >>= f = f a

-- What a variable of Go holds after a scan without an error.
module _ {F : Type 0} where
  abbrev pub text_of : Value F → String
  text_of (text s) = s
  text_of v = ""

  abbrev pub bytes_of : Value F → List ℕ
  bytes_of (bytes s) = s
  bytes_of v = []

  abbrev pub int_of : Value F → ℤ
  int_of (int n) = n
  int_of v = pos 0

  abbrev pub bool_of : Value F → Bool
  bool_of (bool b) = b
  bool_of v = false

  abbrev pub strings_of : Value F → List String
  strings_of (strings ss) = ss
  strings_of v = []

  abbrev pub texts_of : Value F → List (Option (List ℕ))
  texts_of (texts ts) = ts
  texts_of v = []

-- The loop over the texts of multiaddresses that ends at the first error; a `NULL` among them is none of the texts.
unfoldable pub parse_all :
    (List ℕ → Option (List ℕ)) → List (Option (List ℕ)) → Option (List (Option (List ℕ)))
parse_all new_multiaddr [] = some []
parse_all new_multiaddr (none ∷ rest) = none
parse_all new_multiaddr (some t ∷ rest) =
    let others = parse_all new_multiaddr rest in
    (do m ← new_multiaddr t; ms ← others; some (some m ∷ ms))

-- The loop that logs an error and goes on.
unfoldable pub parse_some : (List ℕ → Option (List ℕ)) → List (List ℕ) → List (Option (List ℕ))
parse_some new_multiaddr [] = []
parse_some new_multiaddr (t ∷ rest) = elim (new_multiaddr t) [
  | none ↦ parse_some new_multiaddr rest
  | some m ↦ some m ∷ parse_some new_multiaddr rest
]

module _ {F : Type 0} (d : Database F) (new_multiaddr : List ℕ → Option (List ℕ))
    (network_of : String → NetworkType) where
  abbrev scan_cell : Kind → String → Row F → Option (Value F)
  scan_cell kind name r = d.scan kind (cell name r)

  unfoldable pub get_full_host_info : {A : Type 0} → String → d.State → Option (HostInfo A)
  get_full_host_info id s = do
    r ← d.select s "peer_info" id
    network ← scan_cell text_kind "network" r
    maddresses ← scan_cell text_array "multi_addrs" r
    ip ← scan_cell text_kind "ip" r
    port ← scan_cell int4 "port" r
    user_agent ← scan_cell text_kind "user_agent" r
    protocol_version ← scan_cell text_kind "protocol_version" r
    protocols ← scan_cell text_array "sup_protocols" r
    latency ← scan_cell int4 "latency" r
    deprecated ← scan_cell bool_kind "deprecated" r
    attempted ← scan_cell bool_kind "attempted" r
    last_activity ← scan_cell int8 "last_activity" r
    last_conn_attempt ← scan_cell int8 "last_conn_attempt" r
    last_error ← scan_cell text_kind "last_error" r
    maddrs ← parse_all new_multiaddr (texts_of maddresses)
    some (record {
      id = id;
      ip = bytes_of ip;
      port = int_of port;
      maddrs = maddrs;
      network = network_of (text_of network);
      peer_info = record {
        remote_peer = id;
        user_agent = text_of user_agent;
        protocol_version = text_of protocol_version;
        protocols = strings_of protocols;
        latency = of_milliseconds (int_of latency);
      };
      control_info = record {
        deprecated = bool_of deprecated;
        left_network = false;
        attempted = bool_of attempted;
        last_activity = from_unix (int_of last_activity);
        last_conn_attempt = from_unix (int_of last_conn_attempt);
        last_error = text_of last_error;
      };
      attr = [];
    })

  -- Without a row the multiaddresses are empty and so is the network; `decode` is the library's parser of a peer id.
  unfoldable pub get_persistable :
      (String → Option String) → String → d.State → Option RemoteConnectablePeer
  get_persistable decode id s = do
    (network, maddresses) ← elim (d.select s "peer_info" id) [
      | none ↦ some ("", [])
      | some r ↦ do
        network ← scan_cell text_kind "network" r
        maddresses ← scan_cell text_array "multi_addrs" r
        some (text_of network, texts_of maddresses)
    ]
    maddrs ← parse_all new_multiaddr maddresses
    peer_id ← decode id
    some (record { id = peer_id; addrs = maddrs; network = network_of network })

  -- The error of the query is none, `pgx.ErrNoRows` or another.
  unfoldable pub peer_info_exists : Bool → String → d.State → Bool
  peer_info_exists fails id s = if fails then false else elim (d.select s "peer_info" id) [
    | none ↦ true
    | some r ↦ elim (scan_cell text_kind "peer_id" r) [ none ↦ false | some v ↦ true ]
  ]

-- A row that is scanned: the peer id, the network and the multiaddresses as texts, or an error of the scan.
abbrev pub PeerRow : Type 0
PeerRow = Option (String × String × List (List ℕ))

module _ (decode : String → Option String) (new_multiaddr : List ℕ → Option (List ℕ))
    (network_of : String → NetworkType) where
  -- The peers, and whether there is no error.
  unfoldable pub read_rows :
      List PeerRow → List RemoteConnectablePeer → List RemoteConnectablePeer × Bool
  read_rows [] peers = (peers, true)
  read_rows (none ∷ rows) peers = (peers, false)
  read_rows (some (id, network, maddresses) ∷ rows) peers = read_rows rows (elim (decode id) [
    | none ↦ peers
    | some peer_id ↦
        peers
        ++ (record {
          id = peer_id;
          addrs = parse_some new_multiaddr maddresses;
          network = network_of network;
        }
            ∷ [])
  ])

  -- `none` is an error of the query.
  unfoldable pub get_non_deprecated_peers :
      Option (List PeerRow) → List RemoteConnectablePeer × Bool
  get_non_deprecated_peers none = ([], false)
  get_non_deprecated_peers (some rows) = read_rows rows []
