-- ===== src/Db/Peers/Tests.antt =====
-- A peer stored in a database in memory.
use armiarma.Base.{ℕ, ◌^◌, ◌≡◌, refl, Option, none, some, String, true, false, ◌&&◌, List, [], ◌∷◌}
use armiarma.Base.Int.{ℤ, pos}
use armiarma.Models.HostInfo.{
  HostInfo, PeerInfo, empty_peer_info, empty_control_info, RemoteConnectablePeer,
}
use armiarma.Models.ConnAttempt.{ConnectionAttempt, positive_attempt, negative_attempt}
use armiarma.Utils.UserAgent.{NetworkType, ethereum_network, ClientType}
use armiarma.Ethereum.Node.{MetaData}
use armiarma.Db.Sql.{
  Row, in_int4, in_int8, text, texts, is_typed, has_kinds, fit_columns, column_of, takes, fits,
  is_full, is_clean, are_clean, are_taken, text_list, gives_required, are_in, is_in, arguments,
}
use armiarma.Db.Sql.Memory.{memory, memory-IsLawful, has_no_nul}
use armiarma.Db.Times.{unix, milliseconds}
use armiarma.Db.Tables.PeerInfo.{upsert_host_info, update_conn_attempt}
use armiarma.Ethereum.Stamps.{Stamped}
use armiarma.Db.Tables.Network.{Texts, upsert_ethereum_node_metadata}
use armiarma.Db.Tables.Typed.{
  Stored, host, conn_attempt, node_metadata, statement_of, in_range, statement_of-IsTyped,
}
use armiarma.Db.Peers.{get_full_host_info}
use armiarma.Db.Peers.Listing.{get_full_host_info-upsert_host_info}

abbrev network_text : NetworkType → String
network_text n = "Ethereum"

abbrev network_of : String → NetworkType
network_of s = ethereum_network

abbrev any_multiaddr : List ℕ → Option (List ℕ)
any_multiaddr m = some m

abbrev empty : String → String → Option (Row ℕ)
empty name key = none

abbrev some_host : HostInfo ℕ
some_host = record {
  id = "p";
  ip = 49 ∷ [];
  port = pos 9000;
  maddrs = some (47 ∷ []) ∷ [];
  network = ethereum_network;
  peer_info = empty_peer_info;
  control_info = empty_control_info (pos 0);
  attr = [];
}

abbrev some_peer : PeerInfo
some_peer = record {
  remote_peer = "p";
  user_agent = "Lighthouse/v1";
  protocol_version = "v";
  protocols = "a" ∷ [];
  latency = pos 1234567;
}

abbrev some_attempt : ConnectionAttempt
some_attempt = record {
  remote_peer = "p";
  timestamp = pos 63000000000000000007;
  status = positive_attempt;
  error = "None";
  is_deprecable = false;
  left_network = false;
}

abbrev failed_attempt : ConnectionAttempt
failed_attempt = record some_attempt { status = negative_attempt; is_deprecable = true }

abbrev some_client : ClientType
some_client = record {
  cli_name = "lighthouse";
  cli_version = [];
  cli_os = "linux";
  cli_arch = "x86";
}

get_full_host_info-upsert_host_info_example :
    get_full_host_info
      (memory ℕ)
      any_multiaddr
      network_of
      {A = ℕ}
      "p"
      ((memory ℕ).execute (upsert_host_info network_text some_host) empty)
    ≡ none
unfolding is_typed has_kinds fit_columns column_of takes fits is_full is_clean are_clean are_taken
    text_list gives_required are_in is_in in_int4 in_int8 unix milliseconds has_no_nul
    upsert_host_info
get_full_host_info-upsert_host_info_example =
    get_full_host_info-upsert_host_info (memory-IsLawful ℕ) any_multiaddr network_of network_text
      some_host empty refl refl

abbrev one_row : String → String → Option (Row ℕ)
one_row name key =
    some (("network", text "Ethereum") ∷ ("multi_addrs", texts (some (47 ∷ []) ∷ [])) ∷ [])

abbrev the_peer : RemoteConnectablePeer
the_peer = record { id = "p"; addrs = some (47 ∷ []) ∷ []; network = ethereum_network }

abbrev texts_of_nodes : Texts ℕ ℕ
texts_of_nodes = record {
  fork_digest_text = λ _. "0x";
  root_text = λ _. "0x";
  attnets_text = λ _. "0x";
  syncnets_text = λ _. "0x";
  id_text = λ _. "id";
  ip_text = λ _. "1.2.3.4";
  pubkey_text = λ _. "key";
  peer_id_text = λ _. none;
  eth2_fork_text = λ _. "0x";
  eth2_next_fork_text = λ _. "0x";
}

abbrev seconds_of : ℤ → ℕ
seconds_of t = 0

abbrev any_client : String → Option ClientType
any_client s = some some_client

-- A node that says a sequence number of 2^63.
abbrev far_metadata : Stamped MetaData
far_metadata = record {
  timestamp = pos 63000000000000000007;
  peer_id = "p";
  content = record { seq_number = 2 ^ 63; attnets = 0; syncnets = 0 };
}

statement_of-IsTyped_example :
    is_typed {F = ℕ} has_no_nul (upsert_ethereum_node_metadata texts_of_nodes far_metadata)
    ≡ in_range {F = ℕ} {A = ℕ} {V = ℕ} {Key = ℕ} {Eth2 = ℕ} (node_metadata far_metadata)
      && are_clean {F = ℕ} has_no_nul
          (arguments {F = ℕ} (upsert_ethereum_node_metadata texts_of_nodes far_metadata))
unfolding statement_of
statement_of-IsTyped_example =
    statement_of-IsTyped texts_of_nodes network_text any_client seconds_of has_no_nul
      (node_metadata far_metadata) (upsert_ethereum_node_metadata texts_of_nodes far_metadata) refl

abbrev two_items : List (Stored ℕ ℕ ℕ ℕ ℕ)
two_items = host some_host ∷ conn_attempt failed_attempt ∷ []

abbrev after_two : String → String → Option (Row ℕ)
after_two =
    (memory ℕ).execute (update_conn_attempt failed_attempt)
      ((memory ℕ).execute (upsert_host_info network_text some_host) empty)
