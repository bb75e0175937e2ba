-- ===== src/Db/Tables.antt =====
-- The tables of pkg/db/postgresql, as the `CREATE TABLE` statements of its files declare them.
pub mod Typed
pub mod PeerInfo
pub mod Network
use armiarma.Base.{String, List, [], ◌∷◌}
use armiarma.Db.Sql.{
  Table, nullable, required, serial, text_kind, int4, int8, bool_kind, text_array, int8_array,
  timestamp, time_kind, real_kind,
}

abbrev pub peer_info_table : Table
peer_info_table = record {
  table_name = "peer_info";
  columns =
      nullable "id" serial
      ∷ required "peer_id" text_kind
      ∷ required "network" text_kind
      ∷ required "multi_addrs" text_array
      ∷ required "ip" text_kind
      ∷ nullable "port" int4
      ∷ nullable "user_agent" text_kind
      ∷ nullable "client_name" text_kind
      ∷ nullable "client_version" text_kind
      ∷ nullable "client_os" text_kind
      ∷ nullable "client_arch" text_kind
      ∷ nullable "protocol_version" text_kind
      ∷ nullable "sup_protocols" text_array
      ∷ nullable "latency" int4
      ∷ nullable "deprecated" bool_kind
      ∷ nullable "attempted" bool_kind
      ∷ nullable "last_activity" int8
      ∷ nullable "last_conn_attempt" int8
      ∷ nullable "last_error" text_kind
      ∷ [];
  primary_key = "peer_id";
  unique = [];
}

abbrev pub conn_events_table : Table
conn_events_table = record {
  table_name = "conn_events";
  columns =
      nullable "id" serial
      ∷ required "peer_id" text_kind
      ∷ required "direction" text_kind
      ∷ required "conn_time" int8
      ∷ nullable "latency" int8
      ∷ required "disconn_time" int8
      ∷ nullable "identified" bool_kind
      ∷ required "error" text_kind
      ∷ [];
  primary_key = "id";
  unique = [];
}

abbrev pub ips_table : Table
ips_table = record {
  table_name = "ips";
  columns =
      nullable "id" serial
      ∷ required "ip" text_kind
      ∷ required "expiration_time" timestamp
      ∷ required "continent" text_kind
      ∷ required "continent_code" text_kind
      ∷ required "country" text_kind
      ∷ required "country_code" text_kind
      ∷ required "region" text_kind
      ∷ required "region_name" text_kind
      ∷ required "city" text_kind
      ∷ required "zip" text_kind
      ∷ required "lat" real_kind
      ∷ required "lon" real_kind
      ∷ required "isp" text_kind
      ∷ required "org" text_kind
      ∷ required "as_raw" text_kind
      ∷ required "asname" text_kind
      ∷ required "mobile" bool_kind
      ∷ required "proxy" bool_kind
      ∷ required "hosting" bool_kind
      ∷ [];
  primary_key = "ip";
  unique = [];
}

abbrev pub active_peers_table : Table
active_peers_table = record {
  table_name = "active_peers";
  columns =
      nullable "id" serial ∷ nullable "timestamp" timestamp ∷ nullable "peers" int8_array ∷ [];
  primary_key = "timestamp";
  unique = [];
}

abbrev pub eth_nodes_table : Table
eth_nodes_table = record {
  table_name = "eth_nodes";
  columns =
      nullable "id" serial
      ∷ required "timestamp" int8
      ∷ nullable "peer_id" text_kind
      ∷ required "node_id" text_kind
      ∷ required "seq" int8
      ∷ required "ip" text_kind
      ∷ nullable "tcp" int4
      ∷ nullable "udp" int4
      ∷ required "pubkey" text_kind
      ∷ nullable "fork_digest" text_kind
      ∷ nullable "next_fork_version" text_kind
      ∷ nullable "attnets" text_kind
      ∷ nullable "attnets_number" int4
      ∷ [];
  primary_key = "node_id";
  unique = ("peer_id" ∷ "pubkey" ∷ []) ∷ [];
}

abbrev pub eth_status_table : Table
eth_status_table = record {
  table_name = "eth_status";
  columns =
      nullable "id" serial
      ∷ nullable "peer_id" text_kind
      ∷ nullable "timestamp" int8
      ∷ nullable "fork_digest" text_kind
      ∷ nullable "finalized_root" text_kind
      ∷ nullable "finalized_epoch" int8
      ∷ nullable "head_root" text_kind
      ∷ nullable "head_slot" int8
      ∷ nullable "seq_number" int8
      ∷ nullable "attnets" text_kind
      ∷ nullable "syncnets" text_kind
      ∷ [];
  primary_key = "peer_id";
  unique = [];
}

abbrev pub eth_attestations_table : Table
eth_attestations_table = record {
  table_name = "eth_attestations";
  columns =
      nullable "id" serial
      ∷ required "msg_id" text_kind
      ∷ required "sender" text_kind
      ∷ required "subnet" int4
      ∷ required "slot" int8
      ∷ required "arrival_time" time_kind
      ∷ required "time_in_slot" real_kind
      ∷ nullable "val_pubkey" text_kind
      ∷ [];
  primary_key = "msg_id";
  unique = [];
}

abbrev pub eth_blocks_table : Table
eth_blocks_table = record {
  table_name = "eth_blocks";
  columns =
      nullable "id" serial
      ∷ required "msg_id" text_kind
      ∷ required "sender" text_kind
      ∷ required "slot" int8
      ∷ required "arrival_time" time_kind
      ∷ required "time_in_slot" real_kind
      ∷ nullable "val_idx" int8
      ∷ [];
  primary_key = "msg_id";
  unique = [];
}
