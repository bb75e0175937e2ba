-- ===== src/Db/Tables/Network.antt =====
-- pkg/db/postgresql/eth_status.go, eth_nodes.go, ethereum_msgs.go, ips.go and active_peers_backup.go: the statements that store
-- what the crawler learns of the nodes, the messages and the addresses of the network. How go-ethereum, zrnt and libp2p write their
-- values as texts is a parameter.
use armiarma.Base.{
  ℕ, ◌+◌, ◌/◌, ◌%◌, Option, none, some, String, List, [], ◌∷◌, ◌++◌, ltb, if◌then◌else◌,
}
use armiarma.Base.Int.{ℤ, pos}
use armiarma.Apis.Call.{IpInfo}
use armiarma.Ethereum.Node.{Status, MetaData}
use armiarma.Ethereum.Records.{EnrNode, TrackedAttestation, TrackedBeaconBlock}
use armiarma.Db.Sql.{
  text, bytes, int, bool, ints, instant, real, Statement, insert_into, no_conflict, do_nothing,
  do_update,
}
use armiarma.Ethereum.Stamps.{Stamped}
use armiarma.Db.Times.{unix}
use armiarma.Db.Tables.{
  ips_table, active_peers_table, eth_nodes_table, eth_status_table, eth_attestations_table,
  eth_blocks_table,
}

-- The texts of a fork digest, a root and two sets of subnets; of a node's id, address, keys and entry `eth2`.
pub record Texts (Key Eth2 : Type 0) : Type 0 where
  pub fork_digest_text : ℕ → String
  pub root_text : ℕ → String
  pub attnets_text : ℕ → String
  pub syncnets_text : ℕ → String
  pub id_text : List ℕ → String
  pub ip_text : List ℕ → String
  pub pubkey_text : Key → String
  pub peer_id_text : Key → Option String
  pub eth2_fork_text : Eth2 → String
  pub eth2_next_fork_text : Eth2 → String

-- `hex.EncodeToString`
unfoldable pub hex_digit : ℕ → ℕ
hex_digit n = if ltb n 10 then 48 + n else 87 + n

unfoldable pub encode_to_string : List ℕ → List ℕ
encode_to_string [] = []
encode_to_string (b ∷ bs) = hex_digit (b / 16) ∷ (hex_digit (b % 16) ∷ encode_to_string bs)

abbrev pub or_empty : Option String → String
or_empty none = ""
or_empty (some s) = s

module _ {F Key Eth2 : Type 0} (t : Texts Key Eth2) where
  unfoldable pub upsert_ethereum_node_status : Stamped Status → Statement F
  upsert_ethereum_node_status b =
      let columns =
        "peer_id" ∷ "timestamp" ∷ "fork_digest" ∷ "finalized_root" ∷ "finalized_epoch" ∷ "head_root"
        ∷ "head_slot" ∷ [] in
      insert_into eth_status_table columns (do_update columns) (
        text b.peer_id
        ∷ int (unix b.timestamp)
        ∷ text (t.fork_digest_text b.content.fork_digest)
        ∷ text (t.root_text b.content.finalized_root)
        ∷ int (pos b.content.finalized_epoch)
        ∷ text (t.root_text b.content.head_root)
        ∷ int (pos b.content.head_slot)
        ∷ [])

  unfoldable pub upsert_ethereum_node_metadata : Stamped MetaData → Statement F
  upsert_ethereum_node_metadata b =
      let columns = "peer_id" ∷ "timestamp" ∷ "seq_number" ∷ "attnets" ∷ "syncnets" ∷ [] in
      insert_into eth_status_table columns (do_update columns) (
        text b.peer_id
        ∷ int (unix b.timestamp)
        ∷ int (pos b.content.seq_number)
        ∷ text (t.attnets_text b.content.attnets)
        ∷ text (t.syncnets_text b.content.syncnets)
        ∷ [])

  unfoldable pub upsert_enr_info : EnrNode Key Eth2 → Statement F
  upsert_enr_info enr =
      insert_into eth_nodes_table
        ("timestamp" ∷ "peer_id" ∷ "node_id" ∷ "seq" ∷ "ip" ∷ "tcp" ∷ "udp" ∷ "pubkey"
          ∷ "fork_digest" ∷ "next_fork_version" ∷ "attnets" ∷ "attnets_number" ∷ [])
        (do_update (
          "timestamp" ∷ "seq" ∷ "ip" ∷ "tcp" ∷ "udp" ∷ "fork_digest" ∷ "next_fork_version"
          ∷ "attnets" ∷ "attnets_number" ∷ []))
        (int (unix enr.timestamp)
          ∷ text (or_empty (t.peer_id_text enr.pubkey))
          ∷ text (t.id_text enr.id)
          ∷ int (pos enr.seq)
          ∷ text (t.ip_text enr.ip)
          ∷ int (pos enr.tcp)
          ∷ int (pos enr.udp)
          ∷ text (t.pubkey_text enr.pubkey)
          ∷ text (t.eth2_fork_text enr.eth2_data)
          ∷ text (t.eth2_next_fork_text enr.eth2_data)
          ∷ bytes (encode_to_string enr.attnets.raw)
          ∷ int enr.attnets.net_number
          ∷ [])

abbrev pub ip_columns : List String
ip_columns =
    "expiration_time" ∷ "continent" ∷ "continent_code" ∷ "country" ∷ "country_code" ∷ "region"
    ∷ "region_name" ∷ "city" ∷ "zip" ∷ "lat" ∷ "lon" ∷ "isp" ∷ "org" ∷ "as_raw" ∷ "asname"
    ∷ "mobile" ∷ "proxy" ∷ "hosting" ∷ []

-- `getActivePeers`: a row is scanned, or its scan is an error.
unfoldable pub get_active_peers : List (Option ℤ) → List ℤ → Option (List ℤ)
get_active_peers [] peers = some peers
get_active_peers (none ∷ rows) peers = none
get_active_peers (some id ∷ rows) peers = get_active_peers rows (peers ++ (id ∷ []))

module _ {F : Type 0} where
  -- The first argument is the conversion of a duration to seconds as a float.
  unfoldable pub insert_new_ethereum_attestation : (ℤ → F) → TrackedAttestation → Statement F
  insert_new_ethereum_attestation seconds a =
      insert_into eth_attestations_table
        ("msg_id" ∷ "sender" ∷ "subnet" ∷ "slot" ∷ "arrival_time" ∷ "time_in_slot" ∷ "val_pubkey"
          ∷ [])
        do_nothing
        (text a.msg_id
          ∷ text a.sender
          ∷ int a.subnet
          ∷ int a.slot
          ∷ instant a.arrival_time
          ∷ real (seconds a.time_in_slot)
          ∷ text a.val_pubkey
          ∷ [])

  unfoldable pub insert_new_ethereum_beacon_block : (ℤ → F) → TrackedBeaconBlock → Statement F
  insert_new_ethereum_beacon_block seconds b =
      insert_into eth_blocks_table
        ("msg_id" ∷ "sender" ∷ "slot" ∷ "arrival_time" ∷ "time_in_slot" ∷ "val_idx" ∷ []) do_nothing
        (text b.msg_id
          ∷ text b.sender
          ∷ int b.slot
          ∷ instant b.arrival_time
          ∷ real (seconds b.time_in_slot)
          ∷ int b.val_index
          ∷ [])

  unfoldable pub upsert_ip_info : IpInfo F → Statement F
  upsert_ip_info i = insert_into ips_table ("ip" ∷ ip_columns) (do_update ip_columns) (
      text i.msg.ip
      ∷ instant i.expiration_time
      ∷ text i.msg.continent
      ∷ text i.msg.continent_code
      ∷ text i.msg.country
      ∷ text i.msg.country_code
      ∷ text i.msg.region
      ∷ text i.msg.region_name
      ∷ text i.msg.city
      ∷ text i.msg.zip
      ∷ real i.msg.lat
      ∷ real i.msg.lon
      ∷ text i.msg.isp
      ∷ text i.msg.org
      ∷ text i.msg.as_raw
      ∷ text i.msg.as_name
      ∷ bool i.msg.mobile
      ∷ bool i.msg.proxy
      ∷ bool i.msg.hosting
      ∷ [])

  -- What a backup ends in: the statement that is run, `none` for none, or an error.
  unfoldable pub active_peers_backup : ℤ → Option (List (Option ℤ)) → Option (Option (Statement F))
  active_peers_backup now none = none
  active_peers_backup now (some rows) = elim (get_active_peers rows []) [
    | none ↦ none
    | some [] ↦ some none
    | some (p ∷ peers) ↦ some (
        some (
          insert_into active_peers_table ("timestamp" ∷ "peers" ∷ []) no_conflict
            (instant now ∷ ints (p ∷ peers) ∷ [])))
  ]
