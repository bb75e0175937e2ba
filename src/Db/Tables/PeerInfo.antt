-- ===== src/Db/Tables/PeerInfo.antt =====
-- pkg/db/postgresql/peer_info.go and connevents.go: the statements that store what the crawler learns of a peer.
use armiarma.Base.{Option, none, some, String, true, false, [], ◌∷◌}
use armiarma.Base.Int.{ℤ, pos}
use armiarma.Models.HostInfo.{HostInfo, PeerInfo}
use armiarma.Models.ConnAttempt.{
  ConnectionAttempt, AttemptStatus, positive_attempt, negative_attempt,
}
use armiarma.Models.ConnEvent.{ConnEvent, direction_index_to_string}
use armiarma.Utils.UserAgent.{NetworkType, ClientType}
use armiarma.Db.Sql.{
  text, bytes, int, bool, strings, texts, Statement, insert_into, update_where, no_conflict,
  do_update, null,
}
use armiarma.Db.Times.{unix, milliseconds}
use armiarma.Db.Tables.{peer_info_table, conn_events_table}

module _ {F : Type 0} where
  -- The first argument is the text of a network. The slice of the multiaddresses was made, as by `NewHostInfo`, and is not nil.
  unfoldable pub upsert_host_info : {A : Type 0} → (NetworkType → String) → HostInfo A → Statement F
  upsert_host_info network_text h =
      insert_into peer_info_table
        ("peer_id" ∷ "network" ∷ "multi_addrs" ∷ "ip" ∷ "port" ∷ "deprecated" ∷ [])
        (do_update ("multi_addrs" ∷ "ip" ∷ "port" ∷ "deprecated" ∷ []))
        (text h.id
          ∷ text (network_text h.network)
          ∷ texts h.maddrs
          ∷ bytes h.ip
          ∷ int h.port
          ∷ bool false
          ∷ [])

  -- The same function of `&models.HostInfo{}`, whose slice of multiaddresses is nil.
  unfoldable pub upsert_empty_host_info : Statement F
  upsert_empty_host_info =
      insert_into peer_info_table
        ("peer_id" ∷ "network" ∷ "multi_addrs" ∷ "ip" ∷ "port" ∷ "deprecated" ∷ [])
        (do_update ("multi_addrs" ∷ "ip" ∷ "port" ∷ "deprecated" ∷ []))
        (text "" ∷ text "" ∷ null ∷ bytes [] ∷ int (pos 0) ∷ bool false ∷ [])

  abbrev pub statement_by : ClientType → PeerInfo → Statement F
  statement_by c p =
      update_where peer_info_table
        ("user_agent" ∷ "client_name" ∷ "client_version" ∷ "client_os" ∷ "client_arch"
          ∷ "protocol_version" ∷ "sup_protocols" ∷ "latency" ∷ [])
        (text p.remote_peer
          ∷ text p.user_agent
          ∷ text c.cli_name
          ∷ bytes c.cli_version
          ∷ text c.cli_os
          ∷ text c.cli_arch
          ∷ text p.protocol_version
          ∷ strings p.protocols
          ∷ int (milliseconds p.latency)
          ∷ [])

  -- `none` is a panic of `ParseClientType`, which is handed the user agent.
  unfoldable pub update_peer_info : (String → Option ClientType) → PeerInfo → Option (Statement F)
  update_peer_info parse_client_type p = elim (parse_client_type p.user_agent) [
    | none ↦ none
    | some c ↦ some (statement_by c p)
  ]

  abbrev pub update_by_status : AttemptStatus → ConnectionAttempt → Statement F
  update_by_status positive_attempt a =
      update_where peer_info_table
        ("deprecated" ∷ "attempted" ∷ "last_activity" ∷ "last_conn_attempt" ∷ "last_error" ∷ [])
        (text a.remote_peer
          ∷ bool false
          ∷ bool true
          ∷ int (unix a.timestamp)
          ∷ int (unix a.timestamp)
          ∷ text a.error
          ∷ [])
  update_by_status negative_attempt a =
      update_where peer_info_table
        ("deprecated" ∷ "attempted" ∷ "last_conn_attempt" ∷ "last_error" ∷ [])
        (text a.remote_peer
          ∷ bool a.is_deprecable
          ∷ bool true
          ∷ int (unix a.timestamp)
          ∷ text a.error
          ∷ [])

  unfoldable pub update_conn_attempt : ConnectionAttempt → Statement F
  update_conn_attempt a = update_by_status a.status a

  unfoldable pub update_last_activity_timestamp : String → ℤ → Statement F
  update_last_activity_timestamp peer t =
      update_where peer_info_table ("last_activity" ∷ []) (text peer ∷ int (unix t) ∷ [])

  unfoldable pub insert_new_conn_event : {V : Type 0} → ConnEvent V → Statement F
  insert_new_conn_event e =
      insert_into conn_events_table
        ("peer_id" ∷ "direction" ∷ "conn_time" ∷ "latency" ∷ "disconn_time" ∷ "identified" ∷ "error"
          ∷ [])
        no_conflict
        (text e.peer_id
          ∷ text (direction_index_to_string e.conn.direction)
          ∷ int (unix e.conn.conn_time)
          ∷ int (milliseconds e.conn.latency)
          ∷ int (unix e.disc.disc_time)
          ∷ bool e.conn.identified
          ∷ text e.conn.error
          ∷ [])
