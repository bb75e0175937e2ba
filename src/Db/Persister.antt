-- ===== src/Db/Persister.antt =====
-- `launchPersister` of pkg/db/postgresql/server.go: the routine that turns the items it receives into queries and flushes
-- them in batches. `V` is the type of what only the queries look into: attributes, IP infos and messages. A query is named like
-- the function that makes its text and holds that function's arguments.
pub mod Flushes
pub mod Pair
use armiarma.Base.{
  ℕ, zero, suc, min, String, refl, sym, ap, inl, inr, Bool, true, false, not, ◌&&◌, ◌||◌, Option,
  none, some, List, [], ◌∷◌, ◌++◌, map, arith, eq_iff, eq_refl, str_eq, ltb, leb, ◌==◌,
  if◌then◌else◌, ltb→lt, lt→ltb, leb→le, ==_iff, Bool-cases, Option-cases, All, length, get_elem?,
  take, drop, length-append, length-take, length-drop, take-append-drop, Dict, lookup, insert,
  delete, lookup-insert, lookup-delete,
}
use armiarma.Base.Int.{ℤ}
use armiarma.Models.ConnAttempt.{ConnectionAttempt}
use armiarma.Models.ConnEvent.{ConnEvent}
use armiarma.Db.Batch.{
  QueryBatch, Reply, new_query_batch, add_query, is_ready_to_persist, persist_batch,
}

pub record PeerInfo : Type 0 where
  pub remote_peer : String
  pub user_agent : String
  pub protocol_version : String
  pub protocols : List String

-- The attributes that the routine knows, by their types.
pub data Attr (V : Type 0) : Type 0 where
  beacon_status beacon_metadata enr_node unknown_attr : V → Attr V

-- The part of a `HostInfo` that the routine looks into, its attributes in the order in which the map is visited.
pub record Host (V : Type 0) : Type 0 where
  pub id : String
  pub peer_info : PeerInfo
  pub attrs : List (Attr V)

pub data Item (V : Type 0) : Type 0 where
  host_info : Host V → Item V
  peer_info : PeerInfo → Item V
  connection_attempt : ConnectionAttempt → Item V
  conn_event : ConnEvent V → Item V
  ip_info tracked_attestation tracked_beacon_block other_message unknown_item : V → Item V

pub data Query (V : Type 0) : Type 0 where
  upsert_host_info : Host V → Query V
  update_peer_info : PeerInfo → Query V
  upsert_ethereum_node_status upsert_ethereum_node_metadata upsert_enr_info : V → Query V
  update_conn_attempt : ConnectionAttempt → Query V
  insert_new_conn_event : ConnEvent V → Query V
  update_last_activity_timestamp : String → ℤ → Query V
  upsert_ip_info insert_new_ethereum_attestation insert_new_ethereum_beacon_block : V → Query V

-- `IsPeerIdentified` of pkg/db/models/peer_info.go.
unfoldable pub is_peer_identified : PeerInfo → Bool
is_peer_identified p =
    not (str_eq p.user_agent "") || not (str_eq p.protocol_version "") || ltb 0 (length p.protocols)

module _ {V : Type 0} where
  abbrev pub attr_queries : List (Attr V) → List (Query V)
  attr_queries [] = []
  attr_queries (beacon_status v ∷ atts) = upsert_ethereum_node_status v ∷ attr_queries atts
  attr_queries (beacon_metadata v ∷ atts) = upsert_ethereum_node_metadata v ∷ attr_queries atts
  attr_queries (enr_node v ∷ atts) = upsert_enr_info v ∷ attr_queries atts
  attr_queries (unknown_attr v ∷ atts) = attr_queries atts

  -- The queries that the `switch` on the type of an item adds, in their order. The first argument is `persistConnEvents`.
  unfoldable pub queries_of : Bool → Item V → List (Query V)
  queries_of b (host_info h) =
      upsert_host_info h
      ∷ ((if is_peer_identified h.peer_info then update_peer_info h.peer_info ∷ [] else [])
          ++ attr_queries h.attrs)
  queries_of b (peer_info p) = update_peer_info p ∷ []
  queries_of b (connection_attempt a) = update_conn_attempt a ∷ []
  queries_of b (conn_event e) =
      (if b then insert_new_conn_event e ∷ [] else [])
      ++ (update_last_activity_timestamp e.peer_id e.disc.disc_time ∷ [])
  queries_of b (ip_info v) = upsert_ip_info v ∷ []
  queries_of b (tracked_attestation v) = insert_new_ethereum_attestation v ∷ []
  queries_of b (tracked_beacon_block v) = insert_new_ethereum_beacon_block v ∷ []
  queries_of b (other_message v) = []
  queries_of b (unknown_item v) = []

  abbrev pub add_queries : List (Query V) → QueryBatch (Query V) → QueryBatch (Query V)
  add_queries [] q = q
  add_queries (x ∷ xs) q = add_queries xs (add_query x q)

-- The routine and its channel. `flushed` keeps the batches that were persisted or given up, the newest first.
pub record Persister (V D : Type 0) : Type 0 where
  pub pending : List (Item V)
  pub batch : QueryBatch (Query V)
  pub ready_to_finish : Bool
  pub finished : Bool
  pub db : D
  pub flushed : List (List (Query V))

-- An item is sent to the channel; or the loop makes a round, in which the context or the `doneC` signals the end or not,
-- and the `select` receives an item or the tick.
pub data Event (V : Type 0) : Type 0 where
  arrives : Item V → Event V
  receives ticks : Bool → Event V

module _ {V D : Type 0} (execute : List (Query V) → D → Reply × D)
    (persist_conn_events : Bool) where
  unfoldable pub flush : Persister V D → Persister V D
  flush s =
      let r = persist_batch execute s.batch s.db in
      record s { batch = r.1; db = r.2; flushed = s.batch.batch ∷ s.flushed }

  -- An item received: its queries, then a flush when the batch is full.
  unfoldable pub handle : Item V → Persister V D → Persister V D
  handle i s =
      let s' = record s { batch = add_queries (queries_of persist_conn_events i) s.batch } in
      if is_ready_to_persist s'.batch then flush s' else s'

  -- A receive from the empty channel waits.
  unfoldable pub receive : List (Item V) → Persister V D → Persister V D
  receive [] s = s
  receive (i ∷ is) s = handle i (record s { pending = is })

  -- The test at the top of a round and the signal; then the `select`.
  unfoldable pub round : Bool → (Persister V D → Persister V D) → Persister V D → Persister V D
  round signal select s =
      if s.finished
      then s
      else if s.ready_to_finish && length s.pending == 0
      then record s { finished = true }
      else select (record s { ready_to_finish = s.ready_to_finish || signal })

  unfoldable pub step : Event V → Persister V D → Persister V D
  step (arrives i) s = record s { pending = s.pending ++ (i ∷ []) }
  step (receives signal) s = round signal (λ t. receive t.pending t) s
  step (ticks signal) s = round signal flush s

  unfoldable pub run : List (Event V) → Persister V D → Persister V D
  run [] s = s
  run (e ∷ es) s = run es (step e s)

unfoldable pub launch : {V D : Type 0} → ℕ → D → Persister V D
launch batch_size d = record {
  pending = [];
  batch = new_query_batch batch_size;
  ready_to_finish = false;
  finished = false;
  db = d;
  flushed = [];
}
