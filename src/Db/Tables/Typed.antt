-- ===== src/Db/Tables/Typed.antt =====
-- Every statement against the declaration of its table. `Stored` is what the persister stores by one statement each.
use armiarma.Base.{
  ◌≡◌, refl, none, some, String, Bool, true, false, ◌&&◌, Option, arith, ap, sym, ◌∙◌, List, ℕ,
}
use armiarma.Base.Int.{ℤ, pos}
use armiarma.Models.HostInfo.{HostInfo, PeerInfo}
use armiarma.Models.ConnAttempt.{
  ConnectionAttempt, positive_attempt, negative_attempt, AttemptStatus,
}
use armiarma.Models.ConnEvent.{ConnEvent}
use armiarma.Utils.UserAgent.{NetworkType, ClientType}
use armiarma.Apis.Call.{IpInfo}
use armiarma.Ethereum.Node.{Status, MetaData}
use armiarma.Ethereum.Records.{EnrNode, TrackedAttestation, TrackedBeaconBlock}
use armiarma.Db.Sql.{
  is_full, Statement, has_kinds, is_typed, are_clean, arguments, in_int4, in_int8,
}
use armiarma.Db.Times.{unix, milliseconds}
use armiarma.Db.Tables.PeerInfo.{
  upsert_host_info, upsert_empty_host_info, statement_by, update_peer_info, update_conn_attempt,
  update_by_status, update_last_activity_timestamp, insert_new_conn_event,
}
use armiarma.Ethereum.Stamps.{Stamped}
use armiarma.Db.Tables.Network.{
  Texts, upsert_ethereum_node_status, upsert_ethereum_node_metadata, upsert_enr_info,
  insert_new_ethereum_attestation, insert_new_ethereum_beacon_block, upsert_ip_info,
}

pub data Stored (F A V Key Eth2 : Type 0) : Type 0 where
  host : HostInfo A → Stored F A V Key Eth2
  empty_host : Stored F A V Key Eth2
  peer : PeerInfo → Stored F A V Key Eth2
  conn_attempt : ConnectionAttempt → Stored F A V Key Eth2
  conn_event : ConnEvent V → Stored F A V Key Eth2
  last_activity : String → ℤ → Stored F A V Key Eth2
  node_status : Stamped Status → Stored F A V Key Eth2
  node_metadata : Stamped MetaData → Stored F A V Key Eth2
  enr : EnrNode Key Eth2 → Stored F A V Key Eth2
  attestation : TrackedAttestation → Stored F A V Key Eth2
  beacon_block : TrackedBeaconBlock → Stored F A V Key Eth2
  ip : IpInfo F → Stored F A V Key Eth2

module _ {F A V Key Eth2 : Type 0} where
  -- The statement of what is stored; `none` is a panic.
  unfoldable pub statement_of :
      Texts Key Eth2
      → (NetworkType → String)
      → (String → Option ClientType)
      → (ℤ → F)
      → Stored F A V Key Eth2
      → Option (Statement F)
  statement_of t network parse seconds (host h) = some (upsert_host_info network h)
  statement_of t network parse seconds empty_host = some upsert_empty_host_info
  statement_of t network parse seconds (peer p) = update_peer_info parse p
  statement_of t network parse seconds (conn_attempt a) = some (update_conn_attempt a)
  statement_of t network parse seconds (conn_event e) = some (insert_new_conn_event e)
  statement_of t network parse seconds (last_activity p now) =
      some (update_last_activity_timestamp p now)
  statement_of t network parse seconds (node_status b) = some (upsert_ethereum_node_status t b)
  statement_of t network parse seconds (node_metadata b) = some (upsert_ethereum_node_metadata t b)
  statement_of t network parse seconds (enr n) = some (upsert_enr_info t n)
  statement_of t network parse seconds (attestation a) =
      some (insert_new_ethereum_attestation seconds a)
  statement_of t network parse seconds (beacon_block b) =
      some (insert_new_ethereum_beacon_block seconds b)
  statement_of t network parse seconds (ip i) = some (upsert_ip_info i)

  -- Whether its numbers lie in the ranges of their columns, none of its multiaddresses is nil, and it is not the empty host, whose list of
  -- them is nil.
  unfoldable pub in_range : Stored F A V Key Eth2 → Bool
  in_range (host h) = is_full h.maddrs && in_int4 h.port
  in_range empty_host = false
  in_range (peer p) = in_int4 (milliseconds p.latency)
  in_range (conn_attempt a) = in_int8 (unix a.timestamp)
  in_range (conn_event e) =
      in_int8 (unix e.conn.conn_time)
      && (in_int8 (milliseconds e.conn.latency) && in_int8 (unix e.disc.disc_time))
  in_range (last_activity p now) = in_int8 (unix now)
  in_range (node_status b) =
      in_int8 (unix b.timestamp)
      && (in_int8 (pos b.content.finalized_epoch) && in_int8 (pos b.content.head_slot))
  in_range (node_metadata b) = in_int8 (unix b.timestamp) && in_int8 (pos b.content.seq_number)
  in_range (enr n) =
      in_int8 (unix n.timestamp)
      && (in_int8 (pos n.seq)
          && (in_int4 (pos n.tcp) && (in_int4 (pos n.udp) && in_int4 n.attnets.net_number)))
  in_range (attestation a) = in_int4 a.subnet && in_int8 a.slot
  in_range (beacon_block b) = in_int8 b.slot && in_int8 b.val_index
  in_range (ip i) = true

and_true : (b : Bool) → (b && true) ≡ b
and_true true = refl
and_true false = refl

and_front : (a b : Bool) → (a && b) ≡ true → a ≡ true
and_front true b h = refl
and_front false b h = cc

and_back : (a b : Bool) → (a && b) ≡ true → b ≡ true
and_back true b h = h
and_back false b h = cc

-- A statement that fits its table has values of the kinds of the columns.
pub typed_kinds :
    {F : Type 0} (accepts : List ℕ → Bool) (st : Statement F)
    → is_typed accepts st ≡ true
    → has_kinds st ≡ true
unfolding is_typed
typed_kinds accepts st h = and_front (has_kinds st) (are_clean accepts (arguments st)) h

module _ (F : Type 0) where
  pub attempt-HasKinds :
      (s : AttemptStatus) (a : ConnectionAttempt)
      → has_kinds {F = F} (update_by_status s a) ≡ in_int8 (unix a.timestamp)
  unfolding has_kinds
  attempt-HasKinds positive_attempt a = ground arith
  attempt-HasKinds negative_attempt a = simp and_true

  pub statement_by-HasKinds :
      (c : ClientType) (p : PeerInfo)
      → has_kinds {F = F} (statement_by c p) ≡ in_int4 (milliseconds p.latency)
  unfolding has_kinds
  statement_by-HasKinds c p = simp and_true

  pub host-HasKinds :
      {A : Type 0} (network : NetworkType → String) (h : HostInfo A)
      → has_kinds {F = F} (upsert_host_info network h) ≡ (is_full h.maddrs && in_int4 h.port)
  unfolding has_kinds upsert_host_info
  host-HasKinds network h = simp and_true

  pub activity-HasKinds :
      (id : String) (t : ℤ)
      → has_kinds {F = F} (update_last_activity_timestamp id t) ≡ in_int8 (unix t)
  unfolding has_kinds update_last_activity_timestamp
  activity-HasKinds id t = simp and_true

  peer-HasKinds :
      (c : Option ClientType) (p : PeerInfo) {st : Statement F}
      → update_peer_info (λ _. c) p ≡ some st
      → has_kinds st ≡ in_int4 (milliseconds p.latency)
  unfolding update_peer_info
  peer-HasKinds none p e = cc
  peer-HasKinds (some c) p {st} e =
      let e' : statement_by c p ≡ st = cc e in rw (← e') (statement_by-HasKinds c p)

module _ {F A V Key Eth2 : Type 0} (t : Texts Key Eth2) (network : NetworkType → String)
    (parse : String → Option ClientType) (seconds : ℤ → F) where
  pub statement_of-HasKinds :
      (s : Stored F A V Key Eth2) (st : Statement F)
      → statement_of t network parse seconds s ≡ some st
      → has_kinds st ≡ in_range s
  unfolding statement_of in_range update_peer_info
  statement_of-HasKinds (host h) st e =
      let e' : upsert_host_info network h ≡ st = cc e in rw (← e') (host-HasKinds F network h)
  statement_of-HasKinds empty_host st e =
      let e' : upsert_empty_host_info ≡ st = cc e in
      rw (← e') (unfold has_kinds upsert_empty_host_info in refl)
  statement_of-HasKinds (peer p) st e = peer-HasKinds F (parse p.user_agent) p e
  statement_of-HasKinds (conn_attempt a) st e =
      let e' : update_by_status a.status a ≡ st = unfold update_conn_attempt in cc e in
      rw (← e') (attempt-HasKinds F a.status a)
  statement_of-HasKinds (conn_event v) st e =
      let e' : insert_new_conn_event v ≡ st = cc e in
      rw (← e') (unfold has_kinds insert_new_conn_event in simp and_true)
  statement_of-HasKinds (last_activity p now) st e =
      let e' : update_last_activity_timestamp p now ≡ st = cc e in
      rw (← e') (activity-HasKinds F p now)
  statement_of-HasKinds (node_status b) st e =
      let e' : upsert_ethereum_node_status t b ≡ st = cc e in
      rw (← e') (unfold has_kinds upsert_ethereum_node_status in simp and_true)
  statement_of-HasKinds (node_metadata b) st e =
      let e' : upsert_ethereum_node_metadata t b ≡ st = cc e in
      rw (← e') (unfold has_kinds upsert_ethereum_node_metadata in simp and_true)
  statement_of-HasKinds (enr n) st e =
      let e' : upsert_enr_info t n ≡ st = cc e in
      rw (← e') (unfold has_kinds upsert_enr_info in simp and_true)
  statement_of-HasKinds (attestation a) st e =
      let e' : insert_new_ethereum_attestation seconds a ≡ st = cc e in
      rw (← e') (unfold has_kinds insert_new_ethereum_attestation in simp and_true)
  statement_of-HasKinds (beacon_block b) st e =
      let e' : insert_new_ethereum_beacon_block seconds b ≡ st = cc e in
      rw (← e') (unfold has_kinds insert_new_ethereum_beacon_block in simp and_true)
  statement_of-HasKinds (ip i) st e =
      let e' : upsert_ip_info i ≡ st = cc e in rw (← e') (unfold has_kinds upsert_ip_info in refl)

  -- The statement that stores an item fits its table exactly if the numbers of the item lie in the ranges of their columns, the item is not
  -- the empty host, whose list of multiaddresses is nil, none of the multiaddresses of another host is nil, and the database takes every text among the arguments. It does not take those with the
  -- character NUL or with invalid UTF-8: which it takes is an argument.
  pub statement_of-IsTyped :
      (accepts : List ℕ → Bool) (s : Stored F A V Key Eth2) (st : Statement F)
      → statement_of t network parse seconds s ≡ some st
      → is_typed accepts st ≡ in_range s && are_clean accepts (arguments st)
  unfolding is_typed
  statement_of-IsTyped accepts s st e =
      ap (λ b. b && are_clean accepts (arguments st)) (statement_of-HasKinds s st e)

-- A host that fits the table has no nil among its multiaddresses, and a port in the range of the column.
pub typed_host :
    (F : Type 0) {A : Type 0} (accepts : List ℕ → Bool) (network : NetworkType → String)
    (h : HostInfo A)
    → is_typed {F = F} accepts (upsert_host_info network h) ≡ true
    → (is_full h.maddrs ≡ true) × (in_int4 h.port ≡ true)
typed_host F accepts network h fit =
    let both = sym (host-HasKinds F network h) ∙ typed_kinds accepts _ fit in
    (
      and_front (is_full h.maddrs) (in_int4 h.port) both,
      and_back (is_full h.maddrs) (in_int4 h.port) both,
    )
