-- ===== src/Db/Peers/View.antt =====
-- What a sequence of statements leaves of a peer, in the columns by which the crawler manages it: a description of each
-- statement in one line.
pub mod Refines
use armiarma.Base.{
  ◌≡◌, refl, ◌∙◌, ap, Option, none, some, String, Bool, true, false, List, [], ◌∷◌, arith, str_eq,
  inl, inr, Option-cases, if◌then◌else◌, All,
}
use mathlib.Core.Option
use armiarma.Base.Int.{ℤ}
use armiarma.Models.HostInfo.{HostInfo, PeerInfo}
use armiarma.Models.ConnAttempt.{
  ConnectionAttempt, AttemptStatus, positive_attempt, negative_attempt,
}
use armiarma.Utils.UserAgent.{NetworkType, ClientType}
use armiarma.Db.Sql.{
  Value, Statement, Row, Database, IsLawful, is_typed, in_int4, row_after, table_of, null, cell,
  assignment, bool, int, is_in,
}
use armiarma.Db.Sql.Rows.{cell-assign, row_after-update_where, row_after-do_update}
use armiarma.Db.Times.{unix, milliseconds}
use armiarma.Db.Tables.PeerInfo.{
  upsert_host_info, statement_by, update_by_status, update_last_activity_timestamp,
  update_conn_attempt, update_peer_info, insert_new_conn_event,
}
use armiarma.Db.Tables.Network.{
  Texts, upsert_ethereum_node_status, upsert_ethereum_node_metadata, upsert_enr_info,
  insert_new_ethereum_attestation, insert_new_ethereum_beacon_block, upsert_ip_info,
}
use armiarma.Db.Tables.Typed.{
  Stored, host, empty_host, peer, conn_attempt, conn_event, last_activity, node_status,
  node_metadata, enr, attestation, beacon_block, ip, statement_of, in_range,
}
use armiarma.Db.Peers.Writes.{
  select-upsert_host_info, select-statement_by, select-update_by_status,
  select-update_last_activity_timestamp,
}

-- The columns by which the crawler manages a peer.
pub record PeerView (F : Type 0) : Type 0 where
  pub deprecated : Value F
  pub attempted : Value F
  pub last_activity : Value F
  pub last_conn_attempt : Value F

module _ {F : Type 0} where
  unfoldable pub view_row : Row F → PeerView F
  view_row r = record {
    deprecated = cell "deprecated" r;
    attempted = cell "attempted" r;
    last_activity = cell "last_activity" r;
    last_conn_attempt = cell "last_conn_attempt" r;
  }

  abbrev pub view : Option (Row F) → Option (PeerView F)
  view none = none
  view (some r) = some (view_row r)

  -- A peer that is discovered is not deprecated, whatever it was before.
  abbrev pub discovered : Option (PeerView F) → PeerView F
  discovered none = record {
    deprecated = bool false;
    attempted = null;
    last_activity = null;
    last_conn_attempt = null;
  }
  discovered (some v) = record v { deprecated = bool false }

  abbrev pub dialled : AttemptStatus → Bool → ℤ → PeerView F → PeerView F
  dialled positive_attempt deprecable t v = record {
    deprecated = bool false;
    attempted = bool true;
    last_activity = int (unix t);
    last_conn_attempt = int (unix t);
  }
  dialled negative_attempt deprecable t v = record v {
    deprecated = bool deprecable;
    attempted = bool true;
    last_conn_attempt = int (unix t);
  }

  abbrev pub active : ℤ → PeerView F → PeerView F
  active t v = record v { last_activity = int (unix t) }

  abbrev pub change :
      String → String → (PeerView F → PeerView F) → Option (PeerView F) → Option (PeerView F)
  change id k f v = if str_eq id k then Option.map f v else v

  -- What becomes of the peer `k` when an item is stored.
  unfoldable pub after :
      {A V Key Eth2 : Type 0}
      → Stored F A V Key Eth2
      → String
      → Option (PeerView F)
      → Option (PeerView F)
  after (host h) k v = if str_eq h.id k then some (discovered v) else v
  after (conn_attempt a) k v =
      change a.remote_peer k (dialled a.status a.is_deprecable a.timestamp) v
  after (last_activity id t) k v = change id k (active t) v
  after empty_host k v = v
  after (peer p) k v = v
  after (conn_event e) k v = v
  after (node_status b) k v = v
  after (node_metadata b) k v = v
  after (enr n) k v = v
  after (attestation a) k v = v
  after (beacon_block b) k v = v
  after (ip i) k v = v

  unfoldable pub after_all :
      {A V Key Eth2 : Type 0}
      → List (Stored F A V Key Eth2)
      → String
      → Option (PeerView F)
      → Option (PeerView F)
  after_all [] k v = v
  after_all (x ∷ xs) k v = after_all xs k (after x k v)

module _ {F A V Key Eth2 : Type 0} (d : Database F) (t : Texts Key Eth2)
    (network : NetworkType → String) (parse : String → Option ClientType) (seconds : ℤ → F) where
  -- The statements of the items, one after another; `none` is a panic.
  unfoldable pub store_all : List (Stored F A V Key Eth2) → d.State → Option d.State
  store_all [] s = some s
  store_all (x ∷ xs) s = elim (statement_of t network parse seconds x) [
    | none ↦ none
    | some st ↦ store_all xs (d.execute st s)
  ]

  -- The item has a statement, and that fits its table.
  unfoldable pub is_stored : Stored F A V Key Eth2 → Bool
  is_stored x = elim (statement_of t network parse seconds x) [
    | none ↦ false
    | some st ↦ is_typed d.accepts st
  ]
