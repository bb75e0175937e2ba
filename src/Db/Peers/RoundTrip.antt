-- ===== src/Db/Peers/RoundTrip.antt =====
-- A peer that was discovered, identified and connected is read back as it was stored.
use armiarma.Base.{ℕ, Option, none, String, true, false, List, []}
use armiarma.Models.HostInfo.{HostInfo, PeerInfo}
use armiarma.Models.ConnAttempt.{ConnectionAttempt, positive_attempt}
use armiarma.Utils.UserAgent.{NetworkType, ClientType}
use armiarma.Db.Sql.{Statement, Row, Database, IsLawful, row_after}
use armiarma.Db.Times.{unix, milliseconds, from_unix, of_milliseconds}
use armiarma.Db.Tables.PeerInfo.{
  upsert_host_info, statement_by, update_by_status, update_conn_attempt,
}

-- The database after the three statements.
abbrev pub stored :
    {F A : Type 0} (d : Database F)
    → (NetworkType → String)
    → HostInfo A
    → Statement F
    → ConnectionAttempt
    → d.State
    → d.State
stored d network_text h st a s =
    d.execute (update_conn_attempt a) (d.execute st (d.execute (upsert_host_info network_text h) s))

module _ {F : Type 0} {d : Database F} (law : IsLawful d) where
  module _ {A : Type 0} (network_text : NetworkType → String) (network_of : String → NetworkType)
      (new_multiaddr : List ℕ → Option (List ℕ)) where
    -- The row of a peer that was stored by the three statements.
    row_of : HostInfo A → ClientType → PeerInfo → ConnectionAttempt → Option (Row F)
    row_of h c p a =
        row_after (update_by_status positive_attempt a)
          (row_after (statement_by c p) (row_after (upsert_host_info network_text h) none))

    -- What a scan of that row gives.
    abbrev as_read : String → HostInfo A → PeerInfo → ConnectionAttempt → HostInfo A
    as_read id h p a = record h {
      id = id;
      network = network_of (network_text h.network);
      peer_info = record p { remote_peer = id; latency = of_milliseconds (milliseconds p.latency) };
      control_info = record {
        deprecated = false;
        left_network = false;
        attempted = true;
        last_activity = from_unix (unix a.timestamp);
        last_conn_attempt = from_unix (unix a.timestamp);
        last_error = a.error;
      };
      attr = [];
    }
