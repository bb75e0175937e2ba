-- ===== src/Models/ConnEvent.antt =====
-- pkg/db/models/connevents.go: a connection of a peer, put together from the notices of its start
-- and of its end. `V` is the type of the attributes, which the code never looks into. The zero
-- `time.Time` is `pos 0`.
pub mod Pairing
use armiarma.Base.{
  ℕ, zero, suc, min, String, refl, sym, ap, inl, inr, Bool, true, false, not, ◌&&◌, Option, none,
  some, List, [], ◌∷◌, map, arith, eq_iff, eq_refl, str_eq, ltb, leb, if◌then◌else◌, ltb→lt, lt→ltb,
  leb→le, ==_iff, Bool-cases, Option-cases, All, length, get_elem?, take, drop, length-append,
  length-take, length-drop, take-append-drop, Dict, lookup, insert, delete, lookup-insert,
  lookup-delete,
}
use armiarma.Base.Int.{ℤ, pos, eqb_ℤ, ◌-ℤ◌, saturate64}

pub data ConnDirection : Type 0 where
  unset inbound outbound : ConnDirection

unfoldable pub direction_index_to_string : ConnDirection → String
direction_index_to_string inbound = "inbound"
direction_index_to_string outbound = "outbound"
direction_index_to_string unset = "unset"

pub record ConnInfo (V : Type 0) : Type 0 where
  pub direction : ConnDirection
  pub conn_time : ℤ
  pub latency : ℤ
  pub identified : Bool
  pub att : Dict V
  pub error : String

pub record EndConnInfo : Type 0 where
  pub disc_time : ℤ
  pub conn_duration : ℤ

pub record ConnEvent (V : Type 0) : Type 0 where
  pub peer_id : String
  pub conn : ConnInfo V
  pub disc : EndConnInfo

-- `EventTrace`: an event that is neither a `ConnInfo` nor an `EndConnInfo` is `unknown_event`.
pub data TraceEvent (V : Type 0) : Type 0 where
  conn_info : ConnInfo V → TraceEvent V
  end_conn_info : EndConnInfo → TraceEvent V
  unknown_event : TraceEvent V

module _ {V : Type 0} where
  unfoldable pub new_conn_event : String → ConnEvent V
  new_conn_event peer = record {
    peer_id = peer;
    conn = record {
      direction = unset;
      conn_time = pos 0;
      latency = pos 0;
      identified = false;
      att = [];
      error = "";
    };
    disc = record { disc_time = pos 0; conn_duration = pos 0 };
  }

  -- `for k, v := range connInfo.Att { c.Att[k] = v }`
  unfoldable pub merge_att : Dict V → Dict V → Dict V
  merge_att [] att = att
  merge_att ((k, v) ∷ m) att = merge_att m (insert k v att)

  unfoldable pub add_conn_info : ConnInfo V → ConnEvent V → ConnEvent V
  add_conn_info i c = record c {
    conn = record i { att = merge_att i.att c.conn.att };
    disc =
        if eqb_ℤ c.disc.disc_time (pos 0)
        then c.disc
        else record c.disc { conn_duration = saturate64 (c.disc.disc_time -ℤ i.conn_time) };
  }

  unfoldable pub add_disconn : EndConnInfo → ConnEvent V → ConnEvent V
  add_disconn d c = record c {
    disc = record {
      disc_time = d.disc_time;
      conn_duration =
          if eqb_ℤ c.conn.conn_time (pos 0)
          then c.disc.conn_duration
          else saturate64 (d.disc_time -ℤ c.conn.conn_time);
    };
  }

  unfoldable pub is_ready_to_persist : ConnEvent V → Bool
  is_ready_to_persist c =
      not (eqb_ℤ c.conn.conn_time (pos 0))
      && not (eqb_ℤ c.disc.disc_time (pos 0))
      && not (eqb_ℤ c.disc.conn_duration (pos 0))
