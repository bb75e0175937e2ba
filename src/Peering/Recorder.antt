-- ===== src/Peering/Recorder.antt =====
-- pkg/peering/pruning_strategy.go, lines 247-320: `eventRecorderRoutine`, which takes the outcome of
-- each dial, the notices of connections and the identifications, and hands what it made of them to
-- the database. One received message is one step; the calls of `PersistToDB` are a list, the newest
-- first. `V` are the attribute values and `H` the identified hosts, which the routine only passes on.
pub mod Attempts
pub mod Events
use armiarma.Base.{
  ℕ, zero, suc, min, String, refl, sym, ap, inl, inr, Bool, true, false, not, Option, none, some,
  List, [], ◌∷◌, map, arith, eq_iff, eq_refl, str_eq, ltb, leb, if◌then◌else◌, ltb→lt, lt→ltb,
  leb→le, ==_iff, Bool-cases, Option-cases, All, length, get_elem?, take, drop, length-append,
  length-take, length-drop, take-append-drop, Dict, lookup, insert, delete, lookup-insert,
  lookup-delete,
}
use armiarma.Base.Int.{ℤ}
use armiarma.Models.ConnAttempt.{ConnectionAttempt}
use armiarma.Models.ConnEvent.{
  ConnEvent, TraceEvent, conn_info, end_conn_info, unknown_event, new_conn_event, add_conn_info,
  add_disconn, is_ready_to_persist,
}
use armiarma.Peering.Peer.{deprecable, conn_event_handler}
use armiarma.Peering.Queue.{PeerQueue, get_peer, modify, remove_peer}

pub data Persisted (V H : Type 0) : Type 0 where
  attempt : ConnectionAttempt → Persisted V H
  event : ConnEvent V → Persisted V H
  host : H → Persisted V H

pub record Recorder (V H : Type 0) : Type 0 where
  pub queue : PeerQueue
  pub buffer : Dict (ConnEvent V)
  pub persisted : List (Persisted V H)

-- The clock as the handling of an attempt reads it: twice in `UpdateDelay`, then in `Deprecable`.
pub record Clock : Type 0 where
  pub now : ℤ
  pub now' : ℤ
  pub now'' : ℤ

pub data Message (V H : Type 0) : Type 0 where
  conn_attempt : Clock → ConnectionAttempt → Message V H
  conn_event : String → TraceEvent V → Message V H
  ident_event : H → Message V H

-- `connEventBuffer[eventTrace.PeerID]`, made on first use.
unfoldable pub buffered : {V : Type 0} → String → Dict (ConnEvent V) → ConnEvent V
buffered peer b = elim (lookup peer b) [ none ↦ new_conn_event peer | some e ↦ e ]

unfoldable pub add_trace : {V : Type 0} → TraceEvent V → ConnEvent V → ConnEvent V
add_trace (conn_info i) e = add_conn_info i e
add_trace (end_conn_info d) e = add_disconn d e
add_trace unknown_event e = e

module _ {V H : Type 0} where
  abbrev pub persist : Persisted V H → Recorder V H → Recorder V H
  persist x s = record s { persisted = x ∷ s.persisted }

  -- The part behind `p, ok := c.PeerQueue.GetPeer(...)` with `ok`: `r` is the pointer `p`.
  unfoldable pub handle_known : Clock → ConnectionAttempt → ℕ → Recorder V H → Recorder V H
  handle_known c a r s =
      let q = modify r (conn_event_handler c.now c.now' a.error) s.queue in
      if deprecable c.now'' (q.cells r)
      then persist (attempt (record a { is_deprecable = true }))
          (record s { queue = remove_peer a.remote_peer q })
      else persist (attempt a) (record s { queue = q })

  unfoldable pub handle_attempt : Clock → ConnectionAttempt → Recorder V H → Recorder V H
  handle_attempt c a s = elim (get_peer a.remote_peer s.queue) [
    | none ↦ s
    | some r ↦ handle_known c a r s
  ]

  unfoldable pub handle_event : String → TraceEvent V → Recorder V H → Recorder V H
  handle_event peer t s =
      let e = add_trace t (buffered peer s.buffer) in
      let s' = record s { buffer = insert peer e s.buffer } in
      if is_ready_to_persist e then persist (event e) s' else s'

  unfoldable pub step : Message V H → Recorder V H → Recorder V H
  step (conn_attempt c a) s = handle_attempt c a s
  step (conn_event peer t) s = handle_event peer t s
  step (ident_event h) s = persist (host h) s

  unfoldable pub run : List (Message V H) → Recorder V H → Recorder V H
  run [] s = s
  run (m ∷ ms) s = run ms (step m s)
