-- ===== src/Peering/Recorder/Events.antt =====
-- What the recorder makes of the notices of connections.
use armiarma.Base.{
  String, ◌≡◌, refl, sym, ap, ◌≢◌, true, false, none, some, ◌∷◌, eq_refl, Dict, lookup, insert,
  lookup-insert,
}
use armiarma.Base.Int.{pos, ltb_ℤ, ◌-ℤ◌, saturate64}
use armiarma.Models.ConnEvent.{
  ConnEvent, ConnInfo, EndConnInfo, conn_info, end_conn_info, new_conn_event, add_conn_info,
  add_disconn, is_ready_to_persist, TraceEvent,
}
use armiarma.Models.ConnEvent.Pairing.{
  add_disconn-add_conn_info, is_ready_to_persist-new, add_conn_info-stale,
}
use armiarma.Peering.Recorder.{Recorder, event, handle_event, buffered, add_trace}

module _ {V H : Type 0} where
  -- A notice that leaves the event of its peer incomplete is only kept.
  handle_event_incomplete :
      (peer : String) (t : TraceEvent V) (s : Recorder V H) (e : ConnEvent V)
      → add_trace t (buffered peer s.buffer) ≡ e
      → is_ready_to_persist e ≡ false
      → handle_event peer t s ≡ record s { buffer = insert peer e s.buffer }
  unfolding handle_event
  handle_event_incomplete peer t s e h r = rw (h, r) refl

  -- A notice that completes the event of its peer is kept, and the event is persisted.
  handle_event_complete :
      (peer : String) (t : TraceEvent V) (s : Recorder V H) (e : ConnEvent V)
      → add_trace t (buffered peer s.buffer) ≡ e
      → is_ready_to_persist e ≡ true
      → handle_event peer t s
        ≡ record s { buffer = insert peer e s.buffer; persisted = event e ∷ s.persisted }
  unfolding handle_event
  handle_event_complete peer t s e h r = rw (h, r) refl

buffered-insert :
    {V : Type 0} (peer : String) (e : ConnEvent V) (b : Dict (ConnEvent V))
    → buffered peer (insert peer e b) ≡ e
unfolding buffered
buffered-insert peer e b = rw (lookup-insert peer peer e b, eq_refl, buffered) refl

buffered-some :
    {V : Type 0} (peer : String) (e : ConnEvent V) (b : Dict (ConnEvent V))
    → lookup peer b ≡ some e
    → buffered peer b ≡ e
unfolding buffered
buffered-some peer e b h = rw (h, buffered) refl

buffered-none :
    {V : Type 0} (peer : String) (b : Dict (ConnEvent V))
    → lookup peer b ≡ none
    → buffered peer b ≡ new_conn_event peer
unfolding buffered
buffered-none peer b h = rw (h, buffered) refl

module _ {V H : Type 0} where
  -- Of a peer with no event waiting, the notice of a start and that of an end, with different times that are not
  -- the zero time, persist one event in either order: the first notice persists nothing, the second the event with
  -- the duration from start to end.
  pub pair_persisted :
      (peer : String) (i : ConnInfo V) (d : EndConnInfo) (s : Recorder V H)
      → lookup peer s.buffer ≡ none
      → i.conn_time ≢ pos 0
      → d.disc_time ≢ pos 0
      → i.conn_time ≢ d.disc_time
      → let started = handle_event peer (conn_info i) s in
        let ended = handle_event peer (end_conn_info d) s in
        let e = add_disconn d (add_conn_info i (new_conn_event peer)) in
        (started.persisted ≡ s.persisted)
        × (ended.persisted ≡ s.persisted)
        × ((handle_event peer (end_conn_info d) started).persisted ≡ event e ∷ s.persisted)
        × ((handle_event peer (conn_info i) ended).persisted ≡ event e ∷ s.persisted)
        × (e.disc.conn_duration ≡ saturate64 (d.disc_time -ℤ i.conn_time))
  pair_persisted peer i d s b hi hd h =
      let (one, two, both) = is_ready_to_persist-new peer i d hi hd h in
      let (swap, long) = add_disconn-add_conn_info i d (new_conn_event peer) hi hd in
      let ei = add_conn_info i (new_conn_event peer) in
      let ed = add_disconn d (new_conn_event peer) in
      let e = add_disconn d ei in
      let si = record s { buffer = insert peer ei s.buffer } in
      let sd = record s { buffer = insert peer ed s.buffer } in
      let started : handle_event peer (conn_info i) s ≡ si =
        handle_event_incomplete peer (conn_info i) s ei
          (unfold add_trace in rw (buffered-none peer s.buffer b) refl) one in
      let ended : handle_event peer (end_conn_info d) s ≡ sd =
        handle_event_incomplete peer (end_conn_info d) s ed
          (unfold add_trace in rw (buffered-none peer s.buffer b) refl) two in
      let last =
        handle_event_complete peer (end_conn_info d) si e
          (unfold add_trace in rw (buffered-insert peer ei s.buffer) refl) both in
      let last' =
        handle_event_complete peer (conn_info i) sd e
          (unfold add_trace in rw (buffered-insert peer ed s.buffer) (sym swap)) both in
      (
        ap (λ x. x.persisted) started,
        ap (λ x. x.persisted) ended,
        rw started (ap (λ x. x.persisted) last),
        rw ended (ap (λ x. x.persisted) last'),
        long,
      )

  -- The event of a finished connection stays in the buffer: the start of the peer's next connection, after
  -- the end of the last one, is persisted at once with the old end, so with a negative duration.
  pub next_start_persisted :
      (peer : String) (i : ConnInfo V) (c : ConnEvent V) (s : Recorder V H)
      → lookup peer s.buffer ≡ some c
      → c.disc.disc_time ≢ pos 0
      → i.conn_time ≢ pos 0
      → ltb_ℤ c.disc.disc_time i.conn_time ≡ true
      → let e = add_conn_info i c in
        ((handle_event peer (conn_info i) s).persisted ≡ event e ∷ s.persisted)
        × (ltb_ℤ e.disc.conn_duration (pos 0) ≡ true)
  next_start_persisted peer i c s b hc hi h =
      let (ready, negative) = add_conn_info-stale i c hc hi h in
      (
        ap (λ x. x.persisted)
            (handle_event_complete peer (conn_info i) s (add_conn_info i c)
              (unfold add_trace in rw (buffered-some peer c s.buffer b) refl) ready),
        negative,
      )
