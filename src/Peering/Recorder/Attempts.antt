-- ===== src/Peering/Recorder/Attempts.antt =====
-- What the recorder makes of the outcome of a dial.
use armiarma.Base.{
  ℕ, String, ◌≡◌, refl, ◌∙◌, inl, inr, true, Option, none, some, List, [], ◌∷◌, arith, eq_iff,
  str_eq, if◌then◌else◌, Bool-cases, Option-cases, lookup,
}
use armiarma.Models.ConnAttempt.{ConnectionAttempt}
use armiarma.Peering.Peer.{PrunedPeer, conn_event_handler, deprecable}
use armiarma.Peering.Peer.Schedule.{conn_event_handler_lem}
use armiarma.Peering.Queue.{PeerQueue, get_peer, modify}
use armiarma.Peering.Queue.Consistent.{
  IsConsistent, peer_of, modify-IsConsistent, remove_peer-IsConsistent, peer_of-modify,
  peer_of-remove_peer,
}
use armiarma.Peering.Recorder.{
  Recorder, Message, Clock, conn_attempt, conn_event, ident_event, handle_attempt, handle_known,
  handle_event, step, run, attempt, TraceEvent,
}

-- The recorded outcome, read through the pointer.
modify-cells :
    (q : PeerQueue) (r : ℕ) (f : PrunedPeer → PrunedPeer) → (modify r f q).cells r ≡ f (q.cells r)
unfolding modify
modify-cells q r f = ground arith

-- What the queue holds under an id after an outcome of the given peer was recorded.
abbrev pub after_attempt :
    Clock → ConnectionAttempt → PrunedPeer → Option PrunedPeer → String → Option PrunedPeer
after_attempt c a p o j =
    if str_eq a.remote_peer j
    then (if deprecable c.now'' (conn_event_handler c.now c.now' a.error p)
        then none
        else some (conn_event_handler c.now c.now' a.error p))
    else o

-- What goes to the database: the attempt, marked when the peer is given up.
abbrev pub marked : Clock → ConnectionAttempt → PrunedPeer → ConnectionAttempt
marked c a p =
    if deprecable c.now'' (conn_event_handler c.now c.now' a.error p)
    then record a { is_deprecable = true }
    else a

peer_of-modify_self :
    (c : Clock) (a : ConnectionAttempt) (q : PeerQueue) (r : ℕ) (j : String)
    → IsConsistent q
    → get_peer a.remote_peer q ≡ some r
    → peer_of (modify r (conn_event_handler c.now c.now' a.error) q) j ≡ (
        if str_eq a.remote_peer j
        then some (conn_event_handler c.now c.now' a.error (q.cells r))
        else peer_of q j)
unfolding get_peer
peer_of-modify_self c a q r j h e =
    peer_of-modify q a.remote_peer j r (conn_event_handler c.now c.now' a.error) h
      (unfold get_peer in e)
    ∙ ground (arith, eq_iff a.remote_peer j)

module _ {V H : Type 0} where
  handle_known-IsConsistent :
      (c : Clock) (a : ConnectionAttempt) (r : ℕ) (s : Recorder V H)
      → IsConsistent s.queue
      → IsConsistent (handle_known c a r s).queue
  unfolding handle_known
  handle_known-IsConsistent c a r s h =
      let f = conn_event_handler c.now c.now' a.error in
      let q = modify r f s.queue in
      let h' : IsConsistent q =
        modify-IsConsistent s.queue r f h
          (conn_event_handler_lem c.now c.now' a.error (s.queue.cells r)).2 in
      elim (Bool-cases (deprecable c.now'' (q.cells r))) [
        | inl e ↦ rw e (remove_peer-IsConsistent a.remote_peer q h')
        | inr e ↦ rw e h'
      ]

  handle_attempt-IsConsistent :
      (c : Clock) (a : ConnectionAttempt) (s : Recorder V H)
      → IsConsistent s.queue
      → IsConsistent (handle_attempt c a s).queue
  unfolding handle_attempt
  handle_attempt-IsConsistent c a s h = elim (Option-cases (get_peer a.remote_peer s.queue)) [
    | inl e ↦ rw (e, handle_attempt) h
    | inr (r, e) ↦ rw (e, handle_attempt) (handle_known-IsConsistent c a r s h)
  ]

  handle_event-queue :
      (peer : String) (t : TraceEvent V) (s : Recorder V H)
      → (handle_event peer t s).queue ≡ s.queue
  unfolding handle_event
  handle_event-queue peer t s = ground arith

  -- Whatever the recorder receives, the list and the map of the queue stay in agreement.
  pub run-IsConsistent :
      (ms : List (Message V H)) (s : Recorder V H)
      → IsConsistent s.queue
      → IsConsistent (run ms s).queue
  unfolding run step
  run-IsConsistent [] s h = h
  run-IsConsistent (conn_attempt c a ∷ ms) s h =
      run-IsConsistent ms (handle_attempt c a s) (handle_attempt-IsConsistent c a s h)
  run-IsConsistent (conn_event peer t ∷ ms) s h =
      run-IsConsistent ms (handle_event peer t s) (rw handle_event-queue h)
  run-IsConsistent (ident_event x ∷ ms) s h = run-IsConsistent ms (step (ident_event x) s) h

  handle_known_lem :
      (c : Clock) (a : ConnectionAttempt) (r : ℕ) (s : Recorder V H)
      → IsConsistent s.queue
      → get_peer a.remote_peer s.queue ≡ some r
      → let s' = handle_known c a r s in
        let p = s.queue.cells r in
        ((j : String) → peer_of s'.queue j ≡ after_attempt c a p (peer_of s.queue j) j)
        × (s'.persisted ≡ attempt (marked c a p) ∷ s.persisted)
        × (s'.buffer ≡ s.buffer)
  unfolding handle_known
  handle_known_lem c a r s h e =
      let f = conn_event_handler c.now c.now' a.error in
      let q = modify r f s.queue in
      let p' = f (s.queue.cells r) in
      let own = modify-cells s.queue r f in
      elim (Bool-cases (deprecable c.now'' p')) [
        | inl d ↦ (
          λ j.
              rw (own, d)
                (peer_of-remove_peer a.remote_peer j q
                  ∙ rw (peer_of-modify_self c a s.queue r j h e) (ground arith)),
          rw (own, d) refl,
          rw (own, d) refl,
        )
        | inr d ↦ (
          λ j. rw (own, d) (peer_of-modify_self c a s.queue r j h e),
          rw (own, d) refl,
          rw (own, d) refl,
        )
      ]

  -- The outcome of a dial of a peer `p` of the queue, on both branches. When `p` with the outcome
  -- recorded is deprecable, the attempt goes to the database marked so and the queue loses the peer;
  -- else the attempt goes there as it came and the queue holds the peer with the outcome recorded.
  -- No other peer and no waiting connection event changes.
  pub handle_attempt_lem :
      (c : Clock) (a : ConnectionAttempt) (s : Recorder V H) (p : PrunedPeer)
      → IsConsistent s.queue
      → peer_of s.queue a.remote_peer ≡ some p
      → let s' = handle_attempt c a s in
        ((j : String) → peer_of s'.queue j ≡ after_attempt c a p (peer_of s.queue j) j)
        × (s'.persisted ≡ attempt (marked c a p) ∷ s.persisted)
        × (s'.buffer ≡ s.buffer)
  unfolding handle_attempt get_peer
  handle_attempt_lem c a s p h e = elim (Option-cases (lookup a.remote_peer s.queue.peer_map)) [
    | inl n ↦ absurd (ground (arith, n))
    | inr (r, n) ↦
        let own : s.queue.cells r ≡ p = ground (arith, n) in
        rw (n, handle_attempt, ← own) (handle_known_lem c a r s h (unfold get_peer in n))
  ]

  -- The outcome of a dial of a peer that the queue does not hold changes nothing and is not persisted.
  pub handle_attempt-unknown :
      (c : Clock) (a : ConnectionAttempt) (s : Recorder V H)
      → get_peer a.remote_peer s.queue ≡ none
      → handle_attempt c a s ≡ s
  unfolding handle_attempt
  handle_attempt-unknown c a s e = rw (e, handle_attempt) refl
