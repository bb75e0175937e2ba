-- ===== src/Peering/Iterator.antt =====
-- pkg/peering/pruning_strategy.go, lines 158-245: `peerstoreIteratorRoutine`. A step takes one request
-- from `nextPeerChan` and sends a peer on `peerStreamChan`, or starts the next iteration, or skips
-- a peer that this iteration has sent before; in the last two cases it puts the request back. The
-- timer only delays the start of an iteration. The recorder works at the same time and removes peers.
pub mod Rounds
use armiarma.Base.{
  ℕ, zero, suc, ◌+◌, ◌-◌, min, String, refl, sym, ap, inl, inr, Bool, true, false, not, ◌&&◌,
  Option, none, some, List, [], ◌∷◌, map, arith, eq_iff, eq_refl, str_eq, ltb, leb, if◌then◌else◌,
  ltb→lt, lt→ltb, leb→le, ==_iff, Bool-cases, Option-cases, All, length, get_elem?, take, drop,
  length-append, length-take, length-drop, take-append-drop, Dict, lookup, insert, delete,
  lookup-insert, lookup-delete,
}
use mathlib.Core.Option
use armiarma.Base.Int.{ℤ}
use armiarma.Peering.Delay.{delay_text}
use armiarma.Peering.Queue.{
  PeerQueue, RemoteConnectablePeer, distribution, is_empty, valid_next_peer, get_next_peer,
  reset_peer_pointer, update_peer_list_from_remote_db, remove_peer,
}

-- `models.NewHostInfo` with the addresses of the peer.
pub record HostInfo : Type 0 where
  pub id : String
  pub network : String
  pub maddrs : List String

-- `attempted` is the local `attemptedPeers` of the iteration, `attempted_peers` and `conn_errors` the
-- counts of the last one, and `requests` how many requests wait in `nextPeerChan`.
pub record Iterator : Type 0 where
  pub queue : PeerQueue
  pub attempted : Dict ℕ
  pub attempted_peers : Dict ℕ
  pub conn_errors : Dict ℕ
  pub requests : ℕ

-- What a step does to the outside.
pub data Output : Type 0 where
  sent : HostInfo → Output
  refreshed : Output
  repeated : String → Output

unfoldable pub new_iterator : PeerQueue → Iterator
new_iterator q = record {
  queue = q;
  attempted = [];
  attempted_peers = [];
  conn_errors = [];
  requests = 0;
}

-- `NextPeer`
unfoldable pub next_peer : Iterator → Iterator
next_peer s = record s { requests = s.requests + 1 }

unfoldable pub compose_delay_dist : Dict ℕ → Iterator → Iterator
compose_delay_dist peers s = record s {
  attempted_peers = distribution (λ p. delay_text p.delay_obj.dtype) s.queue.cells peers [];
}

unfoldable pub compose_conn_errors : Dict ℕ → Iterator → Iterator
compose_conn_errors peers s = record s {
  conn_errors = distribution (λ p. p.conn_error) s.queue.cells peers [];
}

-- The `else` of the routine: the end of an iteration. `reply` is what the database answers.
unfoldable pub refresh : Option (List (ℤ × RemoteConnectablePeer)) → Iterator → Iterator
refresh reply s =
    let s' = compose_conn_errors s.attempted (compose_delay_dist s.attempted s) in
    next_peer (record s' {
      attempted = [];
      queue = (update_peer_list_from_remote_db reply (reset_peer_pointer s.queue)).0;
    })

-- A peer that was handed out: sent, unless this iteration sent it before.
unfoldable pub hand_out : ℕ → PeerQueue → Iterator → Iterator × Output
hand_out r q s =
    let p = q.cells r in
    elim (lookup p.id s.attempted) [
      | none ↦ (
        record s { queue = q; attempted = insert p.id r s.attempted },
        sent (record { id = p.id; network = p.network; maddrs = p.addr }),
      )
      | some _ ↦ (next_peer (record s { queue = q }), repeated p.id)
    ]

abbrev hand_out_next : Option (ℕ × PeerQueue) → Iterator → Option (Iterator × Output)
hand_out_next none s = none
hand_out_next (some (r, q)) s = some (hand_out r q s)

-- Calls of `RemovePeer` by the recorder, one after another.
unfoldable pub remove_all : List String → PeerQueue → PeerQueue
remove_all [] q = q
remove_all (id ∷ ids) q = remove_all ids (remove_peer id q)

-- The clock, the reply that the database would give, and the peers that the recorder removes before the test
-- `ValidNextPeer` and between it and `GetNextPeer`, which take the lock one after the other. A removal between `IsEmpty` and
-- `ValidNextPeer` comes to the same as one before both, since no peer of an empty list is valid. An outcome that the recorder notes meanwhile
-- changes neither the list nor what is sent of a peer. The end of an iteration is one step.
pub record Tick : Type 0 where
  pub now : ℤ
  pub reply : Option (List (ℤ × RemoteConnectablePeer))
  pub before : List String
  pub between : List String

abbrev pub set_off : Tick → Iterator → Iterator
set_off t s = record s { queue = remove_all t.before s.queue }

-- One request; `none` is the panic of `GetNextPeer`.
unfoldable pub step : Tick → Iterator → Option (Iterator × Output)
step t s =
    let s' = set_off t s in
    if not (is_empty s'.queue) && valid_next_peer t.now s'.queue
    then hand_out_next (get_next_peer (remove_all t.between s'.queue)) s'
    else some (refresh t.reply s', refreshed)

-- The requests served one after the other, each of which takes one waiting request, up to a panic: the state at the end, or `none` after a
-- panic, and what was put out.
unfoldable pub serve : List Tick → Iterator → Option Iterator × List Output
serve [] s = (some s, [])
serve (t ∷ ts) s = elim (step t (record s { requests = s.requests - 1 })) [
  | none ↦ (none, [])
  | some (s', o) ↦ let rest = serve ts s' in (rest.0, o ∷ rest.1)
]
