-- ===== src/Peering/Tests.antt =====
-- The theorems on the pruning strategy at concrete peers, attempts and queues.
use armiarma.Base.{
  ℕ, ◌*◌, ◌^◌, min, String, ◌≡◌, refl, ◌↔◌, ◌⊎◌, true, false, Option, none, some, List, [], ◌∷◌,
  arith, ◌==◌, if◌then◌else◌, Dict, lookup, insert, delete,
}
use armiarma.Base.Int.{ℤ, pos, ◌+ℤ◌, ◌-ℤ◌, leb_ℤ, to_int64, saturate64}
use armiarma.Base.Text.{codes, contains, is_prefix}
use armiarma.Hosts.ConnErrors.{
  ConnError, known_errors, find_known, parse_con_error, plain, dial_error,
}
use armiarma.Hosts.ConnErrors.Classes.{Explains, Foreign, parse_con_error_lem}
use armiarma.Models.ConnAttempt.{ConnectionAttempt, negative_attempt}
use armiarma.Models.ConnEvent.{
  ConnInfo, EndConnInfo, ConnEvent, inbound, conn_info, end_conn_info, add_conn_info, add_disconn,
  new_conn_event,
}
use armiarma.Peering.Delay.{
  positive, minus1, delay_eq, minute, max_delay_time, error_to_delay_type, is_hopeful, is_hopeless,
  calculate_delay, delay_text,
}
use armiarma.Peering.Peer.{
  PrunedPeer, new_pruned_peer, next_connection, deprecable, deprecation_time,
  is_ready_for_connection, conn_event_handler,
}
use armiarma.Peering.Peer.Schedule.{Attempt, record_attempt, record_attempts, timeouts_back_off}
use armiarma.Peering.Peer.Deprecation.{deprecable-record_attempts}
use armiarma.Peering.Queue.{
  PeerQueue, RemoteConnectablePeer, new_peer_queue, update_peer_list_from_remote_db, remove_peer,
  get_next_peer, modify, get_peer, sort_peer_list, add_all_missing, add_missing, alloc, add_peer,
  is_peer_already, sort, insert_sorted, less, index_of, valid_next_peer, is_empty,
}
use armiarma.Peering.Queue.Consistent.{IsConsistent, new_peer_queue-IsConsistent, peer_of}
use armiarma.Peering.Queue.Order.{IsOrdered}
use armiarma.Peering.Queue.Refresh.{update_peer_list_from_remote_db_lem, remote_of, first_of_two}
use armiarma.Peering.Queue.Counts.{count}
use armiarma.Groups.{shown, or_before}
use armiarma.Metrics.{update_summary}
use armiarma.Peering.Metrics.{Gauges, Summary, get_metrics}
use armiarma.Peering.Metrics.Stale.{update_summary-get_metrics}
use armiarma.Peering.Queue.Removal.{get_next_peer-race}
use armiarma.Peering.Recorder.{
  Recorder, Clock, conn_attempt, ident_event, run, attempt, event, handle_attempt, handle_event,
}
use armiarma.Peering.Recorder.Attempts.{handle_attempt_lem, after_attempt, marked, run-IsConsistent}
use armiarma.Peering.Recorder.Events.{pair_persisted}
use armiarma.Peering.Iterator.{Iterator, Output, Tick, new_iterator, step, serve}
use armiarma.Peering.Iterator.Rounds.{
  Follows, Panics, NoRepeat, undisturbed, is_seen, step-Follows, serve-NoRepeat,
}
use armiarma.Peering.Worker.{work, is_connected}
use armiarma.Peering.Worker.Dialling.{NoneIsFree, work_lem}

-- What the tests compute with.
program : Unit {0}
unfolding error_to_delay_type is_hopeful is_hopeless delay_eq calculate_delay to_int64
    new_pruned_peer next_connection deprecable is_ready_for_connection conn_event_handler
    record_attempt record_attempts ◌+ℤ◌ ◌-ℤ◌ saturate64 new_peer_queue
    update_peer_list_from_remote_db add_all_missing add_missing alloc add_peer is_peer_already
    sort_peer_list sort insert_sorted less index_of lookup insert delete get_peer modify remove_peer
    get_next_peer valid_next_peer is_empty
program = tt

-- A peer of the database, one attempt at it and one attempt that succeeds.
abbrev alice : PrunedPeer
alice = record {
  id = "alice";
  addr = [];
  network = "eth2";
  conn_error = "--";
  delay_obj = record { delay_degree = 0; dtype = minus1 };
  base_connection = pos 5;
  base_deprecation = pos 5;
}

abbrev late : Attempt
late = record { now = pos 100; now' = pos 101; error = "io_timeout" }

abbrev fine : Attempt
fine = record { now = pos 200; now' = pos 201; error = "none" }

timeouts_back_off_example :
    next_connection (record_attempt late (record_attempts (late ∷ late ∷ []) alice))
    ≡ pos 100 +ℤ pos (min (2 ^ 2 * (32 * minute)) max_delay_time)
timeouts_back_off_example =
    timeouts_back_off (late ∷ late ∷ []) late alice (refl, (refl, tt)) refl (λ e. cc) (omega arith)

deprecable-record_attempts_example :
    deprecable (pos 300) (record_attempts (late ∷ fine ∷ []) alice)
    ≡ leb_ℤ (pos deprecation_time) (pos 300 -ℤ pos 201)
deprecable-record_attempts_example = deprecable-record_attempts (pos 300) (late ∷ fine ∷ []) alice

-- A queue of two peers of the database.
abbrev remotes : List (ℤ × RemoteConnectablePeer)
remotes =
    (pos 5, record { id = "alice"; addrs = []; network = "eth2" })
    ∷ (pos 6, record { id = "bob"; addrs = []; network = "eth2" })
    ∷ []

abbrev queue : PeerQueue
queue = (update_peer_list_from_remote_db (some remotes) (new_peer_queue alice)).0

update_peer_list_from_remote_db_lem_example :
    let q = (update_peer_list_from_remote_db (some remotes) (new_peer_queue alice)).0 in
    IsConsistent q
    × IsOrdered q.cells q.peer_list
    × ((id : String)
        → peer_of q id ≡ first_of_two (peer_of (new_peer_queue alice) id) (remote_of remotes id))
update_peer_list_from_remote_db_lem_example =
    update_peer_list_from_remote_db_lem remotes (new_peer_queue alice)
      (new_peer_queue-IsConsistent alice)

abbrev queue-IsConsistent : IsConsistent queue
queue-IsConsistent = update_peer_list_from_remote_db_lem_example.0

queue_order : queue.peer_list ≡ 1 ∷ 0 ∷ []
unfolding program
queue_order = refl

-- Gauges that still show a delay that no peer has any more.
abbrev gauges : Gauges
gauges = record {
  strategy = new_iterator queue;
  last_iter_time = 0;
  registered = [];
  pruned_error = ("Timeout", 2) ∷ [];
  error_attempt = [];
  conn_error = [];
  total_conn_error = [];
  peers_attempted = 0;
  iter_time = 0;
}

update_summary-get_metrics_example :
    (r : Dict (Option Summary) × Gauges) × (update_summary get_metrics gauges ≡ some r)
    × ((k : String)
        → (lookup k r.1.pruned_error
            ≡ or_before
                (shown (
                  count
                    (λ p. delay_text p.delay_obj.dtype)
                    gauges.strategy.queue.cells
                    k
                    gauges.strategy.queue.peer_map))
                (lookup k gauges.pruned_error))
          × (lookup k r.1.total_conn_error
              ≡ or_before
                  (shown (
                    count
                      (λ p. p.conn_error)
                      gauges.strategy.queue.cells
                      k
                      gauges.strategy.queue.peer_map))
                  (lookup k gauges.total_conn_error)))
update_summary-get_metrics_example = update_summary-get_metrics gauges

-- The first of the two peers was handed out.
abbrev half_way : PeerQueue
half_way = record queue { peer_ptr = 1 }

get_next_peer-race_example : get_next_peer (remove_peer "bob" half_way) ≡ none
get_next_peer-race_example =
    get_next_peer-race (pos 9) "bob" half_way 1 0 (unfold program in refl) (unfold program in refl)
      (unfold program in refl) (unfold program in refl)

-- The recorder, with texts for attributes and numbers for hosts.
abbrev recorder : Recorder String ℕ
recorder = record { queue = queue; buffer = []; persisted = [] }

abbrev clock : Clock
clock = record { now = pos 100; now' = pos 101; now'' = pos 102 }

abbrev refused : ConnectionAttempt
refused = record {
  remote_peer = "alice";
  timestamp = pos 99;
  status = negative_attempt;
  error = "connection_refused";
  is_deprecable = false;
  left_network = false;
}

handle_attempt_lem_example :
    let s' = handle_attempt clock refused recorder in
    ((j : String) → peer_of s'.queue j ≡ after_attempt clock refused alice (peer_of queue j) j)
    × (s'.persisted ≡ attempt (marked clock refused alice) ∷ [])
    × (s'.buffer ≡ [])
handle_attempt_lem_example =
    handle_attempt_lem clock refused recorder alice queue-IsConsistent (unfold program in refl)

run-IsConsistent_example :
    IsConsistent (run (conn_attempt clock refused ∷ ident_event 3 ∷ []) recorder).queue
run-IsConsistent_example =
    run-IsConsistent (conn_attempt clock refused ∷ ident_event 3 ∷ []) recorder queue-IsConsistent

abbrev start : ConnInfo String
start = record {
  direction = inbound;
  conn_time = pos 50;
  latency = pos 1;
  identified = true;
  att = [];
  error = "none";
}

abbrev end : EndConnInfo
end = record { disc_time = pos 90; conn_duration = pos 0 }

pair_persisted_example :
    let started = handle_event "alice" (conn_info start) recorder in
    let ended = handle_event "alice" (end_conn_info end) recorder in
    let e = add_disconn end (add_conn_info start (new_conn_event "alice")) in
    (started.persisted ≡ [])
    × (ended.persisted ≡ [])
    × ((handle_event "alice" (end_conn_info end) started).persisted ≡ event e ∷ [])
    × ((handle_event "alice" (conn_info start) ended).persisted ≡ event e ∷ [])
    × (e.disc.conn_duration ≡ saturate64 (pos 90 -ℤ pos 50))
pair_persisted_example =
    pair_persisted "alice" start end recorder (unfold lookup in refl) (λ e. cc) (λ e. cc)
      (λ e. ground arith)

-- A finished connection in the buffer, and the start of the next one.
abbrev finished : ConnEvent String
finished = record {
  peer_id = "alice";
  conn = start;
  disc = record { disc_time = pos 90; conn_duration = pos 40 };
}

abbrev restart : ConnInfo String
restart = record start { conn_time = pos 95 }

-- A request during which the recorder removes a peer.
abbrev disturbed : Tick
disturbed = record { now = pos 9; reply = none; before = []; between = "alice" ∷ [] }

step-Follows_example :
    ((step disturbed (new_iterator queue) ≡ none) × Panics disturbed (new_iterator queue))
    ⊎ ((s' : Iterator) × (o : Output) × (step disturbed (new_iterator queue) ≡ some (s', o))
        × Follows disturbed (new_iterator queue) o s')
step-Follows_example = step-Follows disturbed (new_iterator queue)

abbrev ticks : List Tick
ticks =
    disturbed
    ∷ record disturbed { now = pos 10; between = [] }
    ∷ record disturbed { now = pos 11; reply = some remotes }
    ∷ []

serve-NoRepeat_example :
    NoRepeat (is_seen (new_iterator queue).attempted) (serve ticks (new_iterator queue)).1
    × ((s' : Iterator) × ((serve (undisturbed ticks) (new_iterator queue)).0 ≡ some s'))
serve-NoRepeat_example = serve-NoRepeat ticks (new_iterator queue)

-- Two dials, the second of which succeeds.
abbrev answers : ℕ → Option ConnError
answers n = if n == 0 then some (plain (codes "dial: i/o timeout")) else none

known_errors-NoneIsFree : NoneIsFree known_errors
known_errors-NoneIsFree = assumption refl

work_lem_example :
    (a : ConnectionAttempt) × (work
        (parse_con_error known_errors)
        answers
        (pos 1)
        ("bob" ∷ [])
        (record { id = "alice"; network = "eth2"; maddrs = [] })
      ≡ some a)
    × (a.remote_peer ≡ "alice")
    × (a.is_deprecable ≡ false)
    × ((error_to_delay_type a.error ≡ positive) ↔ (answers 0 ≡ none))
work_lem_example =
    work_lem (pos 1) ("bob" ∷ []) (record { id = "alice"; network = "eth2"; maddrs = [] })
      known_errors answers known_errors-NoneIsFree (unfold is_connected in refl)

parse_con_error_lem_example :
    Explains known_errors
      (codes "dial: i/o timeout")
      (parse_con_error known_errors (dial_error (codes "dial: i/o timeout")))
    ⊎ ((parse_con_error known_errors (dial_error (codes "dial: i/o timeout")) ≡ "unknown")
        × Foreign known_errors (codes "dial: i/o timeout"))
parse_con_error_lem_example =
    parse_con_error_lem known_errors (dial_error (codes "dial: i/o timeout"))

timeout_is_found :
    parse_con_error known_errors (dial_error (codes "dial: i/o timeout")) ≡ "io_timeout"
unfolding parse_con_error find_known contains is_prefix
timeout_is_found = refl

-- An iteration that has sent one peer.
abbrev one_sent : Iterator
one_sent = record (new_iterator queue) { attempted = ("alice", 0) ∷ [] }
