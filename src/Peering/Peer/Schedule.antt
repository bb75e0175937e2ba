-- ===== src/Peering/Peer/Schedule.antt =====
-- When a peer is dialled again: `NextConnection` after the attempts recorded by `ConnEventHandler`.
use armiarma.Base.{
  ℕ, suc, ◌+◌, ◌*◌, ◌^◌, ◌<◌, min, String, ◌≡◌, refl, sym, ◌∙◌, ◌≢◌, true, List, [], ◌∷◌, arith,
  if◌then◌else◌, All, length,
}
use armiarma.Base.Int.{+ℤ_parts, ℤ, pos, ◌+ℤ◌, ◌≤ℤ◌}
use armiarma.Peering.Delay.{
  positive, minus1, delay_eq, error_to_delay_type, max_delay_time, calculate_delay,
  initial_delay_time, negative_with_no_hope, timeout, minute,
}
use armiarma.Peering.Delay.Laws.{
  delay_eq_iff, error_to_delay_type-timeout_iff, calculate_delay-initial,
  error_to_delay_type-ne-minus1, initial_delay_time-le-max, calculate_delay-timeout,
}
use armiarma.Peering.Peer.{PrunedPeer, next_connection, conn_event_handler, is_ready_for_connection}

-- A dial of a peer, as the recorder sees it: the two readings of the clock and the parsed error.
pub record Attempt : Type 0 where
  pub now : ℤ
  pub now' : ℤ
  pub error : String

unfoldable pub record_attempt : Attempt → PrunedPeer → PrunedPeer
record_attempt a p = conn_event_handler a.now a.now' a.error p

unfoldable pub record_attempts : List Attempt → PrunedPeer → PrunedPeer
record_attempts [] p = p
record_attempts (a ∷ as') p = record_attempts as' (record_attempt a p)

-- A peer that was tried waits at most the maximum delay from its last attempt.
pub next_connection-le :
    (p : PrunedPeer)
    → p.delay_obj.dtype ≢ minus1
    → next_connection p ≤ℤ p.base_connection +ℤ pos max_delay_time
unfolding next_connection
next_connection-le p h = ground (
  arith,
  delay_eq_iff p.delay_obj.dtype minus1,
  +ℤ_parts p.base_connection (pos max_delay_time),
  +ℤ_parts p.base_connection (calculate_delay p.delay_obj),
)

-- An attempt starts the wait at its own time, takes the class of its error, and counts the attempts of
-- that class in a row.
pub conn_event_handler_lem :
    (now now' : ℤ) (e : String) (p : PrunedPeer)
    → let q = conn_event_handler now now' e p in
      (q.base_connection ≡ now)
      × (q.conn_error ≡ e)
      × (q.id ≡ p.id)
      × (q.delay_obj.dtype ≡ error_to_delay_type e)
      × (q.delay_obj.delay_degree ≡ (
          if delay_eq p.delay_obj.dtype (error_to_delay_type e)
          then p.delay_obj.delay_degree + 1
          else 1))
      × (q.base_deprecation
          ≡ (if delay_eq (error_to_delay_type e) positive then now' else p.base_deprecation))
unfolding conn_event_handler
conn_event_handler_lem now now' e p =
    ground (arith, delay_eq_iff p.delay_obj.dtype (error_to_delay_type e))

abbrev pub IsTimeout : Attempt → Type 0
IsTimeout a = a.error ≡ "io_timeout"

timeouts_count :
    (as' : List Attempt) (p : PrunedPeer)
    → All IsTimeout as'
    → p.delay_obj.dtype ≡ timeout
    → ((record_attempts as' p).delay_obj.dtype ≡ timeout)
      × ((record_attempts as' p).delay_obj.delay_degree ≡ p.delay_obj.delay_degree + length as')
unfolding record_attempts record_attempt
timeouts_count [] p h t = (t, omega arith)
timeouts_count (a ∷ as') p h t =
    let q = conn_event_handler a.now a.now' a.error p in
    let (b, c, i, d, n, r) = conn_event_handler_lem a.now a.now' a.error p in
    let k : error_to_delay_type a.error ≡ timeout =
      (error_to_delay_type-timeout_iff a.error).1 h.0 in
    ground (
      arith,
      delay_eq_iff p.delay_obj.dtype (error_to_delay_type a.error),
      timeouts_count as' q h.1,
    )

-- The attempts of one class in a row that end a history, when it ends with a timeout.
timeouts_degree :
    (as' : List Attempt) (a : Attempt) (p : PrunedPeer)
    → All IsTimeout as'
    → IsTimeout a
    → p.delay_obj.dtype ≢ timeout
    → let q = record_attempt a (record_attempts as' p) in
      (q.delay_obj.dtype ≡ timeout)
      × (q.delay_obj.delay_degree ≡ suc (length as'))
      × (q.base_connection ≡ a.now)
unfolding record_attempts record_attempt
timeouts_degree [] a p h t n = ground (
  arith,
  conn_event_handler_lem a.now a.now' a.error p,
  delay_eq_iff p.delay_obj.dtype (error_to_delay_type a.error),
  error_to_delay_type-timeout_iff a.error,
)
timeouts_degree (b ∷ bs) a p h t n =
    let q = conn_event_handler b.now b.now' b.error p in
    let r = record_attempts bs q in
    ground (
      arith,
      conn_event_handler_lem b.now b.now' b.error p,
      conn_event_handler_lem a.now a.now' a.error r,
      timeouts_count bs q h.1,
      delay_eq_iff p.delay_obj.dtype (error_to_delay_type b.error),
      delay_eq_iff r.delay_obj.dtype (error_to_delay_type a.error),
      error_to_delay_type-timeout_iff a.error,
      error_to_delay_type-timeout_iff b.error,
    )

next_connection-timeout :
    (p : PrunedPeer) (n : ℕ)
    → p.delay_obj.dtype ≡ timeout
    → p.delay_obj.delay_degree ≡ suc n
    → n < 23
    → next_connection p ≡ p.base_connection +ℤ pos (min (2 ^ n * (32 * minute)) max_delay_time)
unfolding next_connection
next_connection-timeout p n d g h =
    let e : p.delay_obj ≡ record { delay_degree = suc n; dtype = timeout } = ground arith in
    let c : calculate_delay p.delay_obj ≡ pos (2 ^ n * (32 * minute)) =
      rw e (calculate_delay-timeout n h) in
    ground (arith, c, delay_eq_iff p.delay_obj.dtype minus1)

-- Consecutive timeouts back off exponentially: the timeout after `n` others, `n < 23`, of a peer that was in
-- another class before makes the peer wait 2^n times 32 minutes from that attempt, capped at
-- the maximum delay of 2^11 minutes.
pub timeouts_back_off :
    (as' : List Attempt) (a : Attempt) (p : PrunedPeer)
    → All IsTimeout as'
    → IsTimeout a
    → p.delay_obj.dtype ≢ timeout
    → length as' < 23
    → next_connection (record_attempt a (record_attempts as' p))
      ≡ a.now +ℤ pos (min (2 ^ length as' * (32 * minute)) max_delay_time)
timeouts_back_off as' a p h t n l =
    let (d, g, b) = timeouts_degree as' a p h t n in
    let q = record_attempt a (record_attempts as' p) in
    next_connection-timeout q (length as') d g l ∙ rw b refl

next_connection-initial :
    (p : PrunedPeer)
    → p.delay_obj.dtype ≢ minus1
    → p.delay_obj.dtype ≢ timeout
    → next_connection p ≡ p.base_connection +ℤ initial_delay_time p.delay_obj.dtype
unfolding next_connection
next_connection-initial p m t = ground (
  arith,
  delay_eq_iff p.delay_obj.dtype minus1,
  calculate_delay-initial p.delay_obj,
  initial_delay_time-le-max p.delay_obj.dtype,
)

-- An attempt that does not time out makes the peer wait the initial delay of its class from that
-- attempt, whatever happened before.
pub next_connection-conn_event_handler :
    (now now' : ℤ) (e : String) (p : PrunedPeer)
    → e ≢ "io_timeout"
    → next_connection (conn_event_handler now now' e p)
      ≡ now +ℤ initial_delay_time (error_to_delay_type e)
next_connection-conn_event_handler now now' e p h =
    let q = conn_event_handler now now' e p in
    let (b, c, i, d, g, r) = conn_event_handler_lem now now' e p in
    next_connection-initial q (λ z. error_to_delay_type-ne-minus1 e (sym d ∙ z))
      (λ z. h ((error_to_delay_type-timeout_iff e).0 (sym d ∙ z)))
    ∙ rw (b, d) refl

-- A peer whose error leaves no hope is ready for the next dial at once: its class has no entry
-- among the initial delays.
pub hopeless_is_ready :
    (now now' later : ℤ) (e : String) (p : PrunedPeer)
    → error_to_delay_type e ≡ negative_with_no_hope
    → now ≤ℤ later
    → is_ready_for_connection later (conn_event_handler now now' e p) ≡ true
unfolding is_ready_for_connection
hopeless_is_ready now now' later e p h l =
    let n : e ≢ "io_timeout" = λ z. cc ((error_to_delay_type-timeout_iff e).1 z) in
    rw (next_connection-conn_event_handler now now' e p n, h) (ground (arith, +ℤ_parts now (pos 0)))
