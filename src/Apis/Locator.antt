-- ===== src/Apis/Locator.antt =====
-- The `IpLocator` of pkg/utils/apis/ip_api.go with its two routines, and `CheckIpRecords` of
-- pkg/db/postgresql/ips.go. A step is what one routine does between two waits; which one moves next, and what the
-- clock, the database and the web service answer, is the event. `F` stands for the floating-point numbers.
pub mod Order
pub mod Requests
use armiarma.Base.{
  ℕ, zero, suc, ◌+◌, ◌-◌, ◌*◌, ◌%◌, ◌^◌, min, String, refl, sym, ap, inl, inr, Bool, true, false,
  not, ◌&&◌, Option, none, some, List, [], ◌∷◌, ◌++◌, map, arith, eq_iff, eq_refl, str_eq, ltb, leb,
  if◌then◌else◌, ltb→lt, lt→ltb, leb→le, ==_iff, Bool-cases, Option-cases, All, length, get_elem?,
  take, drop, length-append, length-take, length-drop, take-append-drop, Dict, lookup, insert,
  delete, lookup-insert, lookup-delete,
}
use armiarma.Base.Int.{ℤ, pos, pos_part, neg_part, ltb_ℤ, eqb_ℤ, to_int64}
use armiarma.Apis.IpQueue.{IpQueue, new_ip_queue, ip_exists, add_item, read_item}
use armiarma.Apis.Call.{IpInfo, ApiResp, ApiError, too_many_requests, second}

-- The row of the table `ips`.
pub data Row : Type 0 where
  no_rows row_failed : Row
  row : String → ℤ → Row

-- Whether the address is stored, whether its record has expired, and whether there was an error.
unfoldable pub check_ip_records : ℤ → String → Row → Bool × Bool × Bool
check_ip_records now ip no_rows = (false, false, false)
check_ip_records now ip row_failed = (false, false, true)
check_ip_records now ip (row read_ip exp) = (str_eq read_ip ip, ltb_ℤ exp now, false)

-- The locating routine. One that has ended keeps the address that it was locating, if any.
pub data Phase : Type 0 where
  idle : Phase
  calling : String → Phase
  backing_off : String → ℤ → Phase
  resting : ℤ → Phase
  stopped crashed : List String → Phase

-- `held` is what the reading routine has taken from the queue and not yet sent, `located` are the addresses whose
-- requests have ended, in their order.
pub record IpLocator (F : Type 0) : Type 0 where
  pub ip_queue : IpQueue
  pub held : List String
  pub location_request : List String
  pub closed : Bool
  pub phase : Phase
  pub api_calls : ℕ
  pub located : List String
  pub persisted : List (IpInfo F)

abbrev pub ip_chan_buff_size : ℕ
ip_chan_buff_size = 45

abbrev pub ip_buff_size : ℕ
ip_buff_size = 8192

pub data Event (F : Type 0) : Type 0 where
  locates : ℤ → String → Row → Event F
  retries : String → Event F
  reads sends receives ticks closes : Event F
  responds : Option (ApiResp F) → Event F

unfoldable pub new_ip_locator : {F : Type 0} → IpLocator F
new_ip_locator = record {
  ip_queue = new_ip_queue ip_buff_size;
  held = [];
  location_request = [];
  closed = false;
  phase = idle;
  api_calls = 0;
  located = [];
  persisted = [];
}

-- The address that is being located.
abbrev pub current : Phase → List String
current idle = []
current (calling ip) = ip ∷ []
current (backing_off ip d) = ip ∷ []
current (resting d) = []
current (stopped ips) = ips
current (crashed ips) = ips

-- The sum of two int64.
abbrev pub plus64 : ℤ → ℕ → ℤ
plus64 d n = to_int64 (pos_part d + n + (2 ^ 64 - neg_part d % 2 ^ 64))

module _ {F : Type 0} where
  abbrev pub crash : IpLocator F → IpLocator F
  crash s = record s { phase = crashed (current s.phase) }

  -- `time.NewTicker(d)`, which panics unless the duration is positive, and the phase in which it is awaited.
  unfoldable pub wait : ℤ → Phase → IpLocator F → IpLocator F
  wait d phase s = if ltb_ℤ (pos 0) d then record s { phase = phase } else crash s

  -- An attempt of the loop in `LocateIP`.
  unfoldable pub try_add : String → IpLocator F → IpLocator F
  try_add ip s = record s { ip_queue = (add_item ip s.ip_queue).1 }

  unfoldable pub locate_ip : ℤ → String → Row → IpLocator F → IpLocator F
  locate_ip now ip r s =
      if ip_exists ip s.ip_queue
      then s
      else (let (exists, expired, err) = check_ip_records now ip r in
          if exists && not expired then s else try_add ip s)

  -- The reading routine: `readItem`, then the send, which waits while the channel is full.
  unfoldable pub read_next : List String → IpLocator F → IpLocator F
  read_next (ip ∷ ips) s = s
  read_next [] s =
      let (item, err, q) = read_item s.ip_queue in
      elim err [ none ↦ record s { ip_queue = q; held = item ∷ [] } | some _ ↦ s ]

  unfoldable pub send : List String → IpLocator F → IpLocator F
  send [] s = s
  send (ip ∷ ips) s =
      if s.closed
      then crash s
      else if ltb (length s.location_request) ip_chan_buff_size
      then record s { held = ips; location_request = s.location_request ++ (ip ∷ []) }
      else s

  -- A call of the web service begins; the counter is an int32.
  unfoldable pub call : String → IpLocator F → IpLocator F
  call ip s = record s { phase = calling ip; api_calls = (s.api_calls + 1) % 2 ^ 32 }

  abbrev pub take_request : List String → IpLocator F → IpLocator F
  take_request [] s = s
  take_request (ip ∷ ips) s = call ip (record s { location_request = ips })

  unfoldable pub receive : Phase → IpLocator F → IpLocator F
  receive idle s = take_request s.location_request s
  receive (calling ip) s = s
  receive (backing_off ip d) s = s
  receive (resting d) s = s
  receive (stopped ips) s = s
  receive (crashed ips) s = s

  -- The end of `reqLoop`, with the delay before the next request.
  unfoldable pub finish : String → ℤ → IpLocator F → IpLocator F
  finish ip d s =
      let s' = record s { phase = idle; located = s.located ++ (ip ∷ []) } in
      if eqb_ℤ d (pos 0) then s' else wait (plus64 d (2 * second)) (resting d) s'

  abbrev pub answer : String → ApiResp F → Option ApiError → IpLocator F → IpLocator F
  answer ip r none s =
      finish ip r.delay_time (record s { persisted = s.persisted ++ (r.ip_info ∷ []) })
  answer ip r (some too_many_requests) s =
      wait (plus64 r.delay_time (5 * second)) (backing_off ip r.delay_time) s
  answer ip r (some e) s = finish ip r.delay_time s

  -- The response of the web service; `none` is a panic in the routine that calls it.
  unfoldable pub respond : Phase → Option (ApiResp F) → IpLocator F → IpLocator F
  respond (calling ip) none s = crash s
  respond (calling ip) (some r) s = answer ip r r.err s
  respond idle r s = s
  respond (backing_off ip d) r s = s
  respond (resting d) r s = s
  respond (stopped ips) r s = s
  respond (crashed ips) r s = s

  unfoldable pub tick : Phase → IpLocator F → IpLocator F
  tick (backing_off ip d) s = call ip s
  tick (resting d) s = record s { phase = idle }
  tick idle s = s
  tick (calling ip) s = s
  tick (stopped ips) s = s
  tick (crashed ips) s = s

  -- The end of the context. Only an idle routine closes the channel.
  unfoldable pub close : Phase → IpLocator F → IpLocator F
  close idle s = record s { phase = stopped []; closed = true }
  close (calling ip) s = record s { phase = stopped (ip ∷ []) }
  close (backing_off ip d) s = record s { phase = stopped (ip ∷ []) }
  close (resting d) s = record s { phase = stopped [] }
  close (stopped ips) s = s
  close (crashed ips) s = s

  unfoldable pub step : Event F → IpLocator F → IpLocator F
  step (locates now ip r) s = locate_ip now ip r s
  step (retries ip) s = try_add ip s
  step reads s = read_next s.held s
  step sends s = send s.held s
  step receives s = receive s.phase s
  step (responds r) s = respond s.phase r s
  step ticks s = tick s.phase s
  step closes s = close s.phase s

  unfoldable pub run : List (Event F) → IpLocator F → IpLocator F
  run [] s = s
  run (e ∷ es) s = run es (step e s)
