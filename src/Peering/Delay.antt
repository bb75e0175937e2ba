-- ===== src/Peering/Delay.antt =====
-- pkg/peering/prunning_error_structs.go: the kinds of delay, and how long each one waits.
-- Durations are int64 nanoseconds. `Delay` is a string type whose values in the program are the six
-- constants below, so the `default` of `CalculateDelay` has no constructor.
pub mod Laws
use armiarma.Base.{ℕ, ◌+◌, ◌-◌, ◌*◌, ◌^◌, String, str_eq, Bool, ◌||◌, ◌==◌, ltb, if◌then◌else◌}
use armiarma.Base.Int.{ℤ, pos, negsuc, to_int64}

pub data Delay : Type 0 where
  positive negative_with_hope negative_with_no_hope zero_delay minus1 timeout : Delay

-- The text of each constant.
unfoldable pub delay_text : Delay → String
delay_text positive = "Positive"
delay_text negative_with_hope = "NegativeWithHope"
delay_text negative_with_no_hope = "NegativeWithNoHope"
delay_text zero_delay = "Zero"
delay_text minus1 = "Minus1"
delay_text timeout = "Timeout"

-- `==` on the constants, whose texts are all different.
abbrev delay_index : Delay → ℕ
delay_index positive = 0
delay_index negative_with_hope = 1
delay_index negative_with_no_hope = 2
delay_index zero_delay = 3
delay_index minus1 = 4
delay_index timeout = 5

unfoldable pub delay_eq : Delay → Delay → Bool
delay_eq a b = delay_index a == delay_index b

abbrev pub minute : ℕ
minute = 60_000_000_000

abbrev pub hour : ℕ
hour = 60 * minute

-- `math.Pow(2, 11)` minutes.
abbrev pub max_delay_time : ℕ
max_delay_time = 2 ^ 11 * minute

-- The map `initialDelayTime`. It has no entry for the delay without hope: a missing key reads 0.
abbrev pub initial_delay_time : Delay → ℤ
initial_delay_time positive = pos (2 * minute)
initial_delay_time negative_with_hope = pos (2 * minute)
initial_delay_time negative_with_no_hope = pos 0
initial_delay_time zero_delay = pos (0 * minute)
initial_delay_time minus1 = negsuc (1000 * hour - 1)
initial_delay_time timeout = pos (32 * minute)

-- `ErrorToDelayType`, with the texts of pkg/hosts/conn_errors.go.
unfoldable pub is_hopeful : String → Bool
is_hopeful e =
    str_eq e "connection_reset_by_peer"
    || str_eq e "connection_refused"
    || str_eq e "context_deadline_exceeded"
    || str_eq e "backoff"
    || str_eq e "error requesting metadata"
    || str_eq e "unknown"

unfoldable pub is_hopeless : String → Bool
is_hopeless e =
    str_eq e "no_route_to_host"
    || str_eq e "network_unreachable"
    || str_eq e "peer_id_mismatch"
    || str_eq e "dial to self attempted"
    || str_eq e "no_good_addresses"

unfoldable pub error_to_delay_type : String → Delay
error_to_delay_type e =
    if str_eq e "none"
    then positive
    else if is_hopeful e
    then negative_with_hope
    else if is_hopeless e
    then negative_with_no_hope
    else if str_eq e "io_timeout"
    then timeout
    else negative_with_hope

-- `delay_degree` is an int that only ever grows by one: its wrap at 2^63 is out of reach.
pub record DelayObject : Type 0 where
  pub delay_degree : ℕ
  pub dtype : Delay

unfoldable pub new_delay_object : Delay → DelayObject
new_delay_object t = record { delay_degree = 0; dtype = t }

unfoldable pub increase_degree : DelayObject → DelayObject
increase_degree d = record d { delay_degree = d.delay_degree + 1 }

unfoldable pub set_degree : DelayObject → ℕ → DelayObject
set_degree d n = record d { delay_degree = n }

-- The bit pattern of `time.Duration(math.Pow(2, n))`. From 2^63 on the conversion is out of range,
-- and amd64 yields the least int64.
abbrev pub pow2_bits : ℕ → ℕ
pow2_bits n = if ltb n 63 then 2 ^ n else 2 ^ 63

timeout_delay : ℕ → ℤ
timeout_delay n = if n == 0 then pos 0 else to_int64 (pow2_bits (n - 1) * (32 * minute))

delay_of : Delay → ℕ → ℤ
unfolding timeout_delay
delay_of timeout n = timeout_delay n
delay_of positive n = initial_delay_time positive
delay_of zero_delay n = initial_delay_time zero_delay
delay_of minus1 n = initial_delay_time minus1
delay_of negative_with_hope n = initial_delay_time negative_with_hope
delay_of negative_with_no_hope n = initial_delay_time negative_with_no_hope

unfoldable pub calculate_delay : DelayObject → ℤ
unfolding delay_of timeout_delay
calculate_delay d = delay_of d.dtype d.delay_degree
