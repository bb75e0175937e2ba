-- ===== src/Peering/Peer.antt =====
-- pkg/peering/pruning_strategy.go, lines 550-676: `PrunedPeer`. A `time.Time` is its distance in
-- nanoseconds from the zero time, and each call of `time.Now` is an argument.
pub mod Schedule
pub mod Deprecation
use armiarma.Base.{ℕ, ◌*◌, String, List, Bool, not, if◌then◌else◌}
use armiarma.Base.Int.{ℤ, pos, ◌+ℤ◌, ◌-ℤ◌, ltb_ℤ, leb_ℤ, saturate64}
use armiarma.Peering.Delay.{
  Delay, positive, minus1, delay_eq, DelayObject, new_delay_object, increase_degree,
  calculate_delay, max_delay_time, error_to_delay_type, hour,
}

abbrev pub deprecation_time : ℕ
deprecation_time = 3 * hour

pub record PrunedPeer : Type 0 where
  pub id : String
  pub addr : List String
  pub network : String
  pub conn_error : String
  pub delay_obj : DelayObject
  pub base_connection : ℤ
  pub base_deprecation : ℤ

unfoldable pub new_pruned_peer : ℤ → String → List String → String → Delay → PrunedPeer
unfolding new_delay_object
new_pruned_peer now id addrs network delay = record {
  id = id;
  addr = addrs;
  network = network;
  conn_error = "--";
  delay_obj = new_delay_object delay;
  base_connection = now;
  base_deprecation = now;
}

unfoldable pub next_connection : PrunedPeer → ℤ
next_connection p =
    if delay_eq p.delay_obj.dtype minus1
    then pos 0
    else if ltb_ℤ (pos max_delay_time) (calculate_delay p.delay_obj)
    then p.base_connection +ℤ pos max_delay_time
    else p.base_connection +ℤ calculate_delay p.delay_obj

unfoldable pub is_ready_for_connection : ℤ → PrunedPeer → Bool
is_ready_for_connection now p = not (ltb_ℤ now (next_connection p))

unfoldable pub deprecable : ℤ → PrunedPeer → Bool
deprecable now p = leb_ℤ (pos deprecation_time) (saturate64 (now -ℤ p.base_deprecation))

-- `UpdateDelay` reads the clock twice: `now` for the connection, `now'` for the deprecation.
set_error : ℤ → String → PrunedPeer → PrunedPeer
set_error now e p = record p { conn_error = e; base_connection = now }

set_delay_type : Delay → PrunedPeer → PrunedPeer
unfolding new_delay_object
set_delay_type t p =
    if delay_eq p.delay_obj.dtype t then p else record p { delay_obj = new_delay_object t }

renew_deprecation : ℤ → PrunedPeer → PrunedPeer
renew_deprecation now' p =
    if delay_eq p.delay_obj.dtype positive then record p { base_deprecation = now' } else p

unfoldable pub update_delay : ℤ → ℤ → String → PrunedPeer → PrunedPeer
unfolding set_error set_delay_type renew_deprecation increase_degree
update_delay now now' e p =
    let q = renew_deprecation now' (set_delay_type (error_to_delay_type e) (set_error now e p)) in
    record q { delay_obj = increase_degree q.delay_obj }

unfoldable pub conn_event_handler : ℤ → ℤ → String → PrunedPeer → PrunedPeer
unfolding update_delay
conn_event_handler now now' e p = update_delay now now' e p
