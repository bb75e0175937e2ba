-- ===== src/Models/ConnEvent/Pairing.antt =====
-- The two notices of a connection make the same event in either order.
use armiarma.Base.{String, ◌≡◌, ◌≢◌, true, false, arith}
use armiarma.Base.Int.{ℤ, pos, eqb_ℤ, ltb_ℤ, ◌-ℤ◌, saturate64, -ℤ_parts, eq_of_parts}
use armiarma.Models.ConnEvent.{
  ConnEvent, ConnInfo, EndConnInfo, add_conn_info, add_disconn, is_ready_to_persist, new_conn_event,
}

-- A start and an end with times other than the zero time make the same event in either order, from
-- any event of the peer, with the duration from the start to the end.
pub add_disconn-add_conn_info :
    {V : Type 0} (i : ConnInfo V) (d : EndConnInfo) (c : ConnEvent V)
    → i.conn_time ≢ pos 0
    → d.disc_time ≢ pos 0
    → (add_disconn d (add_conn_info i c) ≡ add_conn_info i (add_disconn d c))
      × ((add_disconn d (add_conn_info i c)).disc.conn_duration
          ≡ saturate64 (d.disc_time -ℤ i.conn_time))
unfolding add_disconn add_conn_info
add_disconn-add_conn_info i d c hi hd = ground arith

saturate64_zero : (d : ℤ) → eqb_ℤ (saturate64 d) (pos 0) ≡ eqb_ℤ d (pos 0)
unfolding saturate64
saturate64_zero d = ground arith

-- One notice alone never completes a new event; a start and a later end do.
pub is_ready_to_persist-new :
    {V : Type 0} (peer : String) (i : ConnInfo V) (d : EndConnInfo)
    → i.conn_time ≢ pos 0
    → d.disc_time ≢ pos 0
    → i.conn_time ≢ d.disc_time
    → (is_ready_to_persist (add_conn_info i (new_conn_event peer)) ≡ false)
      × (is_ready_to_persist (add_disconn d (new_conn_event {V = V} peer)) ≡ false)
      × (is_ready_to_persist (add_disconn d (add_conn_info i (new_conn_event peer))) ≡ true)
unfolding is_ready_to_persist add_conn_info add_disconn new_conn_event
is_ready_to_persist-new peer i d hi hd h = ground (
  arith,
  saturate64_zero (d.disc_time -ℤ i.conn_time),
  -ℤ_parts d.disc_time i.conn_time,
  eq_of_parts d.disc_time i.conn_time,
)

saturate64_negative : (d : ℤ) → ltb_ℤ d (pos 0) ≡ true → ltb_ℤ (saturate64 d) (pos 0) ≡ true
unfolding saturate64
saturate64_negative d h = ground arith

-- A start after the end that the event already has completes it, with a negative duration.
pub add_conn_info-stale :
    {V : Type 0} (i : ConnInfo V) (c : ConnEvent V)
    → c.disc.disc_time ≢ pos 0
    → i.conn_time ≢ pos 0
    → ltb_ℤ c.disc.disc_time i.conn_time ≡ true
    → (is_ready_to_persist (add_conn_info i c) ≡ true)
      × (ltb_ℤ (add_conn_info i c).disc.conn_duration (pos 0) ≡ true)
unfolding is_ready_to_persist add_conn_info
add_conn_info-stale i c hc hi h =
    let n : ltb_ℤ (c.disc.disc_time -ℤ i.conn_time) (pos 0) ≡ true =
      ground (arith, -ℤ_parts c.disc.disc_time i.conn_time) in
    ground (arith, saturate64_negative (c.disc.disc_time -ℤ i.conn_time) n)
