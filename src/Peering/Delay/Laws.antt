-- ===== src/Peering/Delay/Laws.antt =====
-- The classification of errors and the length of the delays.
use armiarma.Base.{
  ℕ, zero, suc, ◌*◌, ◌^◌, ◌<◌, String, ◌≡◌, refl, ◌≢◌, ◌↔◌, Bool, true, ◌&&◌, arith, eq_iff, str_eq,
  ltb,
}
use armiarma.Base.Int.{pos, to_int64_small, ◌≤ℤ◌}
use armiarma.Peering.Delay.{
  Delay, positive, minus1, timeout, delay_eq, calculate_delay, error_to_delay_type, is_hopeful,
  is_hopeless, minute, DelayObject, initial_delay_time, max_delay_time,
}

pub delay_eq_iff : (a b : Delay) → (delay_eq a b ≡ true) ↔ (a ≡ b)
unfolding delay_eq
delay_eq_iff a b = ground arith

pub error_to_delay_type-positive_iff :
    (e : String) → (error_to_delay_type e ≡ positive) ↔ (e ≡ "none")
unfolding error_to_delay_type
error_to_delay_type-positive_iff e =
    (λ h. ground (arith, eq_iff e "none"), λ h. ground (arith, eq_iff e "none"))

-- The class is the successful one exactly for the error text "none".
pub delay_eq-positive : (e : String) → delay_eq (error_to_delay_type e) positive ≡ str_eq e "none"
delay_eq-positive e = ground (
  arith,
  delay_eq_iff (error_to_delay_type e) positive,
  error_to_delay_type-positive_iff e,
  eq_iff e "none",
)

io_timeout_is_timeout : error_to_delay_type "io_timeout" ≡ timeout
unfolding error_to_delay_type is_hopeful is_hopeless
io_timeout_is_timeout = refl

pub error_to_delay_type-timeout_iff :
    (e : String) → (error_to_delay_type e ≡ timeout) ↔ (e ≡ "io_timeout")
unfolding error_to_delay_type
error_to_delay_type-timeout_iff e =
    (λ h. ground (arith, eq_iff e "io_timeout"), λ h. rw h io_timeout_is_timeout)

pub error_to_delay_type-ne-minus1 : (e : String) → error_to_delay_type e ≢ minus1
unfolding error_to_delay_type
error_to_delay_type-ne-minus1 e h = ground arith

fits_below : ℕ → Bool
fits_below zero = true
fits_below (suc n) = ltb (2 ^ n * (32 * minute)) (2 ^ 63) && fits_below n

fits_below_sound : (k n : ℕ) → fits_below k ≡ true → n < k → 2 ^ n * (32 * minute) < 2 ^ 63
unfolding fits_below
fits_below_sound zero n h l = absurd (omega arith)
fits_below_sound (suc k) n h l = ground (arith, fits_below_sound k n)

pub calculate_delay-timeout :
    (n : ℕ)
    → n < 23
    → calculate_delay (record { delay_degree = suc n; dtype = timeout })
      ≡ pos (2 ^ n * (32 * minute))
unfolding calculate_delay fits_below
calculate_delay-timeout n h =
    ground (arith, to_int64_small (2 ^ n * (32 * minute)), fits_below_sound 23 n refl h)

pub calculate_delay-initial :
    (d : DelayObject) → d.dtype ≢ timeout → calculate_delay d ≡ initial_delay_time d.dtype
unfolding calculate_delay
calculate_delay-initial d h = ground arith

pub initial_delay_time-le-max : (d : Delay) → initial_delay_time d ≤ℤ pos max_delay_time
initial_delay_time-le-max positive = omega arith
initial_delay_time-le-max _ = omega arith
