-- ===== src/Db/Times.antt =====
-- The times and durations that pkg/db/postgresql stores: `time.Time.Unix`, `time.Unix` and `time.Duration.Milliseconds`. A time is
-- the integer of its nanoseconds since the zero time, a duration an int64 of nanoseconds.
use armiarma.Base.{ℕ, ◌+◌, ◌-◌, ◌*◌, ◌/◌, ◌%◌, ◌^◌, ◌≡◌, ◌<◌, arith}
use armiarma.Base.Int.{ℤ, pos, negsuc, sub_ℕ, to_int64, to_int64_small}

-- The seconds from the zero time to 1970.
abbrev pub unix_epoch : ℕ
unix_epoch = 62135596800

unfoldable pub unix : ℤ → ℤ
unix (pos t) = sub_ℕ (t / 1000000000) unix_epoch
unix (negsuc t) = negsuc (t / 1000000000 + unix_epoch)

-- `time.Unix(s, 0)`
unfoldable pub from_unix : ℤ → ℤ
from_unix (pos s) = pos ((s + unix_epoch) * 1000000000)
from_unix (negsuc s) = sub_ℕ (unix_epoch * 1000000000) ((s + 1) * 1000000000)

unfoldable pub milliseconds : ℤ → ℤ
milliseconds (pos d) = pos (d / 1000000)
milliseconds (negsuc d) = sub_ℕ 0 ((d + 1) / 1000000)

-- `time.Duration(ms) * time.Millisecond`
unfoldable pub of_milliseconds : ℤ → ℤ
of_milliseconds (pos ms) = to_int64 (ms * 1000000)
of_milliseconds (negsuc ms) = to_int64 (2 ^ 64 - (ms + 1) * 1000000 % 2 ^ 64)

-- What is read back of a time that was stored is its second.
pub from_unix-unix : (t : ℕ) → from_unix (unix (pos t)) ≡ pos (t / 1000000000 * 1000000000)
unfolding from_unix unix
from_unix-unix t = ground arith

-- What is read back of a latency is its millisecond.
pub of_milliseconds-milliseconds :
    (d : ℕ) → d < 2 ^ 63 → of_milliseconds (milliseconds (pos d)) ≡ pos (d / 1000000 * 1000000)
unfolding of_milliseconds milliseconds
of_milliseconds-milliseconds d h = to_int64_small (d / 1000000 * 1000000) (omega arith)
