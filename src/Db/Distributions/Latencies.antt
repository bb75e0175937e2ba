-- ===== src/Db/Distributions/Latencies.antt =====
-- The ranges of the latencies of `GetRTTDistribution` (crawler_metrics.go), described by a division.
use armiarma.Base.{
  ℕ, ◌+◌, ◌/◌, ◌≡◌, refl, String, Option, none, some, arith, leb, ◌==◌, if◌then◌else◌,
}
use armiarma.Base.Int.{ℤ, pos, negsuc}
use armiarma.Db.Distributions.{latency_range}

-- The range with a number: a hundred milliseconds each, up to a second.
unfoldable pub nth_range : ℕ → String
nth_range k =
    if leb k 1
    then " 0-100ms"
    else if k == 2
    then "101-200ms"
    else if k == 3
    then "201-300ms"
    else if k == 4
    then "301-400ms"
    else if k == 5
    then "401-500ms"
    else if k == 6
    then "501-600ms"
    else if k == 7
    then "601-700ms"
    else if k == 8
    then "701-800ms"
    else if k == 9
    then "801-900ms"
    else if k == 10
    then "901-1000ms"
    else "+1s"

-- The hundreds of milliseconds, rounded up, choose the range.
unfoldable pub range_of : Option ℤ → String
range_of none = "+1s"
range_of (some (negsuc n)) = "+1s"
range_of (some (pos n)) = nth_range ((n + 99) / 100)

pub latency_range-range_of : (l : Option ℤ) → latency_range l ≡ range_of l
unfolding latency_range range_of nth_range
latency_range-range_of none = refl
latency_range-range_of (some (negsuc n)) = ground arith
latency_range-range_of (some (pos n)) = ground arith
