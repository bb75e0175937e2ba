-- ===== src/Gossip/Counters.antt =====
-- `MessageMetrics` of pkg/gossipsub/metrics_exporter.go: a counter for each topic, an int32. The order in which Go visits the map is that of
-- the list of its keys.
use armiarma.Base.{
  ◌+◌, ◌-◌, ◌^◌, Bool, true, false, none, some, String, List, [], ◌∷◌, Dict, lookup, insert, ◌==◌,
  if◌then◌else◌,
}
use armiarma.Base.Int.{ℤ, pos, negsuc, ◌+ℤ◌, ltb_ℤ}

abbrev pub MessageMetrics : Type 0
MessageMetrics = Dict ℤ

unfoldable pub new_message_metrics : MessageMetrics
new_message_metrics = []

-- Whether the topic was there already.
unfoldable pub new_topic : String → MessageMetrics → Bool × MessageMetrics
new_topic topic m = elim (lookup topic m) [
  | some n ↦ (true, m)
  | none ↦ (false, insert topic (pos 0) m)
]

-- `atomic.AddInt32(v, 1)`, which wraps around.
unfoldable pub add_int32 : ℤ → ℤ
add_int32 (pos n) = if n == 2 ^ 31 - 1 then negsuc (2 ^ 31 - 1) else pos (n + 1)
add_int32 (negsuc n) = negsuc n +ℤ pos 1

unfoldable pub add_messge_to_topic : String → MessageMetrics → ℤ × MessageMetrics
add_messge_to_topic topic m = elim (lookup topic m) [
  | none ↦ (negsuc 0, m)
  | some n ↦ (add_int32 n, insert topic (add_int32 n) m)
]

unfoldable pub reset_topic : String → MessageMetrics → ℤ × MessageMetrics
reset_topic topic m = elim (lookup topic m) [
  | none ↦ (negsuc 0, m)
  | some n ↦ (n, insert topic (pos 0) m)
]

unfoldable pub get_topic_msgs : String → MessageMetrics → ℤ
get_topic_msgs topic m = elim (lookup topic m) [ none ↦ negsuc 0 | some n ↦ n ]

abbrev pub keys_of : MessageMetrics → List String
keys_of [] = []
keys_of ((k, n) ∷ m) = k ∷ keys_of m

-- Whether there is no error; the loop ends at the first.
unfoldable pub reset_loop : List String → MessageMetrics → Bool × MessageMetrics
reset_loop [] m = (true, m)
reset_loop (k ∷ keys) m =
    let (r, m') = reset_topic k m in
    let rest = reset_loop keys m' in if ltb_ℤ r (pos 0) then (false, m') else rest

unfoldable pub reset_all_topics : MessageMetrics → Bool × MessageMetrics
reset_all_topics m = reset_loop (keys_of m) m

unfoldable pub total_loop : List String → ℤ → MessageMetrics → ℤ × MessageMetrics
total_loop [] total m = (total, m)
total_loop (k ∷ keys) total m =
    let (r, m') = reset_topic k m in
    total_loop keys (if ltb_ℤ r (pos 0) then total else total +ℤ r) m'

unfoldable pub get_total_messages : MessageMetrics → ℤ × MessageMetrics
get_total_messages m = total_loop (keys_of m) (pos 0) m
