-- ===== src/Apis/IpQueue.antt =====
-- The `ipQueue` of pkg/utils/apis/ip_api.go, a bounded queue without repetitions.

use armiarma.Base.{
  ℕ, String, Bool, false, ◌||◌, Option, none, some, List, [], ◌∷◌, ◌++◌, str_eq, leb, if◌then◌else◌,
  length,
}

pub data QueueError : Type 0 where
  queue_full queue_empty : QueueError

pub record IpQueue : Type 0 where
  pub queue_size : ℕ
  pub ip_list : List String

unfoldable pub new_ip_queue : ℕ → IpQueue
new_ip_queue size = record { queue_size = size; ip_list = [] }

unfoldable pub is_listed : String → List String → Bool
is_listed target [] = false
is_listed target (ip ∷ ips) = str_eq ip target || is_listed target ips

unfoldable pub ip_exists : String → IpQueue → Bool
ip_exists target q = is_listed target q.ip_list

unfoldable pub len : IpQueue → ℕ
len q = length q.ip_list

-- `addItem`: the error and the queue afterwards.
unfoldable pub add_item : String → IpQueue → Option QueueError × IpQueue
add_item item q =
    if leb q.queue_size (len q)
    then (some queue_full, q)
    else if is_listed item q.ip_list
    then (none, q)
    else (none, record q { ip_list = q.ip_list ++ (item ∷ []) })

-- `readItem`: the item, the error and the queue afterwards.
unfoldable pub read_item : IpQueue → String × Option QueueError × IpQueue
read_item q = elim q.ip_list [
  | [] ↦ ("", some queue_empty, q)
  | item ∷ rest ↦ (item, none, record q { ip_list = rest })
]
