-- ===== src/Gossip/Tests.antt =====
-- The counters of two topics.
use armiarma.Base.{◌≡◌, none, some, String, [], ◌∷◌, lookup}
use armiarma.Base.Int.{pos, negsuc}
use armiarma.Gossip.Counters.{MessageMetrics, get_topic_msgs, get_total_messages}
use armiarma.Gossip.Resets.{get_total_messages-get_total_messages}

abbrev counters : MessageMetrics
counters = ("blocks", pos 3) ∷ ("exits", pos 4) ∷ []

get_total_messages-get_total_messages_example :
    ((get_total_messages (get_total_messages counters).1).0 ≡ pos 0)
    × ((j : String)
        → get_topic_msgs j (get_total_messages counters).1
          ≡ elim (lookup j counters) [ none ↦ negsuc 0 | some n ↦ pos 0 ])
get_total_messages-get_total_messages_example = get_total_messages-get_total_messages counters
