-- ===== src/Gossip.antt =====
-- pkg/gossipsub: the counters of the messages (metrics.go, metrics_exporter.go) and the loop that reads a topic
-- (topic_subscription.go). What libp2p gives to the loop is a list.
mod Resets
mod Tests
pub mod Counters
use armiarma.Base.{
  ℕ, Bool, true, false, not, ◌&&◌, Option, none, some, String, List, [], ◌∷◌, ◌++◌, str_eq,
  if◌then◌else◌,
}

-- What a round of the loop gets: a message of a sender, the error that the context ended, or another error.
pub data Next (Msg : Type 0) : Type 0 where
  received : String → Msg → Next Msg
  context_ended other_error : Next Msg

pub record TopicSubscription (Msg Content : Type 0) : Type 0 where
  pub handler_fn : Msg → Option Content
  pub is_zero : Content → Bool
  pub persist_msgs : Bool

module _ {Msg Content : Type 0} (c : TopicSubscription Msg Content) (self_id : String) where
  abbrev pub persist_content : Option Content → List Content → List Content
  persist_content none db = db
  persist_content (some content) db =
      if not (c.is_zero content) && c.persist_msgs then db ++ (content ∷ []) else db

  -- The contents that are handed to the database, and whether the loop has ended.
  unfoldable pub message_reading_loop : List (Next Msg) → List Content → List Content × Bool
  message_reading_loop [] db = (db, false)
  message_reading_loop (context_ended ∷ rest) db = (db, true)
  message_reading_loop (other_error ∷ rest) db = message_reading_loop rest db
  message_reading_loop (received sender msg ∷ rest) db =
      message_reading_loop rest
        (if str_eq sender self_id then db else persist_content (c.handler_fn msg) db)
