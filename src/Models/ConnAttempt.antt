-- ===== src/Models/ConnAttempt.antt =====
-- pkg/db/models/conn_attempt.go: the outcome of a dial.
use armiarma.Base.{String, Bool}
use armiarma.Base.Int.{ℤ}

pub data AttemptStatus : Type 0 where
  positive_attempt negative_attempt : AttemptStatus

pub record ConnectionAttempt : Type 0 where
  pub remote_peer : String
  pub timestamp : ℤ
  pub status : AttemptStatus
  pub error : String
  pub is_deprecable : Bool
  pub left_network : Bool

unfoldable pub new_conn_attempt :
    ℤ → String → AttemptStatus → String → Bool → Bool → ConnectionAttempt
new_conn_attempt now peer status err dep left = record {
  remote_peer = peer;
  timestamp = now;
  status = status;
  error = err;
  is_deprecable = dep;
  left_network = left;
}
