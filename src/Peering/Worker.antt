-- ===== src/Peering/Worker.antt =====
-- pkg/peering/peering.go, lines 93-185: `peeringWorker`. What a dial answers is an argument: `dials n` is
-- the result of the call of `Connect` number `n` of this peer, `none` for a success. `parse` is
-- `hosts.ParseConError`, and `E` the errors of libp2p.
pub mod Dialling
use armiarma.Base.{
  ℕ, zero, suc, ◌+◌, min, String, refl, sym, ap, inl, inr, Bool, true, false, not, ◌||◌, Option,
  none, some, List, [], ◌∷◌, map, arith, eq_iff, eq_refl, str_eq, ltb, leb, if◌then◌else◌, ltb→lt,
  lt→ltb, leb→le, ==_iff, Bool-cases, Option-cases, All, length, get_elem?, take, drop,
  length-append, length-take, length-drop, take-append-drop, Dict, lookup, insert, delete,
  lookup-insert, lookup-delete,
}
use armiarma.Base.Int.{ℤ}
use armiarma.Models.ConnAttempt.{
  AttemptStatus, positive_attempt, negative_attempt, ConnectionAttempt, new_conn_attempt,
}
use armiarma.Peering.Iterator.{HostInfo}

abbrev pub max_retries : ℕ
max_retries = 1

-- `attStatus` and `attError` of the worker.
pub record Outcome : Type 0 where
  pub status : AttemptStatus
  pub error : String

-- The loop over the peers of the host.
unfoldable pub is_connected : List String → String → Bool
is_connected [] id = false
is_connected (p ∷ ps) id = str_eq p id || is_connected ps id

module _ {E : Type 0} (parse : E → String) (dials : ℕ → Option E) where
  -- The loop `for attempts < c.MaxRetries`: `left` rounds are left, and `attempts` were made.
  unfoldable pub dial_loop : ℕ → ℕ → Outcome → Outcome
  dial_loop zero attempts o = o
  dial_loop (suc left) attempts o = elim (dials attempts) [
    | none ↦ record { status = positive_attempt; error = "none" }
    | some e ↦ dial_loop left (attempts + 1) (record o { error = parse e })
  ]

  unfoldable pub dial : ℕ → Outcome
  dial retries = dial_loop retries 0 (record { status = negative_attempt; error = "" })

  -- One round of the worker: `none` when the host is connected to the peer, so that the worker only asks for the
  -- next one; else the attempt that it hands to the strategy.
  unfoldable pub work : ℤ → List String → HostInfo → Option ConnectionAttempt
  work now connected h =
      if is_connected connected h.id
      then none
      else (let o = dial max_retries in
          some (new_conn_attempt now h.id o.status o.error false false))
