-- ===== src/Hosts/ConnErrors.antt =====
-- pkg/hosts/conn_errors.go: the class of a dial error, from its text. The order in which Go visits
-- the map `KnownErrors` changes from call to call: it is an argument, a list of the map's entries.
pub mod Classes
use armiarma.Base.{
  ℕ, zero, suc, min, String, refl, sym, ap, inl, inr, Bool, true, false, not, ◌&&◌, Option, none,
  some, List, [], ◌∷◌, map, arith, eq_iff, eq_refl, str_eq, ltb, leb, if◌then◌else◌, ltb→lt, lt→ltb,
  leb→le, ==_iff, Bool-cases, Option-cases, All, length, get_elem?, take, drop, length-append,
  length-take, length-drop, take-append-drop, Dict, lookup, insert, delete, lookup-insert,
  lookup-delete,
}
use armiarma.Base.Text.{codes, contains}

-- What libp2p returns, as far as `ParseConError` looks: whether it is a `*swarm.DialError`, its text,
-- and the cause that such an error may carry.
pub data ConnError : Type 0 where
  plain : List ℕ → ConnError
  dial_error : List ℕ → ConnError
  dial_error_caused_by : List ℕ → ConnError → ConnError

-- `err.Error()`
abbrev pub error_text : ConnError → List ℕ
error_text (plain t) = t
error_text (dial_error t) = t
error_text (dial_error_caused_by t _) = t

-- The `ok` of `err.(*swarm.DialError)`.
abbrev pub is_dial_error : ConnError → Bool
is_dial_error (plain _) = false
is_dial_error (dial_error _) = true
is_dial_error (dial_error_caused_by _ _) = true

-- `connErr != nil`: the pointer is nil when the assertion fails.
abbrev pub is_not_nil : ConnError → Bool
is_not_nil (plain _) = false
is_not_nil (dial_error _) = true
is_not_nil (dial_error_caused_by _ _) = true

-- A key of `KnownErrors` with its text.
abbrev pub Known : Type 0
Known = List (String × List ℕ)

abbrev pub known_errors : Known
known_errors =
    ("resource_limit", codes "resource limit exceeded")
    ∷ ("routing_not_found", codes "routing: not found")
    ∷ ("no_recent_network_activity", codes "no recent network activity")
    ∷ ("canceled_stream_err_code_0", codes "canceled with error code 0")
    ∷ ("msg_sender_invalidated", codes "message sender has been invalidated")
    ∷ ("io_timeout", codes "i/o timeout")
    ∷ ("dial to self attempted", codes "dial to self attempted")
    ∷ ("connection_refused", codes "connection refused")
    ∷ ("connection_reset_by_peer", codes "connection reset by peer")
    ∷ ("backoff", codes "backoff")
    ∷ ("protocol_not_supported", codes "protocol not supported")
    ∷ ("peer_id_mismatch", codes "peer id mismatch")
    ∷ ("no_route_to_host", codes "no route to host")
    ∷ ("network_unreachable", codes "network is unreachable")
    ∷ ("no_good_addresses", codes "no good addresses")
    ∷ ("no_addresses", codes "no addresses")
    ∷ ("context_deadline_exceeded", codes "context deadline exceeded")
    ∷ ("no_public_ip", codes "no public IP address")
    ∷ ("security_protocol_negotiation", codes "failed to negotiate security protocol: EOF")
    ∷ ("max_dial_attempts_exceeded", codes "max dial attempts exceeded")
    ∷ ("host_is_down", codes "host is down")
    ∷ ("stream_reset", codes "stream reset")
    ∷ ("too_many_open_files", codes "too many open files")
    ∷ (
      "negotiate_security_protocol_no_trailing_new_line",
      codes "failed to negotiate security protocol: message did not have trailing newline",
    )
    ∷ []

-- The loop over the map.
unfoldable pub find_known : Known → List ℕ → String
find_known [] text = "unknown"
find_known ((key, sub) ∷ m) text = if contains text sub then key else find_known m text

unfoldable pub parse_con_error : Known → ConnError → String
unfolding find_known
parse_con_error order (plain t) = find_known order t
parse_con_error order (dial_error t) = find_known order t
parse_con_error order (dial_error_caused_by t cause) =
    let inner = parse_con_error order cause in
    if not (is_dial_error (dial_error_caused_by t cause))
      && is_not_nil (dial_error_caused_by t cause)
    then inner
    else find_known order t
