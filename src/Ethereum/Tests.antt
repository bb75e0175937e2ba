-- ===== src/Ethereum/Tests.antt =====
-- The names of topics of one fork digest, and the exchange of two nodes.
use armiarma.Ethereum.Records.Subnets.{NoLetterT, get_subnet_from_topic-compose_attnets_topic}
use armiarma.Ethereum.Records.{get_subnet_from_topic}
use armiarma.Base.{ℕ, ◌≡◌, refl, some, List, [], none}
use armiarma.Base.Int.{pos}
use armiarma.Base.Text.{codes}
use armiarma.Ethereum.Topics.{compose_attnets_topic, trim, trim_left, trim_right, in_cutset}
use armiarma.Base.{◌∷◌, true, false, Bool, Option, arith, length, take}
use armiarma.ReqResp.Reader.{BufLimitReader}
use armiarma.ReqResp.Reader.Laws.{unread}
use armiarma.ReqResp.Reader.Plain.{bytes_of, bytes_of-IsStream}
use armiarma.ReqResp.Response.{read_chunk, got, invalid_req_code, max_err_size}
use armiarma.ReqResp.Method.{Content, RequestHandler, read_request, success_code}
use armiarma.Ethereum.Node.{
  Status, LocalEthereumNode, zero_status, zero_metadata, update_status, serve_beacon_status,
  req_beacon_status,
}
use armiarma.Ethereum.Node.Exchange.{
  whole, IsSerialization, IsCompression, request_of, chunk_content, status_chunk,
  req_beacon_status-serve_beacon_status,
}
use armiarma.Ethereum.Node.Refusal.{apology, error_chunk, req_beacon_status-error_chunk}
use armiarma.Ethereum.Node.Slots.{NodeEvent, serves, asks, run_node, IsNewest, run_node-IsNewest}

abbrev phase0 : List ℕ
phase0 = codes "0xb5303f2a"

abbrev altair : List ℕ
altair = codes "0xafcaaba"

-- A serialization of a status by one number for each of its fields.
abbrev five_numbers : Status → Option (List ℕ)
five_numbers s =
    some (s.fork_digest ∷ s.finalized_root ∷ s.finalized_epoch ∷ s.head_root ∷ s.head_slot ∷ [])

abbrev of_bytes : List ℕ → Status → Status × Bool
of_bytes (a ∷ (b ∷ (c ∷ (d ∷ (e ∷ []))))) dest = (
  record { fork_digest = a; finalized_root = b; finalized_epoch = c; head_root = d; head_slot = e },
  true,
)
of_bytes bs dest = (dest, false)

abbrev of_five_numbers : ℕ → Content → Status → Status × Bool
of_five_numbers n r dest = of_bytes r.bytes dest

five_numbers-IsSerialization : IsSerialization 5 five_numbers of_five_numbers
five_numbers-IsSerialization s = (_, refl, refl, λ d. refl)

abbrev uncompressed : List ℕ → List ℕ
uncompressed b = b

uncompressed-IsCompression : IsCompression 5 5 uncompressed whole
uncompressed-IsCompression b h = (omega (arith, h), refl)

abbrev takes_all : List ℕ → Bool
takes_all w = true

abbrev at_slot : ℕ → LocalEthereumNode
at_slot slot = record {
  local_status = record zero_status { head_slot = slot };
  local_metadata = zero_metadata;
  network_genesis = 0;
}

abbrev reader_of : List ℕ → BufLimitReader (List ℕ)
reader_of bytes = record { buf = []; size = 4; rd = bytes; limit = pos 0; per_read = false }

abbrev answer : List ℕ × LocalEthereumNode
answer =
    serve_beacon_status five_numbers of_five_numbers uncompressed takes_all
      (request_of 5 (0 ∷ 0 ∷ 0 ∷ 0 ∷ 7 ∷ [])) (at_slot 9)

req_beacon_status-serve_beacon_status_example :
    (b' : BufLimitReader (List ℕ)) × (read_chunk bytes_of 5 0 (reader_of answer.0)
      ≡ got (record { index = 0; size = 5; result = success_code; reader = b' }))
    × (req_beacon_status five_numbers of_five_numbers uncompressed takes_all
          (status_chunk 5 (chunk_content whole 5 (unread bytes_of (λ s. s) b')) ∷ [])
          true
          (at_slot 7)
        ≡ ((at_slot 9).local_status, true, update_status (at_slot 9).local_status (at_slot 7)))
    × (answer.1 ≡ update_status (at_slot 7).local_status (at_slot 9))
    × ((update_status (at_slot 9).local_status (at_slot 7)).local_status.head_slot
        ≡ answer.1.local_status.head_slot)
req_beacon_status-serve_beacon_status_example =
    req_beacon_status-serve_beacon_status bytes_of (λ s. s) five_numbers of_five_numbers
      uncompressed whole takes_all 5 5 (at_slot 7) (at_slot 9) (0 ∷ 0 ∷ 0 ∷ 0 ∷ 7 ∷ [])
      (reader_of answer.0) bytes_of-IsStream five_numbers-IsSerialization uncompressed-IsCompression
      (λ w. refl) (omega arith) (omega arith) refl (omega arith) refl refl

abbrev unreadable : RequestHandler
unreadable = record (request_of 5 []) { invalid_input_err = some 1 }

abbrev refused : List ℕ × LocalEthereumNode
refused =
    serve_beacon_status five_numbers of_five_numbers uncompressed takes_all unreadable (at_slot 9)

unreadable_unread :
    (read_request five_numbers of_five_numbers uncompressed unreadable zero_status).1 ≡ false
unfolding read_request
unreadable_unread = refl

req_beacon_status-error_chunk_example :
    (b' : BufLimitReader (List ℕ)) × (read_chunk bytes_of 5 0 (reader_of refused.0)
      ≡ got (record { index = 0; size = length apology; result = invalid_req_code; reader = b' }))
    × (req_beacon_status five_numbers of_five_numbers uncompressed takes_all
          (error_chunk 5 (whole (take max_err_size (unread bytes_of (λ s. s) b'))) ∷ [])
          true
          (at_slot 7)
        ≡ (zero_status, true, at_slot 7))
    × (refused.1 ≡ at_slot 9)
req_beacon_status-error_chunk_example =
    req_beacon_status-error_chunk bytes_of (λ s. s) five_numbers of_five_numbers uncompressed whole
      takes_all 5 5 (at_slot 7) (at_slot 9) unreadable (reader_of refused.0) bytes_of-IsStream
      (omega arith) refl unreadable_unread (omega arith) refl refl

abbrev node_events : List NodeEvent
node_events =
    serves (request_of 5 (0 ∷ 0 ∷ 0 ∷ 0 ∷ 7 ∷ [])) ∷ asks [] false ∷ serves unreadable ∷ []

run_node-IsNewest_example :
    IsNewest five_numbers of_five_numbers uncompressed takes_all node_events
      (at_slot 3)
      (run_node five_numbers of_five_numbers uncompressed takes_all node_events (at_slot 3))
run_node-IsNewest_example =
    run_node-IsNewest five_numbers of_five_numbers uncompressed takes_all node_events (at_slot 3)

no_letter_t : NoLetterT (trim phase0 (codes "0x"))
unfolding trim trim_left trim_right in_cutset
no_letter_t = (refl, (refl, (refl, (refl, (refl, (refl, (refl, (refl, tt))))))))

get_subnet_from_topic-compose_attnets_topic_example :
    get_subnet_from_topic (compose_attnets_topic phase0 (pos 17)) ≡ (pos 17, none)
get_subnet_from_topic-compose_attnets_topic_example =
    get_subnet_from_topic-compose_attnets_topic phase0 17 (omega arith) (omega arith) no_letter_t
