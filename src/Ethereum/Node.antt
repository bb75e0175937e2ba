-- ===== src/Ethereum/Node.antt =====
-- pkg/networks/ethereum/enode.go, beacon_status.go, beacon_metadata.go and beacon_rpc.go: the local node, the listeners
-- that serve the methods of the consensus layer, and the requests for a peer's status and metadata. An error is a number.
pub mod Exchange
pub mod Refusal
pub mod Slots
use armiarma.Base.{
  ℕ, zero, suc, min, String, refl, sym, ap, inl, inr, Bool, true, false, not, ◌||◌, Option, none,
  some, List, [], ◌∷◌, map, arith, eq_iff, eq_refl, str_eq, ltb, leb, ◌==◌, if◌then◌else◌, ltb→lt,
  lt→ltb, leb→le, ==_iff, Bool-cases, Option-cases, All, length, get_elem?, take, drop,
  length-append, length-take, length-drop, take-append-drop, Dict, lookup, insert, delete,
  lookup-insert, lookup-delete,
}
use armiarma.ReqResp.Response.{invalid_req_code, server_err_code}
use armiarma.ReqResp.Method.{
  Content, Codec, ssz_codec, nil_codec, RpcMethod, ResponseHandler, RequestHandler, success_code,
  read_err_msg, read_obj, read_request, write_response_chunk, write_error_chunk,
}
use armiarma.Base.Text.{codes}

-- The `Status` of zrnt; a root or a digest is its number.
pub record Status : Type 0 where
  pub fork_digest : ℕ
  pub finalized_root : ℕ
  pub finalized_epoch : ℕ
  pub head_root : ℕ
  pub head_slot : ℕ

pub record MetaData : Type 0 where
  pub seq_number : ℕ
  pub attnets : ℕ
  pub syncnets : ℕ

abbrev pub zero_status : Status
zero_status = record {
  fork_digest = 0;
  finalized_root = 0;
  finalized_epoch = 0;
  head_root = 0;
  head_slot = 0;
}

abbrev pub zero_metadata : MetaData
zero_metadata = record { seq_number = 0; attnets = 0; syncnets = 0 }

pub record LocalEthereumNode : Type 0 where
  pub local_status : Status
  pub local_metadata : MetaData
  pub network_genesis : ℕ

-- The seconds of the Unix time.
abbrev pub mainnet_genesis : ℕ
mainnet_genesis = 1606824023

abbrev pub goerli_genesis : ℕ
goerli_genesis = 1616508000

abbrev pub gnosis_genesis : ℕ
gnosis_genesis = 1638968400

-- The fork digests whose network is named, of the map `ForkDigests`.
unfoldable pub genesis_of : String → ℕ
genesis_of fork_digest =
    if str_eq fork_digest "0xb5303f2a"
      || (str_eq fork_digest "0xafcaaba0" || str_eq fork_digest "0x4a26c58b")
    then mainnet_genesis
    else if str_eq fork_digest "0x79df0428" || str_eq fork_digest "0xc2ce3aa8"
    then goerli_genesis
    else if str_eq fork_digest "0xf925ddc5" || str_eq fork_digest "0x56fdb5e0"
    then gnosis_genesis
    else mainnet_genesis

-- `NewLocalEthereumNode`, which leaves the two structs that it is given aside.
unfoldable pub new_local_ethereum_node : Status → MetaData → String → LocalEthereumNode
new_local_ethereum_node status metadata fork_digest = record {
  local_status = zero_status;
  local_metadata = zero_metadata;
  network_genesis = genesis_of fork_digest;
}

unfoldable pub update_status : Status → LocalEthereumNode → LocalEthereumNode
update_status new_status en =
    if ltb en.local_status.head_slot new_status.head_slot
    then record en { local_status = new_status }
    else en

-- `status_byte_len` and `metadata_byte_len` are those of zrnt.
abbrev pub status_rpc_v1 : ℕ → RpcMethod
status_rpc_v1 status_byte_len = record {
  protocol = "/eth2/beacon_chain/req/status/1/ssz_snappy";
  request_codec = ssz_codec status_byte_len status_byte_len;
  response_chunk_codec = ssz_codec status_byte_len status_byte_len;
  default_response_chunk_count = 1;
}

abbrev pub metadata_rpc_v2 : ℕ → RpcMethod
metadata_rpc_v2 metadata_byte_len = record {
  protocol = "/eth2/beacon_chain/req/metadata/2/ssz_snappy";
  request_codec = nil_codec;
  response_chunk_codec = ssz_codec metadata_byte_len metadata_byte_len;
  default_response_chunk_count = 1;
}

abbrev pub ping_rpc_v1 : RpcMethod
ping_rpc_v1 = record {
  protocol = "/eth2/beacon_chain/req/ping/1/ssz_snappy";
  request_codec = ssz_codec 8 8;
  response_chunk_codec = ssz_codec 8 8;
  default_response_chunk_count = 1;
}

abbrev pub goodbye_rpc_v1 : RpcMethod
goodbye_rpc_v1 = record {
  protocol = "/eth2/beacon_chain/req/goodbye/1/ssz_snappy";
  request_codec = ssz_codec 8 8;
  response_chunk_codec = ssz_codec 8 8;
  default_response_chunk_count = 0;
}

-- The serialization of an object, as in `ReqResp.Method`; `writes` says whether the stream takes the bytes.
module _ {Obj : Type 0} (serialize : Obj → Option (List ℕ))
    (deserialize : ℕ → Content → Obj → Obj × Bool) (compress : List ℕ → List ℕ)
    (writes : List ℕ → Bool) where
  -- What a listener does with a response: the bytes for the stream, and whether there was no error.
  unfoldable pub responds_with : RequestHandler → Obj → List ℕ × Bool
  responds_with h obj =
      elim (write_response_chunk serialize deserialize compress h success_code obj) [
        | none ↦ ([], false)
        | some b ↦ (b, writes b)
      ]

  abbrev pub refusal : String → List ℕ
  refusal msg = write_error_chunk serialize deserialize compress invalid_req_code (codes msg)

  -- The listeners of `ServeBeaconPing` and `ServeBeaconGoodbye`, which send back what they read into the zero value.
  unfoldable pub echo : String → Obj → RequestHandler → List ℕ
  echo msg zero_value h =
      let (obj, ok) = read_request serialize deserialize compress h zero_value in
      if ok then (responds_with h obj).0 else refusal msg

  unfoldable pub serve_beacon_ping : Obj → RequestHandler → List ℕ
  serve_beacon_ping = echo "could not parse ping request"

  unfoldable pub serve_beacon_goodbye : Obj → RequestHandler → List ℕ
  serve_beacon_goodbye = echo "could not parse goodbye request"

  -- The listener of a request whose object is given: it and the error, if any.
  unfoldable pub on_response : ResponseHandler → Obj → Obj × Bool
  on_response chunk dest =
      if chunk.result == server_err_code || chunk.result == invalid_req_code
      then (let (msg, err) = read_err_msg chunk in
          elim err [ some e ↦ (dest, false) | none ↦ (dest, true) ])
      else if chunk.result == success_code
      then read_obj serialize deserialize compress chunk dest
      else (dest, false)

  -- The chunks that the response handler hands over, and whether the stream ends without an error; after an error of
  -- the listener none is handed over.
  unfoldable pub on_responses : List ResponseHandler → Bool → Obj → Obj × Bool
  on_responses [] ends dest = (dest, ends)
  on_responses (chunk ∷ chunks) ends dest =
      let (dest', ok) = on_response chunk dest in
      let rest = on_responses chunks ends dest' in if ok then rest else (dest', false)

-- The listeners and the requests of a node; `ok` says whether the request was read, or the exchange had no error.
module _ (serialize : Status → Option (List ℕ)) (deserialize : ℕ → Content → Status → Status × Bool)
    (compress : List ℕ → List ℕ) (writes : List ℕ → Bool) where
  -- The bytes for the stream and the node afterwards.
  unfoldable pub serve_beacon_status :
      RequestHandler → LocalEthereumNode → List ℕ × LocalEthereumNode
  serve_beacon_status h en =
      let (req_status, ok) = read_request serialize deserialize compress h zero_status in
      let (b, sent) = responds_with serialize deserialize compress writes h en.local_status in
      if ok
      then (b, (if sent then update_status req_status en else en))
      else (refusal serialize deserialize compress writes "could not parse status request", en)

  -- The result, whether there was no error, and the node afterwards.
  unfoldable pub req_beacon_status :
      List ResponseHandler → Bool → LocalEthereumNode → Status × Bool × LocalEthereumNode
  req_beacon_status chunks ends en =
      let (remote_status, ok) =
        on_responses serialize deserialize compress writes chunks ends zero_status in
      (remote_status, ok, update_status remote_status en)

module _ (serialize : MetaData → Option (List ℕ))
    (deserialize : ℕ → Content → MetaData → MetaData × Bool) (compress : List ℕ → List ℕ)
    (writes : List ℕ → Bool) where
  unfoldable pub serve_beacon_metadata : RequestHandler → LocalEthereumNode → List ℕ
  serve_beacon_metadata h en =
      let (req_metadata, ok) = read_request serialize deserialize compress h zero_metadata in
      if ok
      then (responds_with serialize deserialize compress writes h en.local_metadata).0
      else refusal serialize deserialize compress writes "could not parse status request"

  unfoldable pub req_beacon_metadata : List ResponseHandler → Bool → MetaData × Bool
  req_beacon_metadata chunks ends =
      on_responses serialize deserialize compress writes chunks ends zero_metadata
