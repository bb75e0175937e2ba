-- ===== src/ReqResp/Method.antt =====
-- pkg/networks/ethereum/rpc/reqresp/rpc_method.go: the codecs, the handlers that a listener is given, and `RunRequest`.
-- A reader is the content that it gives, a write the bytes that it adds. The serialization of the objects, the
-- compression and the exchange over the stream are parameters.

-- The bytes up to the end, and the error that ends them in a read of its own.
use armiarma.ReqResp.Response.{stream_chunk, cut_message}
use armiarma.Base.Text.{codes}
use armiarma.Base.Int.{pos_part, to_int64}
use armiarma.Base.{
  ℕ, String, Bool, false, Option, none, some, List, [], ◌++◌, leb, ◌==◌, if◌then◌else◌, length,
  take,
}

pub record Content : Type 0 where
  pub bytes : List ℕ
  pub failure : Option ℕ

-- A `*SSZCodec`, with the length bounds of one that is not nil.
pub data Codec : Type 0 where
  nil_codec : Codec
  ssz_codec : ℕ → ℕ → Codec

unfoldable pub min_byte_len : Codec → ℕ
min_byte_len nil_codec = 0
min_byte_len (ssz_codec lo hi) = lo

unfoldable pub max_byte_len : Codec → ℕ
max_byte_len nil_codec = 0
max_byte_len (ssz_codec lo hi) = hi

pub data Encoding : Type 0 where
  encoded : List ℕ → Encoding
  not_encoded encode_panics : Encoding

pub record RpcMethod : Type 0 where
  pub protocol : String
  pub request_codec : Codec
  pub response_chunk_codec : Codec
  pub default_response_chunk_count : ℕ

abbrev pub success_code : ℕ
success_code = 0

-- The fields of `chRespHandler`.
pub record ResponseHandler : Type 0 where
  pub m : RpcMethod
  pub r : Content
  pub result : ℕ
  pub chunk_size : ℕ
  pub chunk_index : ℕ

-- What is read through `io.LimitReader(r, int64(size))`.
unfoldable pub read_limited : ℕ → Content → List ℕ × Option ℕ
read_limited size r =
    let n = pos_part (to_int64 size) in
    if leb n (length r.bytes) then (take n r.bytes, none) else (r.bytes, r.failure)

unfoldable pub read_raw : ResponseHandler → List ℕ × Option ℕ
read_raw c = read_limited c.chunk_size c.r

unfoldable pub read_err_msg : ResponseHandler → List ℕ × Option ℕ
read_err_msg c = read_limited c.chunk_size c.r

-- The fields of `chReqHandler`; `r` is what is read behind the decompression.
pub record RequestHandler : Type 0 where
  pub m : RpcMethod
  pub req_len : ℕ
  pub r : Content
  pub invalid_input_err : Option ℕ

unfoldable pub invalid_input : RequestHandler → Option ℕ
invalid_input h = h.invalid_input_err

unfoldable pub raw_request : RequestHandler → Option (List ℕ)
raw_request h = elim h.invalid_input_err [
  | some e ↦ none
  | none ↦ let (b, err) = read_limited h.req_len h.r in elim err [ some e ↦ none | none ↦ some b ]
]

-- The two kinds of input of a request.
pub data RequestInput (Obj : Type 0) : Type 0 where
  request_ssz_input : Option Obj → RequestInput Obj
  request_bytes_input : List ℕ → RequestInput Obj

-- How a request ends, as far as its exchange.
pub data Run (X : Type 0) : Type 0 where
  input_failed too_long run_panics : Run X
  exchanged : X → Run X

-- The name of the compression and `MaxEncodedLen`.
pub record Compression : Type 0 where
  pub name : String
  pub max_encoded_len : ℕ → Option ℕ

module _ {Obj : Type 0} (serialize : Obj → Option (List ℕ))
    (deserialize : ℕ → Content → Obj → Obj × Bool) (compress : List ℕ → List ℕ) where
  unfoldable pub encode : Codec → Option Obj → Encoding
  encode nil_codec none = encoded []
  encode nil_codec (some o) = not_encoded
  encode (ssz_codec lo hi) none = encode_panics
  encode (ssz_codec lo hi) (some o) = elim (serialize o) [ none ↦ not_encoded | some b ↦ encoded b ]

  -- The object that is decoded into, and whether there was no error.
  unfoldable pub decode : Codec → ℕ → Content → Obj → Obj × Bool
  decode nil_codec bytes_len r dest = (dest, bytes_len == 0)
  decode (ssz_codec lo hi) bytes_len r dest = deserialize bytes_len r dest

  unfoldable pub read_obj : ResponseHandler → Obj → Obj × Bool
  read_obj c dest = decode c.m.response_chunk_codec c.chunk_size c.r dest

  unfoldable pub read_request : RequestHandler → Obj → Obj × Bool
  read_request h dest = elim h.invalid_input_err [
    | some e ↦ (dest, false)
    | none ↦ decode h.m.request_codec h.req_len h.r dest
  ]

  -- What a chunk of an object adds to the stream, `none` if it is not encoded.
  unfoldable pub write_response_chunk : RequestHandler → ℕ → Obj → Option (List ℕ)
  write_response_chunk h code data_ = elim (encode h.m.response_chunk_codec (some data_)) [
    | encoded b ↦ some (stream_chunk code (length b) (compress b))
    | not_encoded ↦ none
    | encode_panics ↦ none
  ]

  unfoldable pub write_raw_response_chunk : ℕ → List ℕ → List ℕ
  write_raw_response_chunk code chunk = stream_chunk code (length chunk) (compress chunk)

  unfoldable pub write_error_chunk : ℕ → List ℕ → List ℕ
  write_error_chunk code msg = let b = cut_message msg in stream_chunk code (length b) (compress b)

  unfoldable pub input_reader : RequestInput Obj → Codec → Encoding
  input_reader (request_ssz_input obj) c = encode c obj
  input_reader (request_bytes_input b) c = encoded b

  -- `comp.MaxEncodedLen`, and the name of the compression behind the protocol's.
  unfoldable pub max_chunk_content_size : RpcMethod → Option Compression → Option ℕ
  max_chunk_content_size m none = some (max_byte_len m.response_chunk_codec)
  max_chunk_content_size m (some comp) = comp.max_encoded_len (max_byte_len m.response_chunk_codec)

  unfoldable pub protocol_id : RpcMethod → Option Compression → List ℕ
  protocol_id m none = codes m.protocol
  protocol_id m (some comp) = codes m.protocol ++ (codes "_" ++ codes comp.name)

  -- The exchange gets the protocol, the request and the limit of the response handler.
  unfoldable pub run_request :
      {X : Type 0}
      → RpcMethod
      → Option Compression
      → RequestInput Obj
      → (List ℕ → List ℕ → ℕ → X)
      → Run X
  run_request m comp req exchange = elim (input_reader req m.request_codec) [
    | not_encoded ↦ input_failed
    | encode_panics ↦ run_panics
    | encoded b ↦ elim (max_chunk_content_size m comp) [
      | none ↦ too_long
      | some s ↦ exchanged (exchange (protocol_id m comp) b s)
    ]
  ]
