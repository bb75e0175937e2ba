-- ===== src/ReqResp/Request.antt =====
-- pkg/networks/ethereum/rpc/reqresp/handle_request.go: the handler that `MakeStreamHandler` makes, up to its call of
-- the payload handler, with what it hands over. The closure's `maxreqrespContentSize` is a variable that all
-- its streams share, so a call takes it and returns it; streams are handled one after another. Of a compression only
-- `MaxEncodedLen` is used here: it is a parameter, `none` for its error.
-- The encoder of encode.go stands here too, over a writer that takes everything.
pub mod Streams
use armiarma.Base.{
  ℕ, zero, suc, min, String, refl, sym, ap, inl, inr, Bool, true, false, not, Option, none, some,
  List, [], ◌∷◌, ◌++◌, map, arith, eq_iff, eq_refl, str_eq, ltb, leb, ◌==◌, if◌then◌else◌, ltb→lt,
  lt→ltb, leb→le, ==_iff, Bool-cases, Option-cases, All, length, get_elem?, take, drop,
  length-append, length-take, length-drop, take-append-drop, Dict, lookup, insert, delete,
  lookup-insert, lookup-delete,
}
use armiarma.Base.Int.{ℤ, pos, to_int64}
use armiarma.ReqResp.Varint.{put_uvarint, read_uvarint}
use armiarma.ReqResp.Reader.{BufLimitReader, IoError, Answer, new_buf_limit_reader, read_byte}

pub data InputError : Type 0 where
  read_failed : IoError → InputError
  too_small too_large : ℕ → ℕ → InputError
  not_encodable : InputError

-- The arguments of the call `handle(ctx, peerId, reqLen, r, w, comp, invalidInputErr)`; the reader
-- is nil for a request without data.
pub record Request (Rd : Type 0) : Type 0 where
  pub req_len : ℕ
  pub reader : Option (BufLimitReader Rd)
  pub invalid : Option InputError

abbrev pub reqresp_buffer_size : ℕ
reqresp_buffer_size = 2048

abbrev pub no_data : {Rd : Type 0} → Request Rd
no_data = record { req_len = 0; reader = none; invalid = none }

-- `EncodeHeaderAndPayload`: the error, and what is written, for the payload that is read and the error of reading it.
-- A compression is given by what it makes of the whole payload.
unfoldable pub encode_header_and_payload :
    Option (List ℕ → List ℕ) → List ℕ → Option IoError → Option IoError × List ℕ
encode_header_and_payload comp payload (some e) = (some e, [])
encode_header_and_payload (some f) payload none = (none, put_uvarint (length payload) ++ f payload)
encode_header_and_payload none payload none = (none, put_uvarint (length payload) ++ payload)

module _ (comp : Option (ℕ → Option ℕ)) where
  -- The first `switch`: the error of the input, and the limit of the size afterwards.
  unfoldable pub judge : ℕ → ℕ → ℕ → Option IoError → Option InputError × ℕ
  judge min_size max_size len (some e) = (some (read_failed e), max_size)
  judge min_size max_size len none =
      if ltb len min_size
      then (some (too_small len min_size), max_size)
      else if ltb max_size len
      then (some (too_large len max_size), max_size)
      else (elim comp [
        | none ↦ (none, max_size)
        | some max_encoded_len ↦ elim (max_encoded_len max_size) [
          | none ↦ (some not_encodable, max_size)
          | some s ↦ (none, s)
        ]
      ])

  -- `blr.N` of a valid request, from the limit that the first `switch` left.
  unfoldable pub content_limit : ℕ → ℤ
  content_limit max_size = elim comp [
    | none ↦ to_int64 max_size
    | some max_encoded_len ↦ elim (max_encoded_len max_size) [
      | none ↦ to_int64 max_size
      | some v ↦ to_int64 v
    ]
  ]

  -- The second `switch`: the reader and the limit of the size afterwards.
  unfoldable pub set_limit :
      {Rd : Type 0} → Option InputError → ℕ → BufLimitReader Rd → BufLimitReader Rd × ℕ
  set_limit (some e) max_size b = (b, 0)
  set_limit none max_size b = (record b { limit = content_limit max_size }, max_size)

  module _ {Rd : Type 0} (source : ℕ → Rd → Answer Rd) (min_size : ℕ) where
    -- The reader set to one byte per read, as it is for the length.
    abbrev pub length_reader : Rd → BufLimitReader Rd
    length_reader stream = record (new_buf_limit_reader stream reqresp_buffer_size (pos 0)) {
      limit = pos 1;
      per_read = true;
    }

    -- One stream: what is handed over, and the shared limit afterwards.
    unfoldable pub handle_stream : ℕ → Rd → Request Rd × ℕ
    handle_stream max_size stream =
        if max_size == 0
        then (no_data, max_size)
        else (let (len, err, b) = read_uvarint (read_byte source) (length_reader stream) in
            let (invalid, max_size') = judge min_size max_size len err in
            let (r, max_size'') = set_limit invalid max_size' (record b { per_read = false }) in
            (record { req_len = len; reader = some r; invalid = invalid }, max_size''))

    unfoldable pub handle_streams : ℕ → List Rd → List (Request Rd)
    handle_streams max_size [] = []
    handle_streams max_size (s ∷ ss) =
        let (r, max_size') = handle_stream max_size s in r ∷ handle_streams max_size' ss
