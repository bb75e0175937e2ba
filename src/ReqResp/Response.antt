-- ===== src/ReqResp/Response.antt =====
-- pkg/networks/ethereum/rpc/reqresp/handle_response.go: the handler that `MakeResponseHandler` makes, and the chunks that
-- encode.go and rpc_method.go write without compression, to a writer that takes everything.
-- What is done with a chunk is a parameter: the compression, the chunk handler and the closing of its writer; it returns
-- the error and the reader as it left it.
pub mod Chunks
use armiarma.Base.{
  ℕ, zero, suc, ◌+◌, ◌-◌, min, String, refl, sym, ap, inl, inr, Bool, true, false, not, ◌||◌,
  Option, none, some, List, [], ◌∷◌, ◌++◌, map, arith, eq_iff, eq_refl, str_eq, ltb, leb, ◌==◌,
  if◌then◌else◌, ltb→lt, lt→ltb, leb→le, ==_iff, Bool-cases, Option-cases, All, length, get_elem?,
  take, drop, length-append, length-take, length-drop, take-append-drop, Dict, lookup, insert,
  delete, lookup-insert, lookup-delete,
}
use armiarma.Base.Int.{ℤ, pos, to_int64}
use armiarma.ReqResp.Varint.{put_uvarint, read_uvarint}
use armiarma.ReqResp.Reader.{
  IoError, eof, unexpected_eof, no_byte, overflow, failed, BufLimitReader, Answer, read_byte,
  new_buf_limit_reader,
}

pub data ResponseError : Type 0 where
  no_result_byte : ℕ → IoError → ResponseError
  no_size : IoError → ResponseError
  chunk_too_large : ℕ → ℕ → ℕ → ResponseError
  chunk_failed : ℕ → ResponseError

-- The arguments of the call of the chunk handler.
pub record Chunk (Rd : Type 0) : Type 0 where
  pub index : ℕ
  pub size : ℕ
  pub result : ℕ
  pub reader : BufLimitReader Rd

pub data ChunkRead (Rd : Type 0) : Type 0 where
  no_more : ChunkRead Rd
  refused : ResponseError → ChunkRead Rd
  got : Chunk Rd → ChunkRead Rd

abbrev pub invalid_req_code : ℕ
invalid_req_code = 1

abbrev pub server_err_code : ℕ
server_err_code = 2

abbrev pub max_err_size : ℕ
max_err_size = 256

-- The limit of the size of a chunk with this result.
unfoldable pub size_limit : ℕ → ℕ → ℕ
size_limit max_content res =
    if res == invalid_req_code || res == server_err_code then max_err_size else max_content

unfoldable pub check_size :
    {Rd : Type 0} → ℕ → ℕ → ℕ → ℕ → Option IoError → BufLimitReader Rd → ChunkRead Rd
check_size max_content index res size (some e) b = refused (no_size e)
check_size max_content index res size none b =
    let limit = size_limit max_content res in
    if ltb limit size
    then refused (chunk_too_large size index limit)
    else got (record {
      index = index;
      size = size;
      result = res;
      reader = record b { limit = to_int64 limit };
    })

-- What an error of the read of the result byte means: the end of the file is no error.
abbrev pub no_result : {Rd : Type 0} → ℕ → IoError → ChunkRead Rd
no_result index eof = no_more
no_result index e = refused (no_result_byte index e)

-- `StreamHeaderAndPayload` without compression, with the size that is claimed.
abbrev pub stream_header_and_payload : ℕ → List ℕ → List ℕ
stream_header_and_payload size payload = put_uvarint size ++ payload

-- `StreamChunk`.
unfoldable pub stream_chunk : ℕ → ℕ → List ℕ → List ℕ
stream_chunk code size payload = code ∷ stream_header_and_payload size payload

-- The bytes of "...".
abbrev pub dots : List ℕ
dots = 46 ∷ 46 ∷ 46 ∷ []

unfoldable pub cut_message : List ℕ → List ℕ
cut_message msg = if ltb max_err_size (length msg) then take (max_err_size - 3) msg ++ dots else msg

unfoldable pub write_error_chunk : ℕ → List ℕ → List ℕ
write_error_chunk code msg = let b = cut_message msg in stream_chunk code (length b) b

module _ {Rd : Type 0} (source : ℕ → Rd → Answer Rd) (max_content : ℕ) where
  -- The loop's body up to the call of the chunk handler.
  unfoldable pub read_size : ℕ → ℕ → BufLimitReader Rd → ChunkRead Rd
  read_size index res b =
      let (size, err, b') =
        read_uvarint (read_byte source) (record b { limit = pos 1; per_read = true }) in
      check_size max_content index res size err (record b' { per_read = false })

  unfoldable pub read_chunk : ℕ → BufLimitReader Rd → ChunkRead Rd
  read_chunk index b =
      let (res, err, b') = read_byte source (record b { limit = pos 1 }) in
      elim err [ none ↦ read_size index res b' | some e ↦ no_result index e ]

  module _ (handle_chunk : Chunk Rd → Option ℕ × BufLimitReader Rd) where
    -- The chunks that were handed over and the error: the rounds left, the index and the reader.
    unfoldable pub handle_chunks :
        ℕ → ℕ → BufLimitReader Rd → List (Chunk Rd) × Option ResponseError
    handle_chunks zero index b = ([], none)
    handle_chunks (suc k) index b = elim (read_chunk index b) [
      | no_more ↦ ([], none)
      | refused e ↦ ([], some e)
      | got c ↦
          let (err, b') = handle_chunk c in
          let rest = handle_chunks k (index + 1) b' in
          elim err [ some x ↦ (c ∷ [], some (chunk_failed x)) | none ↦ (c ∷ rest.0, rest.1) ]
    ]

    unfoldable pub handle_response : ℕ → Rd → List (Chunk Rd) × Option ResponseError
    handle_response max_count stream =
        if max_count == 0
        then ([], none)
        else handle_chunks max_count 0 (new_buf_limit_reader stream 1024 (pos 0))
