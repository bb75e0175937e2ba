-- ===== src/ReqResp/Response/Chunks.antt =====
-- The chunks that a response handler hands over.
use armiarma.Base.{
  ℕ, zero, suc, ◌+◌, ◌^◌, ◌≤◌, ◌<◌, ◌≡◌, refl, ap, ◌∙◌, ◌⊎◌, inl, inr, true, false, Option, none,
  some, List, [], ◌∷◌, ◌++◌, arith, ltb, ◌==◌, Bool-cases, Option-cases, length, take,
  length-append, length-take,
}
use mathlib.Core.Path.{subst}
use mathlib.Core.List.{append_assoc}
use armiarma.ReqResp.Response.{
  cut_message, dots, max_err_size, invalid_req_code, server_err_code, write_error_chunk,
  stream_chunk, read_size,
}
use armiarma.Base.Int.{pos, to_int64, to_int64_small}
use armiarma.ReqResp.Reader.{
  Answer, IoError, eof, unexpected_eof, no_byte, overflow, failed, new_buf_limit_reader,
  BufLimitReader, read_byte,
}
use armiarma.ReqResp.Reader.Laws.{IsStream, unread}
use armiarma.ReqResp.Reader.Bytes.{Reads, read_byte-Reads, read_byte_next}
use armiarma.ReqResp.Varint.{put_uvarint, read_uvarint}
use armiarma.ReqResp.Varint.RoundTrip.{read_uvarint-put_uvarint}
use armiarma.ReqResp.Response.{
  Chunk, ChunkRead, handle_chunks, handle_response, ResponseError, no_result, read_chunk, no_more,
  refused, got, check_size, size_limit,
}

-- The chunk is numbered so, not larger than its limit, and its reader gives no more than that.
pub record IsBounded {Rd : Type 0} (max_content i : ℕ) (c : Chunk Rd) : Type 0 where
  pub numbered : c.index ≡ i
  pub small : c.size ≤ size_limit max_content c.result
  pub limited : c.reader.limit ≡ to_int64 (size_limit max_content c.result)

abbrev pub AllBounded : {Rd : Type 0} → ℕ → ℕ → List (Chunk Rd) → Type 0
AllBounded max_content i [] = Unit
AllBounded max_content i (c ∷ cs) = IsBounded max_content i c × AllBounded max_content (i + 1) cs

-- What a read chunk is, when there is one.
GotBounded : {Rd : Type 0} → ℕ → ℕ → ChunkRead Rd → Type 0
GotBounded max_content i (got c) = IsBounded max_content i c
GotBounded max_content i no_more = Unit
GotBounded max_content i (refused e) = Unit

got_bounded :
    {Rd : Type 0} (max_content i : ℕ) (c : Chunk Rd)
    → GotBounded max_content i (got c)
    → IsBounded max_content i c
unfolding GotBounded
got_bounded max_content i c h = h

check_size_bounded :
    {Rd : Type 0} (max_content i res size : ℕ) (err : Option IoError) (b : BufLimitReader Rd)
    → GotBounded max_content i (check_size max_content i res size err b)
unfolding check_size GotBounded
check_size_bounded max_content i res size (some e) b = tt
check_size_bounded max_content i res size none b =
    elim (Bool-cases (ltb (size_limit max_content res) size)) [
      | inl f ↦ rw f tt
      | inr f ↦
          let small : size ≤ size_limit max_content res = ground arith in
          rw f (record { numbered = refl; small = small; limited = refl })
    ]

no_result_bounded :
    (Rd : Type 0) (max_content i : ℕ) (e : IoError)
    → GotBounded {Rd = Rd} max_content i (no_result i e)
unfolding GotBounded
no_result_bounded Rd max_content i eof = tt
no_result_bounded Rd max_content i unexpected_eof = tt
no_result_bounded Rd max_content i no_byte = tt
no_result_bounded Rd max_content i overflow = tt
no_result_bounded Rd max_content i (failed n) = tt

ChunkRead-cases :
    {Rd : Type 0} (r : ChunkRead Rd)
    → (r ≡ no_more) ⊎ ((e : ResponseError) × (r ≡ refused e)) ⊎ ((c : Chunk Rd) × (r ≡ got c))
ChunkRead-cases no_more = inl refl
ChunkRead-cases (refused e) = inr (inl (e, refl))
ChunkRead-cases (got c) = inr (inr (c, refl))

module _ {Rd : Type 0} (source : ℕ → Rd → Answer Rd) (max_content : ℕ) where
  read_chunk_bounded :
      (i : ℕ) (b : BufLimitReader Rd) → GotBounded max_content i (read_chunk source max_content i b)
  unfolding read_chunk read_size
  read_chunk_bounded i b =
      let r = read_byte source (record b { limit = pos 1 }) in
      elim (Option-cases r.1) [
        | inl f ↦ rw (f, read_chunk) (check_size_bounded max_content i _ _ _ _)
        | inr (e, f) ↦ rw (f, read_chunk) (no_result_bounded Rd max_content i e)
      ]

  pub read_chunk-result :
      (i x : ℕ) (b b' : BufLimitReader Rd)
      → read_byte source (record b { limit = pos 1 }) ≡ (x, none, b')
      → read_chunk source max_content i b ≡ read_size source max_content i x b'
  unfolding read_chunk
  read_chunk-result i x b b' e =
      rw (ap (λ r. r.1) e, ap (λ r. r.0) e, ap (λ r. r.2) e, read_chunk) refl

  pub read_size-length :
      (i x n : ℕ) (b b' : BufLimitReader Rd)
      → read_uvarint (read_byte source) (record b { limit = pos 1; per_read = true })
        ≡ (n, none, b')
      → read_size source max_content i x b
        ≡ check_size max_content i x n none (record b' { per_read = false })
  unfolding read_size
  read_size-length i x n b b' e = rw e refl

  module _ (handle_chunk : Chunk Rd → Option ℕ × BufLimitReader Rd) where
    handle_chunks_bounded :
        (k i : ℕ) (b : BufLimitReader Rd)
        → let cs = (handle_chunks source max_content handle_chunk k i b).0 in
          (length cs ≤ k) × AllBounded max_content i cs
    unfolding handle_chunks
    handle_chunks_bounded zero i b = (omega arith, tt)
    handle_chunks_bounded (suc k) i b = elim (ChunkRead-cases (read_chunk source max_content i b)) [
      | inl f ↦ rw (f, handle_chunks) (omega arith, tt)
      | inr (inl (e, f)) ↦ rw (f, handle_chunks) (omega arith, tt)
      | inr (inr (c, f)) ↦
          let ok : IsBounded max_content i c =
            got_bounded max_content i c
              (subst (GotBounded max_content i) f (read_chunk_bounded i b)) in
          let (l, a) = handle_chunks_bounded k (i + 1) (handle_chunk c).1 in
          elim (Option-cases (handle_chunk c).0) [
            | inl g ↦ rw (f, handle_chunks, g) (omega arith, (ok, a))
            | inr (x, g) ↦ rw (f, handle_chunks, g) (omega arith, (ok, tt))
          ]
    ]

    -- Whatever the stream gives and the chunk handler does, a response hands over at most the maximum
    -- number of chunks, numbered from 0 on, none of a size above its limit, which is 256 for an error chunk and the maximum
    -- content size for another, and each with a reader of that limit, as an int64.
    pub handle_response_bounded :
        (max_count : ℕ) (s : Rd)
        → let cs = (handle_response source max_content handle_chunk max_count s).0 in
          (length cs ≤ max_count) × AllBounded max_content 0 cs
    unfolding handle_response
    handle_response_bounded max_count s = elim (Bool-cases (max_count == 0)) [
      | inl f ↦ rw f (omega arith, tt)
      | inr f ↦ rw f (handle_chunks_bounded max_count 0 (new_buf_limit_reader s 1024 (pos 0)))
    ]

-- Where a chunk of this result and payload is written, in front of others.
module _ {Rd : Type 0} (source : ℕ → Rd → Answer Rd) (pending : Rd → List ℕ) where
  -- A chunk of a size that is at most the limit of its result, whatever the bytes behind the size.
  pub read_chunk_sized :
      (max_content i code n : ℕ) (payload rest : List ℕ) (b : BufLimitReader Rd)
      → IsStream source pending
      → 0 < b.size
      → b.per_read ≡ false
      → n ≤ size_limit max_content code
      → size_limit max_content code < 2 ^ 63
      → unread source pending b ≡ stream_chunk code n payload ++ rest
      → (b' : BufLimitReader Rd) × (read_chunk source max_content i b
          ≡ got (record { index = i; size = n; result = code; reader = b' }))
        × (b'.limit ≡ pos (size_limit max_content code))
        × (b'.per_read ≡ false)
        × (0 < b'.size)
        × (unread source pending b' ≡ payload ++ rest)
  unfolding check_size stream_chunk
  read_chunk_sized max_content i code n payload rest b h hs hm fit small hu =
      let (b1, e1, _, m1, s1, u1) =
        read_byte_next source pending h (record b { limit = pos 1 }) code _ refl hs hu in
      let (b2, e2, (_, _, s2, u2)) =
        read_uvarint-put_uvarint (read_byte source) (Reads source pending)
          (read_byte-Reads source pending h) n (record b1 { limit = pos 1; per_read = true })
          (payload ++ rest) (omega arith)
          (refl, refl, s1, u1 ∙ append_assoc (put_uvarint n) payload rest) in
      let f : ltb (size_limit max_content code) n ≡ false = ground arith in
      (
        record b2 { per_read = false; limit = to_int64 (size_limit max_content code) },
        read_chunk-result source max_content i code b b1 e1
            ∙ read_size-length source max_content i code n b1 b2 e2
            ∙ rw f refl,
        to_int64_small _ small,
        refl,
        s2,
        u2,
      )

  -- A chunk that `StreamChunk` wrote without compression, with a payload of at most the limit of its result and a limit
  -- below 2^63, is handed over with that result, size and payload to read, over a stream that keeps the contract, gives no
  -- bytes with an error and at least one byte when it is asked for some and has some.
  pub read_chunk-stream_chunk :
      (max_content i code : ℕ) (payload rest : List ℕ) (b : BufLimitReader Rd)
      → IsStream source pending
      → 0 < b.size
      → b.per_read ≡ false
      → length payload ≤ size_limit max_content code
      → size_limit max_content code < 2 ^ 63
      → unread source pending b ≡ stream_chunk code (length payload) payload ++ rest
      → (b' : BufLimitReader Rd) × (read_chunk source max_content i b
          ≡ got (record { index = i; size = length payload; result = code; reader = b' }))
        × (b'.limit ≡ pos (size_limit max_content code))
        × (b'.per_read ≡ false)
        × (0 < b'.size)
        × (unread source pending b' ≡ payload ++ rest)
  read_chunk-stream_chunk max_content i code payload rest b =
      read_chunk_sized max_content i code (length payload) payload rest b

  cut_message_fits : (msg : List ℕ) → length (cut_message msg) ≤ max_err_size
  unfolding cut_message
  cut_message_fits msg = elim (Bool-cases (ltb max_err_size (length msg))) [
    | inl f ↦ rw f (omega (arith, length-append {0} (take 253 msg) dots, length-take {0} 253 msg))
    | inr f ↦ rw f (ground arith)
  ]

  error_limit :
      (max_content code : ℕ)
      → (code ≡ invalid_req_code) ⊎ (code ≡ server_err_code)
      → size_limit max_content code ≡ max_err_size
  unfolding size_limit
  error_limit max_content code (inl e) = rw e refl
  error_limit max_content code (inr e) = rw e refl

  -- An error chunk that `WriteErrorChunk` wrote, whatever the length of its message, is never too large for the response handler, whatever
  -- its maximum content size: it is handed over with the message, cut to 256 bytes, to read, over such a stream.
  pub read_chunk-write_error_chunk :
      (max_content i code : ℕ) (msg rest : List ℕ) (b : BufLimitReader Rd)
      → IsStream source pending
      → 0 < b.size
      → b.per_read ≡ false
      → (code ≡ invalid_req_code) ⊎ (code ≡ server_err_code)
      → unread source pending b ≡ write_error_chunk code msg ++ rest
      → (b' : BufLimitReader Rd) × (read_chunk source max_content i b
          ≡ got (record { index = i; size = length (cut_message msg); result = code; reader = b' }))
        × (length (cut_message msg) ≤ max_err_size)
        × (b'.limit ≡ pos max_err_size)
        × (unread source pending b' ≡ cut_message msg ++ rest)
  unfolding write_error_chunk
  read_chunk-write_error_chunk max_content i code msg rest b h hs hm hc hu =
      let el = error_limit max_content code hc in
      let fits = cut_message_fits msg in
      let (b', e, l, _, _, u) =
        read_chunk-stream_chunk max_content i code (cut_message msg) rest b h hs hm (omega arith)
          (omega arith) hu in
      (b', e, fits, l ∙ ap pos el, u)
