-- ===== src/ReqResp/Tests.antt =====
-- Runs of the reader, the varints and the two handlers on a stream of bytes.
use armiarma.Base.{
  ℕ, ◌≤◌, ◌<◌, min, ◌≡◌, refl, sym, ap, inr, true, false, Option, none, some, List, [], ◌∷◌, arith,
  length,
}
use armiarma.Base.Int.{pos}
use armiarma.ReqResp.Reader.{BufLimitReader, read}
use armiarma.ReqResp.Reader.Plain.{bytes_of, bytes_of-IsStream}
use armiarma.ReqResp.Reader.Laws.{Paid, read-Paid, unread}
use armiarma.ReqResp.Varint.{put_uvarint, put_rounds}
use armiarma.ReqResp.Request.{
  encode_header_and_payload, handle_stream, handle_streams, no_data, too_large,
}
use armiarma.ReqResp.Request.Streams.{request_accepted, request_refused, handle_streams-invalid}
use armiarma.ReqResp.Response.{
  Chunk, got, handle_response, read_chunk, stream_chunk, write_error_chunk, cut_message, size_limit,
}
use armiarma.ReqResp.Response.Chunks.{AllBounded, handle_response_bounded, read_chunk-stream_chunk}

put_300 : put_uvarint 300 ≡ 172 ∷ 2 ∷ []
unfolding put_uvarint put_rounds
put_300 = refl

abbrev five : List ℕ
five = 5 ∷ 6 ∷ 7 ∷ 8 ∷ 9 ∷ []

abbrev small_reader : BufLimitReader (List ℕ)
small_reader = record { buf = []; size = 4; rd = five; limit = pos 3; per_read = false }

read-Paid_example : Paid bytes_of (λ s. s) (min 2 3) small_reader (read bytes_of 2 small_reader)
read-Paid_example = read-Paid bytes_of (λ s. s) bytes_of-IsStream 2 small_reader

abbrev one_by_one : List ℕ → BufLimitReader (List ℕ)
one_by_one s = record { buf = []; size = 4; rd = s; limit = pos 1; per_read = true }

put_five : put_uvarint 5 ≡ 5 ∷ []
unfolding put_uvarint put_rounds
put_five = refl

encoded : (encode_header_and_payload none five none).1 ≡ 5 ∷ five
unfolding encode_header_and_payload
encoded = rw put_five refl

request_accepted_example :
    (b : BufLimitReader (List ℕ)) × (handle_stream none bytes_of 1 8 (5 ∷ five)
      ≡ (record { req_len = 5; reader = some b; invalid = none }, 8))
    × (b.limit ≡ pos 8)
    × (b.per_read ≡ false)
    × (unread bytes_of (λ s. s) b ≡ five)
request_accepted_example =
    request_accepted bytes_of (λ s. s) 1 8 (5 ∷ five) five bytes_of-IsStream (omega arith)
      (omega arith) (omega arith) (omega arith) (sym encoded)

request_refused_example :
    (b : BufLimitReader (List ℕ)) × (handle_stream none bytes_of 1 4 (5 ∷ five)
      ≡ (record { req_len = 5; reader = some b; invalid = some (too_large 5 4) }, 0))
    × (b.limit ≡ pos 1)
    × (b.per_read ≡ false)
    × (unread bytes_of (λ s. s) b ≡ five)
request_refused_example =
    request_refused bytes_of (λ s. s) none 1 4 5 (5 ∷ five) five bytes_of-IsStream (omega arith)
      (inr (omega arith)) (omega arith) (rw put_five refl)

one_too_large : (handle_stream none bytes_of 1 4 (5 ∷ five)).0.invalid ≡ some (too_large 5 4)
one_too_large = ap (λ r. r.0.invalid) request_refused_example.1

handle_streams-invalid_example :
    handle_streams none bytes_of 1 4 ((5 ∷ five) ∷ (1 ∷ 7 ∷ []) ∷ [])
    ≡ (handle_stream none bytes_of 1 4 (5 ∷ five)).0 ∷ no_data ∷ []
handle_streams-invalid_example =
    handle_streams-invalid bytes_of none 1 4 (5 ∷ five) ((1 ∷ 7 ∷ []) ∷ []) (too_large 5 4)
      one_too_large

abbrev leave_it : Chunk (List ℕ) → Option ℕ × BufLimitReader (List ℕ)
leave_it c = (none, c.reader)

handle_response_bounded_example :
    (length (handle_response bytes_of 8 leave_it 2 (0 ∷ 5 ∷ five)).0 ≤ 2)
    × AllBounded 8 0 (handle_response bytes_of 8 leave_it 2 (0 ∷ 5 ∷ five)).0
handle_response_bounded_example = handle_response_bounded bytes_of 8 leave_it 2 (0 ∷ 5 ∷ five)

abbrev response_reader : List ℕ → BufLimitReader (List ℕ)
response_reader s = record { buf = []; size = 1024; rd = s; limit = pos 0; per_read = false }

chunk_of_five : stream_chunk 0 5 five ≡ 0 ∷ 5 ∷ five
unfolding stream_chunk
chunk_of_five = rw put_five refl

read_chunk-stream_chunk_example :
    (b : BufLimitReader (List ℕ)) × (read_chunk bytes_of 8 0 (response_reader (0 ∷ 5 ∷ five))
      ≡ got (record { index = 0; size = 5; result = 0; reader = b }))
    × (b.limit ≡ pos 8)
    × (b.per_read ≡ false)
    × (0 < b.size)
    × (unread bytes_of (λ s. s) b ≡ five)
unfolding size_limit
read_chunk-stream_chunk_example =
    read_chunk-stream_chunk bytes_of (λ s. s) 8 0 0 five [] (response_reader (0 ∷ 5 ∷ five))
      bytes_of-IsStream (omega arith) refl (omega arith) (omega arith) (rw chunk_of_five refl)

error_of_five : write_error_chunk 2 five ≡ 2 ∷ 5 ∷ five
unfolding write_error_chunk stream_chunk cut_message
error_of_five = rw put_five refl

cut_five : cut_message five ≡ five
unfolding cut_message
cut_five = refl
