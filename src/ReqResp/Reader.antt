-- ===== src/ReqResp/Reader.antt =====
-- pkg/networks/ethereum/rpc/reqresp/buf_limit_read.go: a buffered reader that gives out no more
-- than a limited number of bytes. The stream below it is a parameter: a call of its `Read` with a slice of the
-- given length answers with the bytes that it put there and an error. `buf` is the part
-- `b.buf[b.r:b.w]` that is not yet given out, and `size` the length of the whole buffer.
pub mod Laws
pub mod Plain
pub mod Bytes
use armiarma.Base.{
  ℕ, zero, suc, min, String, refl, sym, ap, inl, inr, Bool, true, false, not, Option, none, some,
  List, [], ◌∷◌, map, arith, eq_iff, eq_refl, str_eq, ltb, leb, ◌==◌, if◌then◌else◌, ltb→lt, lt→ltb,
  leb→le, ==_iff, Bool-cases, Option-cases, All, length, get_elem?, take, drop, length-append,
  length-take, length-drop, take-append-drop, Dict, lookup, insert, delete, lookup-insert,
  lookup-delete,
}
use armiarma.Base.Int.{ℤ, pos, pos_part, ◌-ℤ◌, leb_ℤ}

pub data IoError : Type 0 where
  eof unexpected_eof no_byte overflow : IoError
  failed : ℕ → IoError

pub record Answer (Rd : Type 0) : Type 0 where
  pub bytes : List ℕ
  pub error : Option IoError
  pub stream : Rd

pub record BufLimitReader (Rd : Type 0) : Type 0 where
  pub buf : List ℕ
  pub size : ℕ
  pub rd : Rd
  pub limit : ℤ
  pub per_read : Bool

-- What a `Read(p)` returns: the bytes that are in `p` afterwards, the count `n` and the error.
pub record ReadResult (Rd : Type 0) : Type 0 where
  pub copied : List ℕ
  pub count : ℕ
  pub error : Option IoError
  pub reader : BufLimitReader Rd

unfoldable pub new_buf_limit_reader : {Rd : Type 0} → Rd → ℕ → ℤ → BufLimitReader Rd
new_buf_limit_reader rd size limit = record {
  buf = [];
  size = size;
  rd = rd;
  limit = limit;
  per_read = false;
}

-- The byte of `out[0]`, which is 0 when nothing was put there.
abbrev pub first_byte : List ℕ → ℕ
first_byte [] = 0
first_byte (x ∷ xs) = x

abbrev pub byte_error : ℕ → Option IoError → Option IoError
byte_error n (some e) = some e
byte_error n none = if n == 0 then some no_byte else none

-- `n = copy(p, b.buf[b.r:b.w])`, with a slice of the given length.
abbrev pub copy_out : {Rd : Type 0} → ℕ → BufLimitReader Rd → ReadResult Rd
copy_out n b = record {
  copied = take n b.buf;
  count = length (take n b.buf);
  error = none;
  reader = record b { buf = drop n b.buf };
}

-- The deferred `b.N -= n`.
unfoldable pub spend : {Rd : Type 0} → ReadResult Rd → ReadResult Rd
spend r =
    if r.reader.per_read
    then r
    else record r { reader = record r.reader { limit = r.reader.limit -ℤ pos r.count } }

module _ {Rd : Type 0} (source : ℕ → Rd → Answer Rd) where
  -- A large read goes to the stream directly.
  unfoldable pub read_direct : ℕ → BufLimitReader Rd → ReadResult Rd
  read_direct n b =
      let a = source n b.rd in
      record {
        copied = a.bytes;
        count = length a.bytes;
        error = a.error;
        reader = record b { rd = a.stream };
      }

  -- A small read fills the buffer first. On an error it returns the number of bytes that it put into
  -- the buffer.
  unfoldable pub refill : ℕ → BufLimitReader Rd → ReadResult Rd
  refill n b =
      let a = source (min (pos_part b.limit) b.size) b.rd in
      let b' = record b { buf = a.bytes; rd = a.stream } in
      elim a.error [
        | none ↦ copy_out n b'
        | some e ↦ record { copied = []; count = length a.bytes; error = some e; reader = b' }
      ]

  unfoldable pub fetch : ℕ → BufLimitReader Rd → ReadResult Rd
  fetch n b =
      if length b.buf == 0
      then (if leb b.size n then read_direct n b else refill n b)
      else copy_out n b

  -- `Read` with a slice of the given length.
  unfoldable pub read : ℕ → BufLimitReader Rd → ReadResult Rd
  read len b =
      if leb_ℤ b.limit (pos 0)
      then spend (record { copied = []; count = 0; error = some eof; reader = b })
      else (let n = min len (pos_part b.limit) in
          if n == 0
          then spend (record { copied = []; count = 0; error = none; reader = b })
          else spend (fetch n b))

  -- `ReadByte`: the byte, the error and the reader afterwards.
  unfoldable pub read_byte : BufLimitReader Rd → ℕ × Option IoError × BufLimitReader Rd
  read_byte b = let r = read 1 b in (first_byte r.copied, byte_error r.count r.error, r.reader)
