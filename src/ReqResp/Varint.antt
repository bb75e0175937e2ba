-- ===== src/ReqResp/Varint.antt =====
-- The header of a payload, a varint of its size: pkg/networks/ethereum/rpc/reqresp/encode.go writes it by
-- `binary.PutUvarint` of Go's library, handle_request.go and handle_response.go read it byte by byte by
-- `binary.ReadUvarint`. The byte reader is a parameter: it answers with a byte, an error and
-- its next state.
pub mod RoundTrip
use armiarma.Base.{
  ℕ, zero, suc, ◌+◌, ◌*◌, ◌/◌, ◌%◌, ◌^◌, min, String, refl, sym, ap, inl, inr, Bool, true, false,
  not, ◌&&◌, Option, none, some, List, [], ◌∷◌, map, arith, eq_iff, eq_refl, str_eq, ltb, leb, ◌==◌,
  if◌then◌else◌, ltb→lt, lt→ltb, leb→le, ==_iff, Bool-cases, Option-cases, All, length, get_elem?,
  take, drop, length-append, length-take, length-drop, take-append-drop, Dict, lookup, insert,
  delete, lookup-insert, lookup-delete,
}
use armiarma.ReqResp.Reader.{IoError, eof, unexpected_eof, overflow, failed, no_byte}

-- The loop of `PutUvarint`, of which a uint64 takes at most 10 rounds.
unfoldable pub put_rounds : ℕ → ℕ → List ℕ
put_rounds zero x = []
put_rounds (suc k) x =
    let more = put_rounds k (x / 128) in if ltb x 128 then x ∷ [] else ((x % 128 + 128) ∷ more)

unfoldable pub put_uvarint : ℕ → List ℕ
put_uvarint x = put_rounds 10 x

-- `if i > 0 && err == io.EOF { err = io.ErrUnexpectedEOF }`
abbrev pub cut_off : ℕ → IoError → IoError
cut_off i eof = if ltb 0 i then unexpected_eof else eof
cut_off i e = e

module _ {S : Type 0} (next : S → ℕ × Option IoError × S) where
  -- The loop of `ReadUvarint`: the rounds left, then `i`, `s` and `x`.
  unfoldable pub read_rounds : ℕ → ℕ → ℕ → ℕ → S → ℕ × Option IoError × S
  read_rounds zero i s x st = (x, some overflow, st)
  read_rounds (suc k) i s x st =
      let r = next st in
      let b = r.0 in
      let st' = r.2 in
      let added = (x + b % 128 * 2 ^ s) % 2 ^ 64 in
      let more = read_rounds k (i + 1) (s + 7) added st' in
      elim r.1 [
        | some e ↦ (x, some (cut_off i e), st')
        | none ↦
            if ltb b 128
            then (if i == 9 && ltb 1 b
                then (x, some overflow, st')
                else ((x + b * 2 ^ s) % 2 ^ 64, none, st'))
            else more
      ]

  unfoldable pub read_uvarint : S → ℕ × Option IoError × S
  read_uvarint st = read_rounds 10 0 0 0 st
