-- ===== src/ReqResp/Request/Streams.antt =====
-- What the stream handler hands over, and how the limit that its streams share changes.
use armiarma.Base.{
  ℕ, ◌^◌, ◌≤◌, ◌<◌, ◌≡◌, refl, sym, ap, ◌∙◌, ◌⊎◌, inl, inr, true, false, Option, none, some, List,
  [], ◌∷◌, ◌++◌, map, arith, ltb, ◌==◌, if◌then◌else◌, ==_iff, Bool-cases, length,
}
use armiarma.Base.Int.{pos, to_int64, to_int64_small}
use armiarma.ReqResp.Reader.{Answer, BufLimitReader, read_byte, new_buf_limit_reader}
use armiarma.ReqResp.Reader.Laws.{IsStream, unread}
use armiarma.ReqResp.Reader.Bytes.{Reads, read_byte-Reads}
use armiarma.ReqResp.Varint.{put_uvarint, read_uvarint}
use armiarma.ReqResp.Varint.RoundTrip.{read_uvarint-put_uvarint}
use armiarma.ReqResp.Request.{
  handle_stream, Answer, BufLimitReader, read_uvarint, read_byte, length_reader, judge, set_limit,
  encode_header_and_payload, InputError, handle_streams, content_limit, too_small, no_data,
  too_large,
}

module _ {Rd : Type 0} (source : ℕ → Rd → Answer Rd) (pending : Rd → List ℕ) where
  starts :
      (comp : Option (ℕ → Option ℕ)) (min_size len : ℕ) (s : Rd) (payload : List ℕ)
      → IsStream source pending
      → len < 2 ^ 64
      → pending s ≡ put_uvarint len ++ payload
      → (b : BufLimitReader Rd) × (read_uvarint
            (read_byte source)
            (length_reader comp source min_size s)
          ≡ (len, none, b))
        × Reads source pending b payload
  unfolding new_buf_limit_reader
  starts comp min_size len s payload h hl hp =
      read_uvarint-put_uvarint (read_byte source) (Reads source pending)
        (read_byte-Reads source pending h) len (length_reader comp source min_size s) payload hl
        (refl, refl, omega arith, hp)

  handle_stream-starts :
      (comp : Option (ℕ → Option ℕ)) (min_size max_size len : ℕ) (s : Rd) (b : BufLimitReader Rd)
      → (max_size == 0) ≡ false
      → read_uvarint (read_byte source) (length_reader comp source min_size s) ≡ (len, none, b)
      → handle_stream comp source min_size max_size s ≡ (
          let j = judge comp min_size max_size len none in
          let r = set_limit comp j.0 j.1 (record b { per_read = false }) in
          (record { req_len = len; reader = some r.0; invalid = j.0 }, r.1))
  unfolding handle_stream
  handle_stream-starts comp min_size max_size len s b z e = rw (z, e) refl

  -- A request without compression that `EncodeHeaderAndPayload` wrote, with a payload between the two sizes and a
  -- maximum that is not 0 and below 2^63, over a stream that keeps the contract, gives no bytes with an error and at least
  -- one byte when it is asked for some and has some: the handler gets the length of the payload and no error, its reader has
  -- the payload to give with the maximum for its limit, and the shared maximum stays.
  pub request_accepted :
      (min_size max_size : ℕ) (s : Rd) (payload : List ℕ)
      → IsStream source pending
      → max_size < 2 ^ 63
      → 0 < max_size
      → min_size ≤ length payload
      → length payload ≤ max_size
      → pending s ≡ (encode_header_and_payload none payload none).1
      → (b : BufLimitReader Rd) × (handle_stream none source min_size max_size s
          ≡ (record { req_len = length payload; reader = some b; invalid = none }, max_size))
        × (b.limit ≡ pos max_size)
        × (b.per_read ≡ false)
        × (unread source pending b ≡ payload)
  unfolding encode_header_and_payload judge set_limit content_limit
  request_accepted min_size max_size s payload h hm pm lo hi hp =
      let n = length payload in
      let (b, e, (_, _, _, u)) = starts none min_size n s payload h (omega arith) hp in
      let z : (max_size == 0) ≡ false = ground arith in
      let f1 : ltb n min_size ≡ false = ground arith in
      let f2 : ltb max_size n ≡ false = ground arith in
      (
        record b { per_read = false; limit = to_int64 max_size },
        handle_stream-starts none min_size max_size n s b z e ∙ rw (f1, f2) refl,
        to_int64_small max_size hm,
        refl,
        u,
      )

  -- With a compression that takes the maximum to `grown` and this to `twice`, the handler hands over a request
  -- of a length between the two sizes with the limit `twice`, as an int64, and the shared maximum becomes `grown`.
  pub request_compressed :
      (max_encoded_len : ℕ → Option ℕ) (min_size max_size len grown twice : ℕ) (s : Rd)
      (payload : List ℕ)
      → IsStream source pending
      → 0 < max_size
      → min_size ≤ len
      → len ≤ max_size
      → len < 2 ^ 64
      → max_encoded_len max_size ≡ some grown
      → max_encoded_len grown ≡ some twice
      → pending s ≡ put_uvarint len ++ payload
      → (b : BufLimitReader Rd) × (handle_stream (some max_encoded_len) source min_size max_size s
          ≡ (record { req_len = len; reader = some b; invalid = none }, grown))
        × (b.limit ≡ to_int64 twice)
        × (b.per_read ≡ false)
        × (unread source pending b ≡ payload)
  unfolding judge set_limit content_limit
  request_compressed m min_size max_size len grown twice s payload h pm lo hi hl h1 h2 hp =
      let (b, e, (_, _, _, u)) = starts (some m) min_size len s payload h hl hp in
      let z : (max_size == 0) ≡ false = ground arith in
      let f1 : ltb len min_size ≡ false = ground arith in
      let f2 : ltb max_size len ≡ false = ground arith in
      (
        record b { per_read = false; limit = to_int64 twice },
        handle_stream-starts (some m) min_size max_size len s b z e
            ∙ rw (f1, f2, h1, h2, content_limit) refl,
        refl,
        refl,
        u,
      )

  -- The error of a length outside the two sizes.
  abbrev pub length_error : ℕ → ℕ → ℕ → InputError
  length_error min_size max_size len =
      if ltb len min_size then too_small len min_size else too_large len max_size

  -- Over such a stream, with or without compression and with a maximum that is not 0, a length that is too small or too large is reported as such,
  -- the shared maximum becomes 0, and the reader that is handed over still gives the first byte of the payload: its
  -- limit is 1 and no longer one per read.
  pub request_refused :
      (comp : Option (ℕ → Option ℕ)) (min_size max_size len : ℕ) (s : Rd) (payload : List ℕ)
      → IsStream source pending
      → 0 < max_size
      → (len < min_size) ⊎ (max_size < len)
      → len < 2 ^ 64
      → pending s ≡ put_uvarint len ++ payload
      → (b : BufLimitReader Rd) × (handle_stream comp source min_size max_size s ≡ (
        record {
          req_len = len;
          reader = some b;
          invalid = some (length_error min_size max_size len);
        },
        0,
      ))
        × (b.limit ≡ pos 1)
        × (b.per_read ≡ false)
        × (unread source pending b ≡ payload)
  unfolding judge set_limit
  request_refused comp min_size max_size len s payload h pm out hl hp =
      let (b, e, (l, _, _, u)) = starts comp min_size len s payload h hl hp in
      let z : (max_size == 0) ≡ false = ground arith in
      (
        record b { per_read = false },
        handle_stream-starts comp min_size max_size len s b z e
            ∙ elim (Bool-cases (ltb len min_size)) [
              | inl f ↦ rw f refl
              | inr f ↦ let g : ltb max_size len ≡ true = ground arith in rw (f, g) refl
            ],
        l,
        refl,
        u,
      )

module _ {Rd : Type 0} (source : ℕ → Rd → Answer Rd) where
  handle_stream-reads :
      (comp : Option (ℕ → Option ℕ)) (min_size max_size : ℕ) (s : Rd)
      → (max_size == 0) ≡ false
      → handle_stream comp source min_size max_size s ≡ (
          let r = read_uvarint (read_byte source) (length_reader comp source min_size s) in
          let j = judge comp min_size max_size r.0 r.1 in
          let l = set_limit comp j.0 j.1 (record r.2 { per_read = false }) in
          (record { req_len = r.0; reader = some l.0; invalid = j.0 }, l.1))
  unfolding handle_stream
  handle_stream-reads comp min_size max_size s z = rw z refl

  set_limit-invalid :
      (comp : Option (ℕ → Option ℕ)) (i : Option InputError) (n : ℕ) (b : BufLimitReader Rd)
      (e : InputError)
      → i ≡ some e
      → (set_limit comp i n b).1 ≡ 0
  unfolding set_limit
  set_limit-invalid comp i n b e h = rw h refl

  invalid_resets :
      (comp : Option (ℕ → Option ℕ)) (min_size max_size : ℕ) (s : Rd) (e : InputError)
      → (handle_stream comp source min_size max_size s).0.invalid ≡ some e
      → (handle_stream comp source min_size max_size s).1 ≡ 0
  unfolding handle_stream
  invalid_resets comp min_size max_size s e h = elim (Bool-cases (max_size == 0)) [
    | inl z ↦ rw z ((==_iff max_size 0).0 z)
    | inr z ↦
        let o = handle_stream-reads comp min_size max_size s z in
        ap (λ x. x.1) o ∙ set_limit-invalid comp _ _ _ e (sym (ap (λ x. x.0.invalid) o) ∙ h)
  ]

  no_size :
      (comp : Option (ℕ → Option ℕ)) (min_size : ℕ) (ss : List Rd)
      → handle_streams comp source min_size 0 ss ≡ map (λ _. no_data) ss
  unfolding handle_streams handle_stream
  no_size comp min_size [] = refl
  no_size comp min_size (s ∷ ss) = ap (λ rs. no_data ∷ rs) (no_size comp min_size ss)

  -- When a stream's request is found invalid, every later stream of the same handler is handed over without its length
  -- being read, as a request of no data and no error.
  pub handle_streams-invalid :
      (comp : Option (ℕ → Option ℕ)) (min_size max_size : ℕ) (s : Rd) (ss : List Rd)
      (e : InputError)
      → (handle_stream comp source min_size max_size s).0.invalid ≡ some e
      → handle_streams comp source min_size max_size (s ∷ ss)
        ≡ (handle_stream comp source min_size max_size s).0 ∷ map (λ _. no_data) ss
  unfolding handle_streams
  handle_streams-invalid comp min_size max_size s ss e h =
      rw (invalid_resets comp min_size max_size s e h, no_size comp min_size ss) refl
