-- ===== src/ReqResp/Reader/Bytes.antt =====
-- Reading byte by byte with a limit of one byte per read, as the varints are read.
use armiarma.Base.{
  ℕ, ◌≤◌, ◌<◌, min, ◌≡◌, refl, ap, ◌∙◌, inl, inr, true, false, none, List, [], ◌∷◌, ◌++◌, arith,
  leb, ◌==◌, if◌then◌else◌, ==_iff, Bool-cases, Option-cases, length, length-append, length-take,
}
use armiarma.Base.Int.{pos, pos_part, ◌-ℤ◌}
use armiarma.ReqResp.Reader.{
  BufLimitReader, Answer, fetch, read, read_byte, read_direct, spend, refill, ReadResult,
}
use armiarma.ReqResp.Reader.Laws.{IsStream, unread, read-Paid}

single :
    (ys rest : List ℕ) (x : ℕ) (xs : List ℕ)
    → length ys ≤ 1
    → 0 < length ys
    → ys ++ rest ≡ x ∷ xs
    → (ys ≡ x ∷ []) × (rest ≡ xs)
single [] rest x xs h p e = absurd (omega arith)
single (y ∷ []) rest x xs h p e = (cc, cc)
single (y ∷ z ∷ ys) rest x xs h p e = absurd (omega arith)

spend_keeps :
    {Rd : Type 0} (r : ReadResult Rd) → ((spend r).count ≡ r.count) × ((spend r).error ≡ r.error)
unfolding spend
spend_keeps r = elim (Bool-cases r.reader.per_read) [
  | inl f ↦ rw f (refl, refl)
  | inr f ↦ rw f (refl, refl)
]

module _ {Rd : Type 0} (source : ℕ → Rd → Answer Rd) (pending : Rd → List ℕ) where
  -- The reader is set to one byte per read and has these bytes to give.
  abbrev pub Reads : BufLimitReader Rd → List ℕ → Type 0
  Reads b xs =
      (b.limit ≡ pos 1) × (b.per_read ≡ true) × (0 < b.size) × (unread source pending b ≡ xs)

  module _ (h : IsStream source pending) where
    no_error : (n : ℕ) (s : Rd) → 0 < n → 0 < length (pending s) → (source n s).error ≡ none
    no_error n s pn pp = elim (Option-cases (source n s).error) [
      | inl f ↦ f
      | inr (e, f) ↦
          let z : length (source n s).bytes ≡ 0 = ap length (h.clean n s e f) in
          absurd (omega (arith, h.live n s pn pp))
    ]

    fetch_live :
        (n : ℕ) (b : BufLimitReader Rd)
        → 0 < n
        → 0 < b.size
        → 0 < pos_part b.limit
        → 0 < length (unread source pending b)
        → (0 < (fetch source n b).count) × ((fetch source n b).error ≡ none)
    unfolding fetch read_direct refill
    fetch_live n b pn ps pl pu =
        let a = length-append {0} b.buf (pending b.rd) in
        elim (Bool-cases (length b.buf == 0)) [
          | inl z ↦
              let z' : length b.buf ≡ 0 = (==_iff (length b.buf) 0).0 z in
              let pp : 0 < length (pending b.rd) = omega arith in
              let m = min (pos_part b.limit) b.size in
              let pm : 0 < m = omega arith in
              elim (Bool-cases (leb b.size n)) [
                | inl l ↦ rw (z, l) (h.live n b.rd pn pp, no_error n b.rd pn pp)
                | inr l ↦
                    let l' = h.live m b.rd pm pp in
                    rw (z, l, no_error m b.rd pm pp, refill)
                      (omega (arith, length-take {0} n (source m b.rd).bytes), refl)
              ]
          | inr z ↦
              let z' : 0 < length b.buf = ground arith in
              rw z (omega (arith, length-take {0} n b.buf), refl)
        ]

    read_one :
        (b : BufLimitReader Rd) → b.limit ≡ pos 1 → read source 1 b ≡ spend (fetch source 1 b)
    unfolding read
    read_one b e = rw (e, read) refl

    -- With a limit of one byte and bytes to give, `ReadByte` returns the next one.
    pub read_byte_next :
        (b : BufLimitReader Rd) (x : ℕ) (xs : List ℕ)
        → b.limit ≡ pos 1
        → 0 < b.size
        → unread source pending b ≡ x ∷ xs
        → (b' : BufLimitReader Rd) × (read_byte source b ≡ (x, none, b'))
          × (b'.limit ≡ (if b.per_read then b.limit else b.limit -ℤ pos 1))
          × (b'.per_read ≡ b.per_read)
          × (0 < b'.size)
          × (unread source pending b' ≡ xs)
    unfolding read_byte
    read_byte_next b x xs hl hs hu =
        let r = read source 1 b in
        let p = read-Paid source pending h 1 b in
        let one = read_one b hl in
        let (k1, k2) = spend_keeps (fetch source 1 b) in
        let pl : 0 < pos_part b.limit = rw hl (omega arith) in
        let pu : 0 < length (unread source pending b) = rw hu (omega arith) in
        let (pc, ok) = fetch_live 1 b (omega arith) hs pl pu in
        let pc' : 0 < r.count = rw (one, k1) pc in
        let ok' : r.error ≡ none = rw (one, k2) ok in
        let c = p.counted in
        let s = p.short in
        let (e1, e2) =
          single r.copied (unread source pending r.reader) x xs (omega arith) (omega arith)
            (p.next ∙ hu) in
        let c1 : r.count ≡ 1 = omega arith in
        let nz : (r.count == 0) ≡ false = ground arith in
        (
          r.reader,
          rw (e1, ok', nz) refl,
          p.paid ∙ rw c1 refl,
          p.same_mode,
          omega (arith, p.same_size),
          e2,
        )

    -- Of a reader that is set to one byte per read and has bytes to give, over a stream that keeps the contract,
    -- gives no bytes with an error and at least one byte when it is asked for some and has some, `ReadByte` returns
    -- the next byte without an error, and the reader has the others to give.
    pub read_byte-Reads :
        (b : BufLimitReader Rd) (x : ℕ) (xs : List ℕ)
        → Reads b (x ∷ xs)
        → (b' : BufLimitReader Rd) × (read_byte source b ≡ (x, none, b')) × Reads b' xs
    read_byte-Reads b x xs (hl, hm, hs, hu) =
        let (b', e, l, m, z, u) = read_byte_next b x xs hl hs hu in
        (b', e, (l ∙ rw hm hl, m ∙ hm, z, u))
