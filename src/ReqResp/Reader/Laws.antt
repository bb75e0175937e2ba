-- ===== src/ReqResp/Reader/Laws.antt =====
-- What a `BufLimitReader` gives out, over a stream that keeps the contract of `io.Reader`.
use armiarma.Base.{
  ℕ, ◌≤◌, ◌<◌, min, ◌≡◌, refl, sym, ◌∙◌, inl, inr, Option, none, some, List, [], ◌∷◌, ◌++◌, arith,
  leb, ◌==◌, if◌then◌else◌, ==_iff, Bool-cases, Option-cases, length, take, drop, length-take,
  take-append-drop,
}
use mathlib.Core.List.{append_assoc}
use armiarma.Base.Int.{pos, pos_part, ◌-ℤ◌, leb_ℤ}
use armiarma.ReqResp.Reader.{
  Answer, IoError, BufLimitReader, ReadResult, copy_out, read_direct, refill, fetch, spend, read,
  eof,
}

-- The contract: the bytes that a stream still has to give come out in order, no more than asked for. A stream may
-- by the contract give bytes together with an error, or nothing and no error; `clean` and `live` say that this one does not.
pub record IsStream {Rd : Type 0} (source : ℕ → Rd → Answer Rd) (pending : Rd → List ℕ)
    : Type 0 where
  pub in_order : (n : ℕ) (s : Rd) → (source n s).bytes ++ pending (source n s).stream ≡ pending s
  pub bounded : (n : ℕ) (s : Rd) → length (source n s).bytes ≤ n
  pub clean : (n : ℕ) (s : Rd) (e : IoError) → (source n s).error ≡ some e → (source n s).bytes ≡ []
  pub live : (n : ℕ) (s : Rd) → 0 < n → 0 < length (pending s) → 0 < length (source n s).bytes

pub empty_buf : (l : List ℕ) → length l ≡ 0 → l ≡ []
empty_buf [] h = refl
empty_buf (x ∷ l) h = absurd (omega arith)

module _ {Rd : Type 0} (source : ℕ → Rd → Answer Rd) (pending : Rd → List ℕ) where
  -- All that the reader has still to give: its buffer, then the stream.
  abbrev pub unread : BufLimitReader Rd → List ℕ
  unread b = b.buf ++ pending b.rd

  -- A read of at most `n` bytes that gives out the next ones, and leaves the limit to `spend`.
  pub record Gives (n : ℕ) (b : BufLimitReader Rd) (r : ReadResult Rd) : Type 0 where
    pub next : r.copied ++ unread r.reader ≡ unread b
    pub counted : r.count ≡ length r.copied
    pub short : r.count ≤ n
    pub same_limit : r.reader.limit ≡ b.limit
    pub same_mode : r.reader.per_read ≡ b.per_read
    pub same_size : r.reader.size ≡ b.size

  -- What a read of at most `n` bytes returns, with the limit paid.
  pub record Paid (n : ℕ) (b : BufLimitReader Rd) (r : ReadResult Rd) : Type 0 where
    pub next : r.copied ++ unread r.reader ≡ unread b
    pub counted : r.count ≡ length r.copied
    pub short : r.count ≤ n
    pub same_mode : r.reader.per_read ≡ b.per_read
    pub same_size : r.reader.size ≡ b.size
    pub paid : r.reader.limit ≡ (if b.per_read then b.limit else b.limit -ℤ pos r.count)

  pub spend-Paid :
      (n : ℕ) (b : BufLimitReader Rd) (r : ReadResult Rd) → Gives n b r → Paid n b (spend r)
  unfolding spend
  spend-Paid n b r g = elim (Bool-cases r.reader.per_read) [
    | inl f ↦ rw f (record {
      next = g.next;
      counted = g.counted;
      short = g.short;
      same_mode = sym f ∙ g.same_mode;
      same_size = g.same_size;
      paid = rw (sym g.same_mode ∙ f) g.same_limit;
    })
    | inr f ↦ rw f (record {
      next = g.next;
      counted = g.counted;
      short = g.short;
      same_mode = sym f ∙ g.same_mode;
      same_size = g.same_size;
      paid = rw (sym g.same_mode ∙ f, g.same_limit) refl;
    })
  ]

  nothing-Gives :
      (n : ℕ) (b : BufLimitReader Rd) (e : Option IoError)
      → Gives n b (record { copied = []; count = 0; error = e; reader = b })
  nothing-Gives n b e = record {
    next = refl;
    counted = refl;
    short = omega arith;
    same_limit = refl;
    same_mode = refl;
    same_size = refl;
  }

  pub copy_out-Gives : (n : ℕ) (b : BufLimitReader Rd) → Gives n b (copy_out n b)
  copy_out-Gives n b = record {
    next =
        sym (append_assoc (take n b.buf) (drop n b.buf) (pending b.rd)) ∙ rw take-append-drop refl;
    counted = refl;
    short = omega (arith, length-take {0} n b.buf);
    same_limit = refl;
    same_mode = refl;
    same_size = refl;
  }

  module _ (h : IsStream source pending) where
    read_direct-Gives :
        (n : ℕ) (b : BufLimitReader Rd) → length b.buf ≡ 0 → Gives n b (read_direct source n b)
    unfolding read_direct
    read_direct-Gives n b z =
        let e = empty_buf b.buf z in
        record {
          next = rw e (h.in_order n b.rd);
          counted = refl;
          short = h.bounded n b.rd;
          same_limit = refl;
          same_mode = refl;
          same_size = refl;
        }

    refill-Gives :
        (n : ℕ) (b : BufLimitReader Rd) → length b.buf ≡ 0 → Gives n b (refill source n b)
    unfolding refill
    refill-Gives n b z =
        let e = empty_buf b.buf z in
        let m = min (pos_part b.limit) b.size in
        let a = source m b.rd in
        let b' = record b { buf = a.bytes; rd = a.stream } in
        elim (Option-cases a.error) [
          | inl f ↦
              let g = copy_out-Gives n b' in
              rw (f, refill)
                (record {
                  next = g.next ∙ rw e (h.in_order m b.rd);
                  counted = refl;
                  short = g.short;
                  same_limit = refl;
                  same_mode = refl;
                  same_size = refl;
                })
          | inr (x, f) ↦
              let no : a.bytes ≡ [] = h.clean m b.rd x f in
              rw (f, refill)
                (record {
                  next = rw e (h.in_order m b.rd);
                  counted = rw no refl;
                  short = rw no (omega arith);
                  same_limit = refl;
                  same_mode = refl;
                  same_size = refl;
                })
        ]

    pub fetch-Gives : (n : ℕ) (b : BufLimitReader Rd) → Gives n b (fetch source n b)
    unfolding fetch
    fetch-Gives n b = elim (Bool-cases (length b.buf == 0)) [
      | inl z ↦
          let z' : length b.buf ≡ 0 = (==_iff (length b.buf) 0).0 z in
          elim (Bool-cases (leb b.size n)) [
            | inl l ↦ rw (z, l) (read_direct-Gives n b z')
            | inr l ↦ rw (z, l) (refill-Gives n b z')
          ]
      | inr z ↦ rw z (copy_out-Gives n b)
    ]

    -- A read gives out the next bytes of the buffer and the stream, in order and as many as it counts, no more than asked
    -- for and no more than the limit, over a stream that keeps the contract of `io.Reader` and never gives bytes with an error.
    -- The limit falls by the count, unless it is one per read.
    pub read-Paid :
        (len : ℕ) (b : BufLimitReader Rd) → Paid (min len (pos_part b.limit)) b (read source len b)
    unfolding read
    read-Paid len b =
        let n = min len (pos_part b.limit) in
        elim (Bool-cases (leb_ℤ b.limit (pos 0))) [
          | inl f ↦ rw f (spend-Paid n b _ (nothing-Gives n b (some eof)))
          | inr f ↦ elim (Bool-cases (n == 0)) [
            | inl z ↦ rw (f, z) (spend-Paid n b _ (nothing-Gives n b none))
            | inr z ↦ rw (f, z) (spend-Paid n b _ (fetch-Gives n b))
          ]
        ]
