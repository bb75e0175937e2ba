-- ===== src/ReqResp/Reader/Plain.antt =====
-- A stream of bytes in memory, for the reader of pkg/networks/ethereum/rpc/reqresp/buf_limit_read.go.
use armiarma.Base.{
  ℕ, ◌≤◌, ◌<◌, ◌≡◌, refl, none, some, List, [], ◌∷◌, ◌++◌, arith, length, take, drop, length-take,
  take-append-drop,
}
use armiarma.ReqResp.Reader.{IoError, eof, Answer}
use armiarma.ReqResp.Reader.Laws.{IsStream}

-- A stream that gives all that it is asked for and has.
abbrev pub bytes_of : ℕ → List ℕ → Answer (List ℕ)
bytes_of n [] = record { bytes = []; error = some eof; stream = [] }
bytes_of n (x ∷ xs) = record { bytes = take n (x ∷ xs); error = none; stream = drop n (x ∷ xs) }

pub bytes_of-IsStream : IsStream bytes_of (λ s. s)
bytes_of-IsStream = record { in_order = in_order; bounded = bounded; clean = clean; live = live }
  where
    in_order : (n : ℕ) (s : List ℕ) → (bytes_of n s).bytes ++ (bytes_of n s).stream ≡ s
    in_order n [] = refl
    in_order n (x ∷ xs) = take-append-drop n (x ∷ xs)

    bounded : (n : ℕ) (s : List ℕ) → length (bytes_of n s).bytes ≤ n
    bounded n [] = omega arith
    bounded n (x ∷ xs) = omega (arith, length-take {0} n (x ∷ xs))

    clean :
        (n : ℕ) (s : List ℕ) (e : IoError)
        → (bytes_of n s).error ≡ some e
        → (bytes_of n s).bytes ≡ []
    clean n [] e h = refl
    clean n (x ∷ xs) e h = cc

    live : (n : ℕ) (s : List ℕ) → 0 < n → 0 < length s → 0 < length (bytes_of n s).bytes
    live n [] pn ps = ps
    live n (x ∷ xs) pn ps = omega (arith, length-take {0} n (x ∷ xs))
