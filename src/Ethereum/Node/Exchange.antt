-- ===== src/Ethereum/Node/Exchange.antt =====
-- A request for a peer's status, from the bytes that the peer writes to what the node makes of them.
use armiarma.Base.{
  ℕ, zero, suc, ◌^◌, ◌≤◌, ◌<◌, ◌≡◌, refl, sym, ap, ◌∙◌, Bool, true, false, Option, none, some, List,
  [], ◌∷◌, arith, length, take,
}
use mathlib.Core.Path.{subst}
use mathlib.Core.List.{append-nil}
use mathlib.Core.Option.{some-injective}
use armiarma.ReqResp.Reader.{Answer, BufLimitReader}
use armiarma.ReqResp.Reader.Laws.{IsStream, unread}
use armiarma.ReqResp.Response.{read_chunk, got, stream_chunk, size_limit}
use armiarma.ReqResp.Response.Chunks.{read_chunk_sized}
use armiarma.ReqResp.Method.{
  Content, ResponseHandler, RequestHandler, read_request, write_response_chunk, encode, decode,
  read_obj, success_code,
}
use armiarma.Ethereum.Node.{
  Status, LocalEthereumNode, zero_status, update_status, serve_beacon_status, req_beacon_status,
  responds_with, on_responses, on_response, status_rpc_v1,
}

-- The content of bytes that end without an error.
abbrev pub whole : List ℕ → Content
whole b = record { bytes = b; failure = none }

-- Every status has an encoding of this length, which decodes to it whatever it is decoded into.
abbrev pub IsSerialization :
    ℕ → (Status → Option (List ℕ)) → (ℕ → Content → Status → Status × Bool) → Type 0
IsSerialization n serialize deserialize =
    (s : Status)
    → (b : List ℕ) × (serialize s ≡ some b)
      × (length b ≡ n)
      × ((d : Status) → deserialize n (whole b) d ≡ (s, true))

-- Compressed bytes keep within the limit, and decompress to the same from any part of the stream that has them.
abbrev pub IsCompression : ℕ → ℕ → (List ℕ → List ℕ) → (List ℕ → Content) → Type 0
IsCompression n max_content compress decompress =
    (b : List ℕ)
    → length b ≡ n
    → (length (compress b) ≤ max_content) × (decompress (compress b) ≡ whole b)

-- The handler of a request for a status whose content is these bytes.
abbrev pub request_of : ℕ → List ℕ → RequestHandler
request_of n b = record { m = status_rpc_v1 n; req_len = n; r = whole b; invalid_input_err = none }

module _ (serialize : Status → Option (List ℕ)) (deserialize : ℕ → Content → Status → Status × Bool)
    (compress : List ℕ → List ℕ) (writes : List ℕ → Bool) (n : ℕ) where
  -- What is written in answer to a request, and the node afterwards.
  serve_beacon_status_lem :
      (s : Status) (bs bt : List ℕ) (en : LocalEthereumNode)
      → deserialize n (whole bs) zero_status ≡ (s, true)
      → serialize en.local_status ≡ some bt
      → writes (stream_chunk 0 (length bt) (compress bt)) ≡ true
      → serve_beacon_status serialize deserialize compress writes (request_of n bs) en
        ≡ (stream_chunk 0 (length bt) (compress bt), update_status s en)
  unfolding serve_beacon_status read_request decode responds_with write_response_chunk encode
  serve_beacon_status_lem s bs bt en hd hs hw = rw (hd, hs, hw) refl

  -- A chunk of the status, and nothing behind it.
  req_beacon_status_lem :
      (s : Status) (b : List ℕ) (c : ResponseHandler) (en : LocalEthereumNode)
      → c.m ≡ status_rpc_v1 n
      → c.result ≡ success_code
      → deserialize c.chunk_size c.r zero_status ≡ (s, true)
      → req_beacon_status serialize deserialize compress writes (c ∷ []) true en
        ≡ (s, true, update_status s en)
  unfolding req_beacon_status on_responses on_response read_obj decode
  req_beacon_status_lem s b c en hm hc hd = rw (hc, hm, hd) refl

  -- Both nodes keep the newer of their statuses.
  same_head :
      (a b : LocalEthereumNode)
      → (update_status b.local_status a).local_status.head_slot
        ≡ (update_status a.local_status b).local_status.head_slot
  unfolding update_status
  same_head a b = ground arith

length_zero : {A : Type 0} (xs : List A) → length xs ≡ 0 → xs ≡ []
length_zero [] h = refl
length_zero (x ∷ xs) h = absurd (omega (arith, h))

pub take_all : {A : Type 0} (k : ℕ) (xs : List A) → length xs ≤ k → take k xs ≡ xs
take_all zero xs h = sym (length_zero xs (omega (arith, h)))
take_all (suc k) [] h = refl
take_all (suc k) (x ∷ xs) h = rw (take_all k xs (omega (arith, h))) refl

-- What the handler of a chunk reads: the part of the stream within the limit, decompressed.
abbrev pub chunk_content : (List ℕ → Content) → ℕ → List ℕ → Content
chunk_content decompress max_content bytes =
    decompress (take (size_limit max_content success_code) bytes)

-- The handler that `RunRequest` gives the listener for a chunk.
abbrev pub status_chunk : ℕ → Content → ResponseHandler
status_chunk n content = record {
  m = status_rpc_v1 n;
  r = content;
  result = success_code;
  chunk_size = n;
  chunk_index = 0;
}

-- A node asks a peer for its status, with a serialization of the given length that is read back, a compression that is
-- undone and keeps within the limit, and a stream that takes what the peer writes and gives it to the node as it was
-- written. Then the response handler hands over one chunk, the node's request returns the peer's status without
-- an error, and both nodes end with the newer of the two statuses, the peer with the node's and the node with the peer's.
pub req_beacon_status-serve_beacon_status :
    {Rd : Type 0} (source : ℕ → Rd → Answer Rd) (pending : Rd → List ℕ)
    (serialize : Status → Option (List ℕ)) (deserialize : ℕ → Content → Status → Status × Bool)
    (compress : List ℕ → List ℕ) (decompress : List ℕ → Content) (writes : List ℕ → Bool)
    (n max_content : ℕ) (node peer : LocalEthereumNode) (request : List ℕ) (b : BufLimitReader Rd)
    → IsStream source pending
    → IsSerialization n serialize deserialize
    → IsCompression n max_content compress decompress
    → ((w : List ℕ) → writes w ≡ true)
    → n ≤ max_content
    → max_content < 2 ^ 63
    → serialize node.local_status ≡ some request
    → 0 < b.size
    → b.per_read ≡ false
    → unread source pending b
      ≡ (serve_beacon_status serialize deserialize compress writes (request_of n request) peer).0
    → let peer' =
        (serve_beacon_status serialize deserialize compress writes (request_of n request) peer).1 in
      (b' : BufLimitReader Rd) × (read_chunk source max_content 0 b
        ≡ got (record { index = 0; size = n; result = success_code; reader = b' }))
      × (req_beacon_status serialize deserialize compress writes
            (status_chunk n (chunk_content decompress max_content (unread source pending b')) ∷ [])
            true
            node
          ≡ (peer.local_status, true, update_status peer.local_status node))
      × (peer' ≡ update_status node.local_status peer)
      × ((update_status peer.local_status node).local_status.head_slot
          ≡ peer'.local_status.head_slot)
unfolding size_limit
req_beacon_status-serve_beacon_status source pending serialize deserialize compress decompress
      writes n max_content node peer request b h hz hc hw hn hm hr hs hp hu =
    let (bt, et, lt, dt) = hz peer.local_status in
    let (fits, undone) = hc bt lt in
    let (bs, es, ls, ds) = hz node.local_status in
    let same : bs ≡ request = some-injective bs request (sym es ∙ hr) in
    let served =
      serve_beacon_status_lem serialize deserialize compress writes n node.local_status request bt
        peer
        (subst (λ r. deserialize n (whole r) zero_status ≡ (node.local_status, true)) same
          (ds zero_status))
        et (hw _) in
    let wire =
      hu
      ∙ ap (λ (r : List ℕ × LocalEthereumNode). r.0) served
      ∙ ap (λ k. stream_chunk 0 k (compress bt)) lt in
    let (b', e, _, _, _, u) =
      read_chunk_sized source pending max_content 0 0 n (compress bt) [] b h hs hp hn hm
        (wire ∙ sym (append-nil _)) in
    let read : chunk_content decompress max_content (unread source pending b') ≡ whole bt =
      ap decompress
        (ap (take max_content) (u ∙ append-nil _) ∙ take_all max_content (compress bt) fits)
      ∙ undone in
    let peer_is = ap (λ (r : List ℕ × LocalEthereumNode). r.1) served in
    (
      b',
      e,
      req_beacon_status_lem serialize deserialize compress writes n peer.local_status bt
          (status_chunk n (chunk_content decompress max_content (unread source pending b'))) node
          refl refl
          (subst (λ r. deserialize n r zero_status ≡ (peer.local_status, true)) (sym read)
            (dt zero_status)),
      peer_is,
      same_head serialize deserialize compress writes n node peer
          ∙ ap (λ (p : LocalEthereumNode). p.local_status.head_slot) (sym peer_is),
    )
