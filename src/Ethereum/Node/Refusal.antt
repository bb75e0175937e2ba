-- ===== src/Ethereum/Node/Refusal.antt =====
-- What a node makes of a peer that refuses to give its status.
use armiarma.Base.{
  ℕ, ◌≤◌, ◌<◌, ◌≡◌, sym, ap, ◌∙◌, Bool, true, false, Option, List, [], ◌∷◌, arith, ltb, length,
  take, if_false,
}
use mathlib.Core.Path.{subst}
use mathlib.Core.List.{append-nil}
use armiarma.Base.Int.{to_int64}
use armiarma.Base.Text.{codes}
use armiarma.ReqResp.Reader.{Answer, BufLimitReader}
use armiarma.ReqResp.Reader.Laws.{IsStream, unread}
use armiarma.ReqResp.Response.{
  read_chunk, got, stream_chunk, size_limit, invalid_req_code, max_err_size, cut_message,
}
use armiarma.ReqResp.Response.Chunks.{read_chunk_sized}
use armiarma.ReqResp.Method.{
  Content, ResponseHandler, RequestHandler, read_request, write_error_chunk, read_limited,
  read_err_msg,
}
use armiarma.Ethereum.Node.{
  Status, LocalEthereumNode, zero_status, update_status, serve_beacon_status, req_beacon_status,
  on_responses, on_response, status_rpc_v1,
}
use armiarma.Ethereum.Node.Exchange.{whole, take_all}

abbrev pub apology : List ℕ
apology = codes "could not parse status request"

-- The handler that `RunRequest` gives the listener for an error chunk.
abbrev pub error_chunk : ℕ → Content → ResponseHandler
error_chunk n content = record {
  m = status_rpc_v1 n;
  r = content;
  result = invalid_req_code;
  chunk_size = length apology;
  chunk_index = 0;
}

module _ (serialize : Status → Option (List ℕ)) (deserialize : ℕ → Content → Status → Status × Bool)
    (compress : List ℕ → List ℕ) (writes : List ℕ → Bool) where
  refused :
      (h : RequestHandler) (en : LocalEthereumNode)
      → (read_request serialize deserialize compress h zero_status).1 ≡ false
      → serve_beacon_status serialize deserialize compress writes h en
        ≡ (stream_chunk invalid_req_code (length apology) (compress apology), en)
  unfolding serve_beacon_status write_error_chunk cut_message
  refused h en f = if_false _ _ _ f

  -- An error chunk with a message that can be read is no error of the request.
  error_unseen :
      (n : ℕ) (en : LocalEthereumNode)
      → req_beacon_status serialize deserialize compress writes
          (error_chunk n (whole apology) ∷ [])
          true
          en
        ≡ (zero_status, true, en)
  unfolding req_beacon_status on_responses on_response read_err_msg read_limited update_status
      to_int64
  error_unseen n en =
      let older : ltb en.local_status.head_slot 0 ≡ false = ground arith in
      ap (λ (e : LocalEthereumNode). (zero_status, true, e)) (if_false _ _ _ older)

-- A peer that cannot read a node's request for its status answers with one error chunk, which a compression that is undone
-- and keeps within 256 bytes and a stream that gives what was written bring to the node's listener. The request then
-- returns the zero status without an error, and neither node changes.
pub req_beacon_status-error_chunk :
    {Rd : Type 0} (source : ℕ → Rd → Answer Rd) (pending : Rd → List ℕ)
    (serialize : Status → Option (List ℕ)) (deserialize : ℕ → Content → Status → Status × Bool)
    (compress : List ℕ → List ℕ) (decompress : List ℕ → Content) (writes : List ℕ → Bool)
    (n max_content : ℕ) (node peer : LocalEthereumNode) (h : RequestHandler) (b : BufLimitReader Rd)
    → IsStream source pending
    → length (compress apology) ≤ max_err_size
    → decompress (compress apology) ≡ whole apology
    → (read_request serialize deserialize compress h zero_status).1 ≡ false
    → 0 < b.size
    → b.per_read ≡ false
    → unread source pending b ≡ (serve_beacon_status serialize deserialize compress writes h peer).0
    → (b' : BufLimitReader Rd) × (read_chunk source max_content 0 b
        ≡ got (record { index = 0; size = length apology; result = invalid_req_code; reader = b' }))
      × (req_beacon_status serialize deserialize compress writes
            (error_chunk n (decompress (take max_err_size (unread source pending b'))) ∷ [])
            true
            node
          ≡ (zero_status, true, node))
      × ((serve_beacon_status serialize deserialize compress writes h peer).1 ≡ peer)
unfolding size_limit
req_beacon_status-error_chunk source pending serialize deserialize compress decompress writes n
      max_content node peer h b hs fits undone hr hz hp hu =
    let served = refused serialize deserialize compress writes h peer hr in
    let wire = hu ∙ ap (λ (r : List ℕ × LocalEthereumNode). r.0) served in
    let (b', e, _, _, _, u) =
      read_chunk_sized source pending max_content 0 invalid_req_code (length apology)
        (compress apology) [] b hs hz hp (omega arith) (omega arith) (wire ∙ sym (append-nil _)) in
    let read =
      ap decompress
        (ap (take max_err_size) (u ∙ append-nil _) ∙ take_all max_err_size (compress apology) fits)
      ∙ undone in
    (
      b',
      e,
      subst
          (λ r.
            req_beacon_status serialize deserialize compress writes (error_chunk n r ∷ []) true node
            ≡ (zero_status, true, node))
          (sym read) (error_unseen serialize deserialize compress writes n node),
      ap (λ (r : List ℕ × LocalEthereumNode). r.1) served,
    )
