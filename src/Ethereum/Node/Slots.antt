-- ===== src/Ethereum/Node/Slots.antt =====
-- What the node's listeners and requests make of its own status.
use mathlib.Core.Path.{subst}
use armiarma.Base.{
  ℕ, ◌≤◌, ◌≡◌, refl, sym, ap, ◌∙◌, ◌⊎◌, inl, inr, Bool, Option, List, [], ◌∷◌, map, arith, ltb,
  Bool-cases, All, if_true, if_false,
}
use armiarma.ReqResp.Method.{Content, ResponseHandler, RequestHandler, read_request}
use armiarma.Ethereum.Node.{
  Status, LocalEthereumNode, zero_status, update_status, serve_beacon_status, req_beacon_status,
  responds_with, on_responses,
}

-- A request that is served, and one that is made, with the chunks that come back and whether they end without an error.
pub data NodeEvent : Type 0 where
  serves : RequestHandler → NodeEvent
  asks : List ResponseHandler → Bool → NodeEvent

abbrev pub head : LocalEthereumNode → ℕ
head en = en.local_status.head_slot

abbrev pub OneOf : Status → List Status → Type 0
OneOf s [] = ⊥
OneOf s (t ∷ ts) = (s ≡ t) ⊎ OneOf s ts

join :
    (s : Status) (ss : List Status) (a b c : Status)
    → (b ≡ a) ⊎ (b ≡ s)
    → (c ≡ b) ⊎ OneOf c ss
    → (c ≡ a) ⊎ ((c ≡ s) ⊎ OneOf c ss)
join s ss a b c o (inr p) = inr (inr p)
join s ss a b c (inl e) (inl f) = inl (f ∙ e)
join s ss a b c (inr e) (inl f) = inr (inl (f ∙ e))

module _ (serialize : Status → Option (List ℕ)) (deserialize : ℕ → Content → Status → Status × Bool)
    (compress : List ℕ → List ℕ) (writes : List ℕ → Bool) where
  abbrev pub on_event : NodeEvent → LocalEthereumNode → LocalEthereumNode
  on_event (serves h) en = (serve_beacon_status serialize deserialize compress writes h en).1
  on_event (asks chunks ends) en =
      (req_beacon_status serialize deserialize compress writes chunks ends en).2

  abbrev pub run_node : List NodeEvent → LocalEthereumNode → LocalEthereumNode
  run_node [] en = en
  run_node (e ∷ es) en = run_node es (on_event e en)

  -- The status that an event brings.
  abbrev pub brings : NodeEvent → Status
  brings (serves h) = (read_request serialize deserialize compress h zero_status).0
  brings (asks chunks ends) =
      (on_responses serialize deserialize compress writes chunks ends zero_status).0

  -- The statuses that came with the answers to requests.
  abbrev pub answers : List NodeEvent → List Status
  answers [] = []
  answers (serves h ∷ es) = answers es
  answers (asks chunks ends ∷ es) = brings (asks chunks ends) ∷ answers es

  -- The status of the second node comes from the first or from an event, and is the newest; the rest is the same.
  pub record IsNewest (es : List NodeEvent) (en en' : LocalEthereumNode) : Type 0 where
    pub origin : (en'.local_status ≡ en.local_status) ⊎ OneOf en'.local_status (map brings es)
    pub no_older : head en ≤ head en'
    pub newest : All (λ s. s.head_slot ≤ head en') (answers es)
    pub same_rest :
        (en'.local_metadata ≡ en.local_metadata) × (en'.network_genesis ≡ en.network_genesis)

  -- What an update is for one status.
  abbrev pub IsUpdate : Status → LocalEthereumNode → LocalEthereumNode → Type 0
  IsUpdate s en en' =
      ((en'.local_status ≡ en.local_status) ⊎ (en'.local_status ≡ s))
      × (head en ≤ head en')
      × ((en'.local_metadata ≡ en.local_metadata) × (en'.network_genesis ≡ en.network_genesis))

  kept_IsUpdate : (s : Status) (en : LocalEthereumNode) → IsUpdate s en en
  kept_IsUpdate s en = (inl refl, omega arith, (refl, refl))

  update_status-IsUpdate :
      (s : Status) (en : LocalEthereumNode)
      → IsUpdate s en (update_status s en) × (s.head_slot ≤ head (update_status s en))
  unfolding update_status
  update_status-IsUpdate s en = elim (Bool-cases (ltb en.local_status.head_slot s.head_slot)) [
    | inl f ↦ rw f ((inr refl, ground arith, (refl, refl)), omega arith)
    | inr f ↦ rw f (kept_IsUpdate s en, ground arith)
  ]

  -- The listener leaves the node or updates its status.
  serves_cases :
      (h : RequestHandler) (en : LocalEthereumNode)
      → (on_event (serves h) en ≡ en)
        ⊎ (on_event (serves h) en ≡ update_status (brings (serves h)) en)
  unfolding serve_beacon_status
  serves_cases h en =
      elim (Bool-cases (read_request serialize deserialize compress h zero_status).1) [
        | inr f ↦ inl (ap (λ (r : List ℕ × LocalEthereumNode). r.1) (if_false _ _ _ f))
        | inl f ↦
            elim (Bool-cases
              (responds_with serialize deserialize compress writes h en.local_status).1) [
                | inr g ↦ inl (
                    ap (λ (r : List ℕ × LocalEthereumNode). r.1) (if_true _ _ _ f)
                    ∙ if_false _ _ _ g)
                | inl g ↦ inr (
                    ap (λ (r : List ℕ × LocalEthereumNode). r.1) (if_true _ _ _ f)
                    ∙ if_true _ _ _ g)
              ]
      ]

  on_event-IsUpdate :
      (e : NodeEvent) (en : LocalEthereumNode) → IsUpdate (brings e) en (on_event e en)
  unfolding req_beacon_status
  on_event-IsUpdate (asks chunks ends) en =
      (update_status-IsUpdate (brings (asks chunks ends)) en).0
  on_event-IsUpdate (serves h) en = elim (serves_cases h en) [
    | inl p ↦ subst (IsUpdate (brings (serves h)) en) (sym p) (kept_IsUpdate (brings (serves h)) en)
    | inr p ↦
        subst (IsUpdate (brings (serves h)) en) (sym p)
          (update_status-IsUpdate (brings (serves h)) en).0
  ]

  answered :
      (e : NodeEvent) (es : List NodeEvent) (en en' : LocalEthereumNode)
      → head (on_event e en) ≤ head en'
      → All (λ s. s.head_slot ≤ head en') (answers es)
      → All (λ s. s.head_slot ≤ head en') (answers (e ∷ es))
  unfolding req_beacon_status
  answered (serves h) es en en' l a = a
  answered (asks chunks ends) es en en' l a =
      let u = (update_status-IsUpdate (brings (asks chunks ends)) en).1 in (omega arith, a)

  -- Whatever requests a node serves and makes, and however they end: its own status is its first or one that came with a
  -- request or an answer, its head slot is never below the first nor below that of an answer, and its metadata and genesis stay.
  pub run_node-IsNewest :
      (es : List NodeEvent) (en : LocalEthereumNode) → IsNewest es en (run_node es en)
  run_node-IsNewest [] en = record {
    origin = inl refl;
    no_older = omega arith;
    newest = tt;
    same_rest = (refl, refl);
  }
  run_node-IsNewest (e ∷ es) en =
      let (o, l, (m, g)) = on_event-IsUpdate e en in
      let r = run_node-IsNewest es (on_event e en) in
      record {
        origin =
            join (brings e) (map brings es) en.local_status (on_event e en).local_status
              (run_node es (on_event e en)).local_status o r.origin;
        no_older = (let n = r.no_older in omega arith);
        newest = answered e es en (run_node es (on_event e en)) r.no_older r.newest;
        same_rest = (r.same_rest.0 ∙ m, r.same_rest.1 ∙ g);
      }
