-- ===== src/Db/Peers/Listing.antt =====
-- What the reads of `peer_info` say of peers that are stored in part, and how the two reads of a connectable peer compare.
use armiarma.Base.{
  ℕ, ◌≡◌, refl, sym, ◌∙◌, ap, Option, none, some, String, true, List, [], ◌∷◌, map, str_eq, eq_refl,
  inl, inr, Option-cases,
}
use mathlib.Core.Option
use armiarma.Base.{if_true}
use armiarma.Models.HostInfo.{HostInfo, RemoteConnectablePeer}
use armiarma.Utils.UserAgent.{NetworkType}
use armiarma.Db.Tables.Typed.{typed_host}
use armiarma.Db.Sql.{
  is_full, text_kind, is_array, is_typed, Row, Database, IsLawful, row_after, cell, text, texts,
}
use armiarma.Db.Sql.Rows.{scan_text, scan_bytes, scan_texts, scan_int4}
use armiarma.Db.Tables.PeerInfo.{upsert_host_info}
use armiarma.Db.Peers.{
  parse_all, parse_some, get_full_host_info, get_persistable, read_rows, get_non_deprecated_peers,
  ◌>>=◌,
}
use armiarma.Db.Peers.Writes.{select-upsert_host_info}

-- What parses to the end parses piece by piece.
parse_some-parse_all :
    (new_multiaddr : List ℕ → Option (List ℕ)) (ms : List (List ℕ)) (out : List (Option (List ℕ)))
    → parse_all new_multiaddr (map some ms) ≡ some out
    → parse_some new_multiaddr ms ≡ out
unfolding parse_all parse_some
parse_some-parse_all new_multiaddr [] out e = cc
parse_some-parse_all new_multiaddr (m ∷ ms) out e = elim (Option-cases (new_multiaddr m)) [
  | inl n ↦ let e' = rw n at e in cc e'
  | inr (a, h) ↦ elim (Option-cases (parse_all new_multiaddr (map some ms))) [
    | inl n ↦ let e' = rw (h, n) at e in cc e'
    | inr (rest, g) ↦
        let e' = rw (h, g) at e in
        rw (h, parse_some, parse_some-parse_all new_multiaddr ms rest g) (cc e')
  ]
]

is_full-some : (ms : List (List ℕ)) → is_full (map some ms) ≡ true
unfolding is_full
is_full-some [] = refl
is_full-some (m ∷ ms) = is_full-some ms

-- The end of the read of a connectable peer.
abbrev persistable :
    (String → NetworkType)
    → String
    → Option (List (Option (List ℕ)))
    → Option String
    → Option RemoteConnectablePeer
persistable network_of network (some maddrs) (some id) =
    some (record { id = id; addrs = maddrs; network = network_of network })
persistable network_of network maddrs id = none

persistable-listed :
    (network_of : String → NetworkType) (decode : String → Option String)
    (new_multiaddr : List ℕ → Option (List ℕ)) (id network : String) (ms : List (List ℕ))
    (q : RemoteConnectablePeer) (maddrs : Option (List (Option (List ℕ)))) (peer_id : Option String)
    → parse_all new_multiaddr (map some ms) ≡ maddrs
    → decode id ≡ peer_id
    → persistable network_of network maddrs peer_id ≡ some q
    → get_non_deprecated_peers decode new_multiaddr network_of (some (some (id, network, ms) ∷ []))
      ≡ (q ∷ [], true)
unfolding get_non_deprecated_peers read_rows
persistable-listed network_of decode new_multiaddr id network ms q none _ p g e = cc
persistable-listed network_of decode new_multiaddr id network ms q (some maddrs) none p g e = cc
persistable-listed network_of decode new_multiaddr id network ms q (some maddrs) (some pid) p g e =
    rw (g, parse_some-parse_all new_multiaddr ms maddrs p)
      (ap (λ x. (x ∷ [], true)) (Option.some_inj.0 e))

module _ {F : Type 0} {d : Database F} (law : IsLawful d) (new_multiaddr : List ℕ → Option (List ℕ))
    (network_of : String → NetworkType) where
  -- Over a database that keeps the laws of its tables: a peer that was discovered by a statement that fits the table, and neither identified nor
  -- dialled, cannot be read: its row has columns that are `NULL`, and the read ends in an error.
  pub get_full_host_info-upsert_host_info :
      {A : Type 0} (network_text : NetworkType → String) (h : HostInfo A) (s : d.State)
      → d.select s "peer_info" h.id ≡ none
      → is_typed d.accepts (upsert_host_info {F = F} network_text h) ≡ true
      → get_full_host_info d new_multiaddr network_of {A = A} h.id
          (d.execute (upsert_host_info network_text h) s)
        ≡ none
  unfolding get_full_host_info row_after upsert_host_info cell
  get_full_host_info-upsert_host_info network_text h s new fit =
      let row =
        select-upsert_host_info law network_text h s h.id fit
        ∙ if_true (row_after (upsert_host_info network_text h) (d.select s "peer_info" h.id))
            (d.select s "peer_info" h.id) (str_eq h.id h.id) (eq_refl h.id)
        ∙ ap (row_after (upsert_host_info network_text h)) new in
      simp (
        row,
        scan_text law,
        scan_bytes law,
        scan_texts law h.maddrs (typed_host F d.accepts network_text h fit).0,
        scan_int4 law h.port (typed_host F d.accepts network_text h fit).1,
        law.scan-null text_kind (unfold is_array in refl),
      )

  -- What is read of a row, by what its multiaddresses and its id parse to.
  get_persistable-row :
      (decode : String → Option String) (id network : String) (ms : List (Option (List ℕ)))
      (r : Row F) (s : d.State) (maddrs : Option (List (Option (List ℕ)))) (peer_id : Option String)
      → d.select s "peer_info" id ≡ some r
      → cell "network" r ≡ text network
      → cell "multi_addrs" r ≡ texts ms
      → is_full ms ≡ true
      → parse_all new_multiaddr ms ≡ maddrs
      → decode id ≡ peer_id
      → get_persistable d new_multiaddr network_of decode id s
        ≡ persistable network_of network maddrs peer_id
  unfolding get_persistable
  get_persistable-row decode id network ms r s none _ row net addrs full p g =
      rw row (rw (net, addrs, scan_text law, scan_texts law ms full, p, ◌>>=◌) refl)
  get_persistable-row decode id network ms r s (some maddrs) none row net addrs full p g =
      rw row (rw (net, addrs, scan_text law, scan_texts law ms full, p, g, ◌>>=◌) refl)
  get_persistable-row decode id network ms r s (some maddrs) (some peer_id) row net addrs full p g =
      rw row (rw (net, addrs, scan_text law, scan_texts law ms full, p, g, ◌>>=◌) refl)

  -- The connectable peer that is read of a stored id, if it is read without an error, is what the listing of the peers that are not
  -- deprecated has of the same row.
  pub get_persistable-listed :
      (decode : String → Option String) (id network : String) (ms : List (List ℕ)) (r : Row F)
      (s : d.State) (q : RemoteConnectablePeer)
      → d.select s "peer_info" id ≡ some r
      → cell "network" r ≡ text network
      → cell "multi_addrs" r ≡ texts (map some ms)
      → get_persistable d new_multiaddr network_of decode id s ≡ some q
      → get_non_deprecated_peers decode new_multiaddr network_of
          (some (some (id, network, ms) ∷ []))
        ≡ (q ∷ [], true)
  unfolding get_persistable
  get_persistable-listed decode id network ms r s q row net addrs e =
      persistable-listed network_of decode new_multiaddr id network ms q
        (parse_all new_multiaddr (map some ms)) (decode id) refl refl
        (sym (
            get_persistable-row decode id network (map some ms) r s
              (parse_all new_multiaddr (map some ms)) (decode id) row net addrs (is_full-some ms)
              refl refl)
          ∙ e)
