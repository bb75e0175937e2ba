-- ===== src/Db/Distributions/Counts.antt =====
-- What the distributions of crawler_metrics.go count.
use armiarma.Base.{
  ℕ, ◌+◌, String, ◌≡◌, refl, ◌∙◌, ap, inl, inr, Bool, true, false, ◌&&◌, Option, none, some, List,
  [], ◌∷◌, eq_iff, str_eq, if◌then◌else◌, Bool-cases, Option-cases, Dict, lookup, insert,
  lookup-insert,
}
use native.Mathlib.Nat.{zero-add}
use armiarma.Base.Int.{ℤ}
use armiarma.Groups.{
  shown, none_counts, HasDistinctKeys, lookup-cons, or_before, groups, occurrences, lookup-groups,
  groups-HasDistinctKeys, order_by_count, lookup-order_by_count,
}
use armiarma.Db.Distributions.Latencies.{range_of, latency_range-range_of}
use armiarma.Db.Distributions.{
  Crawled, Located, is_true, is_false, is_at, is_known, is_live, is_listed, only, country_of,
  keys_by, count_rows, read_counts, latency_range, get_client_distribution, get_geo_distribution,
  get_rtt_distribution,
}

abbrev pub has_text : String → Option String → Bool
has_text k none = false
has_text k (some s) = str_eq s k

lookup-read_counts :
    (k : String) (rows summary : Dict ℕ)
    → HasDistinctKeys rows
    → lookup k (read_counts rows summary) ≡ or_before (lookup k rows) (lookup k summary)
unfolding read_counts
lookup-read_counts k [] summary h = unfold lookup in refl
lookup-read_counts k ((j, v) ∷ rows) summary h =
    lookup-read_counts k rows (insert j v summary) h.1 ∙ elim (Bool-cases (str_eq j k)) [
      | inl same ↦
          let e : lookup k rows ≡ none = rw (← (eq_iff j k).0 same) h.0 in
          simp (e, lookup-insert, lookup-cons, same)
      | inr other ↦ simp (lookup-insert, lookup-cons, other)
    ]

occurrences-keys_by :
    (k : String) (key : Crawled → Option String) (rows : List Crawled)
    → occurrences k (keys_by key rows) ≡ count_rows (λ r. has_text k (key r)) rows
unfolding keys_by count_rows occurrences
occurrences-keys_by k key [] = refl
occurrences-keys_by k key (r ∷ rows) = elim (Option-cases (key r)) [
  | inl e ↦ rw (e, keys_by) (rw zero-add (occurrences-keys_by k key rows))
  | inr (s, e) ↦
      rw (e, keys_by) (ap (λ n. (if str_eq s k then 1 else 0) + n) (occurrences-keys_by k key rows))
]

or_before-none : (o : Option ℕ) → or_before o none ≡ o
or_before-none none = refl
or_before-none (some n) = refl

counted :
    (k : String) (keys : List String)
    → lookup k (read_counts (order_by_count (groups keys [])) []) ≡ shown (occurrences k keys)
unfolding lookup
counted k keys =
    let distinct = groups-HasDistinctKeys keys [] tt in
    let (same, ordered) = lookup-order_by_count k (groups keys []) distinct in
    lookup-read_counts k (order_by_count (groups keys [])) [] ordered
    ∙ or_before-none (lookup k (order_by_count (groups keys [])))
    ∙ same
    ∙ lookup-groups k keys [] none_counts
    ∙ rw zero-add refl

has_text-only :
    (k : String) (b : Bool) (o : Option String) → has_text k (only b o) ≡ b && has_text k o
has_text-only k true o = refl
has_text-only k false o = refl

count_rows-same :
    (p q : Crawled → Bool) (rows : List Crawled)
    → ((r : Crawled) → p r ≡ q r)
    → count_rows p rows ≡ count_rows q rows
unfolding count_rows
count_rows-same p q [] h = refl
count_rows-same p q (r ∷ rows) h =
    rw (h r) (ap (λ n. (if q r then 1 else 0) + n) (count_rows-same p q rows h))

-- The distribution of the keys of the rows that a test lets pass.
counted_by :
    (k : String) (test : Crawled → Bool) (key : Crawled → Option String) (rows : List Crawled)
    → lookup k
        (read_counts (order_by_count (groups (keys_by (λ r. only (test r) (key r)) rows) [])) [])
      ≡ shown (count_rows (λ r. test r && has_text k (key r)) rows)
counted_by k test key rows =
    counted k (keys_by (λ r. only (test r) (key r)) rows)
    ∙ ap shown (
        occurrences-keys_by k (λ r. only (test r) (key r)) rows
        ∙ count_rows-same (λ r. has_text k (only (test r) (key r)))
            (λ r. test r && has_text k (key r)) rows (λ r. has_text-only k (test r) (key r)))

-- A peer that is known not to be deprecated, has a client and was active of late, by what its three columns hold.
abbrev pub is_active : (ℤ → Bool) → Option Bool → Option String → Option ℤ → Bool
is_active recent none client last = false
is_active recent (some true) client last = false
is_active recent (some false) none last = false
is_active recent (some false) (some name) none = false
is_active recent (some false) (some name) (some t) = recent t

listed_columns :
    (recent : ℤ → Bool) (d : Option Bool) (c : Option String) (l : Option ℤ)
    → (is_false d && is_known c && is_at recent l) ≡ is_active recent d c l
listed_columns recent none c l = refl
listed_columns recent (some true) c l = refl
listed_columns recent (some false) none l = refl
listed_columns recent (some false) (some name) none = refl
listed_columns recent (some false) (some name) (some t) = refl

is_listed-is_active :
    (recent : ℤ → Bool) (r : Crawled)
    → is_listed recent r ≡ is_active recent r.deprecated r.client_name r.last_activity
unfolding is_listed
is_listed-is_active recent r = listed_columns recent r.deprecated r.client_name r.last_activity

-- An active peer that is known to have been attempted.
abbrev pub is_dialled : (ℤ → Bool) → Option Bool → Option Bool → Option String → Option ℤ → Bool
is_dialled recent none d c l = false
is_dialled recent (some false) d c l = false
is_dialled recent (some true) d c l = is_active recent d c l

live_columns :
    (recent : ℤ → Bool) (a d : Option Bool) (c : Option String) (l : Option ℤ)
    → (is_false d && is_true a && is_known c && is_at recent l) ≡ is_dialled recent a d c l
live_columns recent none none c l = refl
live_columns recent none (some true) c l = refl
live_columns recent none (some false) c l = refl
live_columns recent (some false) none c l = refl
live_columns recent (some false) (some true) c l = refl
live_columns recent (some false) (some false) c l = refl
live_columns recent (some true) none c l = refl
live_columns recent (some true) (some true) c l = refl
live_columns recent (some true) (some false) none l = refl
live_columns recent (some true) (some false) (some name) none = refl
live_columns recent (some true) (some false) (some name) (some t) = refl

is_live-is_dialled :
    (recent : ℤ → Bool) (r : Crawled)
    → is_live recent r ≡ is_dialled recent r.attempted r.deprecated r.client_name r.last_activity
unfolding is_live
is_live-is_dialled recent r =
    live_columns recent r.attempted r.deprecated r.client_name r.last_activity

-- When the queries do not fail: the distribution of clients shows under each name how many rows have it and belong to a peer that is
-- active and known to have been attempted; that of the countries how many such peers have an address there; and that of the
-- latencies how many active peers, attempted or not, have one in the range, where the hundreds of milliseconds, rounded up, choose
-- the range up to a second, and a missing or negative latency counts as more than a second. Active is who is known not to be
-- deprecated, has a client and was active of late. None has an entry for what nothing has.
pub get_client_distribution-count_rows :
    (recent : ℤ → Bool) (ips : String → Option Located) (rows : List Crawled) (k : String)
    → (lookup k (get_client_distribution recent false rows).0
        ≡ shown (
            count_rows
              (λ r.
                is_dialled recent r.attempted r.deprecated r.client_name r.last_activity
                && has_text k r.client_name)
              rows))
      × (lookup k (get_geo_distribution recent ips false rows).0
          ≡ shown (
              count_rows
                (λ r.
                  is_dialled recent r.attempted r.deprecated r.client_name r.last_activity
                  && has_text k (country_of (ips r.ip)))
                rows))
      × (lookup k (get_rtt_distribution recent false rows).0
          ≡ shown (
              count_rows
                (λ r.
                  is_active recent r.deprecated r.client_name r.last_activity
                  && str_eq (range_of r.latency) k)
                rows))
unfolding get_client_distribution get_geo_distribution get_rtt_distribution
get_client_distribution-count_rows recent ips rows k = (
  counted_by k (is_live recent) (λ r. r.client_name) rows
      ∙ ap shown (
          count_rows-same _ _ rows
            (λ r. ap (λ b. b && has_text k r.client_name) (is_live-is_dialled recent r))),
  counted_by k (is_live recent) (λ r. country_of (ips r.ip)) rows
      ∙ ap shown (
          count_rows-same _ _ rows
            (λ r. ap (λ b. b && has_text k (country_of (ips r.ip))) (is_live-is_dialled recent r))),
  counted_by k (is_listed recent) (λ r. some (latency_range r.latency)) rows
      ∙ ap shown (
          count_rows-same _ _ rows (λ r.
            ap (λ b. b && str_eq (latency_range r.latency) k) (is_listed-is_active recent r)
            ∙ ap (λ o. is_active recent r.deprecated r.client_name r.last_activity && str_eq o k)
                (latency_range-range_of r.latency))),
)
