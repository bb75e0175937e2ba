-- ===== src/Db/Distributions.antt =====
-- pkg/db/postgresql/crawler_metrics.go: what the queries of the metrics make of the rows of `peer_info`, and the loops that read their
-- answers. A row is the columns that the queries look at; `none` is `NULL`. Whether a time lies in the last six months is an
-- argument, and so is the row of `ips` of an address. A query that fails is an argument too.
mod Counts
mod Latencies
mod Tests
use armiarma.Base.{
  ℕ, zero, suc, ◌+◌, String, Bool, true, false, not, ◌&&◌, Option, none, some, List, [], ◌∷◌,
  if◌then◌else◌, Dict, insert,
}
use armiarma.Base.Int.{ℤ, pos, leb_ℤ}
use armiarma.Groups.{groups, order_by_count}

pub record Crawled : Type 0 where
  pub client_name : Option String
  pub deprecated : Option Bool
  pub attempted : Option Bool
  pub last_activity : Option ℤ
  pub latency : Option ℤ
  pub ip : String

-- The columns of `ips` that the queries look at.
pub record Located : Type 0 where
  pub country_code : String
  pub mobile : Bool
  pub proxy : Bool
  pub hosting : Bool

-- A comparison with `NULL` does not hold.
abbrev pub is_true : Option Bool → Bool
is_true none = false
is_true (some b) = b

abbrev pub is_false : Option Bool → Bool
is_false none = false
is_false (some b) = not b

abbrev pub is_at : (ℤ → Bool) → Option ℤ → Bool
is_at recent none = false
is_at recent (some t) = recent t

abbrev pub is_known : Option String → Bool
is_known none = false
is_known (some s) = true

-- The keys of the rows that have one.
unfoldable pub keys_by : (Crawled → Option String) → List Crawled → List String
keys_by key [] = []
keys_by key (r ∷ rs) = elim (key r) [ none ↦ keys_by key rs | some k ↦ k ∷ keys_by key rs ]

unfoldable pub count_rows : (Crawled → Bool) → List Crawled → ℕ
count_rows p [] = 0
count_rows p (r ∷ rs) = (if p r then 1 else 0) + count_rows p rs

-- `for rows.Next()`; the columns are of the types that are scanned.
unfoldable pub read_counts : Dict ℕ → Dict ℕ → Dict ℕ
read_counts [] summary = summary
read_counts ((k, n) ∷ rows) summary = read_counts rows (insert k n summary)

abbrev pub answered : Bool → Dict ℕ → Dict ℕ × Bool
answered fails rows = if fails then ([], false) else (read_counts rows [], true)

abbrev pub is_between : ℕ → ℕ → ℤ → Bool
is_between a b l = leb_ℤ (pos a) l && leb_ℤ l (pos b)

-- The case of the latency, in milliseconds.
unfoldable pub latency_range : Option ℤ → String
latency_range none = "+1s"
latency_range (some l) =
    if is_between 0 100 l
    then " 0-100ms"
    else if is_between 101 200 l
    then "101-200ms"
    else if is_between 201 300 l
    then "201-300ms"
    else if is_between 301 400 l
    then "301-400ms"
    else if is_between 401 500 l
    then "401-500ms"
    else if is_between 501 600 l
    then "501-600ms"
    else if is_between 601 700 l
    then "601-700ms"
    else if is_between 701 800 l
    then "701-800ms"
    else if is_between 801 900 l
    then "801-900ms"
    else if is_between 901 1000 l
    then "901-1000ms"
    else "+1s"

-- The key of a row that a `WHERE` lets pass.
abbrev pub only : Bool → Option String → Option String
only b key = if b then key else none

abbrev pub country_of : Option Located → Option String
country_of none = none
country_of (some l) = some l.country_code

abbrev pub has_flag : (Located → Bool) → Option Located → Bool
has_flag flag none = false
has_flag flag (some l) = flag l

module _ (recent : ℤ → Bool) where
  -- The peers of a distribution of latencies; the others ask for a peer that was attempted, too.
  unfoldable pub is_listed : Crawled → Bool
  is_listed r = is_false r.deprecated && is_known r.client_name && is_at recent r.last_activity

  unfoldable pub is_live : Crawled → Bool
  is_live r =
      is_false r.deprecated
      && is_true r.attempted
      && is_known r.client_name
      && is_at recent r.last_activity

  unfoldable pub get_client_distribution : Bool → List Crawled → Dict ℕ × Bool
  get_client_distribution fails rows =
      answered fails
        (order_by_count (groups (keys_by (λ r. only (is_live r) r.client_name) rows) []))

  unfoldable pub get_geo_distribution :
      (String → Option Located) → Bool → List Crawled → Dict ℕ × Bool
  get_geo_distribution ips fails rows =
      answered fails
        (order_by_count (groups (keys_by (λ r. only (is_live r) (country_of (ips r.ip))) rows) []))

  unfoldable pub get_rtt_distribution : Bool → List Crawled → Dict ℕ × Bool
  get_rtt_distribution fails rows = answered fails (
      order_by_count
        (groups (keys_by (λ r. only (is_listed r) (some (latency_range r.latency))) rows) []))

  abbrev pub count_flag : (String → Option Located) → (Located → Bool) → List Crawled → ℕ
  count_flag ips flag rows = count_rows (λ r. is_live r && has_flag flag (ips r.ip)) rows

  -- Three queries one after another, each of which may fail.
  unfoldable pub get_hosting_distribution :
      (String → Option Located) → Bool × Bool × Bool → List Crawled → Dict ℕ × Bool
  get_hosting_distribution ips (mobile_fails, proxy_fails, hosting_fails) rows =
      let summary1 = insert "mobile_ips" (count_flag ips (λ l. l.mobile) rows) [] in
      let summary2 = insert "under_proxy" (count_flag ips (λ l. l.proxy) rows) summary1 in
      let summary3 = insert "hosted_ips" (count_flag ips (λ l. l.hosting) rows) summary2 in
      if mobile_fails
      then ([], false)
      else if proxy_fails
      then (summary1, false)
      else if hosting_fails
      then (summary2, false)
      else (summary3, true)
