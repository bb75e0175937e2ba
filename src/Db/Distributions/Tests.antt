-- ===== src/Db/Distributions/Tests.antt =====
-- The distributions of three peers.
use armiarma.Base.{
  String, ◌≡◌, refl, Bool, true, false, ◌&&◌, Option, none, some, List, [], ◌∷◌, str_eq, lookup,
  insert,
}
use armiarma.Base.Int.{ℤ, pos}
use armiarma.Groups.{shown, groups, order_by_count, place}
use armiarma.Db.Distributions.{
  Crawled, Located, is_live, country_of, keys_by, count_rows, read_counts, get_client_distribution,
  get_geo_distribution, get_rtt_distribution,
}
use armiarma.Db.Distributions.Latencies.{range_of}
use armiarma.Db.Distributions.Counts.{
  has_text, is_active, is_dialled, get_client_distribution-count_rows,
}

abbrev peer_of : String → Bool → Crawled
peer_of client deprecated = record {
  client_name = some client;
  deprecated = some deprecated;
  attempted = some true;
  last_activity = some (pos 9);
  latency = some (pos 250);
  ip = "1.1.1.1";
}

abbrev peers : List Crawled
peers =
    peer_of "teku" false
    ∷ peer_of "prysm" false
    ∷ peer_of "teku" true
    ∷ peer_of "prysm" false
    ∷ record (peer_of "grandine" false) { attempted = none }
    ∷ []

abbrev always : ℤ → Bool
always t = true

abbrev in_spain : String → Option Located
in_spain ip = some (record { country_code = "ES"; mobile = false; proxy = false; hosting = true })

clients : get_client_distribution always false peers ≡ (("prysm", 2) ∷ ("teku", 1) ∷ [], true)
unfolding get_client_distribution is_live keys_by groups order_by_count place read_counts lookup
    insert
clients = refl

get_client_distribution-count_rows_example :
    (lookup "prysm" (get_client_distribution always false peers).0
      ≡ shown (
          count_rows
            (λ r.
              is_dialled always r.attempted r.deprecated r.client_name r.last_activity
              && has_text "prysm" r.client_name)
            peers))
    × (lookup "prysm" (get_geo_distribution always in_spain false peers).0
        ≡ shown (
            count_rows
              (λ r.
                is_dialled always r.attempted r.deprecated r.client_name r.last_activity
                && has_text "prysm" (country_of (in_spain r.ip)))
              peers))
    × (lookup "prysm" (get_rtt_distribution always false peers).0
        ≡ shown (
            count_rows
              (λ r.
                is_active always r.deprecated r.client_name r.last_activity
                && str_eq (range_of r.latency) "prysm")
              peers))
get_client_distribution-count_rows_example =
    get_client_distribution-count_rows always in_spain peers "prysm"
