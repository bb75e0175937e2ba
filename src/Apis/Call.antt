-- ===== src/Apis/Call.antt =====
-- `CallIpApi` of pkg/utils/apis/ip_api.go: one request to the web service. The service is a parameter, which answers a
-- URL, and so is the JSON parser. `F` stands for the floating-point numbers.
pub mod Panics
use armiarma.Base.{
  ℕ, zero, suc, ◌+◌, ◌-◌, ◌*◌, ◌%◌, ◌^◌, min, String, refl, sym, ap, inl, inr, Bool, true, false,
  not, ◌&&◌, Option, none, some, List, [], ◌∷◌, ◌++◌, map, arith, eq_iff, eq_refl, str_eq, ltb, leb,
  ◌==◌, if◌then◌else◌, ltb→lt, lt→ltb, leb→le, ==_iff, Bool-cases, Option-cases, All, length,
  get_elem?, take, drop, length-append, length-take, length-drop, take-append-drop, Dict, lookup,
  insert, delete, lookup-insert, lookup-delete,
}
use armiarma.Base.Int.{ℤ, pos, negsuc, pos_part, neg_part, leb_ℤ, to_int64, ◌+ℤ◌}
use armiarma.Base.Text.{codes}
use armiarma.Base.Decimal.{atoi}

-- `IpApiMsg` of pkg/db/models/ip.go.
pub record IpApiMsg (F : Type 0) : Type 0 where
  pub ip : String
  pub status : String
  pub continent : String
  pub continent_code : String
  pub country : String
  pub country_code : String
  pub region : String
  pub region_name : String
  pub city : String
  pub zip : String
  pub lat : F
  pub lon : F
  pub isp : String
  pub org : String
  pub as_raw : String
  pub as_name : String
  pub mobile : Bool
  pub proxy : Bool
  pub hosting : Bool

unfoldable pub is_empty_msg : {F : Type 0} → IpApiMsg F → Bool
is_empty_msg m = str_eq m.country "" && str_eq m.city ""

pub record IpInfo (F : Type 0) : Type 0 where
  pub msg : IpApiMsg F
  pub expiration_time : ℤ

pub data ApiError : Type 0 where
  too_many_requests unreachable unreadable unparsable unsuccessful : ApiError

pub record ApiResp (F : Type 0) : Type 0 where
  pub ip_info : IpInfo F
  pub delay_time : ℤ
  pub attempts_left : ℤ
  pub err : Option ApiError

-- What `http.Get` gives of a response; `body` is `none` when it cannot be read.
pub record HttpResponse : Type 0 where
  pub status_code : ℕ
  pub header : Dict (List (List ℕ))
  pub body : Option (List ℕ)

-- `resp.Header[key][0]`, `none` when the index is out of range.
unfoldable pub first_header : String → HttpResponse → Option (List ℕ)
first_header key r = elim (lookup key r.header) [
  | none ↦ none
  | some vs ↦ elim vs [ [] ↦ none | v ∷ _ ↦ some v ]
]

-- `time.Duration(n) * time.Second`, an int64 with wrap-around.
abbrev pub second : ℕ
second = 1000000000

unfoldable pub seconds : ℤ → ℤ
seconds n = to_int64 (pos_part n * second + (2 ^ 64 - neg_part n * second % 2 ^ 64))

-- 30 days.
abbrev pub default_ip_ttl : ℕ
default_ip_ttl = 30 * 24 * 3600 * second

-- `ipApiEndpoint` with the address put in.
abbrev pub url_of : String → List ℕ
url_of ip =
    codes "http://ip-api.com/json/"
    ++ (codes ip
        ++ codes
            "?fields=status,continent,continentCode,country,countryCode,region,regionName,city,zip,lat,lon,isp,org,as,asname,mobile,proxy,hosting,query")

module _ {F : Type 0} (zero_f : F) (get : List ℕ → Option HttpResponse)
    (unmarshal : List ℕ → Option (IpApiMsg F)) where
  abbrev pub zero_msg : IpApiMsg F
  zero_msg = record {
    ip = "";
    status = "";
    continent = "";
    continent_code = "";
    country = "";
    country_code = "";
    region = "";
    region_name = "";
    city = "";
    zip = "";
    lat = zero_f;
    lon = zero_f;
    isp = "";
    org = "";
    as_raw = "";
    as_name = "";
    mobile = false;
    proxy = false;
    hosting = false;
  }

  abbrev pub failed_call : ℤ → ℤ → ApiError → ApiResp F
  failed_call delay attempts e = record {
    ip_info = record { msg = zero_msg; expiration_time = pos 0 };
    delay_time = delay;
    attempts_left = attempts;
    err = some e;
  }

  unfoldable pub checked : ℤ → ℤ → ℤ → IpApiMsg F → ApiResp F
  checked now delay attempts m =
      if str_eq m.status "success"
      then record {
        ip_info = record { msg = m; expiration_time = now +ℤ pos default_ip_ttl };
        delay_time = delay;
        attempts_left = attempts;
        err = none;
      }
      else failed_call delay attempts unsuccessful

  -- The body, read and parsed.
  unfoldable pub read_body : ℤ → ℤ → ℤ → Option (List ℕ) → ApiResp F
  read_body now delay attempts none = failed_call delay attempts unreadable
  read_body now delay attempts (some b) = elim (unmarshal b) [
    | none ↦ failed_call delay attempts unparsable
    | some m ↦ checked now delay attempts m
  ]

  -- From the header `X-Rl` on; `none` is a panic.
  abbrev pub read_attempts : ℤ → ℤ → HttpResponse → Option (List ℕ) → Option (ApiResp F)
  read_attempts now time_left r none = none
  read_attempts now time_left r (some v) =
      let attempts = (atoi v).0 in
      some (
        read_body now (if leb_ℤ attempts (pos 0) then seconds time_left else pos 0) attempts r.body)

  -- From the header `X-Ttl` on.
  abbrev pub read_time_left : ℤ → HttpResponse → Option (List ℕ) → Option (ApiResp F)
  read_time_left now r none = none
  read_time_left now r (some v) =
      let time_left = (atoi v).0 in
      if r.status_code == 429
      then some (failed_call (seconds time_left) (pos 0) too_many_requests)
      else read_attempts now time_left r (first_header "X-Rl" r)

  abbrev pub read_response : ℤ → Option HttpResponse → Option (ApiResp F)
  read_response now none = some (failed_call (pos 0) (pos 0) unreachable)
  read_response now (some r) = read_time_left now r (first_header "X-Ttl" r)

  unfoldable pub call_ip_api : ℤ → String → Option (ApiResp F)
  call_ip_api now ip = read_response now (get (url_of ip))
