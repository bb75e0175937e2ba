-- ===== src/Apis/Call/Panics.antt =====
-- When a request to the web service panics.
use armiarma.Base.Decimal.{atoi}
use mathlib.Core.Path.{subst}
use mathlib.Core.Option.{some-injective, none-ne-some}
use armiarma.Base.{
  ℕ, String, ◌≡◌, refl, sym, ◌≢◌, ◌↔◌, ◌⊎◌, inl, inr, Option, none, some, List, arith, ◌==◌,
  Bool-cases,
}
use armiarma.Base.Int.{ℤ}
use armiarma.Apis.Call.{
  HttpResponse, IpApiMsg, first_header, read_response, read_attempts, call_ip_api, url_of,
  read_time_left,
}

-- No value of the header is there to index.
abbrev pub IsMissing : String → HttpResponse → Type 0
IsMissing key r = first_header key r ≡ none

abbrev pub LacksHeader : HttpResponse → Type 0
LacksHeader r = IsMissing "X-Ttl" r ⊎ ((r.status_code ≢ 429) × IsMissing "X-Rl" r)

module _ {F : Type 0} (zero_f : F) (get : List ℕ → Option HttpResponse)
    (unmarshal : List ℕ → Option (IpApiMsg F)) where
  attempts_panics :
      (now left : ℤ) (r : HttpResponse) (o : Option (List ℕ))
      → (read_attempts zero_f get unmarshal now left r o ≡ none) ↔ (o ≡ none)
  attempts_panics now left r none = (λ _. refl, λ _. refl)
  attempts_panics now left r (some v) = (λ h. cc, λ h. cc)

  time_left_panics :
      (now : ℤ) (r : HttpResponse) (o : Option (List ℕ))
      → (read_time_left zero_f get unmarshal now r o ≡ none)
        ↔ ((o ≡ none) ⊎ ((r.status_code ≢ 429) × IsMissing "X-Rl" r))
  time_left_panics now r none = (λ _. inl refl, λ _. refl)
  time_left_panics now r (some v) = elim (Bool-cases (r.status_code == 429)) [
    | inl f ↦ (λ h. ground arith, λ h. ground arith)
    | inr f ↦ rw f (
        let iff = attempts_panics now (atoi v).0 r (first_header "X-Rl" r) in
        (
          λ h. inr ((λ e. ground arith), iff.0 h),
          λ h. elim h [ inl e ↦ absurd (none-ne-some v (sym e)) | inr p ↦ iff.1 p.1 ],
        ))
  ]

  response_panics :
      (now : ℤ) (o : Option HttpResponse)
      → (read_response zero_f get unmarshal now o ≡ none)
        ↔ ((r : HttpResponse) × (o ≡ some r) × LacksHeader r)
  response_panics now none = (λ h. cc, λ (r, e, l). cc)
  response_panics now (some r) =
      let iff = time_left_panics now r (first_header "X-Ttl" r) in
      (
        λ h. (r, refl, iff.0 h),
        λ (s, e, l). iff.1 (subst LacksHeader (sym (some-injective r s e)) l),
      )

  -- A request to the web service panics exactly if there is a response, and it has no header X-Ttl, or it has another
  -- status than 429 and no header X-Rl.
  pub call_ip_api-panics :
      (now : ℤ) (ip : String)
      → (call_ip_api zero_f get unmarshal now ip ≡ none)
        ↔ ((r : HttpResponse) × (get (url_of ip) ≡ some r) × LacksHeader r)
  unfolding call_ip_api
  call_ip_api-panics now ip = response_panics now (get (url_of ip))
