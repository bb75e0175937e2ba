-- ===== src/Hosts/Notify/Errors.antt =====
-- The error that a notice of a connection carries.
use mathlib.Core.Bool.{true≢false}
use mathlib.Core.Path.{subst}
use armiarma.Base.{
  ℕ, String, ◌≡◌, refl, sym, ap, ◌∙◌, ◌≢◌, ◌↔◌, inl, inr, true, not, Option, none, some, List,
  Bool-cases, if_true, if_false,
}
use armiarma.Base.Int.{ℤ}
use armiarma.Utils.Addresses.{Ip}
use armiarma.Utils.UserAgent.{NetworkType}
use armiarma.Models.HostInfo.{HostInfo}
use armiarma.Hosts.Notify.{
  Identify, Conn, req_host_info, fill_host_info, standard_connect_f, agent_error,
}

-- The identification succeeded with a user agent.
abbrev pub IsKnown : Identify → Type 0
IsKnown i = (i.supported ≡ true) × (i.enabled ≡ true) × (i.rtt ≢ none) × (i.agent_version ≢ none)

-- An error text that is that of a success exactly if the condition holds, and never empty.
abbrev pub Tells : String → Type 0 → Type 0
Tells error P = ((error ≡ "None") ↔ P) × (error ≢ "")

agent_error-Tells : (o : Option String) → Tells (agent_error o) (o ≢ none)
agent_error-Tells none = ((λ f. cc, λ f. absurd (f refl)), λ f. cc)
agent_error-Tells (some ua) = ((λ f g. cc, λ f. refl), λ f. cc)

fill_host_info-Tells :
    {Attr : Type 0} (peer : String) (i : Identify) (rtt : Option ℤ) (h : HostInfo Attr)
    → Tells (fill_host_info peer i rtt h).1 ((rtt ≢ none) × (i.agent_version ≢ none))
fill_host_info-Tells peer i none h = ((λ f. cc, λ (f, g). absurd (f refl)), λ f. cc)
fill_host_info-Tells peer i (some rtt) h =
    let ((to, from), ne) = agent_error-Tells i.agent_version in
    ((λ f. (λ g. cc, to f), λ (f, g). from g), ne)

req_host_info-Tells :
    {Attr : Type 0} (peer : String) (i : Identify) (h : HostInfo Attr)
    → Tells (req_host_info peer i h).1 (IsKnown i)
unfolding req_host_info
req_host_info-Tells {Attr} peer i h =
    let P = λ (r : HostInfo Attr × String). Tells r.1 (IsKnown i) in
    elim (Bool-cases i.supported) [
      | inr f ↦
          subst P (sym (if_true _ _ _ (ap not f)))
            ((λ e. cc, λ (s, _, _, _). absurd (true≢false (sym s ∙ f))), λ e. cc)
      | inl f ↦ elim (Bool-cases i.enabled) [
        | inr g ↦
            subst P (sym (if_false _ _ _ (ap not f) ∙ if_true _ _ _ (ap not g)))
              ((λ e. cc, λ (_, s, _, _). absurd (true≢false (sym s ∙ g))), λ e. cc)
        | inl g ↦
            let ((to, from), ne) = fill_host_info-Tells peer i i.rtt h in
            subst P (sym (if_false _ _ _ (ap not f) ∙ if_false _ _ _ (ap not g)))
              ((λ e. let (r, a) = to e in (f, g, r, a), λ (_, _, r, a). from (r, a)), ne)
      ]
    ]

-- The event of a connection carries the error text "None" exactly if the host has the identification service, it is enabled
-- and in time, and the peerstore has the peer's user agent; and no connection, not even one with a peer that was
-- identified, carries an empty error.
pub standard_connect_f-Tells :
    {Attr : Type 0} (parse_ipv6 : List ℕ → Ip) (print_ipv6 : List ℕ → List ℕ) (zero_time t : ℤ)
    (network : NetworkType) (conn : Conn) (i : Identify) (status metadata : Option Attr)
    → Tells
        (standard_connect_f parse_ipv6 print_ipv6 zero_time t network conn i status
          metadata).event.error
        (IsKnown i)
unfolding standard_connect_f
standard_connect_f-Tells p q z t network conn i status metadata =
    req_host_info-Tells conn.remote_peer i _
