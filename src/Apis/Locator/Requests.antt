-- ===== src/Apis/Locator/Requests.antt =====
-- How a request for an address ends.
use mathlib.Core.Path.{subst}
use mathlib.Core.List.{append-nil}
use armiarma.Base.{
  ℕ, zero, suc, ◌+◌, ◌*◌, ◌%◌, ◌^◌, ◌<◌, String, ◌≡◌, refl, sym, ap, ◌∙◌, ◌≢◌, inl, inr, true,
  Option, none, some, List, [], ◌∷◌, ◌++◌, arith, Bool-cases, All, length, if_true, if_false,
}
use armiarma.Base.Int.{ℤ, pos, ltb_ℤ, eqb_ℤ, to_int64}
use armiarma.Apis.Call.{
  IpInfo, ApiResp, ApiError, too_many_requests, unreachable, unreadable, unparsable, unsuccessful,
  second,
}
use armiarma.Apis.Locator.{
  IpLocator, Event, idle, calling, backing_off, ticks, responds, step, run, wait, finish, answer,
  respond, tick, call, plus64,
}

-- A delay that leaves the waiting time within an int64.
abbrev pub IsDelay : ℤ → Type 0
IsDelay d = (n : ℕ) × (d ≡ pos n) × (n < 2 ^ 62)

plus64_small : (n k : ℕ) → n < 2 ^ 62 → k < 2 ^ 62 → plus64 (pos n) k ≡ pos (n + k)
unfolding to_int64
plus64_small n k h hk = ground arith

plus64_positive :
    (d : ℤ) (k : ℕ) → IsDelay d → 0 < k → k < 2 ^ 62 → ltb_ℤ (pos 0) (plus64 d k) ≡ true
plus64_positive d k (n, e, h) pk hk = rw (e, plus64_small n k h hk) (ground arith)

-- The int32 counter of the calls after some more.
abbrev pub calls_after : ℕ → ℕ → ℕ
calls_after zero n = n
calls_after (suc k) n = calls_after k ((n + 1) % 2 ^ 32)

module _ {F : Type 0} where
  abbrev pub TooMany : ApiResp F → Type 0
  TooMany r = (r.err ≡ some too_many_requests) × IsDelay r.delay_time

  -- Responses, each followed by the tick that is waited for.
  abbrev pub responses : List (ApiResp F) → List (Event F) → List (Event F)
  responses [] es = es
  responses (r ∷ rs) es = responds (some r) ∷ ticks ∷ responses rs es

  -- What a response gives to the database.
  abbrev pub kept : ApiResp F → Option ApiError → List (IpInfo F)
  kept r none = r.ip_info ∷ []
  kept r (some e) = []

  backs_off :
      (ip : String) (r : ApiResp F) (s : IpLocator F)
      → s.phase ≡ calling ip
      → TooMany r
      → step (responds (some r)) s ≡ record s { phase = backing_off ip r.delay_time }
  unfolding step respond wait
  backs_off ip r s h (e, d) =
      ap (λ p. respond p (some r) s) h
      ∙ ap (λ x. answer ip r x s) e
      ∙ if_true _ _ _ (plus64_positive r.delay_time (5 * second) d (omega arith) (omega arith))

  -- The state after a request.
  pub record IsLocated (ip : String) (infos : List (IpInfo F)) (k : ℕ) (s t : IpLocator F)
      : Type 0 where
    pub at_rest : t.phase ≡ idle
    pub located : t.located ≡ s.located ++ (ip ∷ [])
    pub persisted : t.persisted ≡ s.persisted ++ infos
    pub counted : t.api_calls ≡ calls_after k s.api_calls

  done : String → IpLocator F → IpLocator F
  done ip s = record s { phase = idle; located = s.located ++ (ip ∷ []) }

  done-IsLocated : (ip : String) (s : IpLocator F) → IsLocated ip [] 0 s (done ip s)
  unfolding done
  done-IsLocated ip s = record {
    at_rest = refl;
    located = refl;
    persisted = sym (append-nil s.persisted);
    counted = refl;
  }

  finishes :
      (ip : String) (d : ℤ) (s : IpLocator F) → IsDelay d → step ticks (finish ip d s) ≡ done ip s
  unfolding step finish wait tick done
  finishes ip d s g = elim (Bool-cases (eqb_ℤ d (pos 0))) [
    | inl f ↦ ap (step ticks) (if_true _ _ _ f)
    | inr f ↦ ap (step ticks) (
        if_false _ _ _ f
        ∙ if_true _ _ _ (plus64_positive d (2 * second) g (omega arith) (omega arith)))
  ]

  persisting-IsLocated :
      (ip : String) (i : IpInfo F) (s : IpLocator F)
      → IsLocated ip (i ∷ []) 0 s (done ip (record s { persisted = s.persisted ++ (i ∷ []) }))
  unfolding done
  persisting-IsLocated ip i s = record {
    at_rest = refl;
    located = refl;
    persisted = refl;
    counted = refl;
  }

  answers :
      (ip : String) (r : ApiResp F) (e : Option ApiError) (s : IpLocator F)
      → e ≢ some too_many_requests
      → IsDelay r.delay_time
      → IsLocated ip (kept r e) 0 s (step ticks (answer ip r e s))
  answers ip r none s n d =
      rw (finishes ip r.delay_time (record s { persisted = s.persisted ++ (r.ip_info ∷ []) }) d)
        (persisting-IsLocated ip r.ip_info s)
  answers ip r (some too_many_requests) s n d = absurd (n refl)
  answers ip r (some unreachable) s n d = rw (finishes ip r.delay_time s d) (done-IsLocated ip s)
  answers ip r (some unreadable) s n d = rw (finishes ip r.delay_time s d) (done-IsLocated ip s)
  answers ip r (some unparsable) s n d = rw (finishes ip r.delay_time s d) (done-IsLocated ip s)
  answers ip r (some unsuccessful) s n d = rw (finishes ip r.delay_time s d) (done-IsLocated ip s)

  -- One more call before.
  earlier :
      (ip : String) (infos : List (IpInfo F)) (k : ℕ) (s t : IpLocator F)
      → IsLocated ip infos k
          (record s { phase = calling ip; api_calls = (s.api_calls + 1) % 2 ^ 32 })
          t
      → IsLocated ip infos (suc k) s t
  earlier ip infos k s t h = record {
    at_rest = h.at_rest;
    located = h.located;
    persisted = h.persisted;
    counted = h.counted;
  }

  -- Once a request is under way, any number of responses that too many requests were made, each waited for, and then a response that says
  -- otherwise bring the routine back to rest, if the delay that each of all these responses asks for lies from 0 up to below 2^62 ns: the
  -- address is located, its information is persisted exactly if the last response has no error, and the service was called once
  -- more for each refusal. Nothing is said of negative delays, with which the wait after a refusal can panic.
  pub run-IsLocated :
      (rs : List (ApiResp F)) (ip : String) (r : ApiResp F) (s : IpLocator F)
      → s.phase ≡ calling ip
      → All TooMany rs
      → r.err ≢ some too_many_requests
      → IsDelay r.delay_time
      → IsLocated ip
          (kept r r.err)
          (length rs)
          s
          (run (responses rs (responds (some r) ∷ ticks ∷ [])) s)
  unfolding run respond step tick call
  run-IsLocated [] ip r s h a n d =
      subst (λ p. IsLocated ip (kept r r.err) 0 s (step ticks (respond p (some r) s))) (sym h)
        (answers ip r r.err s n d)
  run-IsLocated (q ∷ rs) ip r s h (a, as') n d =
      let t = record s { phase = calling ip; api_calls = (s.api_calls + 1) % 2 ^ 32 } in
      let es = responses rs (responds (some r) ∷ ticks ∷ []) in
      subst (λ u. IsLocated ip (kept r r.err) (suc (length rs)) s (run es (step ticks u)))
        (sym (backs_off ip q s h a))
        (earlier ip (kept r r.err) (length rs) s (run es t) (run-IsLocated rs ip r t refl as' n d))
