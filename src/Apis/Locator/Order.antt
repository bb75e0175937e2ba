-- ===== src/Apis/Locator/Order.antt =====
-- No address is lost or overtaken on its way from the queue to its request.
use armiarma.Base.Int.{ℤ, pos, ltb_ℤ, eqb_ℤ}
use armiarma.Apis.Call.{
  ApiResp, ApiError, too_many_requests, unreachable, unreadable, unparsable, unsuccessful, second,
}
use armiarma.Base.{
  ◌*◌, String, ◌≡◌, refl, sym, ap, ◌∙◌, inl, inr, not, ◌&&◌, Option, none, some, List, [], ◌∷◌,
  ◌++◌, ltb, leb, Bool-cases, length,
}
use mathlib.Core.List.{append_assoc, append-nil}
use armiarma.Apis.IpQueue.{ip_exists, len, add_item, read_item, is_listed}
use armiarma.Apis.Locator.{
  IpLocator, Event, Phase, step, run, current, wait, try_add, finish, ℤ, ltb_ℤ, calling, pos, idle,
  eqb_ℤ, ApiResp, respond, tick, close, call, receive, send, read_next, locate_ip, plus64, ApiError,
  stopped, take_request, ip_chan_buff_size, Row, second, answer, check_ip_records, resting,
  backing_off, crashed, locates, retries, reads, sends, receives, ticks, closes, responds,
}

module _ {F : Type 0} where
  -- The addresses on their way: located, being located, requested, held and queued.
  abbrev pub pipeline : IpLocator F → List String
  pipeline s =
      s.located ++ (current s.phase ++ (s.location_request ++ (s.held ++ s.ip_queue.ip_list)))

  abbrev pub Extends : IpLocator F → IpLocator F → Type 0
  Extends s t = (ips : List String) × (pipeline t ≡ pipeline s ++ ips)

  Extends-same : (s t : IpLocator F) → pipeline t ≡ pipeline s → Extends s t
  Extends-same s t e = ([], e ∙ sym (append-nil (pipeline s)))

  Extends-refl : (s : IpLocator F) → Extends s s
  Extends-refl s = Extends-same s s refl

  Extends-trans : (s t u : IpLocator F) → Extends s t → Extends t u → Extends s u
  Extends-trans s t u (a, e) (b, f) =
      (a ++ b, f ∙ ap (λ l. l ++ b) e ∙ append_assoc (pipeline s) a b)

  wait-pipeline :
      (d : ℤ) (p : Phase) (s : IpLocator F)
      → current p ≡ current s.phase
      → pipeline (wait d p s) ≡ pipeline s
  unfolding wait
  wait-pipeline d p s h = elim (Bool-cases (ltb_ℤ (pos 0) d)) [
    | inl f ↦ rw (f, h) refl
    | inr f ↦ rw f refl
  ]

  try_add-Extends : (ip : String) (s : IpLocator F) → Extends s (try_add ip s)
  unfolding try_add add_item
  try_add-Extends ip s = elim (Bool-cases (leb s.ip_queue.queue_size (len s.ip_queue))) [
    | inl f ↦ rw f (Extends-refl s)
    | inr f ↦ elim (Bool-cases (is_listed ip s.ip_queue.ip_list)) [
      | inl g ↦ rw (f, g) (Extends-refl s)
      | inr g ↦ rw (f, g) (ip ∷ [], simp append_assoc)
    ]
  ]

  -- The address that was located joins those whose requests have ended.
  done-pipeline :
      (ip : String) (s : IpLocator F)
      → s.phase ≡ calling ip
      → pipeline (record s { phase = idle; located = s.located ++ (ip ∷ []) }) ≡ pipeline s
  done-pipeline ip s h =
      append_assoc s.located (ip ∷ []) (s.location_request ++ (s.held ++ s.ip_queue.ip_list))
      ∙ ap (λ p. s.located ++ (current p ++ (s.location_request ++ (s.held ++ s.ip_queue.ip_list))))
          (sym h)

  finish-pipeline :
      (ip : String) (d : ℤ) (s : IpLocator F)
      → s.phase ≡ calling ip
      → pipeline (finish ip d s) ≡ pipeline s
  unfolding finish
  finish-pipeline ip d s h = elim (Bool-cases (eqb_ℤ d (pos 0))) [
    | inl f ↦ rw f (done-pipeline ip s h)
    | inr f ↦ rw f (
        wait-pipeline (plus64 d (2 * second)) (resting d)
          (record s { phase = idle; located = s.located ++ (ip ∷ []) }) refl
        ∙ done-pipeline ip s h)
  ]

  answer-pipeline :
      (ip : String) (r : ApiResp F) (e : Option ApiError) (s : IpLocator F)
      → s.phase ≡ calling ip
      → pipeline (answer ip r e s) ≡ pipeline s
  answer-pipeline ip r none s h =
      finish-pipeline ip r.delay_time (record s { persisted = s.persisted ++ (r.ip_info ∷ []) }) h
  answer-pipeline ip r (some too_many_requests) s h =
      wait-pipeline (plus64 r.delay_time (5 * second)) (backing_off ip r.delay_time) s (rw h refl)
  answer-pipeline ip r (some unreachable) s h = finish-pipeline ip r.delay_time s h
  answer-pipeline ip r (some unreadable) s h = finish-pipeline ip r.delay_time s h
  answer-pipeline ip r (some unparsable) s h = finish-pipeline ip r.delay_time s h
  answer-pipeline ip r (some unsuccessful) s h = finish-pipeline ip r.delay_time s h

  respond-pipeline :
      (p : Phase) (r : Option (ApiResp F)) (s : IpLocator F)
      → s.phase ≡ p
      → pipeline (respond p r s) ≡ pipeline s
  unfolding respond
  respond-pipeline (calling ip) none s h = refl
  respond-pipeline (calling ip) (some r) s h = answer-pipeline ip r r.err s h
  respond-pipeline idle r s h = refl
  respond-pipeline (backing_off ip d) r s h = refl
  respond-pipeline (resting d) r s h = refl
  respond-pipeline (stopped ips) r s h = refl
  respond-pipeline (crashed ips) r s h = refl

  -- A change of the phase that keeps the address.
  phase-pipeline :
      (p : Phase) (s : IpLocator F)
      → current p ≡ current s.phase
      → pipeline (record s { phase = p }) ≡ pipeline s
  phase-pipeline p s h =
      ap (λ c. s.located ++ (c ++ (s.location_request ++ (s.held ++ s.ip_queue.ip_list)))) h

  tick-pipeline : (p : Phase) (s : IpLocator F) → s.phase ≡ p → pipeline (tick p s) ≡ pipeline s
  unfolding tick call
  tick-pipeline (backing_off ip d) s h = phase-pipeline (calling ip) s (rw h refl)
  tick-pipeline (resting d) s h = phase-pipeline idle s (rw h refl)
  tick-pipeline idle s h = refl
  tick-pipeline (calling ip) s h = refl
  tick-pipeline (stopped ips) s h = refl
  tick-pipeline (crashed ips) s h = refl

  close-pipeline : (p : Phase) (s : IpLocator F) → s.phase ≡ p → pipeline (close p s) ≡ pipeline s
  unfolding close
  close-pipeline idle s h = phase-pipeline (stopped []) s (rw h refl)
  close-pipeline (calling ip) s h = phase-pipeline (stopped (ip ∷ [])) s (rw h refl)
  close-pipeline (backing_off ip d) s h = phase-pipeline (stopped (ip ∷ [])) s (rw h refl)
  close-pipeline (resting d) s h = phase-pipeline (stopped []) s (rw h refl)
  close-pipeline (stopped ips) s h = refl
  close-pipeline (crashed ips) s h = refl

  take-pipeline :
      (ips : List String) (s : IpLocator F)
      → s.phase ≡ idle
      → s.location_request ≡ ips
      → pipeline (take_request ips s) ≡ pipeline s
  unfolding call
  take-pipeline [] s h e = refl
  take-pipeline (ip ∷ ips) s h e = rw (h, e) refl

  receive-pipeline :
      (p : Phase) (s : IpLocator F) → s.phase ≡ p → pipeline (receive p s) ≡ pipeline s
  unfolding receive
  receive-pipeline idle s h = take-pipeline s.location_request s h refl
  receive-pipeline (calling ip) s h = refl
  receive-pipeline (backing_off ip d) s h = refl
  receive-pipeline (resting d) s h = refl
  receive-pipeline (stopped ips) s h = refl
  receive-pipeline (crashed ips) s h = refl

  send-pipeline :
      (ips : List String) (s : IpLocator F) → s.held ≡ ips → pipeline (send ips s) ≡ pipeline s
  unfolding send
  send-pipeline [] s h = refl
  send-pipeline (ip ∷ ips) s h = elim (Bool-cases s.closed) [
    | inl f ↦ rw f refl
    | inr f ↦ elim (Bool-cases (ltb (length s.location_request) ip_chan_buff_size)) [
      | inl g ↦ rw (f, g, h) (simp append_assoc)
      | inr g ↦ rw (f, g) refl
    ]
  ]

  read_next-pipeline :
      (ips xs : List String) (s : IpLocator F)
      → s.held ≡ ips
      → s.ip_queue.ip_list ≡ xs
      → pipeline (read_next ips s) ≡ pipeline s
  unfolding read_next read_item
  read_next-pipeline (ip ∷ ips) xs s h e = refl
  read_next-pipeline [] [] s h e = rw (e, read_item) refl
  read_next-pipeline [] (x ∷ xs) s h e = rw (h, e, read_item) refl

  locate_ip-Extends :
      (now : ℤ) (ip : String) (r : Row) (s : IpLocator F) → Extends s (locate_ip now ip r s)
  unfolding locate_ip
  locate_ip-Extends now ip r s = elim (Bool-cases (ip_exists ip s.ip_queue)) [
    | inl f ↦ rw f (Extends-refl s)
    | inr f ↦
        let c = check_ip_records now ip r in
        elim (Bool-cases (c.0 && not c.1)) [
          | inl g ↦ rw (f, g) (Extends-refl s)
          | inr g ↦ rw (f, g) (try_add-Extends ip s)
        ]
  ]

  step-Extends : (e : Event F) (s : IpLocator F) → Extends s (step e s)
  unfolding step
  step-Extends (locates now ip r) s = locate_ip-Extends now ip r s
  step-Extends (retries ip) s = try_add-Extends ip s
  step-Extends reads s =
      Extends-same s (read_next s.held s) (read_next-pipeline s.held s.ip_queue.ip_list s refl refl)
  step-Extends sends s = Extends-same s (send s.held s) (send-pipeline s.held s refl)
  step-Extends receives s = Extends-same s (receive s.phase s) (receive-pipeline s.phase s refl)
  step-Extends (responds r) s =
      Extends-same s (respond s.phase r s) (respond-pipeline s.phase r s refl)
  step-Extends ticks s = Extends-same s (tick s.phase s) (tick-pipeline s.phase s refl)
  step-Extends closes s = Extends-same s (close s.phase s) (close-pipeline s.phase s refl)

  -- Whatever the routines do in whatever order, and whatever the clock, the database and the web service answer: the
  -- addresses that were located, are being located, requested, held or queued stay on their way in their order, and others
  -- only join behind them.
  pub run-Extends : (es : List (Event F)) (s : IpLocator F) → Extends s (run es s)
  unfolding run
  run-Extends [] s = Extends-refl s
  run-Extends (e ∷ es) s =
      Extends-trans s (step e s) (run es (step e s)) (step-Extends e s) (run-Extends es (step e s))
