-- ===== src/Peering/Peer/Deprecation.antt =====
-- When a peer is given up: `Deprecable` after the attempts recorded by `ConnEventHandler`.
use armiarma.Base.{◌≡◌, refl, ap, ◌∙◌, List, [], ◌∷◌, arith, str_eq, if◌then◌else◌}
use armiarma.Base.Int.{ℤ, pos, ◌-ℤ◌, leb_ℤ, saturate64-le}
use armiarma.Peering.Delay.Laws.{delay_eq-positive}
use armiarma.Peering.Peer.{PrunedPeer, deprecable, deprecation_time, conn_event_handler}
use armiarma.Peering.Peer.Schedule.{
  Attempt, record_attempt, record_attempts, conn_event_handler_lem,
}

-- The last success of a history, or the given time when there is none.
abbrev pub last_success : ℤ → List Attempt → ℤ
last_success t [] = t
last_success t (a ∷ as') = last_success (if str_eq a.error "none" then a.now' else t) as'

base_deprecation-record_attempts :
    (as' : List Attempt) (p : PrunedPeer)
    → (record_attempts as' p).base_deprecation ≡ last_success p.base_deprecation as'
unfolding record_attempts record_attempt
base_deprecation-record_attempts [] p = refl
base_deprecation-record_attempts (a ∷ as') p =
    let (b, c, i, d, n, r) = conn_event_handler_lem a.now a.now' a.error p in
    base_deprecation-record_attempts as' (conn_event_handler a.now a.now' a.error p)
    ∙ ap (λ t. last_success t as') (rw (r, delay_eq-positive) refl)

-- A peer can be given up exactly when three hours have passed since its last success, or since the deprecation base that it had before
-- these attempts when none of them succeeded. A success is an attempt whose text is "none", the code's NoConnError; another text, "None"
-- among them, is none.
pub deprecable-record_attempts :
    (now : ℤ) (as' : List Attempt) (p : PrunedPeer)
    → deprecable now (record_attempts as' p)
      ≡ leb_ℤ (pos deprecation_time) (now -ℤ last_success p.base_deprecation as')
unfolding deprecable
deprecable-record_attempts now as' p =
    rw base_deprecation-record_attempts (saturate64-le deprecation_time _ (omega arith))
