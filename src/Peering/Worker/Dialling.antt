-- ===== src/Peering/Worker/Dialling.antt =====
-- The attempt that a worker reports matches what the dials answered.
use armiarma.Base.{
  ℕ, zero, suc, ◌+◌, ◌≤◌, ◌<◌, String, ◌≡◌, refl, sym, ap, ◌∙◌, ◌≢◌, ◌↔◌, ◌⊎◌, inl, inr, false,
  Option, none, some, List, [], ◌∷◌, arith, eq_iff, str_eq, Bool-cases, Option-cases, All,
}
use native.Mathlib.Decide.{dec_lt}
use armiarma.Base.Int.{ℤ}
use armiarma.Hosts.ConnErrors.{ConnError, Known, parse_con_error, find_known, error_text}
use armiarma.Base.Text.{contains}
use armiarma.Hosts.ConnErrors.Classes.{parse_con_error-find_known}
use armiarma.Models.ConnAttempt.{
  positive_attempt, negative_attempt, ConnectionAttempt, new_conn_attempt,
}
use armiarma.Peering.Delay.{error_to_delay_type, positive}
use armiarma.Peering.Delay.Laws.{error_to_delay_type-positive_iff}
use armiarma.Peering.Iterator.{HostInfo}
use armiarma.Peering.Worker.{Outcome, dial_loop, dial, work, is_connected, max_retries}

abbrev pub success : Outcome
success = record { status = positive_attempt; error = "none" }

module _ {E : Type 0} (parse : E → String) (dials : ℕ → Option E) where
  -- The error of the last of some dials, or the given one when there is none.
  abbrev LastError : ℕ → ℕ → Outcome → Outcome → Type 0
  LastError zero first o r = r.error ≡ o.error
  LastError (suc n) first o r = (e : E) × (dials (first + n) ≡ some e) × (r.error ≡ parse e)

  LastError-suc :
      (left first : ℕ) (o r : Outcome) (e : E)
      → dials first ≡ some e
      → LastError left (first + 1) (record o { error = parse e }) r
      → LastError (suc left) first o r
  LastError-suc zero first o r e h l =
      let n : first + 0 ≡ first = omega arith in (e, ap dials n ∙ h, l)
  LastError-suc (suc k) first o r e h (e', h', l) =
      let n : first + suc k ≡ first + 1 + k = omega arith in (e', ap dials n ∙ h', l)

  -- What the loop returns: the first success among its dials, or a failure when all of them fail.
  abbrev Dialled : ℕ → ℕ → Outcome → Outcome → Type 0
  Dialled left first o r =
      ((r ≡ success) × ((i : ℕ) × (first ≤ i) × (i < first + left) × (dials i ≡ none)))
      ⊎ ((r.status ≡ negative_attempt)
          × ((i : ℕ) → first ≤ i → i < first + left → dials i ≢ none)
          × LastError left first o r)

  later :
      (left first : ℕ) (o : Outcome) (e : E)
      → dials first ≡ some e
      → (r : Outcome) → Dialled left (first + 1) (record o { error = parse e }) r
      → Dialled (suc left) first o r
  later left first o e h r (inl (s, (i, a, b, n))) = inl (s, (i, omega arith, omega arith, n))
  later left first o e h r (inr (s, f, l)) =
      inr (s, (λ i a b. at i a b (dec_lt first i)), LastError-suc left first o r e h l)
    where
      at : (i : ℕ) → first ≤ i → i < first + suc left → Dec (first < i) → dials i ≢ none
      at i a b (yes p) = f i (omega arith) (omega arith)
      at i a b (no p) = λ n. let same : i ≡ first = omega arith in cc (h, ap dials same, n)

  dial_loop_lem :
      (left first : ℕ) (o : Outcome)
      → o.status ≡ negative_attempt
      → Dialled left first o (dial_loop parse dials left first o)
  unfolding dial_loop
  dial_loop_lem zero first o h = inr (h, (λ i a b. absurd (omega arith)), refl)
  dial_loop_lem (suc left) first o h = elim (Option-cases (dials first)) [
    | inl n ↦ rw (n, dial_loop) (inl (refl, (first, omega arith, omega arith, n)))
    | inr (e, n) ↦
        rw (n, dial_loop)
          (later left first o e n
            (dial_loop parse dials left (first + 1) (record o { error = parse e }))
            (dial_loop_lem left (first + 1) (record o { error = parse e }) h))
  ]

  -- With one or more retries a worker reports a success exactly when one of its dials succeeds, with the error text "none";
  -- else it reports a failure with the parsed error of its last dial.
  pub dial_lem :
      (k : ℕ)
      → ((dial parse dials (suc k) ≡ success) × ((i : ℕ) × (i < suc k) × (dials i ≡ none)))
        ⊎ (((dial parse dials (suc k)).status ≡ negative_attempt)
            × ((i : ℕ) → i < suc k → dials i ≢ none)
            × ((e : E) × (dials k ≡ some e) × ((dial parse dials (suc k)).error ≡ parse e)))
  unfolding dial
  dial_lem k =
      let z : (n : ℕ) → 0 + n ≡ n = λ n. omega arith in
      elim (dial_loop_lem (suc k) 0 (record { status = negative_attempt; error = "" }) refl) [
        | inl (s, (i, a, b, n)) ↦ inl (s, (i, omega arith, n))
        | inr (s, f, (e, n, l)) ↦
            inr (s, (λ i a. f i (omega arith) (omega arith)), (e, ap dials (sym (z k)) ∙ n, l))
      ]

-- No class of the known errors is the text of a success.
abbrev pub NoneIsFree : Known → Type 0
NoneIsFree order = All (λ e. str_eq e.0 "none" ≡ false) order

find_known-ne-none :
    (order : Known) (text : List ℕ)
    → NoneIsFree order
    → str_eq (find_known order text) "none" ≡ false
unfolding find_known
find_known-ne-none [] text h = refl
find_known-ne-none ((k, sub) ∷ m) text h = elim (Bool-cases (contains text sub)) [
  | inl e ↦ rw e h.0
  | inr e ↦ rw e (find_known-ne-none m text h.1)
]

-- The worker dials every peer that the host is not connected to, and reports its id. The attempt is of the
-- successful class for the strategy exactly when the dial succeeded, when no class of the known
-- errors is the text of a success.
pub work_lem :
    (now : ℤ) (connected : List String) (h : HostInfo) (order : Known)
    (dials : ℕ → Option ConnError)
    → NoneIsFree order
    → is_connected connected h.id ≡ false
    → (a : ConnectionAttempt) × (work (parse_con_error order) dials now connected h ≡ some a)
      × (a.remote_peer ≡ h.id)
      × (a.is_deprecable ≡ false)
      × ((error_to_delay_type a.error ≡ positive) ↔ (dials 0 ≡ none))
unfolding work new_conn_attempt
work_lem now connected h order dials free n =
    let o = dial (parse_con_error order) dials max_retries in
    (
      new_conn_attempt now h.id o.status o.error false false,
      rw n refl,
      refl,
      refl,
      class_iff (dial_lem (parse_con_error order) dials 0),
    )
  where
    class_iff :
        ((dial (parse_con_error order) dials 1 ≡ success) × ((i : ℕ) × (i < 1) × (dials i ≡ none)))
          ⊎ (((dial (parse_con_error order) dials 1).status ≡ negative_attempt)
              × ((i : ℕ) → i < 1 → dials i ≢ none)
              × ((e : ConnError) × (dials 0 ≡ some e)
                  × ((dial (parse_con_error order) dials 1).error ≡ parse_con_error order e)))
        → (error_to_delay_type (dial (parse_con_error order) dials 1).error ≡ positive)
          ↔ (dials 0 ≡ none)
    class_iff (inl (s, (i, b, z))) =
        let zero_i : i ≡ 0 = omega arith in
        (
          λ _. ap dials (sym zero_i) ∙ z,
          λ _.
              (error_to_delay_type-positive_iff (dial (parse_con_error order) dials 1).error).1
                (ap (λ x. x.error) s),
        )
    class_iff (inr (s, f, (e, z, l))) = (
      λ c. absurd (
          ground (
            arith,
            error_to_delay_type-positive_iff (dial (parse_con_error order) dials 1).error,
            l,
            c,
            parse_con_error-find_known order e,
            find_known-ne-none order (error_text e) free,
            eq_iff (parse_con_error order e) "none",
          )),
      λ c. absurd (f 0 (omega arith) c),
    )
