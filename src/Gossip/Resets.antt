-- ===== src/Gossip/Resets.antt =====
-- What asking for the total of the messages does to the counters.
use armiarma.Base.{
  ◌≡◌, refl, sym, ◌∙◌, ap, inl, inr, Bool, true, false, ◌||◌, Option, none, some, String, List, [],
  ◌∷◌, arith, eq_iff, str_eq, lookup, lookup-insert, if◌then◌else◌, Bool-cases, Option-cases,
}
use armiarma.Base.Int.{ℤ, pos, negsuc, ◌+ℤ◌, ltb_ℤ}
use armiarma.Gossip.Counters.{
  MessageMetrics, keys_of, reset_topic, get_topic_msgs, total_loop, get_total_messages,
}

-- A counter that is reset, where there is one.
abbrev pub reset : Option ℤ → Option ℤ
reset none = none
reset (some n) = some (pos 0)

missing :
    (j k : String) (m : MessageMetrics)
    → lookup k m ≡ none
    → lookup j m ≡ (if str_eq k j then reset (lookup j m) else lookup j m)
missing j k m e = elim (Bool-cases (str_eq k j)) [
  | inl same ↦ let e' : lookup j m ≡ none = rw (← (eq_iff k j).0 same) e in rw (same, e') refl
  | inr other ↦ rw other refl
]

present :
    (j k : String) (m : MessageMetrics) (n : ℤ)
    → lookup k m ≡ some n
    → (if str_eq k j then some (pos 0) else lookup j m)
      ≡ (if str_eq k j then reset (lookup j m) else lookup j m)
present j k m n e = elim (Bool-cases (str_eq k j)) [
  | inl same ↦ let e' : lookup j m ≡ some n = rw (← (eq_iff k j).0 same) e in rw (same, e') refl
  | inr other ↦ rw other refl
]

two_resets :
    (a b : Bool) (o : Option ℤ)
    → (if b then reset (if a then reset o else o) else (if a then reset o else o))
      ≡ (if a || b then reset o else o)
two_resets true true none = refl
two_resets true true (some n) = refl
two_resets true false o = refl
two_resets false true o = refl
two_resets false false o = refl

is_key : String → List String → Bool
is_key j [] = false
is_key j (k ∷ keys) = str_eq k j || is_key j keys

lookup-reset_topic :
    (j k : String) (m : MessageMetrics)
    → lookup j (reset_topic k m).1 ≡ (if str_eq k j then reset (lookup j m) else lookup j m)
unfolding reset_topic
lookup-reset_topic j k m = elim (Option-cases (lookup k m)) [
  | inl e ↦ rw (e, reset_topic) (missing j k m e)
  | inr (n, e) ↦ rw (e, reset_topic) (lookup-insert k j (pos 0) m ∙ present j k m n e)
]

lookup-total_loop :
    (j : String) (keys : List String) (total : ℤ) (m : MessageMetrics)
    → lookup j (total_loop keys total m).1
      ≡ (if is_key j keys then reset (lookup j m) else lookup j m)
unfolding total_loop is_key
lookup-total_loop j [] total m = refl
lookup-total_loop j (k ∷ keys) total m =
    let (r, m') = reset_topic k m in
    lookup-total_loop j keys (if ltb_ℤ r (pos 0) then total else total +ℤ r) m'
    ∙ rw (lookup-reset_topic j k m) (two_resets (str_eq k j) (is_key j keys) (lookup j m))

lookup-is_key : (j : String) (m : MessageMetrics) → is_key j (keys_of m) ≡ false → lookup j m ≡ none
unfolding is_key lookup
lookup-is_key j [] h = refl
lookup-is_key j ((k, n) ∷ m) h = ground (arith, lookup-is_key j m)

-- Asking for the total leaves every topic that there is with a counter of 0.
pub lookup-get_total_messages :
    (j : String) (m : MessageMetrics) → lookup j (get_total_messages m).1 ≡ reset (lookup j m)
unfolding get_total_messages
lookup-get_total_messages j m =
    lookup-total_loop j (keys_of m) (pos 0) m ∙ elim (Bool-cases (is_key j (keys_of m))) [
      | inl e ↦ rw e refl
      | inr e ↦ rw (e, lookup-is_key j m e) refl
    ]

abbrev IsReset : MessageMetrics → Type 0
IsReset m = (j : String) → lookup j m ≡ reset (lookup j m)

reset_twice : (o : Option ℤ) → reset o ≡ reset (reset o)
reset_twice none = refl
reset_twice (some n) = refl

only_once : (b : Bool) (o : Option ℤ) → o ≡ reset o → (if b then reset o else o) ≡ o
only_once true o h = sym h
only_once false o h = refl

reset_topic-IsReset : (k : String) (m : MessageMetrics) → IsReset m → IsReset (reset_topic k m).1
reset_topic-IsReset k m h j =
    let same : lookup j (reset_topic k m).1 ≡ lookup j m =
      lookup-reset_topic j k m ∙ only_once (str_eq k j) (lookup j m) (h j) in
    same ∙ h j ∙ ap reset (sym same)

value_of_reset : (n : ℤ) → some n ≡ reset (some n) → n ≡ pos 0
value_of_reset n h = cc h

adds_nothing :
    (k : String) (m : MessageMetrics)
    → IsReset m
    → (if ltb_ℤ (reset_topic k m).0 (pos 0) then pos 0 else pos 0 +ℤ (reset_topic k m).0) ≡ pos 0
unfolding reset_topic ◌+ℤ◌
adds_nothing k m h = elim (Option-cases (lookup k m)) [
  | inl e ↦ rw (e, reset_topic) refl
  | inr (n, e) ↦
      let zero_value : n ≡ pos 0 = value_of_reset n (rw e at (h k)) in
      rw (e, zero_value, reset_topic) refl
]

total_loop-reset :
    (keys : List String) (m : MessageMetrics) → IsReset m → (total_loop keys (pos 0) m).0 ≡ pos 0
unfolding total_loop
total_loop-reset [] m h = refl
total_loop-reset (k ∷ keys) m h =
    ap (λ total. (total_loop keys total (reset_topic k m).1).0) (adds_nothing k m h)
    ∙ total_loop-reset keys (reset_topic k m).1 (reset_topic-IsReset k m h)

-- What a reader of a counter gets after a reset.
abbrev read : Option ℤ → ℤ
read o = elim o [ none ↦ negsuc 0 | some n ↦ n ]

reads : (o : Option ℤ) → read (reset o) ≡ elim o [ none ↦ negsuc 0 | some n ↦ pos 0 ]
reads none = refl
reads (some n) = refl

-- Asking for the total of the messages sets the counter of every topic to 0 and adds no topic, so that asking again gives 0.
pub get_total_messages-get_total_messages :
    (m : MessageMetrics)
    → ((get_total_messages (get_total_messages m).1).0 ≡ pos 0)
      × ((j : String)
          → get_topic_msgs j (get_total_messages m).1
            ≡ elim (lookup j m) [ none ↦ negsuc 0 | some n ↦ pos 0 ])
unfolding get_topic_msgs
get_total_messages-get_total_messages m = (
  unfold get_total_messages in
      total_loop-reset (keys_of (get_total_messages m).1) (get_total_messages m).1
        (λ j. rw (lookup-get_total_messages j m) (reset_twice (lookup j m))),
  λ j. ap read (lookup-get_total_messages j m) ∙ reads (lookup j m),
)
