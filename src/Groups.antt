-- ===== src/Groups.antt =====
-- Counting by key: the groups that `GROUP BY` makes, their order, and maps that a loop fills.
use armiarma.Base.{
  ℕ, zero, suc, ◌+◌, String, ◌≡◌, refl, ◌∙◌, inl, inr, Option, none, some, List, [], ◌∷◌, false,
  arith, eq_iff, str_eq, leb, if◌then◌else◌, if_true, if_false, Bool-cases, Dict, lookup, insert,
  lookup-insert,
}
use native.Mathlib.Nat.{add-zero, add_assoc}

-- A count as a map shows it: a key that nothing has is missing.
abbrev pub shown : ℕ → Option ℕ
shown zero = none
shown (suc n) = some (suc n)

-- The count of a key so far, `none` when the map has no entry.
abbrev pub so_far : Option ℕ → ℕ
so_far none = 0
so_far (some n) = n

-- Maps that hold no zero count.
abbrev pub IsCounting : Dict ℕ → Type 0
IsCounting m = (k : String) → lookup k m ≡ shown (so_far (lookup k m))

pub none_counts : IsCounting []
unfolding lookup
none_counts k = refl

-- One more for a key.
abbrev pub count_one : String → Dict ℕ → Dict ℕ
count_one k m = insert k (so_far (lookup k m) + 1) m

shown-suc : (n : ℕ) → shown (n + 1) ≡ some (n + 1)
shown-suc n = ground arith

pub lookup-count_one :
    (k j : String) (m : Dict ℕ)
    → IsCounting m
    → lookup j (count_one k m) ≡ shown (so_far (lookup j m) + (if str_eq k j then 1 else 0))
lookup-count_one k j m c = rw (lookup-insert) (
    ground
      (arith, eq_iff k j, c j, shown-suc (so_far (lookup k m)), add-zero (so_far (lookup j m))))

pub so_far-shown : (n : ℕ) → so_far (shown n) ≡ n
so_far-shown zero = refl
so_far-shown (suc n) = refl

pub count_one-IsCounting : (k : String) (m : Dict ℕ) → IsCounting m → IsCounting (count_one k m)
count_one-IsCounting k m c j = rw (lookup-count_one k j m c, so_far-shown) refl

-- No key stands twice, as in a map of Go.
abbrev pub HasDistinctKeys : Dict ℕ → Type 0
HasDistinctKeys [] = Unit
HasDistinctKeys ((k, v) ∷ m) = (lookup k m ≡ none) × HasDistinctKeys m

pub insert-HasDistinctKeys :
    (k : String) (v : ℕ) (m : Dict ℕ) → HasDistinctKeys m → HasDistinctKeys (insert k v m)
unfolding insert
insert-HasDistinctKeys k v [] h = (unfold lookup in refl, tt)
insert-HasDistinctKeys k v ((j, w) ∷ m) h = elim (Bool-cases (str_eq j k)) [
  | inl same ↦
      rw (if_true ((k, v) ∷ m) ((j, w) ∷ insert k v m) (str_eq j k) same)
        (rw (← (eq_iff j k).0 same) h.0, h.1)
  | inr other ↦ rw (if_false ((k, v) ∷ m) ((j, w) ∷ insert k v m) (str_eq j k) other) (
    lookup-insert k j v m ∙ ground (arith, eq_iff j k, eq_iff k j),
    insert-HasDistinctKeys k v m h.1,
  )
]

pub lookup-cons :
    (k j : String) (v : ℕ) (m : Dict ℕ)
    → lookup k ((j, v) ∷ m) ≡ (if str_eq j k then some v else lookup k m)
unfolding lookup
lookup-cons k j v m = refl

-- The value that a key has in a map, or else the one that it had.
abbrev pub or_before : Option ℕ → Option ℕ → Option ℕ
or_before none before = before
or_before (some n) before = some n

-- The groups of the keys with their counts.
unfoldable pub groups : List String → Dict ℕ → Dict ℕ
groups [] m = m
groups (k ∷ ks) m = groups ks (count_one k m)

unfoldable pub occurrences : String → List String → ℕ
occurrences j [] = 0
occurrences j (k ∷ ks) = (if str_eq k j then 1 else 0) + occurrences j ks

pub lookup-groups :
    (j : String) (ks : List String) (m : Dict ℕ)
    → IsCounting m
    → lookup j (groups ks m) ≡ shown (so_far (lookup j m) + occurrences j ks)
unfolding groups occurrences
lookup-groups j [] m c = rw add-zero (c j)
lookup-groups j (k ∷ ks) m c =
    lookup-groups j ks (count_one k m) (count_one-IsCounting k m c)
    ∙ rw (lookup-count_one k j m c, so_far-shown, add_assoc) refl

pub groups-HasDistinctKeys :
    (ks : List String) (m : Dict ℕ) → HasDistinctKeys m → HasDistinctKeys (groups ks m)
unfolding groups
groups-HasDistinctKeys [] m h = h
groups-HasDistinctKeys (k ∷ ks) m h =
    groups-HasDistinctKeys ks (count_one k m)
      (insert-HasDistinctKeys k (so_far (lookup k m) + 1) m h)

-- `ORDER BY count DESC`; equal counts keep their order.
unfoldable pub place : String → ℕ → Dict ℕ → Dict ℕ
place k n [] = (k, n) ∷ []
place k n ((j, w) ∷ m) =
    let rest = place k n m in if leb w n then (k, n) ∷ ((j, w) ∷ m) else (j, w) ∷ rest

unfoldable pub order_by_count : Dict ℕ → Dict ℕ
order_by_count [] = []
order_by_count ((k, n) ∷ m) = place k n (order_by_count m)

lookup-place :
    (i k : String) (n : ℕ) (m : Dict ℕ)
    → lookup k m ≡ none
    → lookup i (place k n m) ≡ lookup i ((k, n) ∷ m)
unfolding place lookup
lookup-place i k n [] h = refl
lookup-place i k n ((j, w) ∷ m) h =
    ground (arith, lookup-place i k n m, eq_iff j k, eq_iff j i, eq_iff k i)

lookup-tail :
    (k j : String) (w : ℕ) (m : Dict ℕ)
    → lookup k ((j, w) ∷ m) ≡ none
    → (lookup k m ≡ none) × (str_eq k j ≡ false)
unfolding lookup
lookup-tail k j w m h = (ground (arith, eq_iff j k), ground (arith, eq_iff j k, eq_iff k j))

place-HasDistinctKeys :
    (k : String) (n : ℕ) (m : Dict ℕ)
    → lookup k m ≡ none
    → HasDistinctKeys m
    → HasDistinctKeys (place k n m)
unfolding place
place-HasDistinctKeys k n [] h d = (h, tt)
place-HasDistinctKeys k n ((j, w) ∷ m) h d =
    let (gone, other) = lookup-tail k j w m h in
    elim (Bool-cases (leb w n)) [
      | inl e ↦ rw (if_true ((k, n) ∷ ((j, w) ∷ m)) ((j, w) ∷ place k n m) (leb w n) e) (h, d)
      | inr e ↦ rw (if_false ((k, n) ∷ ((j, w) ∷ m)) ((j, w) ∷ place k n m) (leb w n) e) (
        lookup-place j k n m gone ∙ simp (lookup-cons, other, d.0),
        place-HasDistinctKeys k n m gone d.1,
      )
    ]

pub lookup-order_by_count :
    (i : String) (m : Dict ℕ)
    → HasDistinctKeys m
    → (lookup i (order_by_count m) ≡ lookup i m) × HasDistinctKeys (order_by_count m)
unfolding order_by_count
lookup-order_by_count i [] h = (refl, tt)
lookup-order_by_count i ((k, n) ∷ m) (h, d) =
    let gone : lookup k (order_by_count m) ≡ none = (lookup-order_by_count k m d).0 ∙ h in
    let (same, rest) = lookup-order_by_count i m d in
    (
      lookup-place i k n (order_by_count m) gone ∙ simp (lookup-cons, same),
      place-HasDistinctKeys k n (order_by_count m) gone rest,
    )
