-- ===== src/Discovery/Kdht/Entries.antt =====
-- Entries of an array and the calls that have got as far, picked from a list.
use mathlib.Core.Option.{none-ne-some, some-injective}
use armiarma.Base.{
  ℕ, zero, suc, ◌+◌, ◌^◌, ◌≤◌, ◌<◌, ◌≡◌, refl, sym, ap, ◌≢◌, Option, none, some, List, [], ◌∷◌,
  ◌++◌, arith, length, get_elem?, take,
}
use armiarma.Discovery.Kdht.{pick, increment, keep}

pub increment_small : (n : ℕ) → n + 1 < 2 ^ 64 → increment n ≡ n + 1
unfolding increment
increment_small n h = omega (arith, h)

pub take-append :
    {A : Type 0} (n : ℕ) (xs ys : List A) → n ≤ length xs → take n (xs ++ ys) ≡ take n xs
take-append zero xs ys h = refl
take-append (suc n) [] ys h = absurd (omega (arith, h))
take-append (suc n) (x ∷ xs) ys h = rw (take-append n xs ys (omega (arith, h))) refl

pub take-get_elem? :
    {A : Type 0} (n : ℕ) (xs : List A) (x : A)
    → get_elem? xs n ≡ some x
    → take (suc n) xs ≡ take n xs ++ (x ∷ [])
take-get_elem? n [] x h = absurd (none-ne-some x h)
take-get_elem? zero (y ∷ ys) x h = ap (λ z. z ∷ []) (some-injective y x h)
take-get_elem? (suc n) (y ∷ ys) x h = ap (◌∷◌ y) (take-get_elem? n ys x h)

pub get_elem?-some : {A : Type 0} (n : ℕ) (xs : List A) → n < length xs → get_elem? xs n ≢ none
get_elem?-some n [] h e = omega (arith, h)
get_elem?-some zero (x ∷ xs) h e = none-ne-some x (sym e)
get_elem?-some (suc n) (x ∷ xs) h e = get_elem?-some n xs (omega (arith, h)) e

-- An element that is picked leaves a list that is shorter by one.
abbrev pub IsShorter : {A : Type 0} → List A → Option (A × List A) → Type 0
IsShorter xs none = Unit
IsShorter xs (some (x, ys)) = length xs ≡ length ys + 1

pub keep-IsShorter :
    {A : Type 0} (x : A) (xs : List A) (o : Option (A × List A))
    → IsShorter xs o
    → IsShorter (x ∷ xs) (keep x o)
keep-IsShorter x xs none h = tt
keep-IsShorter x xs (some (y, ys)) h = omega (arith, h)

pub pick-IsShorter : {A : Type 0} (i : ℕ) (xs : List A) → IsShorter xs (pick i xs)
unfolding pick
pick-IsShorter i [] = tt
pick-IsShorter zero (x ∷ xs) = omega arith
pick-IsShorter (suc i) (x ∷ xs) = keep-IsShorter x xs (pick i xs) (pick-IsShorter i xs)
