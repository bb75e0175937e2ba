-- ===== src/Base/Text.antt =====
-- Texts as the list of their code points, for code that walks a text.
use Prim.Native.Nat.{ℕ}
use Prim.Native.Char.{code}
use Prim.Native.String.{String}
use mathlib.Core.Bool.{Bool, true, false, ◌&&◌, ◌||◌}
use mathlib.Core.List.{List, [], ◌∷◌, ◌++◌}
use mathlib.Core.Logic.{inl, inr}
use mathlib.Core.Path.{◌≡◌, refl, ap, ap₂}
use native.Mathlib.Omega.{arith}
use armiarma.Base.Tests.{◌==◌, Bool-cases}

abbrev pub codes : String → List ℕ
codes String.[] = []
codes (String.◌∷◌ c s) = code c ∷ codes s

-- `strings.HasPrefix` on lists of bytes.
unfoldable pub is_prefix : List ℕ → List ℕ → Bool
is_prefix [] s = true
is_prefix (a ∷ p) [] = false
is_prefix (a ∷ p) (b ∷ s) = a == b && is_prefix p s

-- `strings.Contains(s, sub)`
unfoldable pub contains : List ℕ → List ℕ → Bool
contains [] sub = is_prefix sub []
contains (c ∷ s) sub = is_prefix sub (c ∷ s) || contains s sub

is_prefix-append : (p s : List ℕ) → is_prefix p (p ++ s) ≡ true
unfolding is_prefix
is_prefix-append [] s = refl
is_prefix-append (a ∷ p) s = ground (arith, is_prefix-append p s)

is_prefix_iff : (p s : List ℕ) → is_prefix p s ≡ true → (t : List ℕ) × (s ≡ p ++ t)
unfolding is_prefix
is_prefix_iff [] s h = (s, refl)
is_prefix_iff (a ∷ p) [] h = cc
is_prefix_iff (a ∷ p) (b ∷ s) h =
    let (t, e) = is_prefix_iff p s (ground arith) in
    let n : b ≡ a = ground arith in (t, ap₂ ◌∷◌ n e)

contains-prefix : (s sub : List ℕ) → is_prefix sub s ≡ true → contains s sub ≡ true
unfolding contains
contains-prefix [] sub h = h
contains-prefix (c ∷ s) sub h = ground arith

-- A text occurs in any text around it, and a text that contains another is one around it.
pub contains-append : (a sub b : List ℕ) → contains (a ++ (sub ++ b)) sub ≡ true
unfolding contains
contains-append [] sub b = contains-prefix (sub ++ b) sub (is_prefix-append sub b)
contains-append (c ∷ a) sub b = ground (arith, contains-append a sub b)

pub contains_around :
    (s sub : List ℕ) → contains s sub ≡ true → (a : List ℕ) × (b : List ℕ) × (s ≡ a ++ (sub ++ b))
unfolding contains
contains_around [] sub h = let (t, e) = is_prefix_iff sub [] h in ([], t, e)
contains_around (c ∷ s) sub h = elim (Bool-cases (is_prefix sub (c ∷ s))) [
  | inl p ↦ let (t, e) = is_prefix_iff sub (c ∷ s) p in ([], t, e)
  | inr n ↦ let (a, b, e) = contains_around s sub (ground (arith, n)) in (c ∷ a, b, ap (◌∷◌ c) e)
]
