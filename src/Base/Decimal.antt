-- ===== src/Base/Decimal.antt =====
-- Decimal numbers in texts, as `strconv.Atoi` reads them.
use native.Mathlib.Omega.{arith}
use mathlib.Core.Path.{◌≡◌, refl}
use Prim.Native.Nat.{ℕ, zero, suc, ◌+◌, ◌-◌, ◌*◌, ◌^◌, ◌<◌}
use mathlib.Core.Bool.{Bool, true, false, ◌&&◌}
use mathlib.Core.List.{List, [], ◌∷◌}
use armiarma.Base.Tests.{ltb, leb, ◌==◌, if◌then◌else◌}
use armiarma.Base.Int.{ℤ, pos, negsuc}

unfoldable pub is_digit : ℕ → Bool
is_digit c = leb 48 c && leb c 57

-- What reading a uint64 comes to: its value, a character that is no digit, or a value that is too large.
pub data Digits : Type 0 where
  value : ℕ → Digits
  bad_syntax out_of_range : Digits

unfoldable pub read_digits : ℕ → List ℕ → Digits
read_digits acc [] = value acc
read_digits acc (c ∷ s) =
    let n = acc * 10 + (c - 48) in
    let rest = read_digits n s in
    if is_digit c then (if leb (2 ^ 64) n then out_of_range else rest) else bad_syntax

abbrev pub digits_of : List ℕ → Digits
digits_of [] = bad_syntax
digits_of (c ∷ s) = read_digits 0 (c ∷ s)

-- The int and whether there was no error. The value is 0 after a wrong character, and the nearest int when it is
-- out of range.
abbrev pub positive_int : Digits → ℤ × Bool
positive_int (value n) = if ltb n (2 ^ 63) then (pos n, true) else (pos (2 ^ 63 - 1), false)
positive_int bad_syntax = (pos 0, false)
positive_int out_of_range = (pos (2 ^ 63 - 1), false)

abbrev pub negative_int : Digits → ℤ × Bool
negative_int (value zero) = (pos 0, true)
negative_int (value (suc n)) =
    if ltb n (2 ^ 63) then (negsuc n, true) else (negsuc (2 ^ 63 - 1), false)
negative_int bad_syntax = (pos 0, false)
negative_int out_of_range = (negsuc (2 ^ 63 - 1), false)

unfoldable pub atoi : List ℕ → ℤ × Bool
atoi [] = (pos 0, false)
atoi (c ∷ s) =
    if c == 45
    then negative_int (digits_of s)
    else if c == 43
    then positive_int (digits_of s)
    else positive_int (digits_of (c ∷ s))

-- One digit of a number below 1000, and the last one.
pub read_digits-digit :
    (acc d m : ℕ) (s : List ℕ)
    → d < 10
    → m < 1000
    → acc * 10 + d ≡ m
    → read_digits acc ((48 + d) ∷ s) ≡ read_digits m s
unfolding read_digits is_digit
read_digits-digit acc d m s h k e =
    let n : acc * 10 + (48 + d - 48) ≡ m = omega arith in
    let f : (leb 48 (48 + d) && leb (48 + d) 57) ≡ true = ground arith in
    let g : leb (2 ^ 64) m ≡ false = ground arith in rw (n, f, g) refl

pub read_digits_last :
    (acc d m : ℕ) → d < 10 → m < 1000 → acc * 10 + d ≡ m → read_digits acc ((48 + d) ∷ []) ≡ value m
unfolding read_digits
read_digits_last acc d m h k e = read_digits-digit acc d m [] h k e
