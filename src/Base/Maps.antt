-- ===== src/Base/Maps.antt =====
-- Go maps with string keys, as association lists. A key that is missing reads as `none`, which is
-- the `ok` of `v, ok := m[k]`.
use Prim.Native.String.{String}
use mathlib.Core.Path.{◌≡◌, refl}
use mathlib.Core.List.{List, [], ◌∷◌}
use mathlib.Core.Option.{Option, none, some}
use native.Mathlib.Omega.{arith}
use text.Mathlib.Text.{◌==◌}
use text.Mathlib.TextEquality.{eq_iff}
use armiarma.Base.Tests.{if◌then◌else◌}

abbrev pub Dict {ℓ} : Type ℓ → Type ℓ
Dict V = List (String × V)

module _ {ℓ} {V : Type ℓ} where
  unfoldable pub lookup : String → Dict V → Option V
  lookup key [] = none
  lookup key (entry ∷ rest) = if entry.0 == key then some entry.1 else lookup key rest

  -- `delete(m, k)`
  unfoldable pub delete : String → Dict V → Dict V
  delete key [] = []
  delete key (entry ∷ rest) = if entry.0 == key then delete key rest else entry ∷ delete key rest

  pub lookup-delete :
      (gone key : String) (table : Dict V)
      → lookup key (delete gone table) ≡ (if gone == key then none else lookup key table)
  unfolding delete lookup
  lookup-delete gone key [] = ground arith
  lookup-delete gone key (entry ∷ rest) =
      ground (
        arith,
        lookup-delete gone key rest,
        eq_iff entry.0 gone,
        eq_iff entry.0 key,
        eq_iff gone key,
      )

  -- `m[k] = v`
  unfoldable pub insert : String → V → Dict V → Dict V
  insert key new [] = (key, new) ∷ []
  insert key new (entry ∷ rest) =
      if entry.0 == key then (key, new) ∷ rest else entry ∷ insert key new rest

  -- What a map reads after a write.
  pub lookup-insert :
      (written key : String) (new : V) (table : Dict V)
      → lookup key (insert written new table)
        ≡ (if written == key then some new else lookup key table)
  unfolding insert lookup
  lookup-insert written key new [] = refl
  lookup-insert written key new (entry ∷ rest) = ground (
    arith,
    lookup-insert written key new rest,
    eq_iff entry.0 written,
    eq_iff entry.0 key,
    eq_iff written key,
  )
