-- ===== src/Db/Sql/Memory.antt =====
-- A database in memory, which meets the laws: a state gives the row of each table and key.
use armiarma.Base.{
  ◌≡◌, refl, inl, inr, Option-cases, Option, none, some, String, ℕ, Bool, true, false, not, ◌&&◌,
  ◌||◌, List, [], ◌∷◌, ◌==◌, str_eq, if◌then◌else◌,
}
use armiarma.Db.Sql.{
  Kind, Value, is_array, serial, null, Row, Database, IsLawful, key_of, table_of, row_after, fits,
}

-- No character is NUL.
unfoldable pub has_no_nul : List ℕ → Bool
has_no_nul [] = true
has_no_nul (c ∷ s) = not (c == 0) && has_no_nul s

unfoldable pub is_null_array : {F : Type 0} → Kind → Value F → Bool
unfolding is_array
is_null_array kind null = is_array kind
is_null_array kind v = false

abbrev pub memory : (F : Type 0) → Database F
memory F = record {
  State = String → String → Option (Row F);
  accepts = has_no_nul;
  execute = λ st s name k. elim (key_of st) [
    | none ↦ s name k
    | some key ↦
        if str_eq (table_of st).table_name name && str_eq key k
        then row_after st (s name k)
        else s name k
  ];
  select = λ s. s;
  scan = λ kind v. if fits kind v || is_null_array kind v then some v else none;
}

fits-null : (F : Type 0) (kind : Kind) → fits {F = F} kind null ≡ false
unfolding fits
fits-null F serial = refl
fits-null F _ = refl

pub memory-IsLawful : (F : Type 0) → IsLawful (memory F)
unfolding is_null_array
memory-IsLawful F = record {
  select-execute = λ st key s name k plain typed e. rw (e, memory) refl;
  select-execute_other = λ st s name k e. elim (Option-cases (key_of st)) [
    | inl n ↦ rw (n, memory) refl
    | inr (key, h) ↦ rw (h, memory) (rw e refl)
  ];
  scan-fits = λ kind v exact h. rw (h, memory) refl;
  scan-null = λ kind h. rw (fits-null F kind, h, memory) refl;
  scan-null_array = λ kind h. rw (fits-null F kind, h, memory) refl;
}
