-- ===== src/Db/Sql/Rows.antt =====
-- What the laws of the database say of one row.
use armiarma.Base.{
  ◌≡◌, refl, ◌∙◌, some, String, Bool, ℕ, List, Option, true, ◌&&◌, [], ◌∷◌, arith, eq_iff, insert,
  lookup-insert, str_eq, eq_refl, if◌then◌else◌,
}
use armiarma.Base.{if_true}
use armiarma.Base.Int.{ℤ}
use armiarma.Db.Sql.{
  Value, Statement, Database, IsLawful, is_plain, is_exact, is_full, is_typed, key_of, table_of,
  row_after, fits, text, bytes, int, bool, strings, texts, text_kind, text_array, bool_kind, int4,
  int8, in_int4, in_int8, Table, Row, cell, assign, assignment, is_in, update_where, insert_into,
  do_update,
}

module _ {F : Type 0} {d : Database F} (law : IsLawful d) where
  -- A statement writes the row of its key.
  pub select-execute_row :
      (st : Statement F) (k : String) (s : d.State)
      → is_plain (table_of st) ≡ true
      → is_typed d.accepts st ≡ true
      → key_of st ≡ some k
      → d.select (d.execute st s) (table_of st).table_name k
        ≡ row_after st (d.select s (table_of st).table_name k)
  select-execute_row st k s plain typed key =
      law.select-execute st k s (table_of st).table_name k plain typed key
      ∙ if_true (row_after st (d.select s (table_of st).table_name k))
          (d.select s (table_of st).table_name k)
          (str_eq (table_of st).table_name (table_of st).table_name && str_eq k k)
          (rw (eq_refl (table_of st).table_name, eq_refl k) refl)

  pub scan_text : (s : String) → d.scan text_kind (text s) ≡ some (text s)
  unfolding fits is_exact
  scan_text s = law.scan-fits text_kind (text s) refl refl

  pub scan_bytes : (s : List ℕ) → d.scan text_kind (bytes s) ≡ some (bytes s)
  unfolding fits is_exact
  scan_bytes s = law.scan-fits text_kind (bytes s) refl refl

  pub scan_texts :
      (ts : List (Option (List ℕ)))
      → is_full ts ≡ true
      → d.scan text_array (texts ts) ≡ some (texts ts)
  unfolding fits is_exact
  scan_texts ts full = law.scan-fits text_array (texts ts) refl full

  pub scan_strings : (ss : List String) → d.scan text_array (strings ss) ≡ some (strings ss)
  unfolding fits is_exact
  scan_strings ss = law.scan-fits text_array (strings ss) refl refl

  pub scan_bool : (b : Bool) → d.scan bool_kind (bool b) ≡ some (bool b)
  unfolding fits is_exact
  scan_bool b = law.scan-fits bool_kind (bool b) refl refl

  pub scan_int4 : (n : ℤ) → in_int4 n ≡ true → d.scan int4 (int n) ≡ some (int n)
  unfolding fits is_exact
  scan_int4 n h = law.scan-fits int4 (int n) refl h

  pub scan_int8 : (n : ℤ) → in_int8 n ≡ true → d.scan int8 (int n) ≡ some (int n)
  unfolding fits is_exact
  scan_int8 n h = law.scan-fits int8 (int n) refl h

-- The columns of a row that a statement writes.
module _ {F : Type 0} where
  cell-insert :
      (j n : String) (v : Value F) (r : Row F)
      → cell j (insert n v r) ≡ (if str_eq n j then v else cell j r)
  unfolding cell
  cell-insert j n v r = ground (arith, lookup-insert n j v r)

  pub cell-assign :
      (j : String) (names : List String) (new r : Row F)
      → cell j (assign names new r) ≡ (if is_in j names then cell j new else cell j r)
  unfolding assign is_in
  cell-assign j [] new r = refl
  cell-assign j (n ∷ names) new r = ground (
    arith,
    cell-assign j names new (insert n (cell n new) r),
    cell-insert j n (cell n new) r,
    eq_iff n j,
  )

  pub row_after-update_where :
      (t : Table) (names : List String) (vs : List (Value F)) (r : Row F)
      → row_after (update_where t names vs) (some r)
        ≡ some (assign names (assignment (t.primary_key ∷ names) vs) r)
  unfolding row_after
  row_after-update_where t names vs r = refl

  pub row_after-do_update :
      (t : Table) (names sets : List String) (vs : List (Value F)) (r : Row F)
      → row_after (insert_into t names (do_update sets) vs) (some r)
        ≡ some (assign sets (assignment names vs) r)
  unfolding row_after
  row_after-do_update t names sets vs r = refl
