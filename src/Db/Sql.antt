-- ===== src/Db/Sql.antt =====
-- The statements of pkg/db/postgresql and what the database is taken to do with them. A statement of the source is an
-- `INSERT` with its columns, its values in their order and its `ON CONFLICT` clause, or an `UPDATE` with the columns that it sets
-- to $2, $3, ... in the row whose key is $1. PostgreSQL and its driver are a parameter, `Database`: its laws are the documented
-- meaning of such statements on one row and of the scan of a column. `F` stands for the floating-point numbers.
pub mod Memory
pub mod Rows
use armiarma.Base.{
  ℕ, ◌-◌, ◌^◌, ◌≡◌, Option, none, some, String, Bool, true, false, not, map, ◌&&◌, ◌||◌, List, [],
  ◌∷◌, str_eq, if◌then◌else◌, Dict, lookup, insert,
}
use armiarma.Base.Text.{codes}
use armiarma.Base.Int.{ℤ, pos, negsuc, leb_ℤ}

-- The types of the columns: `SERIAL`, `TEXT`, `INT`, `BIGINT`, `BOOL`, `TEXT[]`, `BIGINT[]`, `TIMESTAMP`, `TIME` and `REAL`.
pub data Kind : Type 0 where
  serial text_kind int4 int8 bool_kind text_array int8_array timestamp time_kind real_kind : Kind

-- A value of Go that is handed over as an argument, or `NULL`. A text of the source is a `String` or a list of bytes here.
pub data Value (F : Type 0) : Type 0 where
  null : Value F
  text : String → Value F
  bytes : List ℕ → Value F
  int : ℤ → Value F
  bool : Bool → Value F
  strings : List String → Value F
  texts : List (Option (List ℕ)) → Value F
  ints : List ℤ → Value F
  instant : ℤ → Value F
  real : F → Value F

pub record Column : Type 0 where
  pub name : String
  pub kind : Kind
  pub not_null : Bool

pub record Table : Type 0 where
  pub table_name : String
  pub columns : List Column
  pub primary_key : String
  -- The further sets of columns that are `UNIQUE`.
  pub unique : List (List String)

-- The constructors of a column, without `NOT NULL` and with it.
abbrev pub nullable : String → Kind → Column
nullable name kind = record { name = name; kind = kind; not_null = false }

abbrev pub required : String → Kind → Column
required name kind = record { name = name; kind = kind; not_null = true }

-- `DO NOTHING` and `DO UPDATE SET c = excluded.c, ...`, on a conflict of the key.
pub data Conflict : Type 0 where
  no_conflict do_nothing : Conflict
  do_update : List String → Conflict

pub data Statement (F : Type 0) : Type 0 where
  insert_into : Table → List String → Conflict → List (Value F) → Statement F
  update_where : Table → List String → List (Value F) → Statement F

unfoldable pub in_int4 : ℤ → Bool
in_int4 n = leb_ℤ n (pos (2 ^ 31 - 1)) && leb_ℤ (negsuc (2 ^ 31 - 1)) n

unfoldable pub in_int8 : ℤ → Bool
in_int8 n = leb_ℤ n (pos (2 ^ 63 - 1)) && leb_ℤ (negsuc (2 ^ 63 - 1)) n

unfoldable pub column_of : String → List Column → Option Column
column_of name [] = none
column_of name (c ∷ cs) = if str_eq c.name name then some c else column_of name cs

unfoldable pub is_in : String → List String → Bool
is_in name [] = false
is_in name (n ∷ ns) = str_eq n name || is_in name ns

unfoldable pub are_in : List String → List String → Bool
are_in [] names = true
are_in (n ∷ ns) names = is_in n names && are_in ns names

-- A column that takes no `NULL` is given a value.
unfoldable pub gives_required : List Column → List String → Bool
gives_required [] names = true
gives_required (c ∷ cs) names =
    (if c.not_null then is_in c.name names else true) && gives_required cs names

abbrev pub Row : Type 0 → Type 0
Row F = Dict (Value F)

-- None of the texts of a list is missing.
unfoldable pub is_full : List (Option (List ℕ)) → Bool
is_full [] = true
is_full (none ∷ ts) = false
is_full (some t ∷ ts) = is_full ts

-- The texts are among those that the database takes.
unfoldable pub are_taken : (List ℕ → Bool) → List (List ℕ) → Bool
are_taken accepts [] = true
are_taken accepts (s ∷ ss) = accepts s && are_taken accepts ss

unfoldable pub text_list : List (Option (List ℕ)) → List (List ℕ)
text_list [] = []
text_list (none ∷ ts) = text_list ts
text_list (some t ∷ ts) = t ∷ text_list ts

module _ {F : Type 0} where
  -- The values of Go that are encoded for a column, and whether a number is in its range.
  unfoldable pub fits : Kind → Value F → Bool
  unfolding is_full
  fits text_kind (text s) = true
  fits text_kind (bytes s) = true
  fits int4 (int n) = in_int4 n
  fits int8 (int n) = in_int8 n
  fits bool_kind (bool b) = true
  fits text_array (strings s) = true
  fits text_array (texts s) = is_full s
  fits int8_array (ints n) = true
  fits timestamp (instant t) = true
  fits time_kind (instant t) = true
  fits real_kind (real x) = true
  fits kind value = false

  -- `NULL` is taken by a column that is not `NOT NULL`.
  unfoldable pub takes : Column → Value F → Bool
  unfolding fits
  takes c null = not c.not_null
  takes c v = fits c.kind v

  -- As many arguments as columns, and each of a value that its column takes.
  unfoldable pub fit_columns : List Column → List String → List (Value F) → Bool
  unfolding column_of takes
  fit_columns cs [] [] = true
  fit_columns cs (name ∷ names) (v ∷ vs) =
      elim (column_of name cs) [ none ↦ false | some c ↦ takes c v ] && fit_columns cs names vs
  fit_columns cs names vs = false

  -- The statement names columns of its table and has arguments that they take; a new row leaves out no column that takes no
  -- `NULL`, and a row in conflict takes its new values from those that are inserted.
  unfoldable pub has_kinds : Statement F → Bool
  unfolding fit_columns gives_required are_in is_in
  has_kinds (insert_into t names (do_update sets) vs) =
      fit_columns t.columns names vs && (gives_required t.columns names && are_in sets names)
  has_kinds (insert_into t names c vs) =
      fit_columns t.columns names vs && gives_required t.columns names
  has_kinds (update_where t names vs) = fit_columns t.columns (t.primary_key ∷ names) vs

  unfoldable pub is_clean : (List ℕ → Bool) → Value F → Bool
  unfolding are_taken text_list
  is_clean accepts (text s) = accepts (codes s)
  is_clean accepts (bytes s) = accepts s
  is_clean accepts (strings ss) = are_taken accepts (map codes ss)
  is_clean accepts (texts ts) = are_taken accepts (text_list ts)
  is_clean accepts v = true

  unfoldable pub are_clean : (List ℕ → Bool) → List (Value F) → Bool
  unfolding is_clean
  are_clean accepts [] = true
  are_clean accepts (v ∷ vs) = is_clean accepts v && are_clean accepts vs

  abbrev pub arguments : Statement F → List (Value F)
  arguments (insert_into t names c vs) = vs
  arguments (update_where t names vs) = vs

  unfoldable pub is_typed : (List ℕ → Bool) → Statement F → Bool
  is_typed accepts st = has_kinds st && are_clean accepts (arguments st)

  abbrev pub table_of : Statement F → Table
  table_of (insert_into t names c vs) = t
  table_of (update_where t names vs) = t

  -- The columns with the values that the statement has for them.
  unfoldable pub assignment : List String → List (Value F) → Row F
  assignment (n ∷ ns) (v ∷ vs) = (n, v) ∷ assignment ns vs
  assignment ns vs = []

  -- A column without a value is `NULL`.
  unfoldable pub cell : String → Row F → Value F
  unfolding lookup
  cell name r = elim (lookup name r) [ none ↦ null | some v ↦ v ]

  abbrev pub key_of_row : String → Row F → Option String
  key_of_row name r = elim (cell name r) [ text s ↦ some s | _ ↦ none ]

  -- The primary key of the row that the statement writes.
  unfoldable pub key_of : Statement F → Option String
  unfolding assignment cell lookup
  key_of (insert_into t names c vs) = key_of_row t.primary_key (assignment names vs)
  key_of (update_where t names vs) =
      key_of_row t.primary_key (assignment (t.primary_key ∷ names) vs)

  unfoldable pub assign : List String → Row F → Row F → Row F
  unfolding cell lookup insert
  assign [] new r = r
  assign (n ∷ ns) new r = assign ns new (insert n (cell n new) r)

  -- What becomes of the row with the key of the statement.
  unfoldable pub row_after : Statement F → Option (Row F) → Option (Row F)
  unfolding assign assignment
  row_after (insert_into t names c vs) none = some (assignment names vs)
  row_after (insert_into t names (do_update sets) vs) (some r) =
      some (assign sets (assignment names vs) r)
  row_after (insert_into t names c vs) (some r) = some r
  row_after (update_where t names vs) none = none
  row_after (update_where t names vs) (some r) =
      some (assign names (assignment (t.primary_key ∷ names) vs) r)

-- The columns that Go reads back as it wrote them.
unfoldable pub is_exact : Kind → Bool
is_exact text_kind = true
is_exact int4 = true
is_exact int8 = true
is_exact bool_kind = true
is_exact text_array = true
is_exact kind = false

-- A `SERIAL` counts by itself.
unfoldable pub are_exact : List Column → Bool
unfolding is_exact
are_exact [] = true
are_exact (c ∷ cs) = elim c.kind [ serial ↦ true | kind ↦ is_exact kind ] && are_exact cs

-- A table with one key, and with columns that are read back as they were written.
unfoldable pub is_plain : Table → Bool
unfolding are_exact
is_plain t = elim t.unique [ [] ↦ are_exact t.columns | cs ∷ sets ↦ false ]

-- A `NULL` cannot be read into a text, a number or a Boolean of Go; it is read into a slice as nil.
unfoldable pub is_array : Kind → Bool
is_array text_array = true
is_array int8_array = true
is_array kind = false

pub record Database (F : Type 0) : Type 1 where
  pub State : Type 0
  -- The texts that the database takes: valid UTF-8 without the character NUL.
  pub accepts : List ℕ → Bool
  pub execute : Statement F → State → State
  -- `SELECT ... FROM table WHERE key = $1`, without the columns that count by themselves.
  pub select : State → String → String → Option (Row F)
  -- `Scan` of a column into a variable of Go that a column of this kind is read into.
  pub scan : Kind → Value F → Option (Value F)

-- What PostgreSQL and its driver document. The effect of a statement is stated of plain tables only, and of statements that fit; another
-- constraint of a table may refuse a row, and a time or a floating-point number may be rounded.
pub record IsLawful {F : Type 0} (d : Database F) : Type 0 where
  pub select-execute :
      (st : Statement F) (key : String) (s : d.State) (name k : String)
      → is_plain (table_of st) ≡ true
      → is_typed d.accepts st ≡ true
      → key_of st ≡ some key
      → d.select (d.execute st s) name k ≡ (
          if str_eq (table_of st).table_name name && str_eq key k
          then row_after st (d.select s name k)
          else d.select s name k)
  pub select-execute_other :
      (st : Statement F) (s : d.State) (name k : String)
      → str_eq (table_of st).table_name name ≡ false
      → d.select (d.execute st s) name k ≡ d.select s name k
  pub scan-fits :
      (kind : Kind) (v : Value F)
      → is_exact kind ≡ true
      → fits kind v ≡ true
      → d.scan kind v ≡ some v
  pub scan-null : (kind : Kind) → is_array kind ≡ false → d.scan kind null ≡ none
  pub scan-null_array : (kind : Kind) → is_array kind ≡ true → d.scan kind null ≡ some null
