-- ===== src/Postgresql/Values.antt =====
-- `esql_postgresql_row_init` (src/modules/postgresql/esql_postgresql_backend.c): the values of the
-- cells of a row.
use esskyuehl.Prelude.{
  ℕ, ◌%◌, ◌≡◌, ◌↔◌, refl, Bool, true, false, List, [], ◌∷◌, Option, none, some, Bytes, length,
}
use esskyuehl.Postgresql.{
  Oid, timestamp_oid, abstime_oid, bytea_oid, name_oid, text_oid, varchar_oid, bpchar_oid, bool_oid,
  char_oid, int2_oid, int4_oid, int8_oid, float4_oid, float8_oid, tinterval_oid, reltime_oid,
  other_oid, ValueType, string, char, short, long, int64, float, double, ulong, blob, column_type,
}

-- What the C library makes of a text: the number of `strtol` and `strtoll` in 64 bits, the bits of
-- `strtof` and `strtod`, and `mktime` of the time that `strptime` reads, or `localtime_r` of the
-- number.
pub record Reads : Type 0 where
  pub strtol : Bytes → ℕ
  pub strtoll : Bytes → ℕ
  pub strtof : Bytes → ℕ
  pub strtod : Bytes → ℕ
  pub point_in_time : Bytes → ℕ
  pub seconds_of : Bytes → ℕ

-- A value of eina: a number of a type, a string, or a blob with its memory and size.
pub data Value : Type 0 where
  number : ValueType → ℕ → Value
  text : Bytes → Value
  bytes : Bytes → ℕ → Value

abbrev pub type_of : Value → ValueType
type_of (number t n) = t
type_of (text s) = string
type_of (bytes s n) = blob

-- The `switch`, on the text that `PQgetvalue` gives.
unfoldable pub cell_value : Reads → Oid → Bytes → Value
cell_value c timestamp_oid s = number ulong (c.point_in_time s)
cell_value c abstime_oid s = number ulong (c.seconds_of s)
cell_value c bytea_oid s = text s
cell_value c name_oid s = text s
cell_value c text_oid s = text s
cell_value c varchar_oid s = text s
cell_value c bpchar_oid s = text s
cell_value c bool_oid s = number char (c.strtol s % 256)
cell_value c char_oid s = number char (c.strtol s % 256)
cell_value c int2_oid s = number short (c.strtol s % 65536)
cell_value c int4_oid s = number long (c.strtol s)
cell_value c int8_oid s = number int64 (c.strtoll s)
cell_value c float4_oid s = number float (c.strtof s)
cell_value c float8_oid s = number double (c.strtod s)
cell_value c tinterval_oid s = number double (c.strtod s)
cell_value c reltime_oid s = number double (c.strtod s)
cell_value c other_oid s = bytes s (length s)

-- `esql_postgresql_row_init`, on the type and the text of each cell, which is NULL where
-- `PQgetisnull` holds; for such a cell, here `none`, a value that was never set up is stored.
unfoldable pub row_init : Reads → List (Oid × Option Bytes) → List (Option Value)
unfolding cell_value
row_init c [] = []
row_init c ((o, none) ∷ cells) = none ∷ row_init c cells
row_init c ((o, some s) ∷ cells) = some (cell_value c o s) ∷ row_init c cells

abbrev pub is_time : Oid → Bool
is_time timestamp_oid = true
is_time abstime_oid = true
is_time _ = false

-- A cell has the type of its column for all but the two types of points in time.
pub column_type_iff :
    (c : Reads) (o : Oid) (s : Bytes)
    → (column_type o ≡ type_of (cell_value c o s)) ↔ (is_time o ≡ false)
unfolding column_type cell_value
column_type_iff c timestamp_oid s = ((λ e. cc), (λ e. cc))
column_type_iff c abstime_oid s = ((λ e. cc), (λ e. cc))
column_type_iff c bytea_oid s = ((λ e. refl), (λ e. refl))
column_type_iff c name_oid s = ((λ e. refl), (λ e. refl))
column_type_iff c text_oid s = ((λ e. refl), (λ e. refl))
column_type_iff c varchar_oid s = ((λ e. refl), (λ e. refl))
column_type_iff c bpchar_oid s = ((λ e. refl), (λ e. refl))
column_type_iff c bool_oid s = ((λ e. refl), (λ e. refl))
column_type_iff c char_oid s = ((λ e. refl), (λ e. refl))
column_type_iff c int2_oid s = ((λ e. refl), (λ e. refl))
column_type_iff c int4_oid s = ((λ e. refl), (λ e. refl))
column_type_iff c int8_oid s = ((λ e. refl), (λ e. refl))
column_type_iff c float4_oid s = ((λ e. refl), (λ e. refl))
column_type_iff c float8_oid s = ((λ e. refl), (λ e. refl))
column_type_iff c tinterval_oid s = ((λ e. refl), (λ e. refl))
column_type_iff c reltime_oid s = ((λ e. refl), (λ e. refl))
column_type_iff c other_oid s = ((λ e. refl), (λ e. refl))

-- The value of a boolean that is true, and of one that is false, as the server prints them.
pub row_init_bool :
    (c : Reads) (cells : List (Oid × Option Bytes))
    → c.strtol (b't' ∷ []) ≡ 0
    → c.strtol (b'f' ∷ []) ≡ 0
    → row_init c ((bool_oid, some (b't' ∷ [])) ∷ cells)
      ≡ row_init c ((bool_oid, some (b'f' ∷ [])) ∷ cells)
unfolding row_init
row_init_bool c cells t f = rw (t, f) refl
