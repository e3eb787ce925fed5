-- ===== src/Mysql/Values.antt =====
-- `esql_mysac_row_init` (src/modules/mysql/esql_mysql_backend.c): the values of the cells of a row.
use esskyuehl.Prelude.{
  ℕ, zero, suc, ◌+◌, ◌<◌, ◌≡◌, refl, ap, ◌∙◌, Bool, true, false, List, [], ◌∷◌, Option, none, some,
  arith, Bytes, ◌==◌, if◌then◌else◌, length, get_elem?,
}
use native.Mathlib.Nat.{zero-add}
use esskyuehl.Mysql.{
  ColumnType, mysql_decimal, mysql_tiny, mysql_short, mysql_long, mysql_float, mysql_double,
  mysql_null, mysql_timestamp, mysql_longlong, mysql_int24, mysql_date, mysql_time, mysql_datetime,
  mysql_year, mysql_varchar, mysql_newdecimal, mysql_tiny_blob, mysql_medium_blob, mysql_long_blob,
  mysql_blob, mysql_var_string, mysql_string, mysql_other, ValueType, timestamp, string, char,
  short, long, int64, float, double, blob, column_type,
}

-- A cell that mysac gives, by the member of the union that is read; a number is its bits, and `tm`
-- stands for the time that it points to.
pub record Field : Type 0 where
  pub tv_sec : ℕ
  pub tv_usec : ℕ
  pub tm : ℕ
  pub string_ptr : Option Bytes
  pub stiny : ℕ
  pub ssmall : ℕ
  pub sint : ℕ
  pub sbigint : ℕ
  pub mfloat : ℕ
  pub mdouble : ℕ

-- A value of eina: a number of a type, a string, or a blob with its memory and size; the size is
-- `none` where it is read from no row.
pub data Value : Type 0 where
  number : ValueType → ℕ → Value
  text : Option Bytes → Value
  bytes : Option Bytes → Option ℕ → Value

abbrev pub type_of : Value → ValueType
type_of (number t n) = t
type_of (text s) = string
type_of (bytes s n) = blob

-- `l->next` on the ring of a result's rows, where [] is the head of the ring; each row is given by
-- its lengths.
abbrev pub next_link : List (List ℕ) → List (List ℕ) → List (List ℕ)
next_link ring [] = ring
next_link ring (x ∷ l) = l

-- `mysac_container_of(l, MYSAC_ROWS, link)`, which is no row at the head of the ring.
abbrev pub row_of : List (List ℕ) → Option (List ℕ)
row_of [] = none
row_of (x ∷ l) = some x

-- `rows->lengths[i]`
abbrev pub length_at : Option (List ℕ) → ℕ → Option ℕ
length_at none i = none
length_at (some ns) i = get_elem? ns i

-- `seconds` is the sum in `double` of seconds and microseconds.
module _ (seconds : ℕ → ℕ → ℕ) (mktime : ℕ → ℕ) where
  -- The `switch`: the value of a cell, or `none` for the `default`, which sets up none.
  unfoldable pub cell_value : ColumnType → Field → Option ℕ → Option Value
  cell_value mysql_time x size = some (number double (seconds x.tv_sec x.tv_usec))
  cell_value mysql_year x size = some (number timestamp (mktime x.tm))
  cell_value mysql_timestamp x size = some (number timestamp (mktime x.tm))
  cell_value mysql_datetime x size = some (number timestamp (mktime x.tm))
  cell_value mysql_date x size = some (number timestamp (mktime x.tm))
  cell_value mysql_string x size = some (text x.string_ptr)
  cell_value mysql_varchar x size = some (text x.string_ptr)
  cell_value mysql_var_string x size = some (text x.string_ptr)
  cell_value mysql_tiny_blob x size = some (bytes x.string_ptr size)
  cell_value mysql_medium_blob x size = some (bytes x.string_ptr size)
  cell_value mysql_long_blob x size = some (bytes x.string_ptr size)
  cell_value mysql_blob x size = some (bytes x.string_ptr size)
  cell_value mysql_tiny x size = some (number char x.stiny)
  cell_value mysql_short x size = some (number short x.ssmall)
  cell_value mysql_long x size = some (number long x.sint)
  cell_value mysql_int24 x size = some (number long x.sint)
  cell_value mysql_decimal x size = some (number int64 x.sbigint)
  cell_value mysql_newdecimal x size = some (number int64 x.sbigint)
  cell_value mysql_longlong x size = some (number int64 x.sbigint)
  cell_value mysql_float x size = some (number float x.mfloat)
  cell_value mysql_double x size = some (number double x.mdouble)
  cell_value mysql_null x size = none
  cell_value mysql_other x size = none

  -- The loop from column `i` on: `rows` is the row that lengths are read from, `l` the place in the
  -- ring.
  unfoldable pub init_cells :
      List (List ℕ)
      → Option (List ℕ)
      → List (List ℕ)
      → ℕ
      → List (ColumnType × Field)
      → List (Option Value)
  unfolding cell_value
  init_cells ring rows l i [] = []
  init_cells ring rows l i ((t, x) ∷ cells) =
      cell_value t x (length_at rows i)
      ∷ init_cells ring (row_of (next_link ring l)) (next_link ring l) (i + 1) cells

  -- `esql_mysac_row_init`: `cr` is the row in hand, and `ring` the ring of the result's rows.
  unfoldable pub row_init : List (List ℕ) → List ℕ → List (ColumnType × Field) → List (Option Value)
  unfolding init_cells
  row_init ring cr cells = init_cells ring (some cr) ring 0 cells

-- The types that the `switch` knows.
abbrev pub is_known : ColumnType → Bool
is_known mysql_null = false
is_known mysql_other = false
is_known _ = true

-- The value of a cell has the type of its column; in a column of an unknown type there is none.
abbrev pub Typed : ColumnType → Option Value → Type 0
Typed t none = is_known t ≡ false
Typed t (some v) = (is_known t ≡ true) × (type_of v ≡ column_type t)

abbrev pub AllTyped : List (ColumnType × Field) → List (Option Value) → Type 0
AllTyped [] [] = Unit
AllTyped [] (v ∷ vs) = ⊥
AllTyped (c ∷ cells) [] = ⊥
AllTyped ((t, x) ∷ cells) (v ∷ vs) = Typed t v × AllTyped cells vs

abbrev is_blob : ColumnType → Bool
is_blob mysql_tiny_blob = true
is_blob mysql_medium_blob = true
is_blob mysql_long_blob = true
is_blob mysql_blob = true
is_blob _ = false

-- The row that lengths are read from after `k` columns more.
abbrev rows_at : List (List ℕ) → ℕ → Option (List ℕ) → List (List ℕ) → Option (List ℕ)
rows_at ring zero rows l = rows
rows_at ring (suc k) rows l = rows_at ring k (row_of (next_link ring l)) (next_link ring l)

rows_at-get_elem? :
    (ring : List (List ℕ)) (k : ℕ) (l : List (List ℕ))
    → k < length l
    → rows_at ring k (row_of l) l ≡ get_elem? l k
rows_at-get_elem? ring k [] h = absurd (omega (arith, h))
rows_at-get_elem? ring zero (x ∷ l) h = refl
rows_at-get_elem? ring (suc k) (x ∷ l) h = rows_at-get_elem? ring k l (omega (arith, h))

rows_at_cases :
    (ring : List (List ℕ)) (cr : List ℕ) (k : ℕ)
    → k < length ring
    → rows_at ring k (some cr) ring ≡ (if k == 0 then some cr else get_elem? ring k)
rows_at_cases ring cr zero h = refl
rows_at_cases [] cr (suc k) h = absurd (omega (arith, h))
rows_at_cases (x ∷ ring) cr (suc k) h =
    ground (arith, rows_at-get_elem? (x ∷ ring) k ring (omega (arith, h)))

module _ (seconds : ℕ → ℕ → ℕ) (mktime : ℕ → ℕ) where
  cell_value-Typed :
      (t : ColumnType) (x : Field) (size : Option ℕ) → Typed t (cell_value seconds mktime t x size)
  unfolding cell_value column_type
  cell_value-Typed t x size = ground arith

  cell_value-blob :
      (t : ColumnType) (x : Field) (size : Option ℕ)
      → is_blob t ≡ true
      → cell_value seconds mktime t x size ≡ some (bytes x.string_ptr size)
  unfolding cell_value
  cell_value-blob t x size h = ground (arith, h)

  init_cells-Typed :
      (ring : List (List ℕ)) (rows : Option (List ℕ)) (l : List (List ℕ)) (i : ℕ)
      (cells : List (ColumnType × Field))
      → AllTyped cells (init_cells seconds mktime ring rows l i cells)
  unfolding init_cells
  init_cells-Typed ring rows l i [] = tt
  init_cells-Typed ring rows l i ((t, x) ∷ cells) =
      (cell_value-Typed t x _, init_cells-Typed ring _ _ (i + 1) cells)

  -- Every value that `esql_mysac_row_init` puts into a row has the type that
  -- `esql_module_setup_cb` gave the column, and only a cell of a column of unknown type has none.
  pub row_init-AllTyped :
      (ring : List (List ℕ)) (cr : List ℕ) (cells : List (ColumnType × Field))
      → AllTyped cells (row_init seconds mktime ring cr cells)
  unfolding row_init
  row_init-AllTyped ring cr cells = init_cells-Typed ring (some cr) ring 0 cells

  init_cells-get_elem? :
      (ring : List (List ℕ)) (cells : List (ColumnType × Field)) (k : ℕ) (rows : Option (List ℕ))
      (l : List (List ℕ)) (i : ℕ) (t : ColumnType) (x : Field)
      → get_elem? cells k ≡ some (t, x)
      → get_elem? (init_cells seconds mktime ring rows l i cells) k
        ≡ some (cell_value seconds mktime t x (length_at (rows_at ring k rows l) (i + k)))
  unfolding init_cells
  init_cells-get_elem? ring [] k rows l i t x e = cc
  init_cells-get_elem? ring ((u, y) ∷ cells) zero rows l i t x e =
      let z : i + 0 ≡ i = omega arith in cc
  init_cells-get_elem? ring ((u, y) ∷ cells) (suc k) rows l i t x e = rw (add_suc i k) (
      init_cells-get_elem? ring cells k (row_of (next_link ring l)) (next_link ring l) (i + 1) t x
        e)
    where
      add_suc : (i k : ℕ) → i + suc k ≡ (i + 1) + k
      add_suc i k = omega arith

  -- A blob in the first column has the size that mysac gives for it. One in a later column, in a
  -- result with more rows than the column's number, has the size that mysac gives for the same
  -- column of the row of that number, whatever row it stands in: the loop moves on to the next row
  -- with each column.
  pub row_init-blob_size :
      (ring : List (List ℕ)) (cr : List ℕ) (cells : List (ColumnType × Field)) (k : ℕ)
      (t : ColumnType) (x : Field)
      → get_elem? cells k ≡ some (t, x)
      → is_blob t ≡ true
      → k < length ring
      → get_elem? (row_init seconds mktime ring cr cells) k
        ≡ some
            (some (bytes x.string_ptr (length_at (if k == 0 then some cr else get_elem? ring k) k)))
  unfolding row_init
  row_init-blob_size ring cr cells k t x e b h =
      init_cells-get_elem? ring cells k (some cr) ring 0 t x e
      ∙ ap some (
          rw (
            cell_value-blob t x (length_at (rows_at ring k (some cr) ring) (0 + k)) b,
            rows_at_cases ring cr k h,
            zero-add,
          ))
