-- ===== src/Result.antt =====
-- src/lib/esql_res.c and src/lib/esql_convert.c: results, their references, rows and cells.
pub mod References
pub mod Freeing
pub mod Getters
use esskyuehl.Prelude.{
  ℕ, zero, suc, ◌+◌, ◌-◌, Bool, true, false, List, [], ◌∷◌, Option, none, some, Bytes, ◌==◌, ltb,
  if◌then◌else◌, length, get_elem?, is_some,
}

-- A row is the values of its cells, of a type `V` of `eina`.
module _ {ℓ} (V : Type ℓ) where
  -- struct Esql_Res, as far as this file reads it; `names` is the column description, where there
  -- is one. The reference count is positive until the result is freed.
  pub record Result : Type ℓ where
    pub rows : List (List V)
    pub row_count : ℕ
    pub names : Option (List Bytes)
    pub refcount : ℕ

  -- struct Esql_Row_Iterator: `current` is the list from the row in hand on.
  pub record RowIterator : Type ℓ where
    pub res : Result
    pub current : List (List V)

abbrev pub name_at : Option (List Bytes) → ℕ → Option Bytes
name_at none column = none
name_at (some ns) column = if ltb column (length ns) then get_elem? ns column else none

abbrev pub name_count : Option (List Bytes) → ℕ
name_count none = 0
name_count (some ns) = length ns

module _ {ℓ} {V : Type ℓ} where
  -- `esql_res_ref`
  unfoldable pub ref : Result V → Result V
  ref r = record r { refcount = r.refcount + 1 }

  -- `esql_res_unref`, and `esql_res_free`: `none` is a result that was freed. What becomes of
  -- `res->e->res` is not part of the result.
  unfoldable pub unref : Result V → Option (Result V)
  unref r =
      let s = record r { refcount = r.refcount - 1 } in if s.refcount == 0 then none else some s

  -- `esql_res_cols_count`
  abbrev pub cols_count : Result V → ℕ
  cols_count r = name_count r.names

  -- `esql_res_col_name_get`
  unfoldable pub col_name_get : Result V → ℕ → Option Bytes
  col_name_get r column = name_at r.names column

  -- `esql_row_value_column_get`, on a row of the result.
  unfoldable pub value_column_get : Result V → List V → ℕ → Option V
  value_column_get r row column = if ltb column (cols_count r) then get_elem? row column else none

  abbrev pub iterate : Result V → List (List V) → Option (RowIterator V)
  iterate r [] = none
  iterate r (x ∷ xs) = some (record { res = ref r; current = x ∷ xs })

  -- `esql_res_row_iterator_new`
  unfoldable pub row_iterator_new : Result V → Option (RowIterator V)
  row_iterator_new r = iterate r r.rows

  abbrev pub advance : RowIterator V → List (List V) → Option (List V × RowIterator V)
  advance it [] = none
  advance it (x ∷ xs) = some (x, record it { current = xs })

  -- `esql_row_iterator_next`
  unfoldable pub row_iterator_next : RowIterator V → Option (List V × RowIterator V)
  row_iterator_next it = advance it it.current

  -- `esql_row_iterator_container_get`
  abbrev pub container_get : RowIterator V → Result V
  container_get it = it.res

  -- `eina_row_iterator_free`
  unfoldable pub row_iterator_free : RowIterator V → Option (Result V)
  unfolding unref
  row_iterator_free it = unref it.res

  -- The head of the `esql_res_to_…` functions: the first cell, unless there is more than one row.
  abbrev pub head_cell : List (List V) → Option V
  head_cell [] = none
  head_cell ([] ∷ rows) = none
  head_cell ((v ∷ vs) ∷ rows) = some v

  unfoldable pub first_cell : Result V → Option V
  first_cell r =
      if ltb 1 r.row_count then none else if r.row_count == 0 then none else head_cell r.rows

-- `esql_res_to_string`, `_blob`, `_lli`, `_double` and `_ulong`: `eina_value_convert` to the type
-- asked for, and the value 0 or NULL where there is no cell or the conversion fails.
abbrev pub converted {ℓ κ} : {V : Type ℓ} {T : Type κ} → (V → Option T) → T → Option V → T
converted convert zero_value none = zero_value
converted convert zero_value (some v) = elim (convert v) [ none ↦ zero_value | some t ↦ t ]

unfoldable pub res_to {ℓ κ} : {V : Type ℓ} {T : Type κ} → (V → Option T) → T → Result V → T
unfolding first_cell
res_to convert zero_value r = converted convert zero_value (first_cell r)
