-- ===== src/Result/References.antt =====
-- What a result's references keep alive, and what its iterator yields.
use esskyuehl.Prelude.{
  ℕ, zero, suc, ◌<◌, ◌≡◌, ◌≢◌, refl, ap, sym, ◌∙◌, List, [], ◌∷◌, Option, none, some, arith, Bytes,
  ltb, if◌then◌else◌, length, get_elem?, is_some,
}
use esskyuehl.Result.{
  Result, ref, unref, cols_count, name_at, name_count, col_name_get, value_column_get, RowIterator,
  row_iterator_new, row_iterator_next, row_iterator_free, iterate, first_cell, res_to,
}

get_elem?-ltb {ℓ} :
    {A : Type ℓ} (xs : List A) (i : ℕ) → is_some (get_elem? xs i) ≡ ltb i (length xs)
get_elem?-ltb [] i = ground arith
get_elem?-ltb (x ∷ xs) zero = ground arith
get_elem?-ltb (x ∷ xs) (suc i) = ground (arith, get_elem?-ltb xs i)

module _ {ℓ} {V : Type ℓ} where
  abbrev then_do : (Result V → Option (Result V)) → Option (Result V) → Option (Result V)
  then_do f none = none
  then_do f (some r) = f r

  -- `k` calls of `esql_res_unref`.
  abbrev pub unrefs : ℕ → Result V → Option (Result V)
  unrefs zero r = some r
  unrefs (suc k) r = then_do (unrefs k) (unref r)

  pub unref_last : (r : Result V) → r.refcount ≡ 1 → unref r ≡ none
  unfolding unref
  unref_last r e = ground arith

  pub unref_more :
      (r : Result V) (k : ℕ)
      → r.refcount ≡ suc (suc k)
      → unref r ≡ some (record r { refcount = suc k })
  unfolding unref
  unref_more r k e = ground arith

  unrefs_zero : (r : Result V) → r.refcount ≡ 1 → some r ≡ some (record r { refcount = 1 })
  unrefs_zero r e = ap some (λ i. record r { refcount = e i })

  -- A result lives through all calls of `esql_res_unref` but the last of as many as it has
  -- references, and that one frees it.
  pub unrefs_lem :
      (k : ℕ) (r : Result V)
      → r.refcount ≡ suc k
      → (unrefs k r ≡ some (record r { refcount = 1 })) × (unrefs (suc k) r ≡ none)
  unrefs_lem zero r e = (unrefs_zero r e, rw (unref_last r e))
  unrefs_lem (suc k) r e =
      let (a, b) = unrefs_lem k (record r { refcount = suc k }) refl in
      (rw (unref_more r k e) a, rw (unref_more r k e) b)

  -- The rows that an iterator yields, one call of `next` after the other.
  abbrev pub Yields : List (List V) → RowIterator V → Type ℓ
  Yields [] it = row_iterator_next it ≡ none
  Yields (x ∷ xs) it =
      (next : RowIterator V) × (row_iterator_next it ≡ some (x, next))
      × (next.res ≡ it.res)
      × Yields xs next

  Yields-current : (xs : List (List V)) (it : RowIterator V) → it.current ≡ xs → Yields xs it
  unfolding row_iterator_next
  Yields-current [] it e = rw e
  Yields-current (x ∷ xs) it e =
      (record it { current = xs }, rw e, refl, Yields-current xs (record it { current = xs }) refl)

  -- An iterator over a result that has rows yields all of them in order and then ends, and holds a
  -- reference of its own: freeing it leaves the result as it was.
  pub row_iterator_lem :
      (r : Result V)
      → r.rows ≢ []
      → 0 < r.refcount
      → (it : RowIterator V) × (row_iterator_new r ≡ some it)
        × Yields r.rows it
        × (row_iterator_free it ≡ some r)
  row_iterator_lem r h p = (it, made r.rows refl h, Yields-current r.rows it refl, freed)
    where
      it : RowIterator V
      it = record { res = ref r; current = r.rows }

      made : (xs : List (List V)) → xs ≡ r.rows → xs ≢ [] → row_iterator_new r ≡ some it
      made [] e n = absurd (n refl)
      made (x ∷ xs) e n =
          unfold row_iterator_new in
          ap (iterate r) (sym e) ∙ ap (λ l. some (record { res = ref r; current = l })) e

      freed : row_iterator_free it ≡ some r
      freed = unfold row_iterator_free ref in ground arith

  -- A column has a name and a cell exactly where its index is below the number of columns, given
  -- that each row has a cell for each column.
  pub value_column_get-col_name_get :
      (r : Result V) (row : List V) (column : ℕ)
      → length row ≡ cols_count r
      → is_some (value_column_get r row column) ≡ is_some (col_name_get r column)
  value_column_get-col_name_get r row column e =
      unfold value_column_get col_name_get in both r.names e
    where
      both :
          (ns : Option (List Bytes))
          → length row ≡ name_count ns
          → is_some (if ltb column (name_count ns) then get_elem? row column else none)
            ≡ is_some (name_at ns column)
      both none e = ground arith
      both (some ns) e = ground (arith, get_elem?-ltb row column, get_elem?-ltb ns column)

  first_cell-none : (r : Result V) → r.row_count ≢ 1 → first_cell r ≡ none
  first_cell-none r h = unfold first_cell in ground arith

  -- Only a result of exactly one row is converted; any other gives the value for a failure.
  pub res_to-ne_one {κ} :
      {T : Type κ} (convert : V → Option T) (zero_value : T) (r : Result V)
      → r.row_count ≢ 1
      → res_to convert zero_value r ≡ zero_value
  unfolding res_to
  res_to-ne_one convert zero_value r h = ground (arith, first_cell-none r h)
