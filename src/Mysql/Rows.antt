-- ===== src/Mysql/Rows.antt =====
-- The rows of a result.
use esskyuehl.Prelude.{ℕ, suc, ◌+◌, ◌≡◌, refl, sym, ◌∙◌, List, [], ◌∷◌, some, arith, length}
use esskyuehl.State.{Res, new_res}
use esskyuehl.Mysql.{Mysac, MysacRes, add_rows, with_rows, fill_res}

-- The count of a result's rows is right.
abbrev pub Counted : Res → Type 0
Counted r = r.row_count ≡ r.rows

module _ {ℓ} {R : Type ℓ} where
  add_rows-rows :
      (xs : List R) (r : Res)
      → ((add_rows xs r).rows ≡ r.rows + length xs) × ((add_rows xs r).row_count ≡ r.row_count)
  unfolding add_rows
  add_rows-rows [] r = (omega arith, refl)
  add_rows-rows (x ∷ xs) r =
      let (a, b) = add_rows-rows xs (record r { rows = suc r.rows }) in (omega (arith, a), b)

  with_rows-Counted :
      (m : Mysac) (n : ℕ) (xs : List R) (r : Res)
      → n ≡ length xs
      → r.rows ≡ 0
      → r.row_count ≡ 0
      → Counted (with_rows m n xs r) × ((with_rows m n xs r).rows ≡ length xs)
  with_rows-Counted m n [] r e z c = (c ∙ sym z, z)
  with_rows-Counted m n (x ∷ xs) r e z c =
      let (a, b) = add_rows-rows (x ∷ xs) (record r { row_count = n }) in
      (b ∙ e ∙ omega (arith, z) ∙ sym a, a ∙ omega (arith, z))

  -- A result that the backend fills in has a row for each row that mysac gives, and their number as
  -- its count, also where it gives none.
  pub fill_res-Counted :
      (m : Mysac) (x : MysacRes R)
      → x.num_rows ≡ length x.fetched
      → Counted (fill_res m (some x) new_res)
        × ((fill_res m (some x) new_res).rows ≡ length x.fetched)
  unfolding fill_res
  fill_res-Counted m x e = with_rows-Counted m x.num_rows x.fetched _ e refl refl
