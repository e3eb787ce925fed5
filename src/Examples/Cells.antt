-- ===== src/Examples/Cells.antt =====
-- Rows of MySQL.
use esskyuehl.Prelude.{◌≡◌, refl, [], ◌∷◌, some, arith, get_elem?, codes}
use esskyuehl.Mysql.{mysql_long, mysql_blob, mysql_null}
use esskyuehl.Mysql.Values.{Field, bytes, AllTyped, row_init, row_init-AllTyped, row_init-blob_size}

abbrev field : Field
field = record {
  tv_sec = 1;
  tv_usec = 2;
  tm = 3;
  string_ptr = some (codes "ab");
  stiny = 4;
  ssmall = 5;
  sint = 6;
  sbigint = 7;
  mfloat = 8;
  mdouble = 9;
}

row_init-AllTyped_example : AllTyped ((mysql_long, field) ∷ (mysql_null, field) ∷ []) (
    row_init
      (λ s u. s)
      (λ t. t)
      ((4 ∷ 0 ∷ []) ∷ [])
      (4 ∷ 0 ∷ [])
      ((mysql_long, field) ∷ (mysql_null, field) ∷ []))
row_init-AllTyped_example =
    row_init-AllTyped (λ s u. s) (λ t. t) ((4 ∷ 0 ∷ []) ∷ []) (4 ∷ 0 ∷ [])
      ((mysql_long, field) ∷ (mysql_null, field) ∷ [])

-- The blob of the first of two rows is shown with the size 9 of the second one's.
row_init-blob_size_example :
    get_elem?
      (row_init
        (λ s u. s)
        (λ t. t)
        ((4 ∷ 2 ∷ []) ∷ (4 ∷ 9 ∷ []) ∷ [])
        (4 ∷ 2 ∷ [])
        ((mysql_long, field) ∷ (mysql_blob, field) ∷ []))
      1
    ≡ some (some (bytes (some (codes "ab")) (some 9)))
row_init-blob_size_example =
    row_init-blob_size (λ s u. s) (λ t. t) ((4 ∷ 2 ∷ []) ∷ (4 ∷ 9 ∷ []) ∷ []) (4 ∷ 2 ∷ [])
      ((mysql_long, field) ∷ (mysql_blob, field) ∷ []) 1 mysql_blob field refl refl (omega arith)
