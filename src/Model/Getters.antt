-- ===== src/Model/Getters.antt =====
-- The getters of src/lib/esql_model.c, and the operations that it does not support.
use esskyuehl.Prelude.{
  ℕ, ◌≡◌, refl, ap, Bool, true, false, Option, none, some, arith, Bytes, if◌then◌else◌,
}
use esskyuehl.State.{World}
use esskyuehl.Connect.{database_set, queue_database}
use esskyuehl.Object.Getters.{conn, database_get}
use esskyuehl.Model.{Masks, Model, database_name_set}

-- `_esql_model_database_name_get`
unfoldable pub database_name_get : Model → Option Bytes × ℕ
database_name_get m = (database_get (some (conn m.world.e)), m.status)

-- `_esql_model_emodel_load_status_get`
abbrev pub load_status_get : Model → ℕ
load_status_get m = m.status

-- `_esql_model_emodel_children_count_get`
abbrev pub children_count_get : Model → ℕ × ℕ
children_count_get m = (m.children, m.status)

module _ (k : Masks) where
  -- `_esql_model_emodel_property_set`
  abbrev pub property_set : Model → ℕ
  property_set m = k.error

  -- `_esql_model_emodel_property_get`
  abbrev pub property_get : Model → ℕ
  property_get m = k.error

  -- `_esql_model_emodel_children_slice_get`
  abbrev pub children_slice_get : Model → ℕ
  children_slice_get m = k.error

database_set-name :
    (name : Bytes) (w : World)
    → w.e.database ≡ none
    → ((database_set (some name) w).0.e.database ≡ some name)
      × ((database_set (some name) w).1 ≡ true)
unfolding database_set queue_database
database_set-name name w e = ground arith

-- A name that is set on a model whose connection has none is what `_esql_model_database_name_get`
-- gives, with the load state as it was.
pub database_name_get-set :
    (k : Masks) (name : Bytes) (m : Model)
    → m.world.e.database ≡ none
    → (database_name_get (database_name_set k (some name) m).0 ≡ (some name, m.status))
      × ((database_name_set k (some name) m).1 ≡ m.status)
unfolding database_name_get database_name_set
database_name_get-set k name m e =
    let (d, b) = database_set-name name m.world e in
    by_result (database_set (some name) m.world) d b
  where
    named : World × Bool → Model × ℕ
    named (w, ok) =
        let v = record m { world = w } in
        if ok then (record v { database_name = some name }, v.status) else (v, k.error)

    by_result :
        (r : World × Bool)
        → r.0.e.database ≡ some name
        → r.1 ≡ true
        → (database_name_get (named r).0 ≡ (some name, m.status)) × ((named r).1 ≡ m.status)
    by_result (w, true) d b = (ap (λ (o : Option Bytes). (o, m.status)) d, refl)
    by_result (w, false) d b = cc
