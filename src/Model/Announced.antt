-- ===== src/Model/Announced.antt =====
-- What a listener to a model's load state hears.
use esskyuehl.Prelude.{
  ℕ, ◌≡◌, ◌≢◌, inl, inr, ap, sym, subst, ◌∙◌, Bool, true, false, not, List, [], ◌∷◌, Option, none,
  some, Bytes, is_some, if◌then◌else◌,
}
use esskyuehl.State.{World, Env, EsqlType}
use esskyuehl.Connect.{database_set}
use esskyuehl.Model.{
  Masks, Model, load_set, connect_cb, database_name_set, table_add, properties_list_get, load,
  unload, construct, create_table_cb,
}
use esskyuehl.Model.Status.{load_set_cases}

-- The operations on a model, its callbacks, and any change of the connection behind it.
pub data Op : Type 0 where
  constructs : List EsqlType → Option Bytes → Option Bytes → Option Bytes → Op
  loads unloads comes_up : Op
  names_database : Option Bytes → Op
  adds_table : Option Bytes → Bytes → Bytes → Op
  adds_column : Bytes → Op
  lists_properties : List Bytes → Op
  elsewhere : World → Op

abbrev pub last_heard : ℕ → List ℕ → ℕ
last_heard s [] = s
last_heard s (x ∷ xs) = x

-- Each state that was announced differs from the one before it.
abbrev pub Changes : ℕ → List ℕ → Type 0
Changes s [] = Unit
Changes s (x ∷ xs) = (x ≢ last_heard s xs) × Changes s xs

-- A listener that knew the state `s` at first knows the state of the model.
abbrev pub Heard : ℕ → Model → Type 0
Heard s m = (last_heard s m.announced ≡ m.status) × Changes s m.announced

-- An operation that is none of the load state.
Heard-same :
    (s : ℕ) (m v : Model) → v.announced ≡ m.announced → v.status ≡ m.status → Heard s m → Heard s v
Heard-same s m v a t h = (ap (last_heard s) a ∙ h.0 ∙ sym t, subst (Changes s) (sym a) h.1)

if_model : (P : Model → Type 0) (b : Bool) (x y : Model) → P x → P y → P (if b then x else y)
if_model P true x y p q = p
if_model P false x y p q = q

if_pair :
    (P : Model → Type 0) (b : Bool) (x y : Model × ℕ) → P x.0 → P y.0 → P (if b then x else y).0
if_pair P true x y p q = p
if_pair P false x y p q = q

module _ (k : Masks) (env : Env) where
  abbrev pub apply_op : Op → Model → Model
  apply_op (constructs modules addr user password) m = construct k modules addr user password m
  apply_op loads m = load k env m
  apply_op unloads m = unload k env m
  apply_op comes_up m = connect_cb k m
  apply_op (names_database name) m = (database_name_set k name m).0
  apply_op (adds_table name row type) m = (table_add k env name row type m).0
  apply_op (adds_column table) m = create_table_cb env table m
  apply_op (lists_properties names) m = (properties_list_get k names m).0
  apply_op (elsewhere w) m = record m { world = w }

  abbrev pub apply_ops : List Op → Model → Model
  apply_ops [] m = m
  apply_ops (o ∷ os) m = apply_ops os (apply_op o m)

  load_set-Heard : (s t : ℕ) (m : Model) → Heard s m → Heard s (load_set k t m)
  load_set-Heard s t m h = elim (load_set_cases k t m) [
    | inl (a, e) ↦ Heard-same s m (load_set k t m) a e h
    | inr (a, n) ↦ (ap (last_heard s) a, subst (Changes s) (sym a) ((λ e. n (e ∙ h.0)), h.1))
  ]

  construct-Heard :
      (modules : List EsqlType) (addr user password : Option Bytes) (s : ℕ) (m : Model)
      → Heard s m
      → Heard s (construct k modules addr user password m)
  unfolding construct
  construct-Heard modules none user password s m h = h
  construct-Heard modules (some addr) none password s m h = h
  construct-Heard modules (some addr) (some user) none s m h = h
  construct-Heard modules (some addr) (some user) (some password) s m h =
      load_set-Heard s k.unloaded _ h

  load-Heard : (s : ℕ) (m : Model) → Heard s m → Heard s (load k env m)
  unfolding load
  load-Heard s m h = if_model (Heard s) (not (is_some m.world.e.database)) m _ h (
      if_model (Heard s) m.world.e.connected (load_set k k.loaded m) _
        (load_set-Heard s k.loaded m h) (load_set-Heard s k.loading m h))

  unload-Heard : (s : ℕ) (m : Model) → Heard s m → Heard s (unload k env m)
  unfolding unload
  unload-Heard s m h =
      if_model (Heard s) m.world.e.connected _ m (load_set-Heard s k.unloaded _ h) h

  named-Heard :
      (s : ℕ) (name : Option Bytes) (m : Model) → Heard s m → Heard s (database_name_set k name m).0
  unfolding database_name_set
  named-Heard s name m h = if_pair (Heard s) (database_set name m.world).1 _ _ h h

  table_add-Heard :
      (s : ℕ) (name : Option Bytes) (row type : Bytes) (m : Model)
      → Heard s m
      → Heard s (table_add k env name row type m).0
  unfolding table_add
  table_add-Heard s none row type m h = h
  table_add-Heard s (some name) row type m h =
      if_pair (Heard s) (not (is_some m.world.e.database)) (m, k.error) _ h
        (if_pair (Heard s) (not m.world.e.connected) (m, k.error) _ h h)

  listed-Heard :
      (s : ℕ) (names : List Bytes) (m : Model)
      → Heard s m
      → Heard s (properties_list_get k names m).0
  unfolding properties_list_get
  listed-Heard s names m h = by_list m.properties_list
    where
      by_list :
          (l : List Bytes)
          → Heard s (elim l [ [] ↦ record m { properties_list = names } | x ∷ xs ↦ m ])
      by_list [] = h
      by_list (x ∷ xs) = h

  apply_op-Heard : (o : Op) (s : ℕ) (m : Model) → Heard s m → Heard s (apply_op o m)
  apply_op-Heard (constructs modules addr user password) s m h =
      construct-Heard modules addr user password s m h
  apply_op-Heard loads s m h = load-Heard s m h
  apply_op-Heard unloads s m h = unload-Heard s m h
  apply_op-Heard comes_up s m h = unfold connect_cb in load_set-Heard s k.loaded m h
  apply_op-Heard (names_database name) s m h = named-Heard s name m h
  apply_op-Heard (adds_table name row type) s m h = table_add-Heard s name row type m h
  apply_op-Heard (adds_column table) s m h = unfold create_table_cb in h
  apply_op-Heard (lists_properties names) s m h = listed-Heard s names m h
  apply_op-Heard (elsewhere w) s m h = h

  apply_ops-Heard : (os : List Op) (s : ℕ) (m : Model) → Heard s m → Heard s (apply_ops os m)
  apply_ops-Heard [] s m h = h
  apply_ops-Heard (o ∷ os) s m h = apply_ops-Heard os s (apply_op o m) (apply_op-Heard o s m h)

  -- Whatever operations and callbacks are made on a model that has announced nothing, and whatever
  -- becomes of its connection meanwhile, the last load state announced is the model's own, or that
  -- is still the first one, and no announcement repeats the state before it.
  pub apply_ops-announced :
      (os : List Op) (m : Model) → m.announced ≡ [] → Heard m.status (apply_ops os m)
  apply_ops-announced os m e =
      apply_ops-Heard os m.status m
        (ap (last_heard m.status) e, subst (Changes m.status) (sym e) tt)
