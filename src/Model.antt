-- ===== src/Model.antt =====
-- src/lib/esql_model.c: a model object over a connection of type SQLite. The values of
-- `Emodel_Load_Status` are a parameter, as the object system and its events are other libraries.
pub mod Status
pub mod Tables
pub mod Announced
pub mod Getters
use Prim.Native.Nat.{bit_and, bit_or, bit_xor}
use esskyuehl.Prelude.{
  ℕ, zero, suc, ◌+◌, ◌-◌, Bool, true, false, not, ◌&&◌, ◌||◌, List, [], ◌∷◌, ◌++◌, Option, none,
  some, Bytes, codes, ◌==◌, ltb, if◌then◌else◌, length, take, u32_mod, is_some,
}
use esskyuehl.State.{Conn, World, Env, EsqlType, sqlite}
use esskyuehl.Query.{query, query_callback_set}
use esskyuehl.Object.{Fate, new, free}
use esskyuehl.Connect.{connect, disconnect, database_set, connect_callback_set}

-- EMODEL_LOAD_STATUS_UNLOADED and so on.
pub record Masks : Type 0 where
  pub unloaded : ℕ
  pub error : ℕ
  pub loaded_properties : ℕ
  pub loaded_children : ℕ
  pub loaded : ℕ
  pub loading_properties : ℕ
  pub loading_children : ℕ
  pub loading : ℕ

-- struct _Esql_Model_Data with the connection `e` in hand, the address of the struct itself, the
-- number of `children_list`, and the load states that were announced, the last one first.
pub record Model : Type 0 where
  pub world : World
  pub self : ℕ
  pub properties_list : List Bytes
  pub children : ℕ
  pub addr : Bytes
  pub user : Bytes
  pub password : Bytes
  pub database_name : Option Bytes
  pub table_name : Option Bytes
  pub row_name : Bytes
  pub row_type : Bytes
  pub status : ℕ
  pub announced : List ℕ

-- `_esql_connect_cb`, `_esql_query_create_table_cb` and `_esql_query_alter_table_cb`, as the
-- numbers that callbacks are known by.
abbrev pub connect_cb_id : ℕ
connect_cb_id = 1

abbrev pub create_table_cb_id : ℕ
create_table_cb_id = 2

abbrev pub alter_table_cb_id : ℕ
alter_table_cb_id = 3

-- `x & ~y` on 32 bits.
abbrev pub clear_bits : ℕ → ℕ → ℕ
clear_bits x y = bit_and x (bit_xor y (u32_mod - 1))

-- The text that `snprintf` leaves of "CREATE TABLE %s" in `strlen(table_name)` bytes.
unfoldable pub create_text : Bytes → Bytes
create_text name = take (length name - 1) (codes "CREATE TABLE " ++ name)

abbrev pub alter_full : Bytes → Bytes → Bytes → Bytes
alter_full table row type =
    codes "ALTER TABLE " ++ (table ++ (codes " ADD COLUMN " ++ (row ++ (codes " " ++ type))))

-- `total_len`, and the text that `snprintf` leaves in as many bytes.
unfoldable pub total_len : Bytes → Bytes → Bytes → ℕ
total_len table row type =
    length (codes "ALTER TABLE ")
    + length table
    + length (codes " ADD COLUMN ")
    + length row
    + 1
    + length type

unfoldable pub alter_text : Bytes → Bytes → Bytes → Bytes
unfolding total_len
alter_text table row type = take (total_len table row type - 1) (alter_full table row type)

-- `_esql_query_create_table_cb`, where a table was named.
unfoldable pub create_table_cb : Env → Bytes → Model → Model
unfolding alter_text query query_callback_set
create_table_cb env table m =
    let (w, id) = query env (some m.self) (some (alter_text table m.row_name m.row_type)) m.world in
    record m { world = if id == 0 then w else (query_callback_set id (some alter_table_cb_id) w).0 }

-- The part of `_esql_model_table_add` behind its tests.
abbrev pub table_added : Env → Bytes → Bytes → Bytes → Model → Model
table_added env name row type m =
    let (w, id) = query env (some m.self) (some (create_text name)) m.world in
    record m {
      world = (query_callback_set id (some create_table_cb_id) w).0;
      table_name = some name;
      row_name = row;
      row_type = type;
    }

module _ (k : Masks) where
  -- The `switch` on the two states together.
  unfoldable pub settle : ℕ → ℕ
  settle s =
      if s == k.loaded_properties
      then clear_bits s k.loading_properties
      else if s == k.loading_properties
      then clear_bits s k.loaded_properties
      else if s == k.loaded_children
      then clear_bits s k.loading_children
      else if s == k.loading_children
      then clear_bits s k.loaded_children
      else s

  -- `status & (EMODEL_LOAD_STATUS_LOADED | EMODEL_LOAD_STATUS_LOADING)`
  abbrev pub has_load : ℕ → Bool
  has_load s = not (bit_and s (bit_or k.loaded k.loading) == 0)

  unfoldable pub next_status : ℕ → ℕ → ℕ
  unfolding settle
  next_status old s = if has_load old && has_load s then settle (bit_or old s) else s

  -- `if (pd->load.status != load.status)`, with the announcement.
  unfoldable pub set_status : ℕ → Model → Model
  set_status t m = if m.status == t then m else record m { status = t; announced = t ∷ m.announced }

  -- `_load_set`
  unfoldable pub load_set : ℕ → Model → Model
  unfolding next_status set_status
  load_set s m = set_status (next_status m.status s) m

  -- `_esql_connect_cb`
  unfoldable pub connect_cb : Model → Model
  unfolding load_set
  connect_cb m = load_set k.loaded m

  -- `_esql_model_database_name_set`
  unfoldable pub database_name_set : Option Bytes → Model → Model × ℕ
  unfolding database_set
  database_name_set name m =
      let (w, ok) = database_set name m.world in
      let v = record m { world = w } in
      if ok then (record v { database_name = name }, v.status) else (v, k.error)

  -- `_esql_model_table_add`
  unfoldable pub table_add : Env → Option Bytes → Bytes → Bytes → Model → Model × ℕ
  unfolding query query_callback_set create_text
  table_add env none row type m = (m, k.error)
  table_add env (some name) row type m =
      if not (is_some m.world.e.database)
      then (m, k.error)
      else if not m.world.e.connected
      then (m, k.error)
      else (table_added env name row type m, m.status)

  -- `_esql_model_emodel_properties_list_get`; `names` are the members of
  -- ESQL_MODEL_PROPERTIES_DESC.
  unfoldable pub properties_list_get : List Bytes → Model → Model × ℕ
  properties_list_get names m =
      (elim m.properties_list [ [] ↦ record m { properties_list = names } | x ∷ xs ↦ m ], m.status)

  -- `_esql_model_emodel_load`
  unfoldable pub load : Env → Model → Model
  unfolding load_set connect_callback_set connect
  load env m =
      if not (is_some m.world.e.database)
      then m
      else if m.world.e.connected
      then load_set k.loaded m
      else (let v = load_set k.loading m in
          let w = connect_callback_set (some connect_cb_id) (some m.self) v.world in
          record v { world = (connect env (some m.addr) m.user (some m.password) w).0 })

  -- `_esql_model_emodel_unload`
  unfoldable pub unload : Env → Model → Model
  unfolding load_set disconnect
  unload env m =
      if m.world.e.connected
      then load_set k.unloaded (record m { world = disconnect env m.world })
      else m

  -- `_esql_model_constructor` on data that is all zero: a new object of type SQLite.
  unfoldable pub construct :
      List EsqlType → Option Bytes → Option Bytes → Option Bytes → Model → Model
  unfolding load_set new
  construct modules (some addr) (some user) (some password) m = load_set k.unloaded (record m {
    world = record (m.world) { before = []; e = new modules sqlite; after = [] };
    addr = addr;
    user = user;
    password = password;
  })
  construct modules _ _ _ m = m

-- `_esql_model_eo_base_destructor`: what becomes of the connection.
unfoldable pub destruct : Env → Bool → Model → Fate
unfolding free
destruct env modules m = free env modules m.world
