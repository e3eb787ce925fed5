-- ===== src/Object.antt =====
-- src/lib/esql.c: the life of a connection object, and the start and end of the library.
pub mod Life
pub mod Library
pub mod Mempools
pub mod Types
pub mod Modules
pub mod Getters
use esskyuehl.Prelude.{
  pos, ℕ, ◌-◌, Bool, true, false, not, ◌&&◌, List, [], ◌∷◌, Option, none, some, ◌==◌, if◌then◌else◌,
  is_some,
}
use esskyuehl.State.{
  Conn, Pool, World, Env, Act, EsqlType, no_type, mysql, postgresql, sqlite, idle, act, set_e, decr,
  backend_free, on_pool,
}
use esskyuehl.Connect.{disconnect}

abbrev pub same_type : EsqlType → EsqlType → Bool
same_type no_type no_type = true
same_type mysql mysql = true
same_type postgresql postgresql = true
same_type sqlite sqlite = true
same_type _ _ = false

-- `esql_mysac_init`, the only one with a `database_set` hook, which makes its `db` at once.
abbrev pub mysac_init : Conn → Conn
mysac_init c = record c { kind = mysql; database_hook = true; free_hook = true; db = true }

-- `esql_postgresql_init`
abbrev pub postgresql_init : Conn → Conn
postgresql_init c = record c { kind = postgresql; free_hook = true }

-- `esql_sqlite_init`
abbrev pub sqlite_init : Conn → Conn
sqlite_init c = record c { kind = sqlite; free_hook = true }

-- `esql_module_init` of the three modules.
unfoldable pub module_init : EsqlType → Conn → Conn
module_init mysql c = mysac_init c
module_init postgresql c = postgresql_init c
module_init sqlite c = sqlite_init c
module_init no_type c = c

-- The walk over `esql_modules`, a list of the types that the loaded modules have.
unfoldable pub init_modules : EsqlType → List EsqlType → Conn → Conn
unfolding module_init
init_modules type [] c = c
init_modules type (m ∷ ms) c =
    init_modules type ms (if same_type type m then module_init m c else c)

-- `memset(&e->backend, 0, …)`
abbrev pub clear_backend : Conn → Conn
clear_backend c = record c { db = false; database_hook = false; free_hook = false }

-- `esql_type_set`
unfoldable pub type_set : List EsqlType → EsqlType → World → World × Bool
unfolding init_modules
type_set modules type w =
    let v =
      if not (same_type type w.e.kind) && (w.e.db && w.e.free_hook)
      then act backend_free w
      else w in
    let c = init_modules type modules (clear_backend v.e) in (set_e c v, same_type c.kind type)

-- `calloc(1, sizeof(Esql))`
abbrev pub blank : Conn
blank = record {
  error = none;
  connected = false;
  database = none;
  kind = no_type;
  connect_cb = none;
  connect_cb_data = none;
  data_ptr = none;
  cur_query = none;
  timeout = pos 0;
  cur_id = 0;
  event_count = 0;
  reconnect = false;
  pool_member = false;
  dead = false;
  db = false;
  database_hook = false;
  free_hook = false;
  pool_id = 0;
  fdh = false;
  res = none;
  timeout_timer = false;
  reconnect_timer = false;
  fd_job = false;
  current = idle;
  query_start = 0;
  query_end = 0;
  backend_set_funcs = [];
  backend_set_params = [];
  backend_ids = [];
  cur_data = none;
}

-- `esql_new`: its `esql_type_set` finds an object with no backend.
unfoldable pub new : List EsqlType → EsqlType → Conn
unfolding init_modules
new modules type = init_modules type modules (clear_backend blank)

-- What becomes of an object: it goes on, or its memory is returned after the calls that are listed.
pub data Fate : Type 0 where
  alive : World → Fate
  gone : List Act → Fate

-- The backend's part of `esql_free`, where modules are loaded.
abbrev pub shut_down : Env → World → World
shut_down env w =
    let v = if w.e.connected then disconnect env w else w in
    if v.e.free_hook then act backend_free v else v

-- `esql_free` on a connection; `modules` says whether any module is loaded.
unfoldable pub free : Env → Bool → World → Fate
free env modules w =
    if w.e.event_count == 0
    then gone (if modules then shut_down env w else w).acts
    else alive (set_e (record (w.e) { dead = true }) w)

-- `esql_fake_free` on a connection: one of its events is over.
unfoldable pub fake_free : Env → Bool → World → Fate
unfolding free
fake_free env modules w =
    let c = record (w.e) { error = none; event_count = decr w.e.event_count } in
    if c.event_count == 0
    then (if c.dead then free env modules (set_e c w) else alive (set_e c w))
    else alive (set_e c w)

-- The same on a pool, whose object begins with the same fields; true if the pool is to be freed.
unfoldable pub fake_free_pool : Pool → Pool × Bool
fake_free_pool p =
    let q = record p { error = none; event_count = decr p.event_count } in
    (q, q.event_count == 0 && q.dead)

-- `esql_free` on a pool, up to the call of `esql_pool_free`; true if that call is made.
unfoldable pub free_pool : Pool → Pool × Bool
free_pool p = if p.event_count == 0 then (p, true) else (record p { dead = true }, false)
