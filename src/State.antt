-- ===== src/State.antt =====
-- The objects of src/lib/esql_private.h and src/lib/Esskyuehl.h, and what the library calls
-- outside.
--
-- A `World` is one top-level object with the connection in hand: alone, or a member of a pool with
-- the members before and after it in `ep->esqls`. A NULL pointer is `none`, a pointer that is only
-- tested or passed on a number, a handle that is only tested (timer, fd handler, job, db) a `Bool`.
use esskyuehl.Prelude.{
  ℕ, ◌+◌, ◌-◌, ◌%◌, Bool, true, false, List, [], ◌∷◌, ◌++◌, Option, none, some, arith, ℤ, Bytes,
  ◌==◌, if◌then◌else◌, u32_mod, ◌≡◌, refl,
}
use esskyuehl.Escape.Format.{Printer}

pub data EsqlType : Type 0 where
  no_type mysql postgresql sqlite : EsqlType

abbrev pub is_mysql : EsqlType → Bool
is_mysql mysql = true
is_mysql _ = false

abbrev pub is_no_type : EsqlType → Bool
is_no_type no_type = true
is_no_type _ = false

-- `Esql_Connect_Type`: what the connection waits for; `idle` is ESQL_CONNECT_TYPE_NONE.
pub data ConnectType : Type 0 where
  idle init database_set query : ConnectType

abbrev pub is_idle : ConnectType → Bool
is_idle idle = true
is_idle _ = false

abbrev pub is_query : ConnectType → Bool
is_query query = true
is_query _ = false

-- An entry of `backend_set_funcs`: `esql_database_set` or `esql_query`.
pub data SetFunc : Type 0 where
  set_database run_query : SetFunc

-- An entry of `backend_ids`: the object's own address, or a query id.
pub data CallId : Type 0 where
  self : CallId
  query_id : ℕ → CallId

-- A result object; `desc` is the number of columns where there is a description, `rows` the number
-- of the rows.
pub record Res : Type 0 where
  pub error : Option Bytes
  pub data_ptr : Option ℕ
  pub rows : ℕ
  pub row_count : ℕ
  pub affected : ℕ
  pub id : ℕ
  pub qid : ℕ
  pub refcount : ℕ
  pub query_text : Option Bytes
  pub desc : Option ℕ

-- `esql_res_calloc(1)`
abbrev pub new_res : Res
new_res = record {
  error = none;
  data_ptr = none;
  rows = 0;
  row_count = 0;
  affected = 0;
  id = 0;
  qid = 0;
  refcount = 0;
  query_text = none;
  desc = none;
}

-- What `connect` and `io` of a backend return: 0, ECORE_FD_READ | ECORE_FD_WRITE, ECORE_FD_READ,
-- ECORE_FD_WRITE, and ECORE_FD_ERROR or any other value.
pub data Io : Type 0 where
  done wants_both wants_read wants_write fails : Io

pub data EventKind : Type 0 where
  error_event connect_event disconnect_event : EventKind

-- The object that an event or a callback names: the connection, or its pool.
pub data Target : Type 0 where
  on_conn on_pool : Target

-- A call of a backend hook, of ecore or of the user's code.
pub data Act : Type 0 where
  backend_setup : Bytes → Bytes → Option Bytes → Act
  backend_connect backend_disconnect backend_free backend_io backend_fd_get backend_error_get : Act
  backend_database_set : Bytes → Act
  backend_query : Bytes → ℕ → Act
  backend_res : Act
  fd_handler_add : ℕ → Act
  fd_handler_del : Act
  fd_active_set : Io → Act
  event_add : EventKind → Target → Act
  result_add : Res → Act
  res_unref : Res → Act
  timer_add timer_del timer_reset : Act
  job_add : Act
  connect_cb_call : ℕ → Option ℕ → Target → Act
  query_cb_call : ℕ → Res → Option ℕ → Act

-- struct Esql. `database_hook` says that `backend.database_set` is not NULL, `free_hook` that
-- `backend.free` is not.
pub record Conn : Type 0 where
  pub error : Option Bytes
  pub connected : Bool
  pub database : Option Bytes
  pub kind : EsqlType
  pub connect_cb : Option ℕ
  pub connect_cb_data : Option ℕ
  pub data_ptr : Option ℕ
  pub cur_query : Option Bytes
  pub timeout : ℤ
  pub cur_id : ℕ
  pub event_count : ℕ
  pub reconnect : Bool
  pub pool_member : Bool
  pub dead : Bool
  pub db : Bool
  pub database_hook : Bool
  pub free_hook : Bool
  pub pool_id : ℕ
  pub fdh : Bool
  pub res : Option Res
  pub timeout_timer : Bool
  pub reconnect_timer : Bool
  pub fd_job : Bool
  pub current : ConnectType
  pub query_start : ℕ
  pub query_end : ℕ
  pub backend_set_funcs : List SetFunc
  pub backend_set_params : List (Option Bytes)
  pub backend_ids : List CallId
  pub cur_data : Option ℕ

-- struct Esql_Pool, without the list of its members.
pub record Pool : Type 0 where
  pub error : Option Bytes
  pub connected : Bool
  pub database : Option Bytes
  pub kind : EsqlType
  pub connect_cb : Option ℕ
  pub connect_cb_data : Option ℕ
  pub data_ptr : Option ℕ
  pub cur_query : Option Bytes
  pub timeout : ℤ
  pub cur_id : ℕ
  pub event_count : ℕ
  pub reconnect : Bool
  pub dead : Bool
  pub size : ℕ
  pub e_connected : ℕ

pub record World : Type 0 where
  pub before : List Conn
  pub e : Conn
  pub after : List Conn
  pub ep : Pool
  pub esql_id : ℕ
  -- `esql_query_callbacks`: what `eina_hash_find` gives for an id, and what `eina_hash_add` added
  -- behind it for the same id, in order.
  pub query_callbacks : ℕ → Option ℕ
  pub more_callbacks : ℕ → List ℕ
  pub query_data : ℕ → Option ℕ
  pub acts : List Act

-- What the library asks of code outside: the backend's hooks, the main loop and the user's
-- callbacks. Each answer may depend on all the calls made so far, the last one first.
pub record Env : Type 0 where
  pub io : List Act → Io
  -- What `connect` returns, and whether `backend.db` is set behind it.
  pub connect : List Act → Io × Bool
  -- Whether `backend.db` is still set behind `disconnect`.
  pub db_left : List Act → Bool
  pub fd_get : List Act → Option ℕ
  pub error_get : List Act → Option Bytes
  pub fill_res : List Act → Res → Res
  -- `ecore_main_fd_handler_active_get(e->fdh, ECORE_FD_ERROR)`
  pub fd_has_error : List Act → Bool
  pub time : List Act → ℕ
  pub printer : Printer
  pub backslashes : List Act → Bool
  pub on_connect : ℕ → Option ℕ → World → World
  pub on_result : ℕ → Res → Option ℕ → World → World

abbrev pub act : Act → World → World
act a w = record w { acts = a ∷ w.acts }

abbrev pub set_e : Conn → World → World
set_e c w = record w { e = c }

-- `ep->esqls`, in order.
abbrev pub members : World → List Conn
members w = w.before ++ w.e ∷ w.after

-- `ev = e->pool_member ? (Esql *)e->pool_struct : e`
abbrev pub target : World → Target
target w = if w.e.pool_member then on_pool else on_conn

-- Arithmetic of `unsigned int`.
abbrev pub incr : ℕ → ℕ
incr n = (n + 1) % u32_mod

abbrev pub decr : ℕ → ℕ
decr n = (n + u32_mod - 1) % u32_mod

-- A write to a hash table.
abbrev pub update {ℓ} : {A : Type ℓ} → (ℕ → A) → ℕ → A → ℕ → A
update f k v j = if k == j then v else f j

pub update_same {ℓ} : {A : Type ℓ} (f : ℕ → A) (k : ℕ) (v : A) → update f k v k ≡ v
update_same f k v = ground arith

abbrev pub first_of : List ℕ → Option ℕ
first_of [] = none
first_of (h ∷ hs) = some h

abbrev pub others : List ℕ → List ℕ
others [] = []
others (h ∷ hs) = hs

-- `eina_hash_add` on `esql_query_callbacks`, which leaves an entry with the same key in place.
abbrev pub found : Option ℕ → ℕ → ℕ
found none cb = cb
found (some c) cb = c

abbrev pub hidden : Option ℕ → ℕ → List ℕ → List ℕ
hidden none cb hs = hs
hidden (some c) cb hs = hs ++ cb ∷ []

abbrev pub add_callback : ℕ → ℕ → World → World
add_callback id cb w = record w {
  query_callbacks = update w.query_callbacks id (some (found (w.query_callbacks id) cb));
  more_callbacks =
      update w.more_callbacks id (hidden (w.query_callbacks id) cb (w.more_callbacks id));
}

-- `eina_hash_del_by_key` on it, which takes one entry away.
abbrev pub del_callback : ℕ → World → World
del_callback id w = record w {
  query_callbacks = update w.query_callbacks id (first_of (w.more_callbacks id));
  more_callbacks = update w.more_callbacks id (others (w.more_callbacks id));
}

-- A state behind an `if` that is no more than that.
pub if_cases {ℓ} :
    (P : World → Type ℓ) (b : Bool) (v w : World) → P v → P w → P (if b then v else w)
if_cases P true v w p q = p
if_cases P false v w p q = q

-- The same, with what the test says.
pub if_split {ℓ} :
    (P : World → Type ℓ) (b : Bool) (v w : World)
    → (b ≡ true → P v)
    → (b ≡ false → P w)
    → P (if b then v else w)
if_split P true v w p q = p refl
if_split P false v w p q = q refl
