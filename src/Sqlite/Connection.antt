-- ===== src/Sqlite/Connection.antt =====
-- The SQLite hooks for a connection, all of whose work is done in threads: `esql_sqlite_connect`,
-- `esql_sqlite_io` and what the thread that opens the database does.
pub mod Opening
pub mod Again
pub mod Asking
use esskyuehl.Prelude.{
  ℕ, Bool, true, false, List, [], ◌∷◌, Option, none, some, Bytes, if◌then◌else◌,
}
use esskyuehl.State.{Conn, World, Env, Act, Io, wants_both, fails, set_e, init}
use esskyuehl.Escape.Format.{Arg, Printer, Escaped, query_escape}
use esskyuehl.Events.{Call, call_complete, event_error, run}

-- `backend.db`, `stmt`, `thread` and `conn_str`.
pub record Handles : Type 0 where
  pub db : Bool
  pub stmt : Bool
  pub thread : Bool
  pub conn_str : Option Bytes

-- `e->backend.thread = ecore_thread_run(…)`, which gives NULL where it fails.
abbrev pub run_thread : Bool → Handles → Handles × Io
run_thread started b = (record b { thread = started }, if started then wants_both else fails)

-- `esql_sqlite_connect`
unfoldable pub connect : Bool → Handles → Handles × Io
connect started b = run_thread started b

-- `esql_sqlite_io`
unfoldable pub io : Bool → Handles → Handles × Io
io started b = if b.thread then (b, fails) else run_thread started b

-- `esql_sqlite_setup`
unfoldable pub setup : Bytes → Handles → Handles
setup addr b = record b { conn_str = some addr }

-- `esql_sqlite_query`, by whether `sqlite3_prepare_v2` makes a statement.
unfoldable pub query : Bool → Handles → Handles
query prepared b = record b { stmt = prepared }

-- `esql_sqlite_fd_get`: -1, which is no descriptor.
abbrev pub fd_get : Option ℕ
fd_get = none

-- `esql_sqlite_escape`
abbrev pub escape : Printer → Bytes → List Arg → Escaped
escape pr fmt args = query_escape pr true fmt args

-- `esql_sqlite_thread_end_cb` up to the call of `esql_call_complete`, and whether it finalizes a
-- statement.
unfoldable pub thread_end : Handles → Handles × Bool
thread_end b = (record b { thread = false; stmt = false }, b.stmt)

-- `esql_sqlite_thread_cancel_cb` up to the call of `esql_event_error`.
unfoldable pub thread_cancel : Handles → Handles
thread_cancel b = record b { thread = false }

-- `esql_sqlite_disconnect`, once `sqlite3_close` has closed the database.
unfoldable pub disconnect : Handles → Handles
disconnect b = if b.db then record b { db = false; conn_str = none } else b

-- `esql_sqlite_free`, and whether `backend.free` is left.
unfoldable pub free : Handles → Handles × Bool
free b = if b.db then (record b { db = false; conn_str = none }, false) else (b, true)

-- `esql_sqlite_error_get`, by `sqlite3_errcode` and `sqlite3_errmsg`.
unfoldable pub error_get : Bool → Bytes → Option Bytes
error_get is_error msg = if is_error then some msg else none

-- `esql_sqlite_connect_cb` on the connection: `sqlite3_open_v2` sets the database handle, also
-- where it fails; true if the thread is cancelled.
unfoldable pub connect_cb : Bool → World → World × Bool
connect_cb true w = (set_e (record (w.e) { db = true; current = init }) w, false)
connect_cb false w = (set_e (record (w.e) { db = true }) w, true)

-- The thread that opens the database, and the callback at its end.
unfoldable pub open_thread : Env → ℕ → Bool → World → World × Option Call
unfolding connect_cb run
open_thread env fuel opens w =
    let (v, cancelled) = connect_cb opens w in
    run env fuel (if cancelled then event_error else call_complete) v
