-- ===== src/Connect.antt =====
-- src/lib/esql_connect.c on a connection. The same calls on a pool are in `Pool`.
use esskyuehl.Prelude.{
  ℤ, pos, negsuc, ℕ, ◌-◌, Bool, true, false, not, ◌&&◌, ◌||◌, [], ◌∷◌, ◌++◌, Option, none, some,
  Bytes, ◌==◌, ltb, if◌then◌else◌, is_some,
}
use esskyuehl.State.{
  Conn, World, Env, Io, done, wants_both, wants_read, wants_write, fails, act, set_e, incr, target,
  is_idle, is_mysql, is_no_type, init, set_database, self, backend_setup, backend_connect,
  backend_disconnect, backend_fd_get, backend_error_get, backend_database_set, fd_handler_add,
  fd_handler_del, fd_active_set, event_add, disconnect_event, timer_add, timer_del, timer_reset,
}
use esskyuehl.State

-- `e->backend.connect(e)`, which may set `backend.db`.
abbrev pub call_connect : Env → World → World
call_connect env w = record w {
  e = record (w.e) { db = (env.connect (backend_connect ∷ w.acts)).1 };
  acts = backend_connect ∷ w.acts;
}

-- `fd = e->backend.fd_get(e)` and the handler for it, where there is an fd.
abbrev pub add_fd_handler : Env → Io → World → World
add_fd_handler env ret w = elim (env.fd_get (backend_fd_get ∷ w.acts)) [
  | none ↦ act backend_fd_get w
  | some fd ↦ act (fd_active_set ret) (
      act (fd_handler_add fd)
        (act backend_fd_get (set_e (record (w.e) { fdh = true; current = init }) w)))
]

abbrev pub after_connect : Env → Io → World → World × Bool
after_connect env fails w = (act backend_error_get w, false)
after_connect env done w = (add_fd_handler env done w, true)
after_connect env wants_both w = (add_fd_handler env wants_both w, true)
after_connect env wants_read w = (add_fd_handler env wants_read w, true)
after_connect env wants_write w = (add_fd_handler env wants_write w, true)

-- `esql_connect`
unfoldable pub connect : Env → Option Bytes → Bytes → Option Bytes → World → World × Bool
connect env none user passwd w = (w, false)
connect env (some addr) user passwd w =
    if is_no_type w.e.kind
    then (w, false)
    else if not w.e.db && is_mysql w.e.kind
    then (w, false)
    else if w.e.connected
    then (w, false)
    else (let v = act (backend_setup addr user passwd) w in
        after_connect env (env.connect (backend_connect ∷ v.acts)).0 (call_connect env v))

-- The hooks and the fd handler of `esql_disconnect`.
abbrev pub close : Env → World → World
close env w =
    let c = w.e in
    let v = record w {
      e = record c { db = env.db_left (backend_disconnect ∷ w.acts); fdh = false };
      acts = backend_disconnect ∷ w.acts;
    } in
    if c.fdh then act fd_handler_del v else v

-- `e->pool_struct->e_connected--`. The count stops at 0 here, where the int of the code goes on to
-- -1.
abbrev pub leave_pool : World → World
leave_pool w =
    if w.e.pool_member
    then record w { ep = record (w.ep) { e_connected = w.ep.e_connected - 1 } }
    else w

-- An event posted for `ev`; it is counted on `e`.
abbrev pub post : State.EventKind → World → World
post k w =
    act (event_add k (target w)) (set_e (record (w.e) { event_count = incr w.e.event_count }) w)

unfoldable pub announce_disconnect : World → World
announce_disconnect w =
    if w.e.connected
    then (let v = leave_pool w in
        if not v.e.pool_member || v.ep.e_connected == 0 then post disconnect_event v else v)
    else w

-- `esql_disconnect`
unfoldable pub disconnect : Env → World → World
unfolding announce_disconnect
disconnect env w =
    if w.e.db
    then (let v = announce_disconnect (close env w) in set_e (record (v.e) { connected = false }) v)
    else w

-- `esql_database_set`; the name may be NULL.
unfoldable pub queue_database : Bytes → Conn → Conn
queue_database name c = record c {
  backend_set_funcs = c.backend_set_funcs ++ set_database ∷ [];
  backend_set_params = c.backend_set_params ++ some name ∷ [];
  backend_ids = c.backend_ids ++ self ∷ [];
}

unfoldable pub database_set : Option Bytes → World → World × Bool
database_set none w = (w, false)
database_set (some name) w =
    if is_some w.e.database && not (is_mysql w.e.kind)
    then (w, false)
    else (let c = record (w.e) { database = some name } in
        if not c.database_hook
        then (set_e c w, true)
        else if is_idle c.current && c.connected
        then (
          act (backend_database_set name) (set_e (record c { current = State.database_set }) w),
          true,
        )
        else (set_e (queue_database name c) w, true))

-- `esql_connect_callback_set`
unfoldable pub connect_callback_set : Option ℕ → Option ℕ → World → World
connect_callback_set cb p w = set_e (record (w.e) { connect_cb = cb; connect_cb_data = p }) w

abbrev pub is_positive : ℤ → Bool
is_positive (pos n) = ltb 0 n
is_positive (negsuc n) = false

-- `esql_connect_timeout_set`: a timeout that is not positive turns the timer off, and is 0 then. A
-- NULL timer given to `ecore_timer_del` is let through.
unfoldable pub connect_timeout_set : ℤ → World → World
connect_timeout_set timeout w =
    let c = record (w.e) { timeout = timeout } in
    if is_positive timeout
    then (if c.timeout_timer
        then act timer_reset (set_e c w)
        else act timer_add (set_e (record c { timeout_timer = true }) w))
    else act timer_del (set_e (record c { timeout_timer = false; timeout = pos 0 }) w)

-- `esql_reconnect_set`
unfoldable pub reconnect_set : Bool → World → World
reconnect_set enable w = set_e (record (w.e) { reconnect = enable }) w

-- `if (e->reconnect) e->reconnect_timer = ecore_timer_add(1.0, …)`
abbrev pub arm_reconnect : World → World
arm_reconnect w =
    if w.e.reconnect then act timer_add (set_e (record (w.e) { reconnect_timer = true }) w) else w

-- `esql_timeout_cb` (src/lib/esql_events.c)
unfoldable pub timeout_cb : Env → World → World
unfolding disconnect
timeout_cb env w = arm_reconnect (disconnect env (set_e (record (w.e) { timeout_timer = false }) w))
