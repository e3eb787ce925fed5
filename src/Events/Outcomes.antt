-- ===== src/Events/Outcomes.antt =====
-- src/lib/esql_events.c: `esql_call_complete` and `esql_event_error`.
use esskyuehl.Prelude.{
  ℕ, ◌+◌, Bool, true, false, not, ◌&&◌, ◌∷◌, Option, none, some, ◌==◌, if◌then◌else◌,
}
use esskyuehl.State.{
  Conn, World, Env, Res, new_res, act, set_e, del_callback, target, is_query, ConnectType, idle,
  init, backend_res, backend_error_get, error_event, connect_event, result_add, res_unref,
  connect_cb_call, query_cb_call,
}
use esskyuehl.State
use esskyuehl.Connect.{disconnect, post, arm_reconnect}
use esskyuehl.Events.Calls.{Call, next}

-- The callback of `ev`, with `ev` a pool or a connection.
abbrev pub ev_connect_cb : World → Option ℕ
ev_connect_cb w = if w.e.pool_member then w.ep.connect_cb else w.e.connect_cb

abbrev pub ev_connect_data : World → Option ℕ
ev_connect_data w = if w.e.pool_member then w.ep.connect_cb_data else w.e.connect_cb_data

abbrev pub call_connect_cb : Env → ℕ → World → World
call_connect_cb env cb w =
    env.on_connect cb (ev_connect_data w)
      (act (connect_cb_call cb (ev_connect_data w) (target w)) w)

-- `ev->connect_cb(…)`, or the event where there is no callback.
abbrev pub announce_with : Env → Option ℕ → World → World
announce_with env (some cb) w = call_connect_cb env cb w
announce_with env none w = post connect_event w

unfoldable pub announce_connect : Env → World → World
announce_connect env w = announce_with env (ev_connect_cb w) w

-- Case ESQL_CONNECT_TYPE_INIT of `esql_call_complete`: a pool is connected by its last member.
unfoldable pub complete_init : Env → World → World
unfolding announce_connect
complete_init env w =
    let v = set_e (record (w.e) { connected = true }) w in
    if not v.e.pool_member
    then announce_connect env v
    else (let n = v.ep.e_connected + 1 in
        let u = record v { ep = record (v.ep) { e_connected = n } } in
        if not u.ep.connected && n == u.ep.size
        then announce_connect env (record u { ep = record (u.ep) { connected = true } })
        else u)

-- The result of the query, `e->res` or a new one that the backend fills in.
abbrev pub fetch_res : Env → Option Res → World → World × Res
fetch_res env (some r) w = (w, r)
fetch_res env none w = (act backend_res w, env.fill_res (backend_res ∷ w.acts) new_res)

abbrev pub own_res : Conn → Res → Res
own_res c r = record r {
  refcount = 1;
  query_text = c.cur_query;
  data_ptr = c.cur_data;
  qid = c.cur_id;
}

-- The user's callback for a result, after which one entry for its id is deleted and the result
-- released.
unfoldable pub call_query_cb : Env → ℕ → Res → World → World
call_query_cb env cb r w =
    let v = env.on_result cb r w.e.cur_data (act (query_cb_call cb r w.e.cur_data) w) in
    act (res_unref r)
      (del_callback v.e.cur_id (set_e (record (v.e) { query_start = 0; query_end = 0 }) v))

-- The result goes to the callback of its query, or out as an event.
abbrev pub deliver : Env → Option ℕ → Res → World → World
deliver env (some cb) r w = call_query_cb env cb r w
deliver env none r w = act (result_add r) w

-- The result, now named `ev->res`, takes the query's text, data and id.
abbrev pub hand_out : Env → World × Res → World
hand_out env (w, raw) =
    let v = set_e (record (w.e) { cur_query = none }) w in
    deliver env (w.query_callbacks w.e.cur_id) (own_res w.e raw) v

-- Case ESQL_CONNECT_TYPE_QUERY of `esql_call_complete`.
unfoldable pub complete_query : Env → World → World
unfolding call_query_cb
complete_query env w =
    let v = set_e (record (w.e) { query_end = env.time w.acts }) w in
    let s = hand_out env (fetch_res env v.e.res v) in set_e (record (s.e) { res = none }) s

abbrev pub complete : Env → ConnectType → World → World
complete env init w = complete_init env w
complete env State.query w = complete_query env w
complete env State.database_set w = w
complete env idle w = w

-- `esql_call_complete`
unfoldable pub call_complete_step : Env → World → World × Option Call
unfolding complete_init complete_query
call_complete_step env w = (complete env w.e.current w, some next)

-- What `esql_event_error` copies to the pool.
abbrev pub copy_error : World → World
copy_error w =
    if w.e.pool_member
    then record w {
      ep = record (w.ep) { error = w.e.error; cur_query = w.e.cur_query; cur_id = w.e.cur_id };
    }
    else w

-- The error of a query goes to its callback, in a result of its own.
abbrev pub report_with : Env → Option ℕ → World → World
report_with env none w = w
report_with env (some cb) w =
    call_query_cb env cb (record (own_res w.e new_res) { error = w.e.error })
      (set_e (record (w.e) { cur_query = none; error = none }) w)

unfoldable pub report_query_error : Env → World → World
unfolding call_query_cb
report_query_error env w = report_with env (w.query_callbacks w.e.cur_id) w

-- The end of `esql_event_error`.
abbrev pub drop_connection : Env → World → World
drop_connection env w = arm_reconnect (disconnect env (post error_event w))

-- `esql_event_error`
abbrev pub call_if_set : Env → Option ℕ → World → World
call_if_set env (some cb) w = call_connect_cb env cb w
call_if_set env none w = w

-- The branches of a query and of any other call.
abbrev pub error_branch : Env → Bool → World → World × Option Call
error_branch env true w =
    let u = report_query_error env w in
    if not (env.fd_has_error u.acts) then (u, some next) else (drop_connection env u, none)
error_branch env false w = (drop_connection env (call_if_set env (ev_connect_cb w) w), none)

unfoldable pub event_error_step : Env → World → World × Option Call
unfolding report_query_error disconnect
event_error_step env w =
    let h = backend_error_get ∷ w.acts in
    let v = copy_error (record w {
      e = record (w.e) { error = env.error_get h; query_end = env.time h };
      acts = h;
    }) in
    error_branch env (is_query v.e.current) v
