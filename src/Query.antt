-- ===== src/Query.antt =====
-- `esql_query`, `esql_query_vargs` and `esql_query_callback_set` (src/lib/esql_query.c) on a
-- connection. The same calls on a pool choose a member first: see `Pool`.
pub mod Ids
pub mod Accept
pub mod Args
use esskyuehl.Prelude.{
  ℕ, zero, suc, ◌+◌, ◌%◌, Bool, true, false, List, [], ◌∷◌, ◌++◌, Option, none, some, Bytes, ◌==◌,
  ltb, if◌then◌else◌, length, is_some,
}
use esskyuehl.Escape.Format.{Arg, Escaped, text, null, undefined, stuck, query_escape}
use esskyuehl.State.{
  Conn, World, Env, act, set_e, incr, decr, update, add_callback, is_idle, run_query, query_id,
  backend_query, backend_error_get, job_add,
}
use esskyuehl.State

-- `while (++esql_id < 1) ;` and `while (!(--esql_id)) ;`, with the rounds that the test may take.
unfoldable pub next_id_loop : ℕ → ℕ → ℕ
next_id_loop zero n = n
next_id_loop (suc f) n =
    let rest = next_id_loop f (incr n) in if ltb (incr n) 1 then rest else incr n

unfoldable pub next_id : ℕ → ℕ
unfolding next_id_loop
next_id n = next_id_loop 2 n

unfoldable pub take_back_loop : ℕ → ℕ → ℕ
take_back_loop zero n = n
take_back_loop (suc f) n =
    let rest = take_back_loop f (decr n) in if decr n == 0 then rest else decr n

unfoldable pub take_back_id : ℕ → ℕ
unfolding take_back_loop
take_back_id n = take_back_loop 2 n

-- `e->error = e->backend.error_get(e)`
abbrev pub get_error : Env → World → World
get_error env w =
    let h = backend_error_get ∷ w.acts in
    record w { e = record (w.e) { error = env.error_get h }; acts = h }

-- The query is given to the backend.
unfoldable pub send_query : Env → Bytes → ℕ → World → World
send_query env q len w =
    get_error env
      (act (backend_query q len) (set_e (record (w.e) { query_start = env.time w.acts }) w))

-- `if (!e->fd_job) e->fd_job = ecore_job_add(…)`
abbrev pub add_job : World → World
add_job w = if w.e.fd_job then w else act job_add (set_e (record (w.e) { fd_job = true }) w)

-- The branch of an idle connection: 0, with the id taken back, where the backend has an error.
unfoldable pub start_query : Env → Option ℕ → Bytes → ℕ → World → World × ℕ
unfolding send_query take_back_id
start_query env p q len w =
    let v = send_query env q len w in
    if is_some v.e.error then (record v { esql_id = take_back_id v.esql_id }, 0) else (
      add_job (
          set_e
            (record (v.e) {
              current = State.query;
              cur_data = p;
              cur_id = v.esql_id;
              cur_query = some q;
            })
            v),
      v.esql_id,
    )

-- The branch of a busy connection.
unfoldable pub queue_query : Option ℕ → Bytes → World → World × ℕ
queue_query p q w = (
  record w {
    e = record (w.e) {
      backend_set_funcs = w.e.backend_set_funcs ++ run_query ∷ [];
      backend_set_params = w.e.backend_set_params ++ some q ∷ [];
      backend_ids = w.e.backend_ids ++ query_id w.esql_id ∷ [];
    };
    query_data = if is_some p then update w.query_data w.esql_id p else w.query_data;
  },
  w.esql_id,
)

unfoldable pub issue_query : Env → Option ℕ → Bytes → ℕ → World → World × ℕ
unfolding next_id start_query queue_query
issue_query env p q len w =
    let v = record w { esql_id = next_id w.esql_id } in
    if is_idle v.e.current then start_query env p q len v else queue_query p q v

-- `esql_query`; the text may be NULL.
unfoldable pub query : Env → Option ℕ → Option Bytes → World → World × ℕ
unfolding issue_query
query env p none w = (w, 0)
query env p (some q) w =
    if w.e.connected then (if w.e.db then issue_query env p q (length q) w else (w, 0)) else (w, 0)

-- An `undefined` formatting is no query here.
unfoldable pub issue_escaped : Env → Option ℕ → Escaped → World → World × ℕ
unfolding issue_query
issue_escaped env p (text q len) w = issue_query env p q len w
issue_escaped env p null w = (w, 0)
issue_escaped env p undefined w = (w, 0)
issue_escaped env p stuck w = (w, 0)

-- `esql_query_vargs`, and `esql_query_args` with it; the format may be NULL.
unfoldable pub query_vargs : Env → Option ℕ → Option Bytes → List Arg → World → World × ℕ
unfolding issue_escaped query_escape
query_vargs env p none args w = (w, 0)
query_vargs env p (some fmt) args w =
    if w.e.connected
    then (if w.e.db
        then issue_escaped env p (query_escape env.printer (env.backslashes w.acts) fmt args) w
        else (w, 0))
    else (w, 0)

-- `esql_query_callback_set`
unfoldable pub query_callback_set : ℕ → Option ℕ → World → World × Bool
query_callback_set id none w = (w, false)
query_callback_set id (some cb) w = if ltb id 1 then (w, false) else (add_callback id cb w, true)
