-- ===== src/Events.antt =====
-- src/lib/esql_events.c: the functions that drive a connection. `esql_next`, `esql_call_complete`,
-- `esql_event_error` and `esql_connect_handler` call one another, always last: each is one step
-- that returns the call to make next, if any, and `run` makes the calls.
mod Calls
mod Outcomes
pub mod Fifo
pub mod Rebalance
pub mod Delivery
pub mod Told
pub mod Termination
pub mod Members
pub mod Drain
pub mod Turns
pub mod Sound
pub mod Ledger
unfoldable pub use Calls.*
unfoldable pub use Outcomes.*
use esskyuehl.Prelude.{ℕ, zero, suc, false, not, ◌∷◌, Option, none, some, if◌then◌else◌}
use esskyuehl.State.{
  World, Env, Io, done, wants_both, wants_read, wants_write, fails, act, set_e, backend_io,
  backend_connect, backend_fd_get, backend_error_get, fd_active_set, disconnect_event, timer_reset,
}
use esskyuehl.Connect.{database_set, post, call_connect, add_fd_handler}

abbrev pub after_io : Env → Io → World → World × Option Call
after_io env done w = (w, some call_complete)
after_io env wants_both w = (if w.e.fdh then act (fd_active_set wants_both) w else w, none)
after_io env wants_read w = (act (fd_active_set wants_read) w, none)
after_io env wants_write w = (act (fd_active_set wants_write) w, none)
after_io env fails w = (w, some event_error)

-- `esql_connect_handler`, always called with `e->fdh`.
unfoldable pub connect_handler_step : Env → World → World × Option Call
connect_handler_step env w =
    let v = if w.e.fdh then act (fd_active_set done) w else w in
    let u = if v.e.timeout_timer then act timer_reset v else v in
    after_io env (env.io (backend_io ∷ u.acts)) (act backend_io u)

unfoldable pub step : Env → Call → World → World × Option Call
unfolding next_step call_complete_step event_error_step connect_handler_step
step env next w = next_step env w
step env call_complete w = call_complete_step env w
step env event_error w = event_error_step env w
step env connect_handler w = connect_handler_step env w

abbrev pub go_on : (Call → World → World × Option Call) → World × Option Call → World × Option Call
go_on k (w, none) = (w, none)
go_on k (w, some c) = k c w

-- The chain of calls, with the call that is left when the fuel has run out.
unfoldable pub run : Env → ℕ → Call → World → World × Option Call
unfolding step
run env zero c w = (w, some c)
run env (suc fuel) c w = go_on (run env fuel) (step env c w)

-- `esql_fd_handler`: the job that starts the chain.
unfoldable pub fd_handler : Env → ℕ → World → World × Option Call
unfolding run
fd_handler env fuel w =
    let v = set_e (record (w.e) { fd_job = false }) w in
    run env fuel connect_handler (if v.e.fdh then act (fd_active_set wants_write) v else v)

-- `if (ev->database) esql_database_set(e, ev->database)`
abbrev pub set_ev_database : World → World
set_ev_database w = elim (if w.e.pool_member then w.ep.database else w.e.database) [
  | none ↦ w
  | some name ↦ (database_set (some name) w).0
]

abbrev pub reopen : Env → Io → World → World
reopen env ret w = elim (env.fd_get (backend_fd_get ∷ w.acts)) [
  | none ↦ act backend_fd_get w
  | some fd ↦ set_ev_database (add_fd_handler env ret w)
]

abbrev pub after_reconnect : Env → Io → World → World
after_reconnect env fails w = post disconnect_event (act backend_error_get w)
after_reconnect env done w = reopen env done w
after_reconnect env wants_both w = reopen env wants_both w
after_reconnect env wants_read w = reopen env wants_read w
after_reconnect env wants_write w = reopen env wants_write w

-- `esql_reconnect_handler`: the timer after a connection was lost.
unfoldable pub reconnect_handler : Env → World → World
unfolding database_set
reconnect_handler env w =
    let v = set_e (record (w.e) { reconnect_timer = false }) w in
    let u = call_connect env v in
    if not u.e.db
    then post disconnect_event u
    else after_reconnect env (env.connect (backend_connect ∷ v.acts)).0 u
