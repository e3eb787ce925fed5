-- ===== src/Events/Turns.antt =====
-- The turns that the main loop takes, as a step relation: the calls of the chain, and what is
-- started between two chains.
use esskyuehl.Prelude.{ℤ, ℕ, zero, ◌≡◌, Bool, false, List, ◌∷◌, ◌++◌, Option, none, some, Bytes}
use esskyuehl.Escape.Format.{Arg}
use esskyuehl.State.{Conn, World, Env, members}
use esskyuehl.Query.{query, query_vargs, query_callback_set}
use esskyuehl.Connect.{
  connect, disconnect, timeout_cb, database_set, connect_callback_set, connect_timeout_set,
  reconnect_set,
}
use esskyuehl.Events.{
  Call, call_complete, event_error, connect_handler, step, fd_handler, reconnect_handler,
}
use esskyuehl.Sqlite.Connection.{connect_cb}

-- One turn: a call of the chain that is waiting, or else one of what the main loop, a thread and
-- the user may start on the connection in hand, or another member that is taken in hand.
pub data Turn (env : Env) : World × Option Call → World × Option Call → Type 0 where
  calls : (c : Call) (w : World) → Turn env (w, some c) (step env c w)
  wakes : (w : World) → Turn env (w, none) (w, some connect_handler)
  runs_job : (w : World) → Turn env (w, none) (fd_handler env zero w)
  ends_thread : (w : World) → Turn env (w, none) (w, some call_complete)
  cancels_thread : (w : World) → Turn env (w, none) (w, some event_error)
  opens_database :
      (b : Bool) (w : World) → w.e.connected ≡ false → Turn env (w, none) ((connect_cb b w).0, none)
  times_out : (w : World) → Turn env (w, none) (timeout_cb env w, none)
  reconnects :
      (w : World) → w.e.connected ≡ false → Turn env (w, none) (reconnect_handler env w, none)
  connects :
      (addr : Option Bytes) (user : Bytes) (passwd : Option Bytes) (w : World)
      → Turn env (w, none) ((connect env addr user passwd w).0, none)
  disconnects : (w : World) → Turn env (w, none) (disconnect env w, none)
  queries :
      (p : Option ℕ) (q : Option Bytes) (w : World) → Turn env (w, none) ((query env p q w).0, none)
  queries_args :
      (p : Option ℕ) (fmt : Option Bytes) (args : List Arg) (w : World)
      → Turn env (w, none) ((query_vargs env p fmt args w).0, none)
  sets_database :
      (name : Option Bytes) (w : World) → Turn env (w, none) ((database_set name w).0, none)
  sets_query_callback :
      (id : ℕ) (cb : Option ℕ) (w : World)
      → Turn env (w, none) ((query_callback_set id cb w).0, none)
  sets_connect_callback :
      (cb p : Option ℕ) (w : World) → Turn env (w, none) (connect_callback_set cb p w, none)
  sets_timeout :
      (timeout : ℤ) (w : World) → Turn env (w, none) (connect_timeout_set timeout w, none)
  sets_reconnect : (enable : Bool) (w : World) → Turn env (w, none) (reconnect_set enable w, none)
  turns_to :
      (xs : List Conn) (c : Conn) (ys : List Conn) (w : World)
      → xs ++ c ∷ ys ≡ members w
      → Turn env (w, none) (record w { before = xs; e = c; after = ys }, none)

pub data Reach (env : Env) (s : World × Option Call) : World × Option Call → Type 0 where
  here : Reach env s s
  more : {t u : World × Option Call} → Reach env s t → Turn env t u → Reach env s u
