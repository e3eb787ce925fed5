-- ===== src/Events/Drain.antt =====
-- A connection that works off its queue: the order in which queries are sent and answered.
pub mod Steps
pub mod Order
pub mod Working
pub mod Queries
use esskyuehl.Prelude.{
  ℕ, zero, suc, ◌+◌, ◌*◌, ◌≤◌, ◌≡◌, refl, ap, sym, subst, ◌∙◌, Bool, true, false, List, [], ◌∷◌,
  map, Option, none, some, arith, Bytes, if◌then◌else◌, length, is_some,
}
use esskyuehl.State.{
  Conn, World, Env, Act, Res, Io, done, new_res, act, set_e, result_add, query_cb_call,
  backend_query, SetFunc, CallId, run_query, ConnectType, idle, backend_io, if_cases, fd_active_set,
  timer_reset, backend_res,
}
use esskyuehl.State
use esskyuehl.Query.{send_query}
use esskyuehl.Events.{
  Call, next, call_complete, event_error, rebalance, connect_handler, issue_queued, update_lists,
  next_call, next_step, head_call, refill, call_query_cb, deliver, fetch_res, hand_out, own_res,
  complete_query, complete, call_complete_step, after_io, connect_handler_step, step, go_on, run,
  id_at, param_at, text_of,
}
use esskyuehl.Events.Fifo.{
  Pending, text, func_of, Holds, Issued, issue_queued-Issued, next_step-cons,
}

-- What is seen of the calls made, the last one first: a query that is sent, and an outcome that is
-- handed to the user.
pub data Seen : Type 0 where
  sent : Bytes → Seen
  outcome : ℕ → Seen

abbrev pub trace : List Act → List Seen
trace [] = []
trace (backend_query q len ∷ h) = sent q ∷ trace h
trace (query_cb_call cb r p ∷ h) = outcome r.qid ∷ trace h
trace (result_add r ∷ h) = outcome r.qid ∷ trace h
trace (_ ∷ h) = trace h

-- The backend answers at once and without errors, and the user's callbacks leave the connection
-- alone.
pub record Smooth (env : Env) : Type 0 where
  pub at_once : (h : List Act) → env.io h ≡ done
  pub no_error : (h : List Act) → env.error_get h ≡ none
  pub same_e : (cb : ℕ) (r : Res) (p : Option ℕ) (w : World) → (env.on_result cb r p w).e ≡ w.e
  pub same_trace :
      (cb : ℕ) (r : Res) (p : Option ℕ) (w : World)
      → trace (env.on_result cb r p w).acts ≡ trace w.acts

abbrev pub texts : List (Bytes × ℕ) → List Pending
texts [] = []
texts ((q, n) ∷ xs) = text q n ∷ texts xs

-- What is to be seen while the query `n` runs and `xs` wait: each one is sent behind the outcome of
-- the one before it.
abbrev pub story : ℕ → List (Bytes × ℕ) → List Seen → List Seen
story n [] h = outcome n ∷ h
story n ((q, m) ∷ xs) h = story m xs (sent q ∷ outcome n ∷ h)

-- The parts of a connection that the queue stands on, and whether it is a pool's member.
abbrev pub queue : Conn → List SetFunc × List (Option Bytes) × List CallId × Bool
queue c = (c.backend_set_funcs, c.backend_set_params, c.backend_ids, c.pool_member)

abbrev pub Parts : Type 0
Parts = List SetFunc × List (Option Bytes) × List CallId × Bool

-- The query `n` runs on a connection of its own, and `xs` wait.
pub record Runs (n : ℕ) (xs : List (Bytes × ℕ)) (w : World) : Type 0 where
  pub is_current : w.e.current ≡ State.query
  pub has_id : w.e.cur_id ≡ n
  pub waits : Holds w.e (texts xs)
  pub alone : w.e.pool_member ≡ false

-- The end of the work: no call is left, nothing waits, and the story was seen.
abbrev pub Drained : List Seen → World × Option Call → Type 0
Drained h (v, c) = (c ≡ none) × Holds v.e [] × (v.e.current ≡ idle) × (trace v.acts ≡ h)
