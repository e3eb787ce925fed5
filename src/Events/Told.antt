-- ===== src/Events/Told.antt =====
-- The error of a query that has a callback, on a connection of its own for which nothing waits.
use esskyuehl.Prelude.{
  if◌then◌else◌, not, if_true, if_false, ℕ, suc, ◌≡◌, refl, ap, ◌∙◌, Bool, true, false, List, [],
  ◌∷◌, Option, none, some,
}
use esskyuehl.State.{Conn, World, Env, Act, Res, new_res, act, set_e, idle, backend_error_get}
use esskyuehl.State
use esskyuehl.Events.{go_on, next_step, run, step, own_res}
use esskyuehl.Events.{
  next, report_with, error_branch, drop_connection, event_error, event_error_step,
  report_query_error, call_query_cb,
}
use esskyuehl.State.{is_query, update, first_of, others, del_callback, res_unref, query_cb_call}

-- Callbacks that leave the library alone, on a connection whose descriptor shows no error.
pub record Calm (env : Env) : Type 0 where
  pub no_change : (cb : ℕ) (r : Res) (p : Option ℕ) (w : World) → env.on_result cb r p w ≡ w
  pub no_fd_error : (h : List Act) → env.fd_has_error h ≡ false

-- The result that tells of an error.
abbrev pub error_res : Conn → Res
error_res c = record (own_res c new_res) { error = c.error }

-- The world behind the callback `cb` for an error.
abbrev pub told : ℕ → World → World
told cb v = record v {
  e = record (v.e) { cur_query = none; error = none; query_start = 0; query_end = 0 };
  query_callbacks = update v.query_callbacks v.e.cur_id (first_of (v.more_callbacks v.e.cur_id));
  more_callbacks = update v.more_callbacks v.e.cur_id (others (v.more_callbacks v.e.cur_id));
  acts = res_unref (error_res v.e) ∷ query_cb_call cb (error_res v.e) v.e.cur_data ∷ v.acts;
}

-- The world in which the callback is called.
abbrev pub asked_why : Env → World → World
asked_why env u = record u {
  e = record (u.e) {
    error = env.error_get (backend_error_get ∷ u.acts);
    query_end = env.time (backend_error_get ∷ u.acts);
  };
  acts = backend_error_get ∷ u.acts;
}

abbrev pub failed : Env → ℕ → World → World
failed env cb u = let v = told cb (asked_why env u) in set_e (record (v.e) { current = idle }) v

-- With nothing that waits, `esql_next` ends the chain.
next_step-empty :
    (env : Env) (w : World)
    → w.e.backend_set_funcs ≡ []
    → w.e.pool_member ≡ false
    → next_step env w ≡ (set_e (record (w.e) { current = idle }) w, none)
unfolding next_step
next_step-empty env w e a = rw (e, a) refl

module _ (env : Env) (calm : Calm env) where
  report-told :
      (cb : ℕ) (v : World)
      → v.query_callbacks v.e.cur_id ≡ some cb
      → report_query_error env v ≡ told cb v
  unfolding report_query_error call_query_cb
  report-told cb v c =
      ap (λ o. report_with env o v) c
      ∙ ap
          (λ (x : World).
            act (res_unref (error_res v.e))
              (del_callback x.e.cur_id (set_e (record (x.e) { query_start = 0; query_end = 0 }) x)))
          (calm.no_change cb (error_res v.e) v.e.cur_data _)

  error_branch-told :
      (b : Bool) (cb : ℕ) (v : World)
      → b ≡ true
      → v.query_callbacks v.e.cur_id ≡ some cb
      → error_branch env b v ≡ (told cb v, some next)
  error_branch-told false cb v e c = cc
  error_branch-told true cb v e c =
      ap
        (λ (x : World).
          if not (env.fd_has_error x.acts) then (x, some next) else (drop_connection env x, none))
        (report-told cb v c)
      ∙ if_true _ _ _ (ap not (calm.no_fd_error (told cb v).acts))

  event_error_step-told :
      (cb : ℕ) (u : World)
      → u.e.current ≡ State.query
      → u.query_callbacks u.e.cur_id ≡ some cb
      → u.e.pool_member ≡ false
      → event_error_step env u ≡ (told cb (asked_why env u), some next)
  unfolding event_error_step
  event_error_step-told cb u runs c a =
      ap (λ (v : World). error_branch env (is_query v.e.current) v) (if_false u.e.pool_member _ _ a)
      ∙ error_branch-told (is_query u.e.current) cb (asked_why env u) (ap is_query runs) c

  pub event_error-failed :
      (cb : ℕ) (u : World) (fuel : ℕ)
      → u.e.current ≡ State.query
      → u.query_callbacks u.e.cur_id ≡ some cb
      → u.e.pool_member ≡ false
      → u.e.backend_set_funcs ≡ []
      → run env (suc (suc fuel)) event_error u ≡ (failed env cb u, none)
  unfolding run step
  event_error-failed cb u fuel runs c a e =
      ap (go_on (run env (suc fuel))) (event_error_step-told cb u runs c a)
      ∙ ap (go_on (run env fuel)) (next_step-empty env (told cb (asked_why env u)) e a)
