-- ===== src/Events/Ledger/Steps.antt =====
-- The books of the queries over the other calls of the chain, and at the end of a connection.
use esskyuehl.Prelude.{
  ℕ, refl, Bool, true, false, not, ◌∷◌, Option, none, some, if◌then◌else◌, Bytes,
}
use esskyuehl.State.{
  Conn, World, Env, Act, Res, Io, done, wants_both, wants_read, wants_write, fails, act, set_e,
  if_cases, idle, init, ConnectType, is_query, error_event, backend_error_get, query_cb_call,
  connect_cb_call, target, fd_active_set, timer_reset, backend_io,
}
use esskyuehl.State
use esskyuehl.Connect.{
  disconnect, close, leave_pool, announce_disconnect, arm_reconnect, timeout_cb, post,
}
use esskyuehl.Events.{
  Call, next, call_complete, event_error, connect_handler, complete_init, fetch_res, hand_out,
  call_query_cb, deliver, complete_query, complete, call_complete_step, copy_error, report_with,
  report_query_error, drop_connection, call_if_set, announce_with, announce_connect, ev_connect_cb,
  error_branch, event_error_step, after_io, connect_handler_step, step,
}
use esskyuehl.Events.Sound.{pick}
use esskyuehl.Events.Members.{came_up, counted, full}
use esskyuehl.Events.Ledger.{Ledger, Kept-Ledger}
use esskyuehl.Events.Ledger.Queues.{next_step-Ledger}

-- The user's callbacks keep the books: a query that one of them makes is of a text that weighs
-- nothing.
pub record KeepsBooks (f : Bytes → ℕ) (env : Env) : Type 0 where
  pub in_connect :
      (n cb : ℕ) (p : Option ℕ) (w : World) → Ledger f n w → Ledger f n (env.on_connect cb p w)
  pub in_result :
      (n cb : ℕ) (r : Res) (p : Option ℕ) (w : World)
      → Ledger f n w
      → Ledger f n (env.on_result cb r p w)

module _ (f : Bytes → ℕ) (env : Env) (n : ℕ) where
  pub disconnect-Ledger : (w : World) → Ledger f n w → Ledger f n (disconnect env w)
  unfolding disconnect announce_disconnect
  disconnect-Ledger w l =
      if_cases (Ledger f n) w.e.db _ w
        (Kept-Ledger f n v _ (refl, refl, refl, refl, refl)
          (if_cases (Ledger f n) u.e.connected _ u
            (if_cases (Ledger f n) _ (post State.disconnect_event (leave_pool u)) (leave_pool u)
              (Kept-Ledger f n (leave_pool u) _ (refl, refl, refl, refl, refl) left) left)
            closed))
        l
    where
      u : World
      u = close env w

      v : World
      v = announce_disconnect u

      closed : Ledger f n u
      closed =
          if_cases (Ledger f n) w.e.fdh _ _ (Kept-Ledger f n w _ (refl, refl, refl, refl, refl) l)
            (Kept-Ledger f n w _ (refl, refl, refl, refl, refl) l)

      left : Ledger f n (leave_pool u)
      left =
          if_cases (Ledger f n) u.e.pool_member _ u
            (Kept-Ledger f n u _ (refl, refl, refl, refl, refl) closed) closed

  pub dropped-Ledger : (w : World) → Ledger f n w → Ledger f n (arm_reconnect (disconnect env w))
  dropped-Ledger w l =
      let v = disconnect env w in
      if_cases (Ledger f n) v.e.reconnect _ v
        (Kept-Ledger f n v _ (refl, refl, refl, refl, refl) (disconnect-Ledger w l))
        (disconnect-Ledger w l)

  pub timeout_cb-Ledger : (w : World) → Ledger f n w → Ledger f n (timeout_cb env w)
  unfolding timeout_cb
  timeout_cb-Ledger w l = dropped-Ledger v (Kept-Ledger f n w v (refl, refl, refl, refl, refl) l)
    where
      v : World
      v = set_e (record (w.e) { timeout_timer = false }) w

module _ (f : Bytes → ℕ) (env : Env) (quiet : KeepsBooks f env) (n : ℕ) where
  announce_with-Ledger :
      (o : Option ℕ) (w : World) → Ledger f n w → Ledger f n (announce_with env o w)
  announce_with-Ledger none w l = Kept-Ledger f n w _ (refl, refl, refl, refl, refl) l
  announce_with-Ledger (some cb) w l =
      quiet.in_connect n cb _ _ (Kept-Ledger f n w _ (refl, refl, refl, refl, refl) l)

  complete_init-Ledger : (w : World) → Ledger f n w → Ledger f n (complete_init env w)
  unfolding complete_init announce_connect
  complete_init-Ledger w l =
      if_cases (Ledger f n) (not w.e.pool_member) (announce_with env _ (came_up env w)) _
        (announce_with-Ledger _ (came_up env w)
          (Kept-Ledger f n w (came_up env w) (refl, refl, refl, refl, refl) l))
        (if_cases (Ledger f n) _ (announce_with env _ (full env w)) (counted env w)
          (announce_with-Ledger _ (full env w)
            (Kept-Ledger f n w (full env w) (refl, refl, refl, refl, refl) l))
          (Kept-Ledger f n w (counted env w) (refl, refl, refl, refl, refl) l))

  call_query_cb-Ledger :
      (cb : ℕ) (r : Res) (w : World) → Ledger f n w → Ledger f n (call_query_cb env cb r w)
  unfolding call_query_cb
  call_query_cb-Ledger cb r w l =
      Kept-Ledger f n (env.on_result cb r w.e.cur_data v) _ (refl, refl, refl, refl, refl)
        (quiet.in_result n cb r w.e.cur_data v
          (Kept-Ledger f n w v (refl, refl, refl, refl, refl) l))
    where
      v : World
      v = act (query_cb_call cb r w.e.cur_data) w

  deliver-Ledger :
      (o : Option ℕ) (r : Res) (w : World) → Ledger f n w → Ledger f n (deliver env o r w)
  deliver-Ledger none r w l = Kept-Ledger f n w _ (refl, refl, refl, refl, refl) l
  deliver-Ledger (some cb) r w l = call_query_cb-Ledger cb r w l

  hand_out-Ledger :
      (o : Option Res) (w : World) → Ledger f n w → Ledger f n (hand_out env (fetch_res env o w))
  hand_out-Ledger none w l =
      deliver-Ledger (w.query_callbacks w.e.cur_id) _ _
        (Kept-Ledger f n w _ (refl, refl, refl, refl, refl) l)
  hand_out-Ledger (some r) w l =
      deliver-Ledger (w.query_callbacks w.e.cur_id) _ _
        (Kept-Ledger f n w _ (refl, refl, refl, refl, refl) l)

  complete_query-Ledger : (w : World) → Ledger f n w → Ledger f n (complete_query env w)
  unfolding complete_query
  complete_query-Ledger w l =
      Kept-Ledger f n (hand_out env (fetch_res env v.e.res v)) _ (refl, refl, refl, refl, refl)
        (hand_out-Ledger v.e.res v (Kept-Ledger f n w v (refl, refl, refl, refl, refl) l))
    where
      v : World
      v = set_e (record (w.e) { query_end = env.time w.acts }) w

  complete-Ledger : (t : ConnectType) (w : World) → Ledger f n w → Ledger f n (complete env t w)
  complete-Ledger init w l = complete_init-Ledger w l
  complete-Ledger State.query w l = complete_query-Ledger w l
  complete-Ledger State.database_set w l = l
  complete-Ledger idle w l = l

  report_with-Ledger : (o : Option ℕ) (w : World) → Ledger f n w → Ledger f n (report_with env o w)
  report_with-Ledger none w l = l
  report_with-Ledger (some cb) w l =
      call_query_cb-Ledger cb _ _ (Kept-Ledger f n w _ (refl, refl, refl, refl, refl) l)

  drop_connection-Ledger : (w : World) → Ledger f n w → Ledger f n (drop_connection env w)
  drop_connection-Ledger w l =
      dropped-Ledger f env n (post error_event w)
        (Kept-Ledger f n w (post error_event w) (refl, refl, refl, refl, refl) l)

  call_if_set-Ledger : (o : Option ℕ) (w : World) → Ledger f n w → Ledger f n (call_if_set env o w)
  call_if_set-Ledger none w l = l
  call_if_set-Ledger (some cb) w l = announce_with-Ledger (some cb) w l

  error_branch-Ledger : (b : Bool) (w : World) → Ledger f n w → Ledger f n (error_branch env b w).0
  unfolding report_query_error
  error_branch-Ledger true w l =
      let m = report_with-Ledger (w.query_callbacks w.e.cur_id) w l in
      pick (λ r. Ledger f n r.0) (not (env.fd_has_error (report_query_error env w).acts))
        (report_query_error env w, some next) (drop_connection env (report_query_error env w), none)
        m (drop_connection-Ledger _ m)
  error_branch-Ledger false w l =
      drop_connection-Ledger _ (call_if_set-Ledger (ev_connect_cb w) w l)

  event_error_step-Ledger : (w : World) → Ledger f n w → Ledger f n (event_error_step env w).0
  unfolding event_error_step
  event_error_step-Ledger w l =
      error_branch-Ledger (is_query (copy_error v).e.current) (copy_error v) (
        if_cases (Ledger f n) v.e.pool_member _ v
          (Kept-Ledger f n w _ (refl, refl, refl, refl, refl) l)
          (Kept-Ledger f n w v (refl, refl, refl, refl, refl) l))
    where
      v : World
      v = record w {
        e = record (w.e) {
          error = env.error_get (backend_error_get ∷ w.acts);
          query_end = env.time (backend_error_get ∷ w.acts);
        };
        acts = backend_error_get ∷ w.acts;
      }

  after_io-Ledger : (a : Io) (w : World) → Ledger f n w → Ledger f n (after_io env a w).0
  after_io-Ledger done w l = l
  after_io-Ledger wants_both w l =
      if_cases (Ledger f n) w.e.fdh _ w (Kept-Ledger f n w _ (refl, refl, refl, refl, refl) l) l
  after_io-Ledger wants_read w l = Kept-Ledger f n w _ (refl, refl, refl, refl, refl) l
  after_io-Ledger wants_write w l = Kept-Ledger f n w _ (refl, refl, refl, refl, refl) l
  after_io-Ledger fails w l = l

  connect_handler_step-Ledger :
      (w : World) → Ledger f n w → Ledger f n (connect_handler_step env w).0
  unfolding connect_handler_step
  connect_handler_step-Ledger w l =
      after_io-Ledger (env.io (backend_io ∷ u.acts)) (act backend_io u) (
        Kept-Ledger f n u _ (refl, refl, refl, refl, refl)
          (if_cases (Ledger f n) v.e.timeout_timer (act timer_reset v) v
            (Kept-Ledger f n v _ (refl, refl, refl, refl, refl) h) h))
    where
      v : World
      v = if w.e.fdh then act (fd_active_set done) w else w

      u : World
      u = if v.e.timeout_timer then act timer_reset v else v

      h : Ledger f n v
      h =
          if_cases (Ledger f n) w.e.fdh (act (fd_active_set done) w) w
            (Kept-Ledger f n w _ (refl, refl, refl, refl, refl) l) l

  pub step-Ledger : (c : Call) (w : World) → Ledger f n w → Ledger f n (step env c w).0
  unfolding step call_complete_step
  step-Ledger next w l = next_step-Ledger f env n w l
  step-Ledger call_complete w l = complete-Ledger w.e.current w l
  step-Ledger event_error w l = event_error_step-Ledger w l
  step-Ledger connect_handler w l = connect_handler_step-Ledger w l
