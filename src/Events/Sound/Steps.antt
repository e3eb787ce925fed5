-- ===== src/Events/Sound/Steps.antt =====
-- The steps of the chain of calls on a pool.
use esskyuehl.Prelude.{
  ℕ, ◌≡◌, ◌≢◌, refl, ap, sym, ◌∙◌, Bool, true, false, not, ◌∷◌, Option, none, some, if◌then◌else◌,
}
use esskyuehl.State.{
  Conn, World, Env, Act, Res, Io, done, wants_both, wants_read, wants_write, fails, act, set_e,
  if_cases, idle, init, ConnectType, is_query, is_idle, SetFunc, set_database, run_query,
  error_event, connect_event, backend_error_get, if_split, query_cb_call, connect_cb_call, target,
  fd_active_set, timer_reset, backend_io,
}
use esskyuehl.State
use esskyuehl.Connect.{post}
use esskyuehl.Events.{
  Call, next, call_complete, event_error, connect_handler, complete_init, fetch_res, hand_out,
  call_query_cb, deliver, complete_query, complete, call_complete_step, copy_error, report_with,
  report_query_error, drop_connection, call_if_set, announce_with, announce_connect, ev_connect_cb,
  ev_connect_data, error_branch, event_error_step, after_io, connect_handler_step, step,
}
use esskyuehl.Events.Members.{came_up, counted, full, counted-Counts}
use esskyuehl.Events.Sound.{Ready, Sound, Kept-Sound, Settled-Good, Good, pick, dropped-Good}
use esskyuehl.Events.Sound.Next.{Fine, next_step-Fine}

-- What the user's callbacks keep, which calls of `esql_query` do.
pub record Keeps (env : Env) : Type 0 where
  pub connect_sound : (cb : ℕ) (p : Option ℕ) (w : World) → Sound w → Sound (env.on_connect cb p w)
  pub connect_ready :
      (cb : ℕ) (p : Option ℕ) (w : World) → Ready w.e → Ready (env.on_connect cb p w).e
  pub result_sound :
      (cb : ℕ) (r : Res) (p : Option ℕ) (w : World) → Sound w → Sound (env.on_result cb r p w)
  pub result_ready :
      (cb : ℕ) (r : Res) (p : Option ℕ) (w : World) → Ready w.e → Ready (env.on_result cb r p w).e

true-ne-false : true ≢ false
true-ne-false e = cc

-- A member that has come up, in the pool that has counted it.
counted-Sound : (env : Env) (w : World) → w.e.connected ≡ false → Sound w → Sound (counted env w)
counted-Sound env w d s = record {
  count = counted-Counts w d s.count;
  fit_before = s.fit_before;
  fit_after = s.fit_after;
  is_member = s.is_member;
}

no_member : (w : World) → Sound w → not w.e.pool_member ≡ true → ⊥
no_member w s n = true-ne-false (sym n ∙ ap not s.is_member)

module _ (env : Env) (keeps : Keeps env) where
  announce_with-Sound : (o : Option ℕ) (w : World) → Sound w → Sound (announce_with env o w)
  announce_with-Sound none w s = Kept-Sound w _ (refl, refl, refl, refl, refl) s
  announce_with-Sound (some cb) w s =
      keeps.connect_sound cb _ _ (Kept-Sound w _ (refl, refl, refl, refl, refl) s)

  complete_init-Sound : (w : World) → w.e.connected ≡ false → Sound w → Sound (complete_init env w)
  unfolding complete_init announce_connect
  complete_init-Sound w d s =
      if_split Sound (not w.e.pool_member) (announce_with env _ (came_up env w)) _
        (λ n. absurd (no_member w s n))
        (λ n.
          if_cases Sound _ (announce_with env _ (full env w)) (counted env w)
            (announce_with-Sound _ (full env w) (
              Kept-Sound (counted env w) (full env w) (refl, refl, refl, refl, refl)
                (counted-Sound env w d s)))
            (counted-Sound env w d s))

  call_query_cb-Good : (cb : ℕ) (r : Res) (w : World) → Good w → Good (call_query_cb env cb r w)
  unfolding call_query_cb
  call_query_cb-Good cb r w g =
      Settled-Good (env.on_result cb r w.e.cur_data v) _ ((refl, refl, refl, refl, refl), λ e. e)
        (keeps.result_sound cb r w.e.cur_data v h.0, keeps.result_ready cb r w.e.cur_data v h.1)
    where
      v : World
      v = act (query_cb_call cb r w.e.cur_data) w

      h : Good v
      h = Settled-Good w v ((refl, refl, refl, refl, refl), λ e. e) g

  deliver-Good : (o : Option ℕ) (r : Res) (w : World) → Good w → Good (deliver env o r w)
  deliver-Good none r w g = Settled-Good w _ ((refl, refl, refl, refl, refl), λ e. e) g
  deliver-Good (some cb) r w g = call_query_cb-Good cb r w g

  hand_out-Good : (o : Option Res) (w : World) → Good w → Good (hand_out env (fetch_res env o w))
  hand_out-Good none w g =
      deliver-Good (w.query_callbacks w.e.cur_id) _ _
        (Settled-Good w _ ((refl, refl, refl, refl, refl), λ e. e) g)
  hand_out-Good (some r) w g =
      deliver-Good (w.query_callbacks w.e.cur_id) _ _
        (Settled-Good w _ ((refl, refl, refl, refl, refl), λ e. e) g)

  complete_query-Good : (w : World) → Good w → Good (complete_query env w)
  unfolding complete_query
  complete_query-Good w g =
      Settled-Good (hand_out env (fetch_res env v.e.res v)) _
        ((refl, refl, refl, refl, refl), λ e. e)
        (hand_out-Good v.e.res v (Settled-Good w v ((refl, refl, refl, refl, refl), λ e. e) g))
    where
      v : World
      v = set_e (record (w.e) { query_end = env.time w.acts }) w

  complete-Sound :
      (t : ConnectType) (w : World) → w.e.current ≡ t → Good w → Sound (complete env t w)
  complete-Sound init w e g = complete_init-Sound w (g.1 e) g.0
  complete-Sound State.query w e g = (complete_query-Good w g).0
  complete-Sound State.database_set w e g = g.0
  complete-Sound idle w e g = g.0

  report_with-Good : (o : Option ℕ) (w : World) → Good w → Good (report_with env o w)
  report_with-Good none w g = g
  report_with-Good (some cb) w g =
      call_query_cb-Good cb _ _ (Settled-Good w _ ((refl, refl, refl, refl, refl), λ e. e) g)

  call_if_set-Good : (o : Option ℕ) (w : World) → Good w → Good (call_if_set env o w)
  call_if_set-Good none w g = g
  call_if_set-Good (some cb) w g =
      let h =
        Settled-Good w (act (connect_cb_call cb (ev_connect_data w) (target w)) w)
          ((refl, refl, refl, refl, refl), λ e. e) g in
      (keeps.connect_sound cb _ _ h.0, keeps.connect_ready cb _ _ h.1)

  drop_connection-Good : (w : World) → Good w → Good (drop_connection env w)
  drop_connection-Good w g =
      dropped-Good env (post error_event w)
        (Settled-Good w (post error_event w) ((refl, refl, refl, refl, refl), λ e. e) g)

  error_branch-Fine : (b : Bool) (w : World) → Good w → Fine (error_branch env b w)
  unfolding report_query_error
  error_branch-Fine true w g =
      let h = report_with-Good (w.query_callbacks w.e.cur_id) w g in
      pick Fine (not (env.fd_has_error (report_query_error env w).acts))
        (report_query_error env w, some next) (drop_connection env (report_query_error env w), none)
        h.0 (drop_connection-Good _ h)
  error_branch-Fine false w g = drop_connection-Good _ (call_if_set-Good (ev_connect_cb w) w g)

  event_error_step-Fine : (w : World) → Good w → Fine (event_error_step env w)
  unfolding event_error_step
  event_error_step-Fine w g = error_branch-Fine (is_query (copy_error v).e.current) (copy_error v) (
      if_cases Good v.e.pool_member _ v
        (Settled-Good w _ ((refl, refl, refl, refl, refl), λ e. e) g)
        (Settled-Good w v ((refl, refl, refl, refl, refl), λ e. e) g))
    where
      v : World
      v = record w {
        e = record (w.e) {
          error = env.error_get (backend_error_get ∷ w.acts);
          query_end = env.time (backend_error_get ∷ w.acts);
        };
        acts = backend_error_get ∷ w.acts;
      }

  after_io-Fine : (a : Io) (w : World) → Good w → Fine (after_io env a w)
  after_io-Fine done w g = g
  after_io-Fine wants_both w g =
      if_cases Good w.e.fdh _ w (Settled-Good w _ ((refl, refl, refl, refl, refl), λ e. e) g) g
  after_io-Fine wants_read w g = Settled-Good w _ ((refl, refl, refl, refl, refl), λ e. e) g
  after_io-Fine wants_write w g = Settled-Good w _ ((refl, refl, refl, refl, refl), λ e. e) g
  after_io-Fine fails w g = g

  connect_handler_step-Fine : (w : World) → Good w → Fine (connect_handler_step env w)
  unfolding connect_handler_step
  connect_handler_step-Fine w g = after_io-Fine (env.io (backend_io ∷ u.acts)) (act backend_io u) (
      Settled-Good u _ ((refl, refl, refl, refl, refl), λ e. e)
        (if_cases Good v.e.timeout_timer (act timer_reset v) v
          (Settled-Good v _ ((refl, refl, refl, refl, refl), λ e. e) h) h))
    where
      v : World
      v = if w.e.fdh then act (fd_active_set done) w else w

      u : World
      u = if v.e.timeout_timer then act timer_reset v else v

      h : Good v
      h =
          if_cases Good w.e.fdh (act (fd_active_set done) w) w
            (Settled-Good w _ ((refl, refl, refl, refl, refl), λ e. e) g) g

  -- Each call of the chain leaves the state that the next one needs.
  pub step-Fine : (c : Call) (w : World) → Fine (w, some c) → Fine (step env c w)
  unfolding step call_complete_step
  step-Fine next w s = next_step-Fine env w s
  step-Fine call_complete w g = complete-Sound w.e.current w refl g
  step-Fine event_error w g = event_error_step-Fine w g
  step-Fine connect_handler w g = connect_handler_step-Fine w g
