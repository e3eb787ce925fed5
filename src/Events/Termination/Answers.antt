-- ===== src/Events/Termination/Answers.antt =====
-- The measure of the chain over `esql_connect_handler`, `esql_call_complete` and
-- `esql_event_error`.
use native.Mathlib.Nat.{le_refl}
use esskyuehl.Prelude.{
  ℕ, ◌+◌, ◌≤◌, ◌≡◌, refl, ◌⊎◌, inl, inr, Bool, true, false, not, Option, none, some, arith,
  if◌then◌else◌,
}
use esskyuehl.State.{
  if_cases, Conn, World, Env, Res, set_e, act, SetFunc, set_database, run_query, ConnectType, idle,
  init, is_query, Io, done, wants_both, wants_read, wants_write, fails, fd_active_set, timer_reset,
}
use esskyuehl.State
use esskyuehl.Events.{
  next, call_complete, event_error, connect_handler, announce_with, complete_init, call_query_cb,
  deliver, hand_out, fetch_res, complete_query, complete, call_complete_step, report_with,
  report_query_error, error_branch, drop_connection, event_error_step, after_io,
  connect_handler_step,
}
use esskyuehl.Events.Rebalance.{all_calls}
use esskyuehl.Events.Termination.{Calm, Live, Falls}

after_io-Falls :
    (env : Env) (r : Io) (w v : World)
    → all_calls v ≡ all_calls w
    → Live connect_handler v
    → Falls connect_handler w (after_io env r v)
after_io-Falls env done w v e l = (l, omega arith)
after_io-Falls env wants_both w v e l = tt
after_io-Falls env wants_read w v e l = tt
after_io-Falls env wants_write w v e l = tt
after_io-Falls env fails w v e l = (l, omega arith)

pub connect_handler-Falls :
    (env : Env) (w : World)
    → Live connect_handler w
    → Falls connect_handler w (connect_handler_step env w)
unfolding connect_handler_step
connect_handler-Falls env w l = after_io-Falls env _ w _ (e.0) (e.1)
  where
    P : World → Type 0
    P v = (all_calls v ≡ all_calls w) × Live connect_handler v

    first : World
    first = if w.e.fdh then act (fd_active_set done) w else w

    p : P first
    p = if_cases P w.e.fdh _ w (refl, l) (refl, l)

    e : P (if first.e.timeout_timer then act timer_reset first else first)
    e = if_cases P first.e.timeout_timer (act timer_reset first) first p p

query_Live : (k : ConnectType) (b : Bool) → (b ≡ true) ⊎ (k ≡ init) → is_query k ≡ true → b ≡ true
query_Live k b h e = ground arith

module _ (env : Env) (calm : Calm env) where
  -- The connection stays up, and no more calls wait.
  abbrev Stays : World → World → Type 0
  Stays w v = (v.e.connected ≡ true) × (all_calls v ≤ all_calls w)

  announce_with-Stays :
      (o : Option ℕ) (w : World) → w.e.connected ≡ true → Stays w (announce_with env o w)
  announce_with-Stays (some cb) w h = (calm.connect_stays cb _ _ h, calm.connect_calls cb _ _)
  announce_with-Stays none w h = (h, le_refl _)

  complete_init-Stays : (w : World) → Stays w (complete_init env w)
  unfolding complete_init
  complete_init-Stays w =
      if_cases (Stays w) (not w.e.pool_member) (announce_with env _ v) _
        (announce_with-Stays _ v refl)
        (if_cases (Stays w) _ (announce_with env _ full) u (announce_with-Stays _ full refl)
          (refl, le_refl _))
    where
      v : World
      v = set_e (record (w.e) { connected = true }) w

      u : World
      u = record v { ep = record (v.ep) { e_connected = v.ep.e_connected + 1 } }

      full : World
      full = record u { ep = record (u.ep) { connected = true } }

  call_query_cb-Stays :
      (cb : ℕ) (r : Res) (w : World) → w.e.connected ≡ true → Stays w (call_query_cb env cb r w)
  unfolding call_query_cb
  call_query_cb-Stays cb r w h = (calm.result_stays cb r _ _ h, calm.result_calls cb r _ _)

  deliver-Stays :
      (o : Option ℕ) (r : Res) (w : World) → w.e.connected ≡ true → Stays w (deliver env o r w)
  deliver-Stays (some cb) r w h = call_query_cb-Stays cb r w h
  deliver-Stays none r w h = (h, le_refl _)

  hand_out-Stays :
      (o : Option Res) (w : World)
      → w.e.connected ≡ true
      → Stays w (hand_out env (fetch_res env o w))
  hand_out-Stays (some r) w h = deliver-Stays _ _ _ h
  hand_out-Stays none w h = deliver-Stays _ _ _ h

  complete_query-Stays : (w : World) → w.e.connected ≡ true → Stays w (complete_query env w)
  unfolding complete_query
  complete_query-Stays w h =
      hand_out-Stays w.e.res (set_e (record (w.e) { query_end = env.time w.acts }) w) h

  complete-Stays :
      (k : ConnectType) (w : World)
      → (w.e.connected ≡ true) ⊎ (k ≡ init)
      → Stays w (complete env k w)
  complete-Stays init w h = complete_init-Stays w
  complete-Stays State.query w (inl h) = complete_query-Stays w h
  complete-Stays State.database_set w (inl h) = (h, le_refl _)
  complete-Stays idle w (inl h) = (h, le_refl _)
  complete-Stays State.query w (inr h) = cc
  complete-Stays State.database_set w (inr h) = cc
  complete-Stays idle w (inr h) = cc

  pub call_complete-Falls :
      (w : World) → Live call_complete w → Falls call_complete w (call_complete_step env w)
  unfolding call_complete_step
  call_complete-Falls w l = let s = complete-Stays w.e.current w l in (s.0, omega (arith, s.1))

  report_with-Stays :
      (o : Option ℕ) (w : World) → w.e.connected ≡ true → Stays w (report_with env o w)
  report_with-Stays none w h = (h, le_refl _)
  report_with-Stays (some cb) w h = call_query_cb-Stays cb _ _ h

  error_branch-Falls :
      (b : Bool) (w v : World)
      → (b ≡ true → v.e.connected ≡ true)
      → all_calls v ≡ all_calls w
      → Falls event_error w (error_branch env b v)
  error_branch-Falls false w v h e = tt
  error_branch-Falls true w v h e = fd_cases (env.fd_has_error (report_query_error env v).acts)
    where
      s : Stays v (report_query_error env v)
      s = unfold report_query_error in report_with-Stays (v.query_callbacks v.e.cur_id) v (h refl)

      fd_cases :
          (b : Bool)
          → Falls event_error w (
              if not b
              then (report_query_error env v, some next)
              else (drop_connection env (report_query_error env v), none))
      fd_cases true = tt
      fd_cases false = (s.0, omega (arith, s.1))

  pub event_error-Falls :
      (w : World) → Live event_error w → Falls event_error w (event_error_step env w)
  unfolding event_error_step
  event_error-Falls w l =
      let r = if_cases P w.e.pool_member _ _ p p in error_branch-Falls _ w _ r.0 r.1
    where
      P : World → Type 0
      P v = (is_query v.e.current ≡ true → v.e.connected ≡ true) × (all_calls v ≡ all_calls w)

      p : (is_query w.e.current ≡ true → w.e.connected ≡ true) × (all_calls w ≡ all_calls w)
      p = (query_Live w.e.current w.e.connected l, refl)
