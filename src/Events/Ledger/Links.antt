-- ===== src/Events/Ledger/Links.antt =====
-- The books of the queries where a connection is started.
use esskyuehl.Prelude.{
  ℕ, refl, Bool, true, false, not, ◌&&◌, ◌∷◌, Option, none, some, if◌then◌else◌, Bytes,
}
use esskyuehl.State.{
  Conn, World, Env, Io, done, wants_both, wants_read, wants_write, fails, act, set_e, if_cases,
  idle, init, members, is_mysql, is_no_type, is_idle, disconnect_event, backend_connect,
  backend_fd_get, backend_setup, fd_active_set, run_query,
}
use esskyuehl.State
use esskyuehl.Connect.{connect, call_connect, add_fd_handler, after_connect, post, database_set}
use esskyuehl.Events.{set_ev_database, reopen, after_reconnect, reconnect_handler}
use esskyuehl.Events.Sound.{pick}
use esskyuehl.Events.Ledger.{Ledger, Kept-Ledger}
use esskyuehl.Events.Ledger.Queues.{database_set-Ledger}
use esskyuehl.Sqlite.Connection.{connect_cb}

module _ (f : Bytes → ℕ) (env : Env) (n : ℕ) where
  add_fd_handler-Ledger : (a : Io) (w : World) → Ledger f n w → Ledger f n (add_fd_handler env a w)
  add_fd_handler-Ledger a w l = by_fd (env.fd_get (backend_fd_get ∷ w.acts))
    where
      by_fd :
          (o : Option ℕ)
          → Ledger f n (elim o [
            | none ↦ act backend_fd_get w
            | some fd ↦ act (fd_active_set a) (
                act
                  (State.fd_handler_add fd)
                  (act backend_fd_get (set_e (record (w.e) { fdh = true; current = init }) w)))
          ])
      by_fd none = Kept-Ledger f n w _ (refl, refl, refl, refl, refl) l
      by_fd (some fd) = Kept-Ledger f n w _ (refl, refl, refl, refl, refl) l

  after_connect-Ledger : (a : Io) (w : World) → Ledger f n w → Ledger f n (after_connect env a w).0
  after_connect-Ledger fails w l = Kept-Ledger f n w _ (refl, refl, refl, refl, refl) l
  after_connect-Ledger done w l = add_fd_handler-Ledger done w l
  after_connect-Ledger wants_both w l = add_fd_handler-Ledger wants_both w l
  after_connect-Ledger wants_read w l = add_fd_handler-Ledger wants_read w l
  after_connect-Ledger wants_write w l = add_fd_handler-Ledger wants_write w l

  pub connect-Ledger :
      (addr : Option Bytes) (user : Bytes) (passwd : Option Bytes) (w : World)
      → Ledger f n w
      → Ledger f n (connect env addr user passwd w).0
  unfolding connect
  connect-Ledger none user passwd w l = l
  connect-Ledger (some addr) user passwd w l =
      pick (λ r. Ledger f n r.0) (is_no_type w.e.kind) (w, false) _ l
        (pick (λ r. Ledger f n r.0) (not w.e.db && is_mysql w.e.kind) (w, false) _ l
          (pick (λ r. Ledger f n r.0) w.e.connected (w, false) _ l
            (after_connect-Ledger _ u (Kept-Ledger f n w u (refl, refl, refl, refl, refl) l))))
    where
      u : World
      u = call_connect env (act (backend_setup addr user passwd) w)

  set_ev_database-Ledger : (w : World) → Ledger f n w → Ledger f n (set_ev_database w)
  set_ev_database-Ledger w l = by_name (if w.e.pool_member then w.ep.database else w.e.database)
    where
      by_name :
          (o : Option Bytes)
          → Ledger f n (elim o [ none ↦ w | some name ↦ (database_set (some name) w).0 ])
      by_name none = l
      by_name (some name) = database_set-Ledger f n (some name) w l

  reopen-Ledger : (a : Io) (w : World) → Ledger f n w → Ledger f n (reopen env a w)
  reopen-Ledger a w l = by_fd (env.fd_get (backend_fd_get ∷ w.acts))
    where
      by_fd :
          (o : Option ℕ)
          → Ledger f n (elim o [
            | none ↦ act backend_fd_get w
            | some fd ↦ set_ev_database (add_fd_handler env a w)
          ])
      by_fd none = Kept-Ledger f n w _ (refl, refl, refl, refl, refl) l
      by_fd (some fd) = set_ev_database-Ledger _ (add_fd_handler-Ledger a w l)

  after_reconnect-Ledger :
      (a : Io) (w : World) → Ledger f n w → Ledger f n (after_reconnect env a w)
  after_reconnect-Ledger fails w l = Kept-Ledger f n w _ (refl, refl, refl, refl, refl) l
  after_reconnect-Ledger done w l = reopen-Ledger done w l
  after_reconnect-Ledger wants_both w l = reopen-Ledger wants_both w l
  after_reconnect-Ledger wants_read w l = reopen-Ledger wants_read w l
  after_reconnect-Ledger wants_write w l = reopen-Ledger wants_write w l

  pub reconnect_handler-Ledger : (w : World) → Ledger f n w → Ledger f n (reconnect_handler env w)
  unfolding reconnect_handler
  reconnect_handler-Ledger w l =
      if_cases (Ledger f n) (not u.e.db) (post disconnect_event u)
        (after_reconnect env (env.connect (backend_connect ∷ w.acts)).0 u)
        (Kept-Ledger f n w _ (refl, refl, refl, refl, refl) l)
        (after_reconnect-Ledger _ u (Kept-Ledger f n w u (refl, refl, refl, refl, refl) l))
    where
      u : World
      u = call_connect env (set_e (record (w.e) { reconnect_timer = false }) w)

  pub connect_cb-Ledger : (b : Bool) (w : World) → Ledger f n w → Ledger f n (connect_cb b w).0
  unfolding connect_cb
  connect_cb-Ledger true w l = Kept-Ledger f n w _ (refl, refl, refl, refl, refl) l
  connect_cb-Ledger false w l = Kept-Ledger f n w _ (refl, refl, refl, refl, refl) l
