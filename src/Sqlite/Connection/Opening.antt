-- ===== src/Sqlite/Connection/Opening.antt =====
-- `esql_connect` on an object of type SQLite, and the end of the thread that it starts.
use esskyuehl.Prelude.{
  ℕ, suc, ◌≡◌, refl, ap, sym, ◌∙◌, subst, Bool, true, false, not, ◌&&◌, List, [], ◌∷◌, Option, none,
  some, Bytes, if◌then◌else◌, if_true, if_false,
}
use esskyuehl.State.{
  World, Env, Act, Io, wants_both, act, set_e, idle, init, sqlite, is_mysql, is_no_type,
  backend_setup, backend_connect, backend_fd_get, event_add, connect_event, on_conn, on_pool,
}
use esskyuehl.Connect.{connect, after_connect, add_fd_handler, post}
use esskyuehl.Events.{
  Call, run, step, go_on, call_complete_step, complete_init, announce_connect, announce_with,
  next_step,
}
use esskyuehl.Events.Fifo.{Holds}
use esskyuehl.Events.Drain.Steps.{next_step-nil}
use esskyuehl.Sqlite.Connection.{connect_cb, open_thread}

-- The hooks of this backend as `esql_connect` meets them: the thread is started, which opens the
-- database later, and there is no descriptor.
pub record Threaded (env : Env) : Type 0 where
  pub starts : (h : List Act) → env.connect h ≡ (wants_both, false)
  pub no_fd : (h : List Act) → env.fd_get h ≡ none

-- A new object of type SQLite that nothing was asked of.
pub record IsFresh (w : World) : Type 0 where
  pub is_sqlite : w.e.kind ≡ sqlite
  pub is_down : w.e.connected ≡ false
  pub is_alone : w.e.pool_member ≡ false
  pub is_empty : Holds w.e []
  pub no_callback : w.e.connect_cb ≡ none

-- The calls that `esql_connect` makes, and what it leaves.
abbrev pub started : Bytes → Bytes → Option Bytes → World → World
started addr user passwd w = record w {
  e = record (w.e) { db = false };
  acts = backend_fd_get ∷ backend_connect ∷ backend_setup addr user passwd ∷ w.acts;
}

-- What is to hold behind `esql_connect`, which gave `x`, and the thread, which gave `r`.
abbrev pub Connected : World × Bool → World × Option Call → Type 0
Connected x r =
    (x.1 ≡ true)
    × (x.0.e.connected ≡ false)
    × (r.1 ≡ none)
    × (r.0.e.connected ≡ true)
    × (r.0.e.current ≡ idle)
    × (r.0.acts ≡ event_add connect_event on_conn ∷ x.0.acts)

and_false : (b : Bool) → (b && false) ≡ false
and_false true = refl
and_false false = refl

module _ (env : Env) (threaded : Threaded env) where
  no_handler : (w : World) → add_fd_handler env wants_both w ≡ act backend_fd_get w
  no_handler w = rw (threaded.no_fd (backend_fd_get ∷ w.acts), add_fd_handler)

  connect-started :
      (addr user : Bytes) (passwd : Option Bytes) (w : World)
      → IsFresh w
      → connect env (some addr) user passwd w ≡ (started addr user passwd w, true)
  unfolding connect
  connect-started addr user passwd w f =
      if_false (is_no_type w.e.kind) _ _ (ap is_no_type f.is_sqlite)
      ∙ if_false (not w.e.db && is_mysql w.e.kind) _ _
          (ap (λ k. not w.e.db && is_mysql k) f.is_sqlite ∙ and_false (not w.e.db))
      ∙ if_false w.e.connected _ _ f.is_down
      ∙ ap
          (λ (r : Io × Bool).
            after_connect env r.0
              (record v { e = record (v.e) { db = r.1 }; acts = backend_connect ∷ v.acts }))
          (threaded.starts (backend_connect ∷ v.acts))
      ∙ ap (λ (u : World). (u, true))
          (no_handler
            (record v { e = record (v.e) { db = false }; acts = backend_connect ∷ v.acts }))
    where
      v : World
      v = act (backend_setup addr user passwd) w

  -- The world behind `esql_call_complete` of a connection that is open.
  abbrev pub arrived : World → World
  arrived w = post connect_event (set_e (record (w.e) { connected = true }) w)

  complete_init-arrived :
      (w : World)
      → w.e.pool_member ≡ false
      → w.e.connect_cb ≡ none
      → complete_init env w ≡ arrived w
  unfolding complete_init announce_connect
  complete_init-arrived w a c =
      if_true (not w.e.pool_member) _ _ (ap not a)
      ∙ ap (λ (b : Bool). announce_with env (if b then w.ep.connect_cb else w.e.connect_cb) v) a
      ∙ ap (λ o. announce_with env o v) c
    where
      v : World
      v = set_e (record (w.e) { connected = true }) w

  -- The object `w` behind the end of the thread.
  pub open_thread-arrived :
      (w : World) (fuel : ℕ)
      → w.e.pool_member ≡ false
      → w.e.connect_cb ≡ none
      → Holds w.e []
      → open_thread env (suc (suc fuel)) true w ≡ (
        set_e
            (record ((arrived (connect_cb true w).0).e) { current = idle })
            (arrived (connect_cb true w).0),
        none,
      )
  unfolding open_thread connect_cb run step call_complete_step
  open_thread-arrived w fuel a c h =
      ap (λ u. go_on (run env fuel) (next_step env u)) (complete_init-arrived v a c)
      ∙ ap (go_on (run env fuel)) (
          next_step-nil env (arrived v) (record { funcs = h.funcs; params = h.params; ids = h.ids })
            a)
    where
      v : World
      v = set_e (record (w.e) { db = true; current = init }) w

  -- `esql_connect` on a new object of type SQLite starts a thread and leaves the object
  -- unconnected; when the thread has opened the database, the object is connected and idle, a
  -- connect event that names it is the last call made, and no call is left.
  pub open_thread-Connected :
      (addr user : Bytes) (passwd : Option Bytes) (w : World) (fuel : ℕ)
      → IsFresh w
      → Connected
          (connect env (some addr) user passwd w)
          (open_thread env (suc (suc fuel)) true (connect env (some addr) user passwd w).0)
  open_thread-Connected addr user passwd w fuel f =
      subst (λ x. Connected x (open_thread env (suc (suc fuel)) true x.0))
        (sym (connect-started addr user passwd w f))
        (subst (Connected (v, true))
          (sym (open_thread-arrived v fuel f.is_alone f.no_callback empty))
          (unfold connect_cb in
            (
              refl,
              f.is_down,
              refl,
              refl,
              refl,
              ap (λ (b : Bool). event_add connect_event (if b then on_pool else on_conn) ∷ v.acts)
                  f.is_alone,
            )))
    where
      v : World
      v = started addr user passwd w

      empty : Holds v.e []
      empty = record { funcs = f.is_empty.funcs; params = f.is_empty.params; ids = f.is_empty.ids }
