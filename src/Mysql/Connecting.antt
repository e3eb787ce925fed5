-- ===== src/Mysql/Connecting.antt =====
-- `esql_connect` on an object of type MySQL, and the fd handler until the server has answered.
use esskyuehl.Prelude.{
  not, ◌&&◌, ap₂, if_false, ℕ, suc, ◌≡◌, refl, ap, sym, subst, ◌∙◌, inl, inr, true, false, List, [],
  ◌∷◌, Option, none, some, Bytes,
}
use esskyuehl.State.{is_no_type, is_mysql, World, Env, Act, Io, act, idle, fd_active_set, on_conn}
use esskyuehl.Events.{
  Call, call_complete, next_step, connect_handler, run, step, call_complete_step,
}
use esskyuehl.Mysql.{Mysac, Errno, no_error, switch_ret}
use esskyuehl.Mysql.Hooks
use esskyuehl.Mysql.Hooks.{MysacCalls, behind, over}
use esskyuehl.State.{
  mysql, init, backend_setup, backend_connect, backend_fd_get, fd_handler_add, event_add,
  connect_event, incr,
}
use esskyuehl.Connect.{add_fd_handler, connect, after_connect, call_connect}
use esskyuehl.Events.{complete_init, announce_connect}
use esskyuehl.Mysql.{setup}
use esskyuehl.Mysql.Rounds.{NoFailure, wakes, Stays, Ends, At, wakes-Last, Last-run, no_error-call}
use esskyuehl.Mysql.Asking.{IsOpen}

-- An object of type MySQL of its own that is not connected and that nothing is asked of, without a
-- connect callback.
pub record IsClosed (w : World) : Type 0 where
  pub has_kind : w.e.kind ≡ mysql
  pub has_db : w.e.db ≡ true
  pub is_down : w.e.connected ≡ false
  pub is_alone : w.e.pool_member ≡ false
  pub is_empty : w.e.backend_set_funcs ≡ []
  pub no_callback : w.e.connect_cb ≡ none
  pub no_job : w.e.fd_job ≡ false
  pub no_res : w.e.res ≡ none

-- The world behind `esql_connect`, where `ret` is what the hook gives and `fd` the descriptor.
abbrev opened : Bytes → Bytes → Option Bytes → Io → ℕ → World → World
opened addr user passwd ret fd w = record w {
  e = record (w.e) { db = true; fdh = true; current = init };
  acts =
      fd_active_set ret
      ∷ fd_handler_add fd
      ∷ backend_fd_get
      ∷ backend_connect
      ∷ backend_setup addr user passwd
      ∷ w.acts;
}

-- The world behind the call that ends the connecting.
abbrev connected : World → World
connected u = record u {
  e = record (u.e) { connected = true; event_count = incr u.e.event_count; current = idle };
  acts = event_add connect_event on_conn ∷ u.acts;
}

-- The hooks answer, and there is no failure.
after_connect-opened :
    (env : Env) (addr user : Bytes) (passwd : Option Bytes) (fd : ℕ) (w : World) (c : Errno)
    → env.connect (backend_connect ∷ backend_setup addr user passwd ∷ w.acts) ≡ (switch_ret c, true)
    → env.fd_get (backend_fd_get ∷ backend_connect ∷ backend_setup addr user passwd ∷ w.acts)
      ≡ some fd
    → NoFailure c
    → let v = act (backend_setup addr user passwd) w in
      after_connect env (env.connect (backend_connect ∷ v.acts)).0 (call_connect env v)
      ≡ (opened addr user passwd (switch_ret c) fd w, true)
unfolding switch_ret
after_connect-opened env addr user passwd fd w c e f (inl n) = rw (e, n, add_fd_handler, f) refl
after_connect-opened env addr user passwd fd w c e f (inr (inl n)) =
    rw (e, n, add_fd_handler, f) refl
after_connect-opened env addr user passwd fd w c e f (inr (inr n)) =
    rw (e, n, add_fd_handler, f) refl

call_complete-connected :
    (env : Env) (u : World) (fuel : ℕ)
    → u.e.current ≡ init
    → u.e.pool_member ≡ false
    → u.e.connect_cb ≡ none
    → u.e.backend_set_funcs ≡ []
    → run env (suc (suc fuel)) call_complete u ≡ (connected u, none)
unfolding run step call_complete_step complete_init announce_connect next_step
call_complete-connected env u fuel c a n e = rw (c, a, n, e) refl

module _ {ℓ} {R : Type ℓ} (lib : MysacCalls R) (database : List Act → Option Bytes) (m₀ : Mysac)
    (env : Env) where
  abbrev surroundings : Env
  surroundings = over lib database m₀ env

  -- The MYSAC behind `esql_mysac_setup`.
  abbrev pub set_up : Bytes → Bytes → Option Bytes → World → Mysac
  set_up addr user passwd w =
      lib.mysac_setup (some addr) (some user) passwd (database w.acts)
        (behind lib database m₀ w.acts)

  connect-opened :
      (addr user : Bytes) (passwd : Option Bytes) (w : World) (fd : ℕ)
      → IsClosed w
      → NoFailure (lib.mysac_connect (set_up addr user passwd w)).1
      → lib.mysac_get_fd (lib.mysac_connect (set_up addr user passwd w)).0 ≡ some fd
      → connect surroundings (some addr) user passwd w ≡ (
        opened addr user passwd (switch_ret (lib.mysac_connect (set_up addr user passwd w)).1) fd w,
        true,
      )
  unfolding connect
  connect-opened addr user passwd w fd c n f =
      if_false (is_no_type w.e.kind) _ _ (ap is_no_type c.has_kind)
      ∙ if_false _ _ _ (ap₂ (λ a b. not a && is_mysql b) c.has_db c.has_kind)
      ∙ if_false w.e.connected _ _ c.is_down
      ∙ after_connect-opened surroundings addr user passwd fd w
          (lib.mysac_connect (set_up addr user passwd w)).1 answer descriptor n
    where
      h : List Act
      h = backend_connect ∷ backend_setup addr user passwd ∷ w.acts

      answer :
          surroundings.connect h
          ≡ (switch_ret (lib.mysac_connect (set_up addr user passwd w)).1, true)
      answer = unfold over behind Hooks.connect setup in refl

      descriptor : surroundings.fd_get (backend_fd_get ∷ h) ≡ some fd
      descriptor = unfold over behind Hooks.connect Hooks.fd_get setup in f

  -- What is to hold when the connection of `w` has been made and its MYSAC is `n`: a connect event
  -- that names the object is the last call made, and callbacks and the counter of ids are as
  -- before.
  abbrev pub Connected : World → Mysac → World × Option Call → Type 0
  Connected w n s =
      IsOpen s.0
      × (s.0.query_callbacks ≡ w.query_callbacks)
      × (s.0.esql_id ≡ w.esql_id)
      × (behind lib database m₀ s.0.acts ≡ n)
      × (h : List Act) × (s.0.acts ≡ event_add connect_event on_conn ∷ h)
      × (s.1 ≡ none)

  -- `esql_connect` on an object of type MySQL of its own that is not connected and that nothing is
  -- asked of, without a connect callback: where mysac begins to connect without a failure, has a
  -- descriptor, waits `k` times for the server and then ends without an error, `esql_connect`
  -- succeeds and leaves the object unconnected; the first `k` calls of the fd handler leave the
  -- object just as it is then, unconnected too, with no call to make; and one call more leaves it
  -- connected and idle, with a connect event that names it as the last call made, and with the
  -- callbacks of queries and the counter of ids as they were.
  pub connect-Connected :
      (addr user : Bytes) (passwd : Option Bytes) (w : World) (n : Mysac) (k fuel fd : ℕ)
      → IsClosed w
      → NoFailure (lib.mysac_connect (set_up addr user passwd w)).1
      → lib.mysac_get_fd (lib.mysac_connect (set_up addr user passwd w)).0 ≡ some fd
      → Ends lib no_error (lib.mysac_connect (set_up addr user passwd w)).0 k n
      → let f = suc (suc (suc fuel)) in
        let made = connect surroundings (some addr) user passwd w in
        let first = run surroundings f connect_handler made.0 in
        (made.1 ≡ true)
        × (made.0.e.connected ≡ false)
        × (made.0.e.current ≡ init)
        × Stays made.0.e surroundings f k first
        × Connected w n (wakes surroundings f k first)
  connect-Connected addr user passwd w n k fuel fd c e g s =
      let (under, last) = wakes-Last lib database m₀ env v₀ v₀ (suc (suc fuel)) s at_first in
      let (u, at, same) =
        Last-run lib database m₀ env v₀ call_complete (no_error-call surroundings) last in
      rw (connect-opened addr user passwd w fd c e g) (
        refl,
        c.is_down,
        refl,
        under,
        subst (Connected w n)
            (sym (same ∙ ap (run surroundings (suc (suc fuel)) call_complete) at.same ∙ ended u))
            (
              record {
                is_up = refl;
                has_db = refl;
                is_at_rest = refl;
                is_alone = c.is_alone;
                is_empty = c.is_empty;
                no_job = c.no_job;
                no_res = c.no_res;
              },
              refl,
              refl,
              unfold behind in at.stands,
              u.acts,
              refl,
              refl,
            ),
      )
    where
      v₀ : World
      v₀ =
          opened addr user passwd (switch_ret (lib.mysac_connect (set_up addr user passwd w)).1) fd
            w

      at_first : At lib database m₀ v₀ (lib.mysac_connect (set_up addr user passwd w)).0 v₀
      at_first = record { same = refl; stands = unfold behind Hooks.connect setup in refl }

      ended :
          (u : World)
          → run surroundings (suc (suc fuel)) call_complete (record v₀ { acts = u.acts })
            ≡ (connected (record v₀ { acts = u.acts }), none)
      ended u =
          call_complete-connected surroundings (record v₀ { acts = u.acts }) fuel refl c.is_alone
            c.no_callback c.is_empty
