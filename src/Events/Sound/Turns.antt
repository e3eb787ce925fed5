-- ===== src/Events/Sound/Turns.antt =====
-- The main loop on a pool: what it calls between two chains of calls.
use esskyuehl.Prelude.{
  ℕ, ◌+◌, ◌≡◌, refl, ap, sym, subst, ◌∙◌, Bool, true, false, not, ◌&&◌, List, [], ◌∷◌, ◌++◌, Option,
  none, some, arith, if◌then◌else◌, Bytes, sum_of, sum_of-append,
}
use esskyuehl.State.{
  Conn, World, Env, Io, done, wants_both, wants_read, wants_write, fails, act, set_e, if_cases,
  idle, init, members, is_mysql, is_no_type, disconnect_event, backend_connect, backend_fd_get,
  backend_setup, fd_active_set,
}
use esskyuehl.State
use esskyuehl.Connect.{
  connect, call_connect, add_fd_handler, after_connect, post, database_set, connect_callback_set,
  reconnect_set,
}
use esskyuehl.Events.{
  Call, next, call_complete, event_error, connect_handler, fd_handler, run, set_ev_database, reopen,
  after_reconnect, reconnect_handler,
}
use esskyuehl.Events.Members.{up, ups, Counts}
use esskyuehl.Events.Sound.{
  AllFit, Sound, Kept-Sound, Settled-Good, Good, pick, database_set-Settled, disconnect-Good,
  timeout_cb-Good,
}
use esskyuehl.Events.Sound.Asking.{
  query-Settled, query_vargs-Settled, query_callback_set-Settled, connect_timeout_set-Settled,
}
use esskyuehl.Events.Sound.Next.{Fine}
use esskyuehl.Events.Sound.Steps.{Keeps, step-Fine}
use esskyuehl.Events.Turns.{
  Turn, calls, wakes, runs_job, ends_thread, cancels_thread, opens_database, times_out, reconnects,
  connects, disconnects, queries, queries_args, sets_database, sets_query_callback,
  sets_connect_callback, sets_timeout, sets_reconnect, turns_to, Reach, here, more,
}
use esskyuehl.Pool.Walk.{AllNew}
use esskyuehl.Sqlite.Connection.{connect_cb}

-- A member that is down may be connected.
abbrev Down : World → Type 0
Down w = Sound w × (w.e.connected ≡ false)

Down-Good : (w : World) → Down w → Good w
Down-Good w d = (d.0, λ e. d.1)

add_fd_handler-Down : (env : Env) (a : Io) (w : World) → Down w → Down (add_fd_handler env a w)
add_fd_handler-Down env a w d = by_fd (env.fd_get (backend_fd_get ∷ w.acts))
  where
    by_fd :
        (o : Option ℕ)
        → Down (elim o [
          | none ↦ act backend_fd_get w
          | some fd ↦ act (fd_active_set a) (
              act
                (State.fd_handler_add fd)
                (act backend_fd_get (set_e (record (w.e) { fdh = true; current = init }) w)))
        ])
    by_fd none = (Kept-Sound w _ (refl, refl, refl, refl, refl) d.0, d.1)
    by_fd (some fd) = (Kept-Sound w _ (refl, refl, refl, refl, refl) d.0, d.1)

after_connect-Down : (env : Env) (a : Io) (w : World) → Down w → Down (after_connect env a w).0
after_connect-Down env fails w d = (Kept-Sound w _ (refl, refl, refl, refl, refl) d.0, d.1)
after_connect-Down env done w d = add_fd_handler-Down env done w d
after_connect-Down env wants_both w d = add_fd_handler-Down env wants_both w d
after_connect-Down env wants_read w d = add_fd_handler-Down env wants_read w d
after_connect-Down env wants_write w d = add_fd_handler-Down env wants_write w d

-- The branch behind the test of `e->connected`.
else-Down :
    (b : Bool) (w : World) (y : World × Bool)
    → Good w
    → w.e.connected ≡ b
    → (Down w → Good y.0)
    → Good (if b then (w, false) else y).0
else-Down true w y g e k = g
else-Down false w y g e k = k (g.0, e)

connect-Good :
    (env : Env) (addr : Option Bytes) (user : Bytes) (passwd : Option Bytes) (w : World)
    → Good w
    → Good (connect env addr user passwd w).0
unfolding connect
connect-Good env none user passwd w g = g
connect-Good env (some addr) user passwd w g =
    pick (λ r. Good r.0) (is_no_type w.e.kind) (w, false) _ g
      (pick (λ r. Good r.0) (not w.e.db && is_mysql w.e.kind) (w, false) _ g
        (else-Down w.e.connected w (after_connect env a u) g refl (λ d.
          Down-Good _
            (after_connect-Down env a u (Kept-Sound w u (refl, refl, refl, refl, refl) d.0, d.1)))))
  where
    v : World
    v = act (backend_setup addr user passwd) w

    u : World
    u = call_connect env v

    a : Io
    a = (env.connect (backend_connect ∷ v.acts)).0

set_ev_database-Down : (w : World) → Down w → Down (set_ev_database w)
set_ev_database-Down w d = by_name (if w.e.pool_member then w.ep.database else w.e.database)
  where
    by_name :
        (o : Option Bytes) → Down (elim o [ none ↦ w | some name ↦ (database_set (some name) w).0 ])
    by_name none = d
    by_name (some name) =
        let (k, c) = database_set-Settled (some name) w in (Kept-Sound w _ k d.0, k.2 ∙ d.1)

reopen-Down : (env : Env) (a : Io) (w : World) → Down w → Down (reopen env a w)
reopen-Down env a w d = by_fd (env.fd_get (backend_fd_get ∷ w.acts))
  where
    by_fd :
        (o : Option ℕ)
        → Down (elim o [
          | none ↦ act backend_fd_get w
          | some fd ↦ set_ev_database (add_fd_handler env a w)
        ])
    by_fd none = (Kept-Sound w _ (refl, refl, refl, refl, refl) d.0, d.1)
    by_fd (some fd) = set_ev_database-Down _ (add_fd_handler-Down env a w d)

after_reconnect-Down : (env : Env) (a : Io) (w : World) → Down w → Down (after_reconnect env a w)
after_reconnect-Down env fails w d = (Kept-Sound w _ (refl, refl, refl, refl, refl) d.0, d.1)
after_reconnect-Down env done w d = reopen-Down env done w d
after_reconnect-Down env wants_both w d = reopen-Down env wants_both w d
after_reconnect-Down env wants_read w d = reopen-Down env wants_read w d
after_reconnect-Down env wants_write w d = reopen-Down env wants_write w d

reconnect_handler-Down : (env : Env) (w : World) → Down w → Down (reconnect_handler env w)
unfolding reconnect_handler
reconnect_handler-Down env w d =
    if_cases Down (not u.e.db) (post disconnect_event u)
      (after_reconnect env (env.connect (backend_connect ∷ w.acts)).0 u)
      (Kept-Sound w _ (refl, refl, refl, refl, refl) d.0, d.1)
      (after_reconnect-Down env _ u (Kept-Sound w u (refl, refl, refl, refl, refl) d.0, d.1))
  where
    u : World
    u = call_connect env (set_e (record (w.e) { reconnect_timer = false }) w)

connect_cb-Down : (b : Bool) (w : World) → Down w → Down (connect_cb b w).0
unfolding connect_cb
connect_cb-Down true w d = (Kept-Sound w _ (refl, refl, refl, refl, refl) d.0, d.1)
connect_cb-Down false w d = (Kept-Sound w _ (refl, refl, refl, refl, refl) d.0, d.1)

AllFit-append : (xs ys : List Conn) → AllFit xs → AllFit ys → AllFit (xs ++ ys)
AllFit-append [] ys f g = g
AllFit-append (x ∷ xs) ys f g = (f.0, AllFit-append xs ys f.1 g)

AllFit-split : (xs ys : List Conn) → AllFit (xs ++ ys) → AllFit xs × AllFit ys
AllFit-split [] ys f = (tt, f)
AllFit-split (x ∷ xs) ys f = let (a, b) = AllFit-split xs ys f.1 in ((f.0, a), b)

-- The pool as one list.
abbrev Whole : ℕ → List Conn → Type 0
Whole n cs = AllFit cs × (n ≡ sum_of up cs)

Good-members : (w : World) → Good w → Whole w.ep.e_connected (members w)
Good-members w g = (
  AllFit-append w.before (w.e ∷ w.after) g.0.fit_before ((g.0.is_member, g.1), g.0.fit_after),
  omega (arith, g.0.count, sum_of-append up w.before (w.e ∷ w.after)),
)

members-Good : (w : World) → Whole w.ep.e_connected (members w) → Good w
members-Good w h =
    let (a, b) = AllFit-split w.before (w.e ∷ w.after) h.0 in
    (
      record {
        count = omega (arith, h.1, sum_of-append up w.before (w.e ∷ w.after));
        fit_before = a;
        fit_after = b.1;
        is_member = b.0.0;
      },
      b.0.1,
    )

AllNew-AllFit : (i : ℕ) (cs : List Conn) → AllNew i cs → AllFit cs
AllNew-AllFit i [] n = tt
AllNew-AllFit i (c ∷ cs) n = ((n.0.0, λ e. n.0.2), AllNew-AllFit (i + 1) cs n.1)

AllNew-up : (i : ℕ) (cs : List Conn) → AllNew i cs → 0 ≡ sum_of up cs
AllNew-up i [] n = refl
AllNew-up i (c ∷ cs) n = let rest = AllNew-up (i + 1) cs n.1 in rw n.0.2 (omega (arith, rest))

module _ (env : Env) (keeps : Keeps env) where
  Turn-Fine : {s t : World × Option Call} → Turn env s t → Fine s → Fine t
  Turn-Fine (calls c w) h = step-Fine env keeps c w h
  Turn-Fine (wakes w) h = h
  Turn-Fine (runs_job w) h =
      unfold fd_handler run in
      if_cases Good w.e.fdh _ (set_e (record (w.e) { fd_job = false }) w)
        (Settled-Good w _ ((refl, refl, refl, refl, refl), λ e. e) h)
        (Settled-Good w _ ((refl, refl, refl, refl, refl), λ e. e) h)
  Turn-Fine (ends_thread w) h = h
  Turn-Fine (cancels_thread w) h = h
  Turn-Fine (opens_database b w d) h = Down-Good _ (connect_cb-Down b w (h.0, d))
  Turn-Fine (times_out w) h = timeout_cb-Good env w h
  Turn-Fine (reconnects w d) h = Down-Good _ (reconnect_handler-Down env w (h.0, d))
  Turn-Fine (connects addr user passwd w) h = connect-Good env addr user passwd w h
  Turn-Fine (disconnects w) h = disconnect-Good env w h
  Turn-Fine (queries p q w) h = Settled-Good w _ (query-Settled env p q w) h
  Turn-Fine (sets_database name w) h = Settled-Good w _ (database_set-Settled name w) h
  Turn-Fine (queries_args p fmt args w) h =
      Settled-Good w _ (query_vargs-Settled env p fmt args w) h
  Turn-Fine (sets_query_callback id cb w) h =
      Settled-Good w _ (query_callback_set-Settled id cb w) h
  Turn-Fine (sets_connect_callback cb p w) h =
      unfold connect_callback_set in Settled-Good w _ ((refl, refl, refl, refl, refl), λ e. e) h
  Turn-Fine (sets_timeout timeout w) h = Settled-Good w _ (connect_timeout_set-Settled timeout w) h
  Turn-Fine (sets_reconnect enable w) h =
      unfold reconnect_set in Settled-Good w _ ((refl, refl, refl, refl, refl), λ e. e) h
  Turn-Fine (turns_to xs c ys w e) h =
      let m = Good-members w h in
      members-Good (record w { before = xs; e = c; after = ys })
        (subst AllFit (sym e) m.0, m.1 ∙ ap (sum_of up) (sym e))

  Reach-Fine : {s t : World × Option Call} → Reach env s t → Fine s → Fine t
  Reach-Fine here h = h
  Reach-Fine (more r t) h = Turn-Fine t (Reach-Fine r h)

  Fine-Counts : (w : World) (o : Option Call) → Fine (w, o) → Counts w
  Fine-Counts w none h = h.0.count
  Fine-Counts w (some next) h = h.count
  Fine-Counts w (some call_complete) h = h.0.count
  Fine-Counts w (some event_error) h = h.0.count
  Fine-Counts w (some connect_handler) h = h.0.count

  -- In a new pool the number of connected members that the pool counts is right in every state that
  -- the main loop can bring about: by calls of the chain, the fd handler and its job, threads,
  -- timers and the user's calls, on any members and in any order, the states between two calls of a
  -- chain included. The user's callbacks are to keep it right too, and a member that is connected
  -- already is not connected again by its reconnect timer or an opening thread.
  pub Reach-Counts :
      (w v : World) (o : Option Call)
      → AllNew 0 (members w)
      → w.ep.e_connected ≡ 0
      → Reach env (w, none) (v, o)
      → v.ep.e_connected ≡ ups v
  Reach-Counts w v o n z r =
      Fine-Counts v o (
        Reach-Fine r
          (members-Good w (AllNew-AllFit 0 (members w) n, z ∙ AllNew-up 0 (members w) n)))
