-- ===== src/Events/Sound/Recount.antt =====
-- What becomes of a member of a pool when its reconnect timer runs out.
use esskyuehl.Prelude.{
  ℕ, ◌+◌, ◌≡◌, refl, ap, sym, subst, ◌∙◌, Bool, true, false, not, ◌&&◌, ◌∷◌, none, some, arith,
  ◌==◌, if◌then◌else◌, if_true, if_false,
}
use esskyuehl.State.{
  World, Env, Io, wants_both, done, wants_read, wants_write, fails, act, set_e, init,
  disconnect_event, backend_connect, backend_fd_get, fd_active_set, fd_handler_add,
}
use esskyuehl.Connect.{add_fd_handler, database_set, post}
use esskyuehl.Events.{
  reconnect_handler, after_reconnect, reopen, set_ev_database, complete_init, announce_connect,
  call_complete_step, complete,
}
use esskyuehl.Events.Delivery.{delivered}
use esskyuehl.Events.Members.{ups, counted}

-- What `connect` returns where it does not fail.
abbrev pub Works : Io → Type 0
Works fails = ⊥
Works _ = Unit

-- The backend starts a connection with the descriptor `fd` when the handler asks it to.
pub record Opens (env : Env) (ret : Io) (fd : ℕ) (w : World) : Type 0 where
  pub works : Works ret
  pub starts : env.connect (backend_connect ∷ w.acts) ≡ (ret, true)
  pub has_fd : env.fd_get (backend_fd_get ∷ backend_connect ∷ w.acts) ≡ some fd

after_reconnect-reopen :
    (env : Env) (ret : Io) (w : World) → Works ret → after_reconnect env ret w ≡ reopen env ret w
after_reconnect-reopen env done w h = refl
after_reconnect-reopen env wants_both w h = refl
after_reconnect-reopen env wants_read w h = refl
after_reconnect-reopen env wants_write w h = refl
after_reconnect-reopen env fails w h = absurd h

module _ (env : Env) (ret : Io) (fd : ℕ) where
  abbrev dialled : World → World
  dialled w = record w {
    e = record (w.e) { reconnect_timer = false; db = true };
    acts = backend_connect ∷ w.acts;
  }

  abbrev handled : World → World
  handled u = act (fd_active_set ret) (
      act (fd_handler_add fd)
        (act backend_fd_get (set_e (record (u.e) { fdh = true; current = init }) u)))

  add_fd_handler-handled :
      (u : World)
      → env.fd_get (backend_fd_get ∷ u.acts) ≡ some fd
      → add_fd_handler env ret u ≡ handled u
  add_fd_handler-handled u has_fd =
      ap
        (λ o. elim o [
          | none ↦ act backend_fd_get u
          | some n ↦ act (fd_active_set ret) (
              act (fd_handler_add n)
                (act backend_fd_get (set_e (record (u.e) { fdh = true; current = init }) u)))
        ])
        has_fd

  set_ev_database-none :
      (u : World) → u.e.pool_member ≡ true → u.ep.database ≡ none → set_ev_database u ≡ u
  set_ev_database-none u m d =
      ap (λ o. elim o [ none ↦ u | some name ↦ (database_set (some name) u).0 ])
        (if_true u.e.pool_member u.ep.database u.e.database m ∙ d)

  reconnect_handler-handled :
      (w : World)
      → Opens env ret fd w
      → w.e.pool_member ≡ true
      → w.ep.database ≡ none
      → reconnect_handler env w ≡ handled (dialled w)
  unfolding reconnect_handler
  reconnect_handler-handled w opens m d =
      ap
        (λ (r : Io × Bool).
          let u = record w {
            e = record (w.e) { reconnect_timer = false; db = r.1 };
            acts = backend_connect ∷ w.acts;
          } in
          if not r.1 then post disconnect_event u else after_reconnect env r.0 u)
        opens.starts
      ∙ after_reconnect-reopen env ret (dialled w) opens.works
      ∙ ap
          (λ o. elim o [
            | none ↦ act backend_fd_get (dialled w)
            | some n ↦ set_ev_database (add_fd_handler env ret (dialled w))
          ])
          opens.has_fd
      ∙ ap set_ev_database (add_fd_handler-handled (dialled w) opens.has_fd)
      ∙ set_ev_database-none (handled (dialled w)) m d

  complete_init-counted :
      (u : World)
      → u.e.pool_member ≡ true
      → u.ep.connected ≡ true
      → complete_init env u ≡ counted env u
  unfolding complete_init announce_connect
  complete_init-counted u m c =
      if_false (not u.e.pool_member) _ _ (ap not m)
      ∙ if_false _ _ (counted env u)
          (ap (λ (b : Bool). not b && u.ep.e_connected + 1 == u.ep.size) c)

  -- When the reconnect timer of a member runs out that was connected again in the meantime, in a
  -- pool that is connected and has no database of its own, and the backend starts a connection with
  -- a descriptor, the call of `esql_call_complete` that ends that connection counts the member once
  -- more: the pool then counts one more connected member than it has.
  pub reconnect_handler-recount :
      (w : World)
      → Opens env ret fd w
      → w.e.pool_member ≡ true
      → w.e.connected ≡ true
      → w.ep.connected ≡ true
      → w.ep.database ≡ none
      → w.ep.e_connected ≡ ups w
      → let v = (call_complete_step env (reconnect_handler env w)).0 in v.ep.e_connected ≡ ups v + 1
  unfolding call_complete_step
  reconnect_handler-recount w opens m c p d h =
      let u = handled (dialled w) in
      subst
        (λ x. (complete env x.e.current x).ep.e_connected ≡ ups (complete env x.e.current x) + 1)
        (sym (reconnect_handler-handled w opens m d))
        (subst (λ x. x.ep.e_connected ≡ ups x + 1) (sym (complete_init-counted u m p))
          (ground arith))

  -- The query that a member of such a pool runs when its reconnect timer runs out is lost, as
  -- KNOWN_BUGS says: the handler gives `current` up for the new connection, and the end of that one
  -- hands out no outcome of any query and leaves nothing of the lost one in the queue.
  pub reconnect_handler-lost :
      (w : World) (n : ℕ)
      → Opens env ret fd w
      → w.e.pool_member ≡ true
      → w.ep.connected ≡ true
      → w.ep.database ≡ none
      → let u = reconnect_handler env w in
        let v = (call_complete_step env u).0 in
        (u.e.current ≡ init)
        × (delivered n v.acts ≡ delivered n w.acts)
        × (v.e.backend_ids ≡ w.e.backend_ids)
  unfolding call_complete_step
  reconnect_handler-lost w n opens m p d =
      let u = handled (dialled w) in
      let same = reconnect_handler-handled w opens m d in
      (
        ap (λ (x : World). x.e.current) same,
        subst (λ x. delivered n (complete env x.e.current x).acts ≡ delivered n w.acts) (sym same)
            (subst (λ x. delivered n x.acts ≡ delivered n w.acts)
              (sym (complete_init-counted u m p)) refl),
        subst (λ x. (complete env x.e.current x).e.backend_ids ≡ w.e.backend_ids) (sym same)
            (subst (λ x. x.e.backend_ids ≡ w.e.backend_ids) (sym (complete_init-counted u m p))
              refl),
      )
