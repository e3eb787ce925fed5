-- ===== src/Events/Drain/Queries.antt =====
-- From the user's queries to their outcomes.
use esskyuehl.Prelude.{
  ℕ, ◌+◌, ◌*◌, ◌≤◌, ◌≡◌, refl, ap, sym, subst, ◌∙◌, true, false, List, [], ◌∷◌, none, some, arith,
  Bytes, if◌then◌else◌, if_true, if_false, length, is_some,
}
use esskyuehl.State.{
  Conn, World, Env, Act, act, set_e, if_cases, idle, is_idle, wants_write, fd_active_set, job_add,
}
use esskyuehl.State
use esskyuehl.Query.{next_id, query, issue_query, start_query, send_query, add_job}
use esskyuehl.Events.{connect_handler, run, fd_handler}
use esskyuehl.Events.Fifo.{Holds}
use esskyuehl.Events.Drain.{Seen, sent, trace, Smooth, story, Drained}
use esskyuehl.Events.Drain.Order.{run-Drained}
use esskyuehl.Events.Drain.Working.{
  ask_all, numbered, length-numbered, Working, ask_all-Working, set_job-Working, unseen-Working,
  add_job-Working,
}

-- A connection of its own that is up, idle and waits for nothing.
pub record IsIdle (w : World) : Type 0 where
  pub is_up : w.e.connected ≡ true
  pub has_db : w.e.db ≡ true
  pub is_current : w.e.current ≡ idle
  pub waits : Holds w.e []
  pub alone : w.e.pool_member ≡ false

module _ (env : Env) (smooth : Smooth env) where
  -- The state behind `start_query`, without and with its job.
  abbrev current_query : Bytes → World → World
  current_query q w =
      let v = send_query env q (length q) (record w { esql_id = next_id w.esql_id }) in
      set_e
        (record (v.e) {
          current = State.query;
          cur_data = none;
          cur_id = v.esql_id;
          cur_query = some q;
        })
        v

  abbrev begun : Bytes → World → World
  begun q w = add_job (current_query q w)

  query-begun : (q : Bytes) (w : World) → IsIdle w → (query env none (some q) w).0 ≡ begun q w
  unfolding query issue_query start_query send_query
  query-begun q w i =
      ap (λ (r : World × ℕ). r.0)
        (if_true w.e.connected _ _ i.is_up
          ∙ if_true w.e.db _ _ i.has_db
          ∙ if_true (is_idle w.e.current) _ _ (ap is_idle i.is_current)
          ∙ if_false _ _ _ (ap is_some (smooth.no_error _)))

  begun-Working :
      (q : Bytes) (w : World)
      → IsIdle w
      → Working (next_id w.esql_id) [] (sent q ∷ trace w.acts) (begun q w)
  unfolding send_query
  begun-Working q w i =
      add_job-Working (next_id w.esql_id) [] (sent q ∷ trace w.acts) (current_query q w) (record {
        runs = record {
          is_current = refl;
          has_id = refl;
          waits = record { funcs = i.waits.funcs; params = i.waits.params; ids = i.waits.ids };
          alone = i.alone;
        };
        is_up = i.is_up;
        has_db = i.has_db;
        seen = refl;
      })

  begun-esql_id : (q : Bytes) (w : World) → (begun q w).esql_id ≡ next_id w.esql_id
  unfolding send_query
  begun-esql_id q w = if_cases (λ v. v.esql_id ≡ next_id w.esql_id) w.e.fd_job _ _ refl refl

  fd_handler-Drained :
      (n : ℕ) (xs : List (Bytes × ℕ)) (h : List Seen) (fuel : ℕ) (w : World)
      → Working n xs h w
      → 3 * length xs + 3 ≤ fuel
      → Drained (story n xs h) (fd_handler env fuel w)
  unfolding fd_handler
  fd_handler-Drained n xs h fuel w g b =
      let v = set_e (record (w.e) { fd_job = false }) w in
      let job = set_job-Working false n xs h w g in
      let start =
        if_cases (Working n xs h) w.e.fdh (act (fd_active_set wants_write) v) v
          (unseen-Working (fd_active_set wants_write) n xs h v refl job) job in
      let u = if w.e.fdh then act (fd_active_set wants_write) v else v in
      subst (λ s. Drained (story n xs s) (run env fuel connect_handler u)) start.seen
        (run-Drained env smooth xs n fuel u start.runs b)

  -- Queries made one after the other on an idle connection of its own, over a backend that answers
  -- at once and without errors and callbacks that leave the connection alone: one run of the fd
  -- handler, of three rounds for each query, sends each query once, in the order in which they were
  -- made and behind the outcome of the one before it, and gives each the one outcome that has the
  -- id that the counter gives for it; then nothing waits and the connection is idle.
  pub ask_all-Drained :
      (q : Bytes) (qs : List Bytes) (fuel : ℕ) (w : World)
      → IsIdle w
      → 3 * length qs + 3 ≤ fuel
      → Drained
          (story (next_id w.esql_id) (numbered (next_id w.esql_id) qs) (sent q ∷ trace w.acts))
          (fd_handler env fuel (ask_all env (q ∷ qs) w))
  ask_all-Drained q qs fuel w i b =
      let k = next_id w.esql_id in
      let h = sent q ∷ trace w.acts in
      let all =
        subst (λ m. Working k (numbered m qs) h (ask_all env qs (begun q w))) (begun-esql_id q w)
          (ask_all-Working env qs k [] h (begun q w) (begun-Working q w i)) in
      fd_handler-Drained k (numbered k qs) h fuel (ask_all env (q ∷ qs) w)
        (subst (λ v. Working k (numbered k qs) h (ask_all env qs v)) (sym (query-begun q w i)) all)
        (omega (arith, length-numbered k qs, b))
