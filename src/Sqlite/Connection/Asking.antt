-- ===== src/Sqlite/Connection/Asking.antt =====
-- A query to SQLite, from `esql_query` to its result: the job, the thread and the callback at the
-- thread's end.
use esskyuehl.Prelude.{
  Bool, ℕ, suc, ◌≡◌, refl, ap, true, false, List, [], ◌∷◌, Option, none, some, arith, Bytes, length,
  length-map, ltb, if◌then◌else◌,
}
use esskyuehl.State.{
  Conn, World, Env, Act, Res, new_res, wants_both, act, set_e, idle, is_idle, backend_query,
  on_conn, on_pool, backend_error_get, backend_io, job_add, result_add,
}
use esskyuehl.State
use esskyuehl.Query.{query, issue_query, start_query, send_query, next_id}
use esskyuehl.Events.{
  Call, call_complete, fd_handler, run, step, connect_handler_step, call_complete_step,
  complete_query, own_res,
}
use esskyuehl.Events.Fifo.{Holds}
use esskyuehl.Result.Getters.{rows_count, query_id_get, query_get, data_get, refcount, esql_get}
use esskyuehl.Sqlite.{Cell, Answer, ValueType, SqliteRes, Work, query_cb, thread_over, res_init}
use esskyuehl.Sqlite.Steps.{Delivers, at_work, result_of, query_cb-Delivers}

-- The thread's result as the library sees it.
abbrev pub res_of {ℓ} : {V : Type ℓ} → SqliteRes V → Res
res_of r = record new_res {
  rows = length r.rows;
  row_count = r.row_count;
  affected = r.affected;
  desc = if ltb (length r.desc) 1 then none else some (length r.desc);
}

abbrev pub res_left {ℓ} : {V : Type ℓ} → Option (SqliteRes V) → Option Res
res_left none = none
res_left (some r) = some (res_of r)

module _ {ℓ} {V : Type ℓ} (unset : V) (member_set : ValueType → ValueType → Cell → V)
    (columns changes : ℕ) where
  -- The callback at the end of the thread that `esql_sqlite_io` started, and the calls that follow;
  -- a thread that still waits makes none.
  unfoldable pub end_thread : Env → ℕ → Option (Work V) → World → World × Option Call
  unfolding run thread_over
  end_thread env fuel none w = (w, none)
  end_thread env fuel (some work) w =
      run env fuel (thread_over unset member_set columns changes work)
        (set_e (record (w.e) { res = res_left work.res }) w)

-- The hooks of this backend as a query meets them: the thread is started, and there is no error.
pub record Stepping (env : Env) : Type 0 where
  pub in_thread : (h : List Act) → env.io h ≡ wants_both
  pub no_error : (h : List Act) → env.error_get h ≡ none

-- A connected object of its own that nothing is asked of, with no timeout.
pub record IsOpen (w : World) : Type 0 where
  pub is_up : w.e.connected ≡ true
  pub has_db : w.e.db ≡ true
  pub is_at_rest : w.e.current ≡ idle
  pub is_alone : w.e.pool_member ≡ false
  pub is_empty : Holds w.e []
  pub no_job : w.e.fd_job ≡ false
  pub no_fdh : w.e.fdh ≡ false
  pub no_timer : w.e.timeout_timer ≡ false

module _ (env : Env) (stepping : Stepping env) where
  -- The world behind `esql_query`, and behind the job.
  abbrev pub started : Option ℕ → Bytes → World → World
  started p q w = record w {
    e = record (w.e) {
      query_start = env.time w.acts;
      error = none;
      current = State.query;
      cur_data = p;
      cur_id = next_id w.esql_id;
      cur_query = some q;
      fd_job = true;
    };
    acts = job_add ∷ backend_error_get ∷ backend_query q (length q) ∷ w.acts;
    esql_id = next_id w.esql_id;
  }

  abbrev pub threaded : Option ℕ → Bytes → World → World
  threaded p q w =
      act backend_io (set_e (record ((started p q w).e) { fd_job = false }) (started p q w))

  query-started :
      (p : Option ℕ) (q : Bytes) (w : World)
      → IsOpen w
      → query env p (some q) w ≡ (started p q w, next_id w.esql_id)
  unfolding query issue_query start_query send_query
  query-started p q w o = rw (o.is_up, o.has_db, o.is_at_rest, stepping.no_error, o.no_job) refl

  fd_handler-threaded :
      (p : Option ℕ) (q : Bytes) (w : World) (fuel : ℕ)
      → IsOpen w
      → fd_handler env (suc fuel) (started p q w) ≡ (threaded p q w, none)
  unfolding fd_handler run step connect_handler_step
  fd_handler-threaded p q w fuel o = rw (o.no_fdh, o.no_timer, stepping.in_thread) refl

  -- The result as it is handed out, and the world behind the callback at the thread's end.
  abbrev pub answer : Option ℕ → Bytes → Res → World → Res
  answer p q r w = own_res (threaded p q w).e r

  abbrev pub answered : Option ℕ → Bytes → Res → World → World
  answered p q r w =
      let v = threaded p q w in
      record v {
        e = record (v.e) {
          current = idle;
          cur_query = none;
          query_end = env.time v.acts;
          res = none;
        };
        acts = result_add (answer p q r w) ∷ v.acts;
      }

  call_complete-answered :
      (p : Option ℕ) (q : Bytes) (r : Res) (w : World) (fuel : ℕ)
      → IsOpen w
      → w.query_callbacks (next_id w.esql_id) ≡ none
      → run env
          (suc (suc fuel))
          call_complete
          (set_e (record ((threaded p q w).e) { res = some r }) (threaded p q w))
        ≡ (answered p q r w, none)
  unfolding run step call_complete_step complete_query
  call_complete-answered p q r w fuel o c = rw (c, o.is_empty.funcs, o.is_alone) refl

-- What is to hold of the query `q`, asked with the data `p`: `asked` is what `esql_query` gave,
-- `job` the state behind the job, `end` that behind the thread, and `n` the number of rows.
abbrev pub Answered :
    Option ℕ → Bytes → ℕ → World × ℕ → World × Option Call → World × Option Call → Type 0
Answered p q n asked job end =
    (job.1 ≡ none)
    × (r : Res) × (end.0.acts ≡ result_add r ∷ job.0.acts)
    × (r.rows ≡ n)
    × (rows_count (some r) ≡ some n)
    × (query_id_get (some r) ≡ asked.1)
    × (query_get (some r) ≡ some q)
    × (data_get (some r) ≡ p)
    × (refcount (some r) ≡ some 1)
    × (esql_get (some end.0.e) ≡ some on_conn)
    × (end.0.e.current ≡ idle)
    × (end.1 ≡ none)

module _ {ℓ} {V : Type ℓ} (unset : V) (member_set : ValueType → ValueType → Cell → V)
    (columns changes : ℕ) where
  end_thread-ended :
      (env : Env) (fuel : ℕ) (answers : List Answer) (rows : List (List Cell)) (w : World)
      → Delivers 0 answers rows
      → end_thread unset member_set columns changes env fuel
          (query_cb unset member_set columns changes answers
            (at_work unset member_set columns changes none))
          w
        ≡ run env fuel call_complete (
            set_e
              (record (w.e) {
                res = some (res_of (result_of unset member_set columns changes rows));
              })
              w)
  unfolding end_thread thread_over
  end_thread-ended env fuel answers rows w d =
      ap (λ o. end_thread unset member_set columns changes env fuel o w)
        (query_cb-Delivers unset member_set columns changes answers rows d).0

  -- A query without a callback on a connected SQLite object of its own that nothing is asked of,
  -- and whose statement steps to its end with fewer than 999 busy answers in a row: `esql_query`
  -- gives it the next id, its job starts a thread and makes no call more, and the end of the thread
  -- leaves the object idle with a result event as the last call made, for a result of which the
  -- getters tell that id, the query's text and data, one reference, the object and the number of
  -- rows that the statement gave, and which has as many rows.
  pub end_thread-Answered :
      (env : Env) (p : Option ℕ) (q : Bytes) (w : World) (fuel : ℕ) (answers : List Answer)
      (rows : List (List Cell))
      → Stepping env
      → IsOpen w
      → w.query_callbacks (next_id w.esql_id) ≡ none
      → Delivers 0 answers rows
      → let asked = query env p (some q) w in
        let job = fd_handler env (suc fuel) asked.0 in
        let left =
          query_cb unset member_set columns changes answers
            (at_work unset member_set columns changes none) in
        (asked.1 ≡ next_id w.esql_id)
        × Answered p q
            (length rows)
            asked
            job
            (end_thread unset member_set columns changes env (suc (suc fuel)) left job.0)
  end_thread-Answered env p q w fuel answers rows s o c d =
      rw
        (
          query-started env s p q w o,
          fd_handler-threaded env s p q w fuel o,
          end_thread-ended env (suc (suc fuel)) answers rows (threaded env s p q w) d,
          call_complete-answered env s p q (res_of x) w fuel o c,
        )
        (
          refl,
          (
            refl,
            answer env s p q (res_of x) w,
            refl,
            rows_of,
            ap some count_of,
            refl,
            refl,
            refl,
            refl,
            ap (λ (b : Bool). some (if b then on_pool else on_conn)) o.is_alone,
            refl,
            refl,
          ),
        )
    where
      x : SqliteRes V
      x = result_of unset member_set columns changes rows

      rows_of : length x.rows ≡ length rows
      rows_of = unfold res_init in length-map _ rows

      count_of : x.row_count ≡ length rows
      count_of = unfold res_init in omega arith
