-- ===== src/Mysql/Asking/Answer.antt =====
-- A query to MySQL that mysac answers.
use esskyuehl.Prelude.{
  ℕ, suc, ◌≡◌, refl, ap, sym, subst, ◌∙◌, Bool, false, List, [], ◌∷◌, Option, none, some, Bytes,
  length, if◌then◌else◌,
}
use esskyuehl.State.{World, Env, Act, Res, new_res, idle, backend_res, result_add, on_conn, on_pool}
use esskyuehl.State
use esskyuehl.Query.{query, next_id}
use esskyuehl.Events.{
  Call, call_complete, next_step, fd_handler, run, step, call_complete_step, complete_query,
  own_res,
}
use esskyuehl.Mysql.{Mysac, MysacRes, no_error, fill_res}
use esskyuehl.Result.Getters.{rows_count, query_id_get, query_get, data_get, refcount, esql_get}
use esskyuehl.Mysql.Rows.{fill_res-Counted}
use esskyuehl.Mysql.Hooks.{MysacCalls, behind, over}
use esskyuehl.Mysql.Rounds.{
  NoFailure, wakes, UnderWay, Stays-UnderWay, Ends, At, wakes-Last, Last-run, no_error-call,
}
use esskyuehl.Mysql.Asking.{IsOpen, started, given, query-started, job_done, in_job-At}

-- The world behind a completed query without a callback, on a connection of its own for which
-- nothing waits.
abbrev answered : Env → World → World
answered env u = record u {
  e = record (u.e) { query_end = env.time u.acts; cur_query = none; res = none; current = idle };
  acts =
      result_add (own_res u.e (env.fill_res (backend_res ∷ u.acts) new_res)) ∷ backend_res ∷ u.acts;
}

call_complete-answered :
    (env : Env) (u : World) (fuel : ℕ)
    → u.e.current ≡ State.query
    → u.e.res ≡ none
    → u.query_callbacks u.e.cur_id ≡ none
    → u.e.pool_member ≡ false
    → u.e.backend_set_funcs ≡ []
    → run env (suc (suc fuel)) call_complete u ≡ (answered env u, none)
unfolding run step call_complete_step complete_query next_step
call_complete-answered env u fuel runs no_res no_callback is_alone is_empty =
    rw (runs, no_res, no_callback, is_empty, is_alone) refl

-- What is to become of the query `q`, asked with the data `p` and with the id `id`: a result event,
-- the last call made, for a result of which the getters tell the id, the text and the data, one
-- reference, the object and `count` rows; it has as many, and the object is idle.
abbrev pub Answered : Option ℕ → Bytes → ℕ → ℕ → World × Option Call → Type 0
Answered p q id count s =
    (r : Res) × (h : List Act) × (s.0.acts ≡ result_add r ∷ h)
    × (r.rows ≡ count)
    × (rows_count (some r) ≡ some count)
    × (query_id_get (some r) ≡ id)
    × (query_get (some r) ≡ some q)
    × (data_get (some r) ≡ p)
    × (refcount (some r) ≡ some 1)
    × (esql_get (some s.0.e) ≡ some on_conn)
    × (s.0.e.current ≡ idle)
    × (s.1 ≡ none)

module _ {ℓ} {R : Type ℓ} (lib : MysacCalls R) (database : List Act → Option Bytes) (m₀ : Mysac)
    (env : Env) where
  abbrev mysql : Env
  mysql = over lib database m₀ env

  complete-Answered :
      (p : Option ℕ) (q : Bytes) (w : World) (m : Mysac) (u : World) (fuel : ℕ) (x : MysacRes R)
      → IsOpen w
      → w.query_callbacks (next_id w.esql_id) ≡ none
      → At lib database m₀ (job_done (started lib database m₀ env p q w)) m u
      → lib.mysac_get_res m ≡ some x
      → x.num_rows ≡ length x.fetched
      → Answered p q
          (next_id w.esql_id)
          (length x.fetched)
          (run mysql (suc (suc fuel)) call_complete u)
  complete-Answered p q w m u fuel x o c h g r =
      subst (Answered p q (next_id w.esql_id) (length x.fetched))
        (sym (ap (run mysql (suc (suc fuel)) call_complete) h.same ∙ ended))
        (
          own_res v.e raw,
          backend_res ∷ v.acts,
          refl,
          ap (λ (r : Res). r.rows) filled ∙ rows.1,
          ap (λ (r : Res). some r.row_count) filled ∙ ap some (rows.0 ∙ rows.1),
          refl,
          refl,
          refl,
          refl,
          ap (λ (b : Bool). some (if b then on_pool else on_conn)) o.is_alone,
          refl,
          refl,
        )
    where
      v : World
      v = record (job_done (started lib database m₀ env p q w)) { acts = u.acts }

      raw : Res
      raw = mysql.fill_res (backend_res ∷ v.acts) new_res

      filled : raw ≡ fill_res m (some x) new_res
      filled = unfold over in unfold behind in rw (h.stands, g) refl

      rows :
          ((fill_res m (some x) new_res).row_count ≡ (fill_res m (some x) new_res).rows)
          × ((fill_res m (some x) new_res).rows ≡ length x.fetched)
      rows = fill_res-Counted m x r

      ended : run mysql (suc (suc fuel)) call_complete v ≡ (answered mysql v, none)
      ended = call_complete-answered mysql v fuel refl o.no_res c o.is_alone o.is_empty

  -- A query without a callback on a connected MySQL object of its own that nothing is asked of:
  -- where mysac takes the query without a failure, waits `k` times for the server and then has a
  -- result whose rows it counts right, `esql_query` gives the query the next id; its job and the
  -- `k - 1` calls of the fd handler behind it leave the query under way and no call to make; and
  -- one call more leaves the object idle with a result event as the last call made, for a result
  -- of which the getters tell that id, the query's text and data, one reference, the object and
  -- the number of rows that mysac gives, and which has as many rows.
  pub fd_handler-Answered :
      (p : Option ℕ) (q : Bytes) (w : World) (n : Mysac) (k fuel : ℕ) (x : MysacRes R)
      → IsOpen w
      → w.query_callbacks (next_id w.esql_id) ≡ none
      → NoFailure (lib.mysac_errno (given lib database m₀ env q w))
      → Ends lib no_error (given lib database m₀ env q w) k n
      → lib.mysac_get_res n ≡ some x
      → x.num_rows ≡ length x.fetched
      → let f = suc (suc (suc fuel)) in
        let asked = query mysql p (some q) w in
        let job = fd_handler mysql f asked.0 in
        (asked.1 ≡ next_id w.esql_id)
        × UnderWay State.query mysql f k job
        × Answered p q asked.1 (length x.fetched) (wakes mysql f k job)
  unfolding fd_handler
  fd_handler-Answered p q w n k fuel x o c e s g r =
      let (under, last) =
        wakes-Last lib database m₀ env (job_done (started lib database m₀ env p q w)) _
          (suc (suc fuel)) s (in_job-At lib database m₀ env p q w) in
      let (u, at, same) =
        Last-run lib database m₀ env (job_done (started lib database m₀ env p q w)) call_complete
          (no_error-call mysql) last in
      rw (query-started lib database m₀ env p q w o e) (
        refl,
        Stays-UnderWay _ _ _ _ _ under,
        subst (Answered p q (next_id w.esql_id) (length x.fetched)) (sym same)
            (complete-Answered p q w n u fuel x o c at g r),
      )
