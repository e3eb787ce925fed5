-- ===== src/Mysql/Asking/Failure.antt =====
-- A query to MySQL that mysac fails.
use esskyuehl.Prelude.{
  ℕ, suc, ◌≡◌, refl, ap, sym, subst, ◌∙◌, true, List, ◌∷◌, Option, none, some, Bytes,
}
use esskyuehl.State.{update_same, first_of, World, Env, Act, Res, idle, backend_error_get}
use esskyuehl.State
use esskyuehl.Query.{query, next_id}
use esskyuehl.Events.{Call, fd_handler, run}
use esskyuehl.Mysql.{Mysac, other_error, error_get}
use esskyuehl.Result.Getters.{rows_count, query_id_get, query_get, data_get}
use esskyuehl.Mysql.Hooks.{MysacCalls, behind, over}
use esskyuehl.Mysql.Rounds.{
  NoFailure, wakes, UnderWay, Stays-UnderWay, Ends, At, wakes-Last, Last-run, other_error-call,
}
use esskyuehl.Mysql.Asking.{IsOpen, started, given, query-started, job_done, in_job-At}
use esskyuehl.Events.{event_error}
use esskyuehl.State.{update, res_unref, query_cb_call}
use esskyuehl.Result.Getters
use esskyuehl.Events.Told.{Calm, error_res, asked_why, failed, event_error-failed}

-- What is to become of the query `q`, asked with the data `p`, the id `id` and the callback `cb`:
-- the callback is called, once, with a result of which the getters tell the error `msg`, the id,
-- the text, the data and that it has no rows, and which is released behind it; the callback is
-- deleted, so that `following` is the one of the id, and the object is connected and idle.
abbrev pub Told : Option ℕ → Bytes → ℕ → ℕ → Bytes → Option ℕ → World × Option Call → Type 0
Told p q id cb msg following s =
    (r : Res) × (h : List Act) × (s.0.acts
      ≡ res_unref r ∷ query_cb_call cb r p ∷ backend_error_get ∷ h)
    × (Getters.error_get (some r) ≡ some msg)
    × (query_id_get (some r) ≡ id)
    × (query_get (some r) ≡ some q)
    × (data_get (some r) ≡ p)
    × (rows_count (some r) ≡ some 0)
    × (s.0.query_callbacks id ≡ following)
    × (s.0.e.connected ≡ true)
    × (s.0.e.current ≡ idle)
    × (s.1 ≡ none)

module _ {ℓ} {R : Type ℓ} (lib : MysacCalls R) (database : List Act → Option Bytes) (m₀ : Mysac)
    (env : Env) where
  abbrev mysql : Env
  mysql = over lib database m₀ env

  mysql-Calm : Calm env → Calm mysql
  unfolding over
  mysql-Calm calm = record { no_change = calm.no_change; no_fd_error = calm.no_fd_error }

  event_error-Told :
      (p : Option ℕ) (q : Bytes) (w : World) (cb err : ℕ) (m : Mysac) (u : World) (fuel : ℕ)
      → Calm env
      → IsOpen w
      → w.query_callbacks (next_id w.esql_id) ≡ some cb
      → At lib database m₀ (job_done (started lib database m₀ env p q w)) m u
      → lib.mysac_errno m ≡ other_error err
      → Told p q
          (next_id w.esql_id)
          cb
          (lib.mysac_advance_error m)
          (first_of (w.more_callbacks (next_id w.esql_id)))
          (run mysql (suc (suc fuel)) event_error u)
  event_error-Told p q w cb err m u fuel calm o c h e =
      subst
        (Told p q (next_id w.esql_id) cb (lib.mysac_advance_error m)
          (first_of (w.more_callbacks (next_id w.esql_id))))
        (sym (ap (run mysql (suc (suc fuel)) event_error) h.same ∙ ended))
        (
          error_res (asked_why mysql v).e,
          v.acts,
          refl,
          said,
          refl,
          refl,
          refl,
          refl,
          update_same w.query_callbacks (next_id w.esql_id) _,
          o.is_up,
          refl,
          refl,
        )
    where
      v : World
      v = record (job_done (started lib database m₀ env p q w)) { acts = u.acts }

      said : mysql.error_get (backend_error_get ∷ v.acts) ≡ some (lib.mysac_advance_error m)
      said = unfold over behind error_get in rw (h.stands, e) refl

      ended : run mysql (suc (suc fuel)) event_error v ≡ (failed mysql cb v, none)
      ended = event_error-failed mysql (mysql-Calm calm) cb v fuel refl c o.is_alone o.is_empty

  -- A query with a callback on a connected MySQL object of its own that nothing is asked of: where
  -- mysac takes the query without a failure, waits `k` times for the server and then fails, and the
  -- callback leaves the library alone, the job and the `k - 1` calls of the fd handler behind it
  -- leave the query under way and no call to make; one call more gives the callback the text of
  -- mysac's error, once, in a result of no rows with the query's id, text and data, releases the
  -- result and deletes the callback, so that the next one set for that id, if there is one, takes
  -- its place, and leaves the object connected and idle, where the descriptor shows no error.
  pub fd_handler-Told :
      (p : Option ℕ) (q : Bytes) (w : World) (n : Mysac) (k fuel cb code err : ℕ)
      → Calm env
      → IsOpen w
      → w.query_callbacks (next_id w.esql_id) ≡ some cb
      → NoFailure (lib.mysac_errno (given lib database m₀ env q w))
      → Ends lib (other_error code) (given lib database m₀ env q w) k n
      → lib.mysac_errno n ≡ other_error err
      → let f = suc (suc (suc fuel)) in
        let asked = query mysql p (some q) w in
        let job = fd_handler mysql f asked.0 in
        UnderWay State.query mysql f k job
        × Told p q asked.1 cb
            (lib.mysac_advance_error n)
            (first_of (w.more_callbacks asked.1))
            (wakes mysql f k job)
  unfolding fd_handler
  fd_handler-Told p q w n k fuel cb code err calm o c e s r =
      let (under, last) =
        wakes-Last lib database m₀ env (job_done (started lib database m₀ env p q w)) _
          (suc (suc fuel)) s (in_job-At lib database m₀ env p q w) in
      let (u, at, same) =
        Last-run lib database m₀ env (job_done (started lib database m₀ env p q w)) event_error
          (other_error-call mysql code) last in
      rw (query-started lib database m₀ env p q w o e) (
        Stays-UnderWay _ _ _ _ _ under,
        subst
            (Told p q (next_id w.esql_id) cb (lib.mysac_advance_error n)
              (first_of (w.more_callbacks (next_id w.esql_id))))
            (sym same) (event_error-Told p q w cb err n u fuel calm o c at r),
      )
