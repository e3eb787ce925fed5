-- ===== src/Mysql/Asking.antt =====
-- A query to MySQL, from `esql_query` to its outcome: here `esql_query` on an idle object, and the
-- job that it adds.
pub mod Answer
pub mod Failure
use esskyuehl.Prelude.{
  ℕ, ◌≡◌, refl, inl, inr, true, false, List, [], ◌∷◌, Option, none, some, Bytes, length,
  if◌then◌else◌,
}
use esskyuehl.State.{
  World, Env, Act, wants_write, act, set_e, idle, backend_query, backend_error_get, job_add,
  fd_active_set,
}
use esskyuehl.State
use esskyuehl.Query.{query, issue_query, start_query, send_query, next_id}
use esskyuehl.Mysql.{Mysac, Errno, error_get}
use esskyuehl.Mysql.Hooks
use esskyuehl.Mysql.Hooks.{MysacCalls, behind, over}
use esskyuehl.Mysql.Rounds.{NoFailure, At, if_act-At}

-- A connected object of its own that nothing is asked of.
pub record IsOpen (w : World) : Type 0 where
  pub is_up : w.e.connected ≡ true
  pub has_db : w.e.db ≡ true
  pub is_at_rest : w.e.current ≡ idle
  pub is_alone : w.e.pool_member ≡ false
  pub is_empty : w.e.backend_set_funcs ≡ []
  pub no_job : w.e.fd_job ≡ false
  pub no_res : w.e.res ≡ none

-- The world in which the job calls the handler.
abbrev pub job_done : World → World
job_done w = set_e (record (w.e) { fd_job = false }) w

abbrev pub in_job : World → World
in_job w = let v = job_done w in if v.e.fdh then act (fd_active_set wants_write) v else v

module _ {ℓ} {R : Type ℓ} (lib : MysacCalls R) (database : List Act → Option Bytes) (m₀ : Mysac)
    (env : Env) where
  abbrev pub surroundings : Env
  surroundings = over lib database m₀ env

  -- The world behind `esql_query` on an idle object.
  abbrev pub started : Option ℕ → Bytes → World → World
  started p q w = record w {
    e = record (w.e) {
      query_start = surroundings.time w.acts;
      error = none;
      current = State.query;
      cur_data = p;
      cur_id = next_id w.esql_id;
      cur_query = some q;
      fd_job = true;
    };
    acts = job_add ∷ backend_error_get ∷ backend_query q (length q) ∷ w.acts;
    esql_id = next_id w.esql_id;
  }

  -- The MYSAC that has been given the query.
  abbrev pub given : Bytes → World → Mysac
  given q w = lib.mysac_s_set_query q (behind lib database m₀ w.acts)

  no_failure : (n : Errno) (s : Bytes) → NoFailure n → error_get n (some s) ≡ none
  unfolding error_get
  no_failure n s (inl e) = rw e refl
  no_failure n s (inr (inl e)) = rw e refl
  no_failure n s (inr (inr e)) = rw e refl

  error_get-given :
      (q : Bytes) (w : World)
      → NoFailure (lib.mysac_errno (given q w))
      → surroundings.error_get (backend_error_get ∷ backend_query q (length q) ∷ w.acts) ≡ none
  unfolding over behind Hooks.query
  error_get-given q w e = no_failure _ _ e

  pub query-started :
      (p : Option ℕ) (q : Bytes) (w : World)
      → IsOpen w
      → NoFailure (lib.mysac_errno (given q w))
      → query surroundings p (some q) w ≡ (started p q w, next_id w.esql_id)
  unfolding query issue_query start_query send_query
  query-started p q w o e =
      rw (o.is_up, o.has_db, o.is_at_rest, error_get-given q w e, o.no_job) refl

  pub in_job-At :
      (p : Option ℕ) (q : Bytes) (w : World)
      → At lib database m₀ (job_done (started p q w)) (given q w) (in_job (started p q w))
  in_job-At p q w =
      let v = job_done (started p q w) in
      if_act-At lib database m₀ v v.e.fdh (fd_active_set wants_write) (given q w) v
        (unfold behind in refl) (record { same = refl; stands = unfold behind Hooks.query in refl })
