-- ===== src/Events/Ledger/Queues.antt =====
-- The books of the queries where queues change: `esql_database_set` and `esql_next`.
use esskyuehl.Prelude.{
  ℕ, ◌≡◌, refl, false, not, ◌&&◌, List, [], ◌∷◌, Option, none, some, arith, is_some, Bytes,
  length-append,
}
use esskyuehl.State.{
  World, Env, set_e, if_cases, idle, is_idle, is_mysql, SetFunc, set_database, run_query,
}
use esskyuehl.Query
use esskyuehl.Connect.{database_set, queue_database}
use esskyuehl.Events.{
  param_at, rebalance, next_call, head_call, refill, next_step, issue_queued, update_lists,
}
use esskyuehl.Events.Sound.{pick}
use esskyuehl.Events.Ledger.Moves.{rebalance-Ledger}
use esskyuehl.Events.Ledger.{Ledger, Kept-Ledger, weight-drop_run, weight-drop_set, weight-set}

module _ (f : Bytes → ℕ) where
  update_lists-Ledger :
      (n : ℕ) (w : World) → Ledger f n w → Ledger f n (set_e (update_lists set_database w.e) w)
  unfolding update_lists
  update_lists-Ledger n w l =
      let (k, p) = weight-drop_set f w.e.backend_set_funcs w.e.backend_set_params l.paired in
      record {
        balance = omega (arith, l.balance, k);
        paired_before = l.paired_before;
        paired = p;
        paired_after = l.paired_after;
      }

  queued-Ledger :
      (n : ℕ) (name : Bytes) (w : World)
      → Ledger f n w
      → Ledger f n (set_e (queue_database name (record (w.e) { database = some name })) w)
  unfolding queue_database
  queued-Ledger n name w l = record {
    balance = omega (
      arith,
      l.balance,
      weight-set f w.e.backend_set_funcs w.e.backend_set_params (some name) l.paired,
    );
    paired_before = l.paired_before;
    paired = omega (
      arith,
      l.paired,
      length-append w.e.backend_set_funcs (set_database ∷ []),
      length-append w.e.backend_set_params (some name ∷ []),
    );
    paired_after = l.paired_after;
  }

  pub database_set-Ledger :
      (n : ℕ) (o : Option Bytes) (w : World) → Ledger f n w → Ledger f n (database_set o w).0
  unfolding database_set
  database_set-Ledger n none w l = l
  database_set-Ledger n (some name) w l =
      pick (λ r. Ledger f n r.0) (is_some w.e.database && not (is_mysql w.e.kind)) (w, false) _ l
        (pick (λ r. Ledger f n r.0) (not w.e.database_hook) _ _
          (Kept-Ledger f n w _ (refl, refl, refl, refl, refl) l)
          (pick (λ r. Ledger f n r.0) (is_idle w.e.current && w.e.connected) _ _
            (Kept-Ledger f n w _ (refl, refl, refl, refl, refl) l) (queued-Ledger n name w l)))

  issue_queued-Ledger :
      (env : Env) (n : ℕ) (gs : List SetFunc) (w : World)
      → w.e.backend_set_funcs ≡ run_query ∷ gs
      → Ledger f n w
      → Ledger f n (issue_queued env w)
  unfolding issue_queued update_lists Query.send_query
  issue_queued-Ledger env n gs w e l =
      let (k, p) = weight-drop_run f w.e.backend_set_funcs gs w.e.backend_set_params e l.paired in
      record {
        balance = omega (arith, l.balance, k);
        paired_before = l.paired_before;
        paired = p;
        paired_after = l.paired_after;
      }

  head_call-Ledger :
      (env : Env) (n : ℕ) (fs : List SetFunc) (w : World)
      → w.e.backend_set_funcs ≡ fs
      → Ledger f n w
      → Ledger f n (head_call env fs w).0
  unfolding next_call
  head_call-Ledger env n [] w e l = l
  head_call-Ledger env n (set_database ∷ fs) w e l =
      update_lists-Ledger n _ (database_set-Ledger n (param_at w.e.backend_set_params) w l)
  head_call-Ledger env n (run_query ∷ fs) w e l = issue_queued-Ledger env n fs w e l

  refill-Ledger : (n : ℕ) (fs : List SetFunc) (w : World) → Ledger f n w → Ledger f n (refill fs w)
  refill-Ledger n (g ∷ fs) w l = l
  refill-Ledger n [] w l =
      if_cases (Ledger f n) w.e.pool_member (rebalance w).0 w (rebalance-Ledger f n w l) l

  pub next_step-Ledger :
      (env : Env) (n : ℕ) (w : World) → Ledger f n w → Ledger f n (next_step env w).0
  unfolding next_step
  next_step-Ledger env n w l =
      head_call-Ledger env n (refill v.e.backend_set_funcs v).e.backend_set_funcs
        (refill v.e.backend_set_funcs v) refl
        (refill-Ledger n v.e.backend_set_funcs v
          (Kept-Ledger f n w v (refl, refl, refl, refl, refl) l))
    where
      v : World
      v = set_e (record (w.e) { current = idle }) w
