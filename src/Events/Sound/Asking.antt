-- ===== src/Events/Sound/Asking.antt =====
-- The user's calls of `esql_query` and of the settings, on a pool.
use esskyuehl.Prelude.{ℤ, ltb, ℕ, refl, false, List, Option, none, some, Bytes, length}
use esskyuehl.State.{World, Env, if_cases, is_idle}
use esskyuehl.Escape.Format.{Arg, Escaped, text, null, undefined, stuck}
use esskyuehl.Query.{
  query_vargs, issue_escaped, query_callback_set, next_id, query, issue_query, start_query,
  queue_query, send_query,
}
use esskyuehl.Connect.{is_positive, connect_timeout_set}
use esskyuehl.Events.Sound.{Settled, same_world, pick}

start_query-Settled :
    (env : Env) (p : Option ℕ) (q : Bytes) (n : ℕ) (w : World)
    → Settled w (start_query env p q n w).0
unfolding start_query send_query
start_query-Settled env p q n w =
    pick (λ r. Settled w r.0) _ _ _ ((refl, refl, refl, refl, refl), λ e. e)
      (if_cases (Settled w) w.e.fd_job _ _ ((refl, refl, refl, refl, refl), λ e. cc)
        ((refl, refl, refl, refl, refl), λ e. cc))

issue_query-Settled :
    (env : Env) (p : Option ℕ) (q : Bytes) (n : ℕ) (w : World)
    → Settled w (issue_query env p q n w).0
unfolding issue_query queue_query
issue_query-Settled env p q n w =
    pick (λ r. Settled w r.0) (is_idle w.e.current) (start_query env p q n v) (queue_query p q v)
      (start_query-Settled env p q n v) ((refl, refl, refl, refl, refl), λ e. e)
  where
    v : World
    v = record w { esql_id = next_id w.esql_id }

-- `esql_query` starts and ends no connection, whatever comes of it.
pub query-Settled :
    (env : Env) (p : Option ℕ) (o : Option Bytes) (w : World) → Settled w (query env p o w).0
unfolding query
query-Settled env p none w = same_world w
query-Settled env p (some q) w =
    pick (λ r. Settled w r.0) w.e.connected _ (w, 0)
      (pick (λ r. Settled w r.0) w.e.db _ (w, 0) (issue_query-Settled env p q (length q) w)
        (same_world w))
      (same_world w)

issue_escaped-Settled :
    (env : Env) (p : Option ℕ) (r : Escaped) (w : World) → Settled w (issue_escaped env p r w).0
unfolding issue_escaped
issue_escaped-Settled env p (text q n) w = issue_query-Settled env p q n w
issue_escaped-Settled env p null w = same_world w
issue_escaped-Settled env p undefined w = same_world w
issue_escaped-Settled env p stuck w = same_world w

pub query_vargs-Settled :
    (env : Env) (p : Option ℕ) (o : Option Bytes) (args : List Arg) (w : World)
    → Settled w (query_vargs env p o args w).0
unfolding query_vargs
query_vargs-Settled env p none args w = same_world w
query_vargs-Settled env p (some fmt) args w =
    pick (λ r. Settled w r.0) w.e.connected _ (w, 0)
      (pick (λ r. Settled w r.0) w.e.db _ (w, 0) (issue_escaped-Settled env p _ w) (same_world w))
      (same_world w)

pub query_callback_set-Settled :
    (id : ℕ) (cb : Option ℕ) (w : World) → Settled w (query_callback_set id cb w).0
unfolding query_callback_set
query_callback_set-Settled id none w = same_world w
query_callback_set-Settled id (some cb) w =
    pick (λ r. Settled w r.0) (ltb id 1) (w, false) _ (same_world w)
      ((refl, refl, refl, refl, refl), λ e. e)

pub connect_timeout_set-Settled : (t : ℤ) (w : World) → Settled w (connect_timeout_set t w)
unfolding connect_timeout_set
connect_timeout_set-Settled t w =
    if_cases (Settled w) (is_positive t) _ _
      (if_cases (Settled w) w.e.timeout_timer _ _ ((refl, refl, refl, refl, refl), λ e. e)
        ((refl, refl, refl, refl, refl), λ e. e))
      ((refl, refl, refl, refl, refl), λ e. e)
