-- ===== src/Postgresql/Errors.antt =====
-- What becomes of queries, given how the backend reads errors and results.
use esskyuehl.Prelude.{
  ℕ, zero, suc, ◌≡◌, refl, ap, ◌∙◌, Bool, true, false, List, [], ◌∷◌, Option, none, some, Bytes,
  is_some, arith, if◌then◌else◌, length,
}
use esskyuehl.State.{World, Env, Act, is_idle, Res}
use esskyuehl.Query.{query, issue_query, start_query, queue_query, send_query, next_id}
use esskyuehl.Events.{fetch_res}
use esskyuehl.Postgresql.{Messages, if_text, error_get, tuples_ok, fill_res, row_loop}

-- `PQresStatus` never returns NULL, so neither does `error_get`.
error_get-some : (m : Messages) → is_some m.of_status ≡ true → is_some (error_get m) ≡ true
unfolding error_get
error_get-some m h =
    some_of m.of_connection (if_text m.of_result m.of_status) (some_of m.of_result m.of_status h)
  where
    some_of : (o other : Option Bytes) → is_some other ≡ true → is_some (if_text o other) ≡ true
    some_of none other e = e
    some_of (some []) other e = e
    some_of (some (c ∷ s)) other e = refl

-- A test that holds, before a pair, and one whose `else` is no different.
refused : (b : Bool) (x y : World × ℕ) → b ≡ true → x.1 ≡ 0 → (if b then x else y).1 ≡ 0
refused true x y e z = z
refused false x y e z = cc

either : (b : Bool) (x y : World × ℕ) → x.1 ≡ 0 → y.1 ≡ 0 → (if b then x else y).1 ≡ 0
either true x y e z = e
either false x y e z = z

module _ (env : Env) (has_error : (h : List Act) → is_some (env.error_get h) ≡ true) where
  start_query-error :
      (p : Option ℕ) (q : Bytes) (n : ℕ) (w : World) → (start_query env p q n w).1 ≡ 0
  unfolding start_query send_query
  start_query-error p q n w = refused _ _ _ (has_error _) refl

  issue_query-error :
      (p : Option ℕ) (q : Bytes) (n : ℕ) (w : World)
      → is_idle w.e.current ≡ true
      → (issue_query env p q n w).1 ≡ 0
  unfolding issue_query
  issue_query-error p q n w h =
      let v = record w { esql_id = next_id w.esql_id } in
      refused (is_idle v.e.current) (start_query env p q n v) (queue_query p q v) h
        (start_query-error p q n v)

-- No query to PostgreSQL is accepted on a connection that is idle: where `PQresStatus` answers a
-- text for every status, as libpq has it, the backend's `error_get` is never NULL, which
-- `esql_query` takes for a failure.
pub query-error_get :
    (env : Env) (messages : List Act → Messages) (p : Option ℕ) (q : Option Bytes) (w : World)
    → ((h : List Act) → is_some (messages h).of_status ≡ true)
    → ((h : List Act) → env.error_get h ≡ error_get (messages h))
    → is_idle w.e.current ≡ true
    → (query env p q w).1 ≡ 0
unfolding query
query-error_get env messages p none w s e idle = refl
query-error_get env messages p (some q) w s e idle =
    either w.e.connected _ _
      (either w.e.db _ _ (issue_query-error env has_error p q (length q) w idle) refl) refl
  where
    has_error : (h : List Act) → is_some (env.error_get h) ≡ true
    has_error h = ap is_some (e h) ∙ error_get-some (messages h) (s h)

row_loop-zero : (n : ℕ) (r : Res) → n ≡ 0 → row_loop n r ≡ r
unfolding row_loop
row_loop-zero zero r e = refl
row_loop-zero (suc n) r e = absurd (omega (arith, e))

-- A query that gives rows gives a result without any, whatever their number: nothing sets
-- `row_count`, and the number of rows is taken for the number of columns.
fetch_res-tuples_ok :
    (env : Env) (n : ℕ) (w : World)
    → ((h : List Act) (r : Res) → env.fill_res h r ≡ fill_res (some (tuples_ok (suc n))) r)
    → ((fetch_res env none w).1.rows ≡ 0) × ((fetch_res env none w).1.desc ≡ some (suc n))
unfolding fill_res row_loop
fetch_res-tuples_ok env n w h = rw h (refl, ground arith)
