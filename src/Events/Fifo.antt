-- ===== src/Events/Fifo.antt =====
-- The three lists `backend_set_funcs`, `backend_set_params` and `backend_ids` of a connection, read
-- as one queue of calls.
use mathlib.Core.List.{map-append}
use esskyuehl.Prelude.{
  ℕ, ◌≡◌, refl, ap, ◌∙◌, true, false, ◌&&◌, List, [], ◌∷◌, ◌++◌, map, Option, none, some, arith,
  Bytes, length, is_some,
}
use esskyuehl.State.{
  Conn, World, Env, set_e, SetFunc, set_database, run_query, CallId, self, query_id, is_mysql,
  is_idle, backend_query, Act, idle, mysql, EsqlType,
}
use esskyuehl.State
use esskyuehl.Query.{queue_query}
use esskyuehl.Connect.{database_set, queue_database}
use esskyuehl.Events.{
  update_lists, head_call, refill, param_at, id_at, issue_queued, next_call, next_step,
}

-- A call that waits.
pub data Pending : Type 0 where
  database : Bytes → Pending
  text : Bytes → ℕ → Pending

abbrev pub func_of : Pending → SetFunc
func_of (database name) = set_database
func_of (text q n) = run_query

abbrev pub param_of : Pending → Option Bytes
param_of (database name) = some name
param_of (text q n) = some q

abbrev pub id_of : Pending → CallId
id_of (database name) = self
id_of (text q n) = query_id n

-- The lists of `c` are the queue `xs`.
pub record Holds (c : Conn) (xs : List Pending) : Type 0 where
  pub funcs : c.backend_set_funcs ≡ map func_of xs
  pub params : c.backend_set_params ≡ map param_of xs
  pub ids : c.backend_ids ≡ map id_of xs

-- A query on a busy connection goes to the end of the queue.
pub queue_query-Holds :
    (p : Option ℕ) (q : Bytes) (w : World) (xs : List Pending)
    → Holds w.e xs
    → Holds (queue_query p q w).0.e (xs ++ text q w.esql_id ∷ [])
unfolding queue_query
queue_query-Holds p q w xs h = record {
  funcs = rw (map-append func_of xs) (ap (λ l. l ++ run_query ∷ []) h.funcs);
  params = rw (map-append param_of xs) (ap (λ l. l ++ some q ∷ []) h.params);
  ids = rw (map-append id_of xs) (ap (λ l. l ++ query_id w.esql_id ∷ []) h.ids);
}

pub queue_database-Holds :
    (name : Bytes) (c : Conn) (xs : List Pending)
    → Holds c xs
    → Holds (queue_database name c) (xs ++ database name ∷ [])
unfolding queue_database
queue_database-Holds name c xs h = record {
  funcs = rw (map-append func_of xs) (ap (λ l. l ++ set_database ∷ []) h.funcs);
  params = rw (map-append param_of xs) (ap (λ l. l ++ some name ∷ []) h.params);
  ids = rw (map-append id_of xs) (ap (λ l. l ++ self ∷ []) h.ids);
}

update_lists-Holds :
    (f : SetFunc) (c : Conn) (x : Pending) (xs : List Pending)
    → func_of x ≡ f
    → Holds c (x ∷ xs)
    → Holds (update_lists f c) xs
unfolding update_lists
update_lists-Holds set_database c (database name) xs e h = record {
  funcs = rw (h.funcs);
  params = rw (h.funcs, h.params);
  ids = rw (h.funcs, h.ids);
}
update_lists-Holds run_query c (text q n) xs e h = record {
  funcs = rw (h.funcs);
  params = rw (h.funcs, h.params);
  ids = rw (h.funcs, h.ids);
}
update_lists-Holds run_query c (database name) xs e h = cc
update_lists-Holds set_database c (text q n) xs e h = cc

-- What `esql_next` makes of a query at the head of the queue, where `data` and `acts` are the data
-- kept for it and the calls made before.
pub record Issued (q : Bytes) (n : ℕ) (xs : List Pending) (data_ptr : Option ℕ) (acts : List Act)
    (v : World) : Type 0 where
  pub is_current : v.e.current ≡ State.query
  pub has_id : v.e.cur_id ≡ n
  pub has_text : v.e.cur_query ≡ some q
  pub has_data : v.e.cur_data ≡ data_ptr
  pub data_gone : is_some (data_ptr) ≡ true → v.query_data n ≡ none
  pub rest : Holds v.e xs
  pub was_sent : v.acts ≡ State.backend_error_get ∷ backend_query q (length q) ∷ acts

pub issue_queued-Issued :
    (env : Env) (q : Bytes) (n : ℕ) (xs : List Pending) (w : World)
    → Holds w.e (text q n ∷ xs)
    → Issued q n xs (w.query_data n) w.acts (issue_queued env w)
issue_queued-Issued env q n xs w h = record {
  is_current = unfold issue_queued in refl;
  has_id = unfold issue_queued in rw id_eq;
  has_text = unfold issue_queued in rw param_eq;
  has_data = unfold issue_queued in rw id_eq;
  data_gone = λ e. unfold issue_queued in rw (id_eq, e) (ground arith);
  rest =
      unfold issue_queued in
      update_lists-Holds run_query _ (text q n) xs refl
        (record { funcs = h.funcs; params = h.params; ids = h.ids });
  was_sent = unfold issue_queued in rw param_eq;
}
  where
    id_eq : id_at w.e.backend_ids ≡ n
    id_eq = rw (h.ids)

    param_eq : param_at w.e.backend_set_params ≡ some q
    param_eq = rw (h.params)

-- With a call queued, `esql_next` makes the first one.
pub next_step-cons :
    (env : Env) (w : World) (f : SetFunc) (fs : List SetFunc)
    → w.e.backend_set_funcs ≡ f ∷ fs
    → next_step env w ≡ next_call env f (set_e (record (w.e) { current = idle }) w)
unfolding next_step
next_step-cons env w f fs e =
    ap (λ l. head_call env (refill l v).e.backend_set_funcs (refill l v)) e
    ∙ ap (λ l. head_call env l v) e
  where
    v : World
    v = set_e (record (w.e) { current = idle }) w

-- With a query at the head of the queue, `esql_next` sends it: it becomes the running one with its
-- id, text and data, its data is kept no longer, and the others stay in order.
pub next_step-Issued :
    (env : Env) (q : Bytes) (n : ℕ) (xs : List Pending) (w : World)
    → Holds w.e (text q n ∷ xs)
    → Issued q n xs (w.query_data n) w.acts (next_step env w).0
next_step-Issued env q n xs w h = rw (next_step-cons env w run_query (map func_of xs) h.funcs) (
    unfold next_call in
    issue_queued-Issued env q n xs (set_e (record (w.e) { current = idle }) w)
      (record { funcs = h.funcs; params = h.params; ids = h.ids }))

abbrev renamed : Bytes → World → Conn
renamed name w = record (w.e) { database = some name }

database_set_queued :
    (name : Bytes) (w : World)
    → w.e.database_hook ≡ true
    → is_mysql w.e.kind ≡ true
    → is_idle w.e.current && w.e.connected ≡ false
    → database_set (some name) w ≡ (set_e (queue_database name (renamed name w)) w, true)
unfolding database_set
database_set_queued name w hook my busy = ground arith

-- `esql_database_set` on a connection to MySQL that is busy or not connected: the change takes the
-- last place in the queue, and the new name is stored at once.
pub database_set-Holds :
    (name : Bytes) (w : World) (xs : List Pending)
    → w.e.database_hook ≡ true
    → is_mysql w.e.kind ≡ true
    → is_idle w.e.current && w.e.connected ≡ false
    → Holds w.e xs
    → ((database_set (some name) w).1 ≡ true)
      × Holds (database_set (some name) w).0.e (xs ++ database name ∷ [])
      × ((database_set (some name) w).0.e.database ≡ some name)
database_set-Holds name w xs hook my busy h = rw (database_set_queued name w hook my busy) (
  refl,
  queue_database-Holds name (renamed name w) xs
      (record { funcs = h.funcs; params = h.params; ids = h.ids }),
  unfold queue_database in refl,
)
