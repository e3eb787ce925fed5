-- ===== src/Events/Calls.antt =====
-- src/lib/esql_events.c and `esql_pool_rebalance` (src/lib/esql_pool.c): the queue of calls, and
-- `esql_next`.
use esskyuehl.Prelude.{
  ℕ, Bool, true, false, List, [], ◌∷◌, ◌++◌, Option, none, some, Bytes, if◌then◌else◌, length,
  is_some,
}
use esskyuehl.State.{
  Conn, World, Env, set_e, update, idle, SetFunc, set_database, run_query, CallId, self, query_id,
}
use esskyuehl.State
use esskyuehl.Query.{send_query}
use esskyuehl.Connect.{database_set}

-- The calls that wait for one another.
pub data Call : Type 0 where
  next call_complete event_error connect_handler : Call

-- `esql_pool_rebalance` (src/lib/esql_pool.c): the first query at the head of a member's queue
-- moves to the end of the lists of `e`. `taken` is that member's rest and the three entries.
pub record Taken : Type 0 where
  pub rest : Conn
  pub param : Option Bytes
  pub id : CallId

unfoldable pub take_query : List SetFunc → List (Option Bytes) → List CallId → Conn → Option Taken
take_query (run_query ∷ fs) (p ∷ ps) (i ∷ ids) c = some (record {
  rest = record c { backend_set_funcs = fs; backend_set_params = ps; backend_ids = ids };
  param = p;
  id = i;
})
take_query _ _ _ c = none

unfoldable pub take_head_query : Conn → Option Taken
unfolding take_query
take_head_query c = take_query c.backend_set_funcs c.backend_set_params c.backend_ids c

-- What a member gives, or else what the later ones give.
abbrev pub first_or :
    Option Taken → Conn → List Conn → Option (List Conn × Taken) → Option (List Conn × Taken)
first_or (some t) c cs later = some (t.rest ∷ cs, t)
first_or none c cs none = none
first_or none c cs (some (cs', t)) = some (c ∷ cs', t)

-- A list of members with the first such query taken out.
unfoldable pub take_first_query : List Conn → Option (List Conn × Taken)
take_first_query [] = none
take_first_query (c ∷ cs) =
    let later = take_first_query cs in first_or (take_head_query c) c cs later

unfoldable pub give_query : Taken → Conn → Conn
give_query t c = record c {
  backend_set_funcs = c.backend_set_funcs ++ run_query ∷ [];
  backend_set_params = c.backend_set_params ++ t.param ∷ [];
  backend_ids = c.backend_ids ++ t.id ∷ [];
}

abbrev pub take_from_after : World → Option (List Conn × Taken) → World × Bool
take_from_after w none = (w, false)
take_from_after w (some (cs, t)) = (record w { after = cs; e = give_query t w.e }, true)

abbrev pub take_from_before : World → Option (List Conn × Taken) → World × Bool
take_from_before w none = take_from_after w (take_first_query w.after)
take_from_before w (some (cs, t)) = (record w { before = cs; e = give_query t w.e }, true)

-- `e` has no queued call, so the search passes it by between the members before and after it.
unfoldable pub rebalance : World → World × Bool
rebalance w = take_from_before w (take_first_query w.before)

abbrev same_func : SetFunc → SetFunc → Bool
same_func set_database set_database = true
same_func run_query run_query = true
same_func _ _ = false

abbrev pub drop_head {ℓ} : {A : Type ℓ} → SetFunc → List SetFunc → List A → List A
drop_head f [] xs = xs
drop_head f (g ∷ fs) [] = []
drop_head f (g ∷ fs) (x ∷ xs) = if same_func g f then xs else x ∷ xs

-- UPDATE_LISTS: the head of each list is dropped if it is the call that the macro names.
unfoldable pub update_lists : SetFunc → Conn → Conn
update_lists f c = record c {
  backend_set_funcs = drop_head f c.backend_set_funcs c.backend_set_funcs;
  backend_set_params = drop_head f c.backend_set_funcs c.backend_set_params;
  backend_ids = drop_head f c.backend_set_funcs c.backend_ids;
}

-- `backend_set_params->data`; an empty list is not read.
abbrev pub param_at : List (Option Bytes) → Option Bytes
param_at [] = none
param_at (p ∷ ps) = p

-- `(Esql_Query_Id)((uintptr_t)e->backend_ids->data)`
abbrev pub id_at : List CallId → ℕ
id_at (query_id n ∷ ids) = n
id_at (self ∷ ids) = 0
id_at [] = 0

abbrev pub text_of : Option Bytes → Bytes
text_of none = []
text_of (some q) = q

-- The branch of `esql_next` for a query: the queued data moves to the connection.
unfoldable pub issue_queued : Env → World → World
unfolding send_query update_lists
issue_queued env w =
    let id = id_at w.e.backend_ids in
    let q = param_at w.e.backend_set_params in
    let v = send_query env (text_of q) (length (text_of q)) w in
    record v {
      e = update_lists run_query (record (v.e) {
        current = State.query;
        cur_data = w.query_data id;
        cur_id = id;
        cur_query = q;
      });
      query_data = if is_some (w.query_data id) then update w.query_data id none else w.query_data;
    }

-- The next queued call.
unfoldable pub next_call : Env → SetFunc → World → World × Option Call
unfolding issue_queued database_set update_lists
next_call env set_database w =
    let v = (database_set (param_at w.e.backend_set_params) w).0 in
    (set_e (update_lists set_database v.e) v, some connect_handler)
next_call env run_query w =
    let v = issue_queued env w in
    (v, if is_some v.e.error then some event_error else some connect_handler)

abbrev pub head_call : Env → List SetFunc → World → World × Option Call
head_call env [] w = (w, none)
head_call env (f ∷ fs) w = next_call env f w

-- With an empty queue a pool member takes over a call of another one, if there is any.
abbrev pub refill : List SetFunc → World → World
refill (f ∷ fs) w = w
refill [] w = if w.e.pool_member then (rebalance w).0 else w

-- `esql_next`
unfoldable pub next_step : Env → World → World × Option Call
unfolding next_call rebalance
next_step env w =
    let v = set_e (record (w.e) { current = idle }) w in
    let u = refill v.e.backend_set_funcs v in head_call env u.e.backend_set_funcs u
