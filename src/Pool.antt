-- ===== src/Pool.antt =====
-- src/lib/esql_pool.c, and the calls of esql_connect.c, esql_query.c and esql.c on a pool. A pool
-- is a `World` whose members are those before the one in hand, that one, and those after it.
pub mod Idle
pub mod Walk
pub mod Settings
pub mod Asking
pub mod Free
use esskyuehl.Prelude.{
  ℤ, pos, ℕ, zero, suc, ◌+◌, ◌-◌, Bool, true, false, not, ◌&&◌, List, [], ◌∷◌, ◌++◌, Option, none,
  some, Bytes, ◌==◌, ltb, if◌then◌else◌, length, is_some,
}
use esskyuehl.Escape.Format.{Arg}
use esskyuehl.State.{
  Conn, World, Env, EsqlType, no_type, is_no_type, is_mysql, is_idle, members, set_e,
}
use esskyuehl.State
use esskyuehl.Query.{query, query_vargs}
use esskyuehl.Connect.{connect, disconnect, database_set, connect_timeout_set, reconnect_set}
use esskyuehl.Object.{same_type, type_set, new}

-- The second loop of `esql_pool_idle_find_`: the member whose query is the oldest one. `cur` is the
-- greatest age so far, and `use` the place of the member that has it.
unfoldable pub oldest : ℕ → ℕ → ℕ → Option ℕ → List Conn → Option ℕ
oldest now i cur found [] = found
oldest now i cur found (c ∷ cs) =
    let age = now - c.query_start in
    oldest now (i + 1) (if ltb cur age then age else cur) (if ltb cur age then some i else found) cs

-- The first loop: the first member that waits for nothing.
unfoldable pub first_idle : ℕ → List Conn → Option ℕ
first_idle i [] = none
first_idle i (c ∷ cs) =
    let later = first_idle (i + 1) cs in if is_idle c.current then some i else later

-- `esql_pool_idle_find_`: the place of the member to use.
abbrev pub or_first : Option ℕ → ℕ
or_first none = 0
or_first (some i) = i

abbrev pub or_oldest : ℕ → List Conn → Option ℕ → ℕ
or_oldest now cs (some i) = i
or_oldest now cs none = or_first (oldest now 0 0 none cs)

unfoldable pub idle_find : ℕ → List Conn → ℕ
unfolding oldest first_idle
idle_find now cs = or_oldest now cs (first_idle 0 cs)

-- The world with the member after the one in hand, or the one at a place, taken in hand.
abbrev pub shift_to : World → List Conn → World
shift_to w [] = w
shift_to w (c ∷ cs) = record w { before = w.before ++ w.e ∷ []; e = c; after = cs }

unfoldable pub shift : World → World
shift w = shift_to w w.after

abbrev pub from_list : List Conn → World → World
from_list [] w = w
from_list (c ∷ cs) w = record w { before = []; e = c; after = cs }

unfoldable pub rewind : World → World
rewind w = from_list (members w) w

unfoldable pub shifts : ℕ → World → World
unfolding shift
shifts zero w = w
shifts (suc n) w = shifts n (shift w)

unfoldable pub focus : ℕ → World → World
unfolding shifts rewind
focus i w = shifts i (rewind w)

-- EINA_INLIST_FOREACH over the members from the one in hand on, with the conjunction of the
-- results.
unfoldable pub walk : ℕ → (World → World × Bool) → World → World × Bool
unfolding shift
walk zero f w = (w, true)
walk (suc n) f w = let (v, ok) = f w in let (u, oks) = walk n f (shift v) in (u, ok && oks)

unfoldable pub each : (World → World × Bool) → World → World × Bool
unfolding walk rewind
each f w = walk (length (members w)) f (rewind w)

-- `esql_pool_connect`, and `esql_connect` on a pool.
unfoldable pub pool_connect : Env → Option Bytes → Bytes → Option Bytes → World → World × Bool
unfolding each connect
pool_connect env none user passwd w = (w, false)
pool_connect env (some addr) user passwd w =
    if is_no_type w.ep.kind
    then (w, false)
    else each (λ v. if v.e.connected then (v, true) else connect env (some addr) user passwd v) w

-- `esql_pool_disconnect`
unfoldable pub pool_disconnect : Env → World → World
unfolding each disconnect
pool_disconnect env w =
    let down = λ (v : World). record v { ep = record (v.ep) { connected = false } } in
    down (each (λ v. (if v.e.connected then disconnect env v else v, true)) (down w)).0

-- `esql_pool_database_set`, and `esql_database_set` on a pool.
unfoldable pub pool_database_set : Option Bytes → World → World × Bool
unfolding each database_set
pool_database_set none w = (w, false)
pool_database_set (some name) w =
    if is_some w.ep.database && not (is_mysql w.ep.kind) then (w, false) else (
      (each (λ v. ((database_set (some name) v).0, true))
          (record w { ep = record (w.ep) { database = some name } })).0,
      true,
    )

-- `esql_pool_type_set`
unfoldable pub pool_type_set : List EsqlType → EsqlType → World → World × Bool
unfolding each type_set
pool_type_set modules type w =
    if same_type type w.ep.kind
    then (w, true)
    else (let (v, ok) = each (type_set modules type) w in
        (if ok then record v { ep = record (v.ep) { kind = type } } else v, ok))

-- `esql_pool_connect_timeout_set`, and `esql_connect_timeout_set` on a pool.
unfoldable pub pool_connect_timeout_set : ℤ → World → World
unfolding each connect_timeout_set
pool_connect_timeout_set timeout w =
    (each (λ v. (connect_timeout_set timeout v, true))
      (record w { ep = record (w.ep) { timeout = timeout } })).0

-- `esql_pool_reconnect_set`, and `esql_reconnect_set` on a pool.
unfoldable pub pool_reconnect_set : Bool → World → World
unfolding each reconnect_set
pool_reconnect_set enable w =
    (each (λ v. (reconnect_set enable v, true))
      (record w { ep = record (w.ep) { reconnect = enable } })).0

-- The member that takes a query.
abbrev pub chosen : Env → World → World
chosen env w = focus (idle_find (env.time w.acts) (members w)) w

-- `esql_pool_query`, and `esql_query` on a pool.
unfoldable pub pool_query : Env → Option ℕ → Option Bytes → World → World × ℕ
unfolding query idle_find focus
pool_query env p none w = (w, 0)
pool_query env p (some q) w = if w.ep.connected then query env p (some q) (chosen env w) else (w, 0)

-- `esql_pool_query_args`, and `esql_query_vargs` on a pool.
unfoldable pub pool_query_args : Env → Option ℕ → Option Bytes → List Arg → World → World × ℕ
unfolding query_vargs idle_find focus
pool_query_args env p none args w = (w, 0)
pool_query_args env p (some fmt) args w =
    if w.ep.connected then query_vargs env p (some fmt) args (chosen env w) else (w, 0)

-- The loop of `esql_pool_new`: `n` members, the first with the id `i`.
unfoldable pub new_members : List EsqlType → EsqlType → ℕ → ℕ → List Conn
unfolding new
new_members modules type zero i = []
new_members modules type (suc n) i =
    record (new modules type) { pool_member = true; pool_id = i }
    ∷ new_members modules type n (i + 1)

-- `calloc(1, sizeof(Esql_Pool))`
abbrev pub blank_pool : State.Pool
blank_pool = record {
  error = none;
  connected = false;
  database = none;
  kind = no_type;
  connect_cb = none;
  connect_cb_data = none;
  data_ptr = none;
  cur_query = none;
  timeout = pos 0;
  cur_id = 0;
  event_count = 0;
  reconnect = false;
  dead = false;
  size = 0;
  e_connected = 0;
}

-- `esql_pool_new`
unfoldable pub pool_new : List EsqlType → ℕ → EsqlType → Option (State.Pool × List Conn)
unfolding new_members
pool_new modules size type =
    if ltb size 1
    then none
    else if is_no_type type
    then none
    else some (record blank_pool { kind = type; size = size }, new_members modules type size 0)
