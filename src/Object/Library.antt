-- ===== src/Object/Library.antt =====
-- `esql_init` and `esql_shutdown` (src/lib/esql.c), and `esql_mempool_init` (src/lib/esql_alloc.c).
use esskyuehl.State.{EsqlType}
use esskyuehl.Prelude.{
  ℤ, pos, negsuc, List, ◌++◌, ℕ, zero, suc, ◌+◌, ◌≡◌, refl, Bool, true, false, not, ◌&&◌, [], ◌∷◌,
  Option, none, some, arith, Bytes, codes, ◌==◌, if◌then◌else◌,
}

-- ESQL_EVENT_ERROR, _RESULT, _CONNECT and _DISCONNECT.
pub record EventTypes : Type 0 where
  pub error_type : ℕ
  pub result_type : ℕ
  pub connect_type : ℕ
  pub disconnect_type : ℕ

abbrev pub incr : ℤ → ℤ
incr (pos n) = pos (n + 1)
incr (negsuc zero) = pos 0
incr (negsuc (suc n)) = negsuc n

abbrev pub decr : ℤ → ℤ
decr (pos zero) = negsuc 0
decr (pos (suc n)) = pos n
decr (negsuc n) = negsuc (suc n)

abbrev pub is_one : ℤ → Bool
is_one (pos n) = n == 1
is_one (negsuc n) = false

abbrev pub is_zero : ℤ → Bool
is_zero (pos n) = n == 0
is_zero (negsuc n) = false

-- `esql_init_count_`, what is initialised, the types of `esql_modules`, the entries of the two hash
-- tables of queries with their ids, and the types of events.
pub record Lib : Type 0 where
  pub count : ℤ
  pub eina : Bool
  pub log_dom : Bool
  pub ecore : Bool
  pub mempool : Bool
  pub modules : List EsqlType
  pub query_callbacks : List (ℕ × ℕ)
  pub query_data : List (ℕ × ℕ)
  pub event_types : EventTypes

-- Whether each part can be initialised, the modules that are found in their directory, and the
-- types that `ecore_event_type_new` makes.
pub record Answers : Type 0 where
  pub eina_ok : Bool
  pub log_ok : Bool
  pub ecore_ok : Bool
  pub mempool_ok : Bool
  pub modules_ok : Bool
  pub found : List EsqlType
  pub new_types : EventTypes

-- The first call's work: each failure jumps to the label that undoes what was done before it.
unfoldable pub start : Answers → Lib → Lib × ℤ
start a l =
    if not a.eina_ok
    then (l, pos 0)
    else if not a.log_ok
    then (record l { eina = false; log_dom = false }, pos 0)
    else if not a.ecore_ok
    then (record l { eina = false; log_dom = false }, pos 0)
    else if not a.mempool_ok
    then (record l { eina = false; log_dom = false; ecore = false }, pos 0)
    else if not a.modules_ok
    then (record l { eina = false; log_dom = false; ecore = false; mempool = false }, pos 0)
    else (
      record l {
        eina = true;
        log_dom = true;
        ecore = true;
        mempool = true;
        modules = l.modules ++ a.found;
        event_types = a.new_types;
      },
      l.count,
    )

-- `esql_init`
unfoldable pub init : Answers → Lib → Lib × ℤ
unfolding start
init a l =
    let m = record l { count = incr l.count } in
    if not (is_one m.count) then (m, m.count) else start a m

-- `esql_shutdown`
unfoldable pub shutdown : Lib → Lib × ℤ
shutdown l =
    let m = record l { count = decr l.count } in
    if not (is_zero m.count) then (m, m.count) else (
      record m {
        eina = false;
        log_dom = false;
        ecore = false;
        mempool = false;
        modules = [];
        query_callbacks = [];
        query_data = [];
      },
      m.count,
    )

-- A library with nothing initialised, with the types of events that it had the last time.
abbrev pub stopped : ℤ → EventTypes → Lib
stopped n types = record {
  count = n;
  eina = false;
  log_dom = false;
  ecore = false;
  mempool = false;
  modules = [];
  query_callbacks = [];
  query_data = [];
  event_types = types;
}

abbrev pub all_ok : Answers → Bool
all_ok a = a.eina_ok && a.log_ok && a.ecore_ok && a.mempool_ok && a.modules_ok

incr_pos : (n : ℕ) → incr (pos (suc n)) ≡ pos (suc (suc n))
incr_pos n = ground arith

-- What the user did with a library that an init started: queries may have set callbacks and data.
abbrev pub used : List (ℕ × ℕ) → List (ℕ × ℕ) → Lib → Lib
used callbacks entries l = record l { query_callbacks = callbacks; query_data = entries }

-- Where everything can be initialised: the shutdown behind the init of a library with nothing
-- initialised leaves nothing initialised, no module and no entry in the tables of queries, whatever
-- entries were made in between, but the types of events that the init made stay; and where the
-- library `l` was in use, a shutdown behind an init leaves all as it was.
pub shutdown-init :
    (a : Answers) (types : EventTypes) (callbacks entries : List (ℕ × ℕ)) (n : ℕ) (l : Lib)
    → all_ok a ≡ true
    → l.count ≡ pos (suc n)
    → ((shutdown (used callbacks entries (init a (stopped (pos 0) types)).0)).0
        ≡ stopped (pos 0) a.new_types)
      × ((shutdown (init a l).0).0 ≡ l)
shutdown-init a types callbacks entries n l ok e =
    (unfold shutdown init in ground arith, unfold shutdown init in ground (arith, incr_pos n))

-- A failed init undoes all that it did, and returns 0; but the call stays counted, so that the next
-- one returns 2 and initialises nothing, whatever could be initialised by then.
pub init_failed :
    (a b : Answers) (types : EventTypes)
    → all_ok a ≡ false
    → (init a (stopped (pos 0) types) ≡ (stopped (pos 1) types, pos 0))
      × (init b (init a (stopped (pos 0) types)).0 ≡ (stopped (pos 2) types, pos 2))
unfolding init
init_failed a b types h = ground arith

-- `strcmp` as a test.
abbrev pub same_text : Bytes → Bytes → Bool
same_text [] [] = true
same_text (c ∷ s) (d ∷ t) = c == d && same_text s t
same_text _ _ = false

abbrev pub pass_through : Bytes
pass_through = codes "pass_through"

-- `eina_mempool_add`, by the pool's kind, its index and the tries made before; and the outcome of a
-- pool's retries, `retrying` where the fuel ran out.
pub data Outcome : Type 0 where
  added failed retrying : Outcome

unfoldable pub add_pool : (Bytes → ℕ → ℕ → Bool) → ℕ → Bytes → ℕ → ℕ → Outcome
add_pool add zero choice i tries = retrying
add_pool add (suc fuel) choice i tries =
    let again = add_pool add fuel pass_through i (tries + 1) in
    if add choice i tries then added else if same_text choice pass_through then again else failed

-- `esql_mempool_init`, over the pools for results and for rows; `env` is `getenv("EINA_MEMPOOL")`.
abbrev pub chosen : Option Bytes → Bytes
chosen none = codes "chained_mempool"
chosen (some []) = codes "chained_mempool"
chosen (some (c ∷ s)) = c ∷ s

abbrev pub next_pool : Outcome → Outcome → Outcome
next_pool added o = o
next_pool failed o = failed
next_pool retrying o = retrying

unfoldable pub mempool_init : (Bytes → ℕ → ℕ → Bool) → ℕ → Option Bytes → Outcome
mempool_init add fuel env =
    next_pool (add_pool add fuel (chosen env) 0 0) (add_pool add fuel (chosen env) 1 0)

add_pool-retrying :
    (add : Bytes → ℕ → ℕ → Bool) (fuel i tries : ℕ)
    → ((n : ℕ) → add pass_through i n ≡ false)
    → add_pool add fuel pass_through i tries ≡ retrying
unfolding add_pool
add_pool-retrying add zero i tries h = refl
add_pool-retrying add (suc fuel) i tries h =
    rw (h tries) (add_pool-retrying add fuel i (tries + 1) h)

-- The test for the fallback is the wrong way round. Where no pool can be added, a choice other than
-- "pass_through" fails without trying that one, and "pass_through" is tried for ever, whatever fuel
-- is given.
pub mempool_init_fallback :
    (add : Bytes → ℕ → ℕ → Bool) (fuel : ℕ) (env : Option Bytes)
    → ((choice : Bytes) (i n : ℕ) → add choice i n ≡ false)
    → mempool_init add (suc fuel) env
      ≡ (if same_text (chosen env) pass_through then retrying else failed)
mempool_init_fallback add fuel env h =
    unfold mempool_init in
    rw (two (chosen env) 0, two (chosen env) 1) (both (same_text (chosen env) pass_through))
  where
    two :
        (c : Bytes) (i : ℕ)
        → add_pool add (suc fuel) c i 0 ≡ (if same_text c pass_through then retrying else failed)
    two c i =
        unfold add_pool in rw (h c i 0, add_pool-retrying add fuel i (0 + 1) (h pass_through i))

    both :
        (b : Bool)
        → next_pool (if b then retrying else failed) (if b then retrying else failed)
          ≡ (if b then retrying else failed)
    both true = refl
    both false = refl
