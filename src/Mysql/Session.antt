-- ===== src/Mysql/Session.antt =====
-- A whole session with a MySQL server: a connection and the first query on it.
use esskyuehl.Prelude.{
  ℕ, suc, ◌≡◌, ap, ap₂, sym, subst, ◌∙◌, List, Option, none, some, Bytes, length,
}
use esskyuehl.State.{World, Env, Act}
use esskyuehl.Query.{query, next_id}
use esskyuehl.Connect.{connect}
use esskyuehl.Events.{connect_handler, run, fd_handler}
use esskyuehl.Mysql.{Mysac, MysacRes, no_error}
use esskyuehl.Mysql.Hooks.{MysacCalls, over}
use esskyuehl.Mysql.Rounds.{NoFailure, wakes, Ends}
use esskyuehl.Mysql.Connecting.{IsClosed, set_up, connect-Connected}
use esskyuehl.Mysql.Asking.Answer.{Answered, fd_handler-Answered}

module _ {ℓ} {R : Type ℓ} (lib : MysacCalls R) (database : List Act → Option Bytes) (m₀ : Mysac)
    (env : Env) where
  abbrev surroundings : Env
  surroundings = over lib database m₀ env

  -- What the server does: it lets the object connect, in `j` rounds of waiting, and gives the query
  -- `q` the result `x`, in `k` more.
  pub record Serves (addr user : Bytes) (passwd : Option Bytes) (q : Bytes) (w : World) (j k : ℕ)
      (x : MysacRes R) : Type ℓ where
    pub fd : ℕ
    pub idle_mysac : Mysac
    pub last_mysac : Mysac
    pub begins : NoFailure (lib.mysac_connect (set_up lib database m₀ env addr user passwd w)).1
    pub has_fd :
        lib.mysac_get_fd (lib.mysac_connect (set_up lib database m₀ env addr user passwd w)).0
        ≡ some fd
    pub connects :
        Ends lib no_error
          (lib.mysac_connect (set_up lib database m₀ env addr user passwd w)).0
          j
          idle_mysac
    pub accepts : NoFailure (lib.mysac_errno (lib.mysac_s_set_query q idle_mysac))
    pub works : Ends lib no_error (lib.mysac_s_set_query q idle_mysac) k last_mysac
    pub has_res : lib.mysac_get_res last_mysac ≡ some x
    pub counts : x.num_rows ≡ length x.fetched

  -- On an object of type MySQL of its own that is not connected and that nothing is asked of,
  -- without callbacks, over a server that lets it connect and answers the query: `esql_connect`,
  -- its rounds of the fd handler, `esql_query`, its job and its rounds end with a result event as
  -- the last call made, for a result of which the getters tell the id that `esql_query` gave, the
  -- query's text and data and the number of rows that the server gave, and which has as many rows;
  -- the object is idle.
  pub session-Answered :
      (addr user : Bytes) (passwd : Option Bytes) (p : Option ℕ) (q : Bytes) (w : World)
      (j k fuel : ℕ) (x : MysacRes R)
      → IsClosed w
      → w.query_callbacks (next_id w.esql_id) ≡ none
      → Serves addr user passwd q w j k x
      → let f = suc (suc (suc fuel)) in
        let made = connect surroundings (some addr) user passwd w in
        let up = wakes surroundings f j (run surroundings f connect_handler made.0) in
        let asked = query surroundings p (some q) up.0 in
        Answered p q asked.1
          (length x.fetched)
          (wakes surroundings f k (fd_handler surroundings f asked.0))
  session-Answered addr user passwd p q w j k fuel x c o s =
      let (a, b, waits, under, (is_open, same_callbacks, same_id, stands, h, e, no_call)) =
        connect-Connected lib database m₀ env addr user passwd w s.idle_mysac j fuel s.fd c s.begins
          s.has_fd s.connects in
      let given = ap (lib.mysac_s_set_query q) (sym stands) in
      let (i, under_way, last) =
        fd_handler-Answered lib database m₀ env p q _ s.last_mysac k fuel x is_open
          (ap₂ (λ (f : ℕ → Option ℕ) n. f (next_id n)) same_callbacks same_id ∙ o)
          (subst (λ m. NoFailure (lib.mysac_errno m)) given s.accepts)
          (subst (λ m. Ends lib no_error m k s.last_mysac) given s.works) s.has_res s.counts in
      last
