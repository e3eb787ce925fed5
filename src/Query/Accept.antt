-- ===== src/Query/Accept.antt =====
-- When a query is accepted, and what becomes of one that is not.
use esskyuehl.Prelude.{
  ℕ, ◌<◌, ◌≡◌, refl, ap, ◌∙◌, ◌≢◌, ◌⊎◌, inl, inr, Bool, true, false, [], ◌∷◌, ◌++◌, Option, some,
  arith, Bytes, if◌then◌else◌, length, is_some, u32_mod,
}
use esskyuehl.State.{Conn, World, Env, is_idle, run_query, query_id, update}
use esskyuehl.State
use esskyuehl.Query.{
  next_id, take_back_id, send_query, start_query, queue_query, issue_query, query,
}
use esskyuehl.Query.Ids.{next_id_bounds, next_id-take_back_id}

-- The query is the running one, and a job will look at the connection.
pub record Running (n : ℕ) (p : Option ℕ) (q : Bytes) (c : Conn) : Type 0 where
  pub is_current : c.current ≡ State.query
  pub has_id : c.cur_id ≡ n
  pub has_text : c.cur_query ≡ some q
  pub has_data : c.cur_data ≡ p
  pub has_job : c.fd_job ≡ true

-- The query stands at the end of the queue, and the call in hand goes on.
pub record Queued (n : ℕ) (p : Option ℕ) (q : Bytes) (c : Conn) (v : World) : Type 0 where
  pub last_func : v.e.backend_set_funcs ≡ c.backend_set_funcs ++ run_query ∷ []
  pub last_param : v.e.backend_set_params ≡ c.backend_set_params ++ some q ∷ []
  pub last_id : v.e.backend_ids ≡ c.backend_ids ++ query_id n ∷ []
  pub same_current : v.e.current ≡ c.current
  pub same_id : v.e.cur_id ≡ c.cur_id
  pub data_found : is_some p ≡ true → v.query_data n ≡ p

start_query-Running :
    (env : Env) (p : Option ℕ) (q : Bytes) (len : ℕ) (w : World)
    → (start_query env p q len w).1 ≢ 0
    → Running w.esql_id p q (start_query env p q len w).0.e
      × ((start_query env p q len w).1 ≡ w.esql_id)
unfolding start_query
start_query-Running env p q len w h = ground arith

queue_query-Queued :
    (p : Option ℕ) (q : Bytes) (w : World) → Queued w.esql_id p q w.e (queue_query p q w).0
unfolding queue_query
queue_query-Queued p q w = record {
  last_func = refl;
  last_param = refl;
  last_id = refl;
  same_current = refl;
  same_id = refl;
  data_found = ground arith;
}

-- The outcome of an accepted query that got the id `n`.
abbrev pub Accepted : ℕ → Option ℕ → Bytes → World → World → Type 0
Accepted n p q w v =
    ((is_idle w.e.current ≡ true) × Running n p q v.e)
    ⊎ ((is_idle w.e.current ≡ false) × Queued n p q w.e v)

pick {κ} :
    (P : World × ℕ → Type κ) (b : Bool) (started queued : World × ℕ)
    → (b ≡ true → P started)
    → (b ≡ false → P queued)
    → P (if b then started else queued)
pick P true started queued s q = s refl
pick P false started queued s q = q refl

issue_query-Accepted :
    (env : Env) (p : Option ℕ) (q : Bytes) (len : ℕ) (w : World)
    → (issue_query env p q len w).1 ≢ 0
    → ((issue_query env p q len w).1 ≡ next_id w.esql_id)
      × Accepted (next_id w.esql_id) p q w (issue_query env p q len w).0
unfolding issue_query
issue_query-Accepted env p q len w =
    pick (λ r. r.1 ≢ 0 → (r.1 ≡ next_id w.esql_id) × Accepted (next_id w.esql_id) p q w r.0)
      (is_idle w.e.current) (start_query env p q len v) (queue_query p q v)
      (λ e h. let (r, id) = start_query-Running env p q len v h in (id, inl (e, r)))
      (λ e h. (unfold queue_query in refl, inr (e, queue_query-Queued p q v)))
  where
    v : World
    v = record w { esql_id = next_id w.esql_id }

gate {κ} :
    (P : World × ℕ → Type κ) (open_ has : Bool) (refused issued : World × ℕ)
    → P refused
    → P issued
    → P (if open_ then (if has then issued else refused) else refused)
gate P true true refused issued r i = i
gate P true false refused issued r i = r
gate P false has refused issued r i = r

-- A query is refused at once, or issued.
query_cases {κ} :
    (P : World × ℕ → Type κ) (env : Env) (p : Option ℕ) (q : Bytes) (w : World)
    → P (w, 0)
    → P (issue_query env p q (length q) w)
    → P (query env p (some q) w)
unfolding query
query_cases P env p q w r i = gate P w.e.connected w.e.db (w, 0) _ r i

-- A query gets an id other than 0 only if it is now the running one of a connection that was idle,
-- or stands at the end of the queue of a busy one; the id is the counter's next one.
pub query-Accepted :
    (env : Env) (p : Option ℕ) (q : Bytes) (w : World)
    → (query env p (some q) w).1 ≢ 0
    → ((query env p (some q) w).1 ≡ next_id w.esql_id)
      × Accepted (next_id w.esql_id) p q w (query env p (some q) w).0
query-Accepted env p q w =
    query_cases (λ r. r.1 ≢ 0 → (r.1 ≡ next_id w.esql_id) × Accepted (next_id w.esql_id) p q w r.0)
      env p q w (λ h. absurd (h refl)) (issue_query-Accepted env p q (length q) w)

-- A refused query leaves all of the connection, its queue and its running query included, but the
-- backend's error and the time at which a query started, and all outside the connection but the
-- counter and the calls recorded; and the counter gives the next query the id that this one would
-- have had.
pub record Refused (w v : World) : Type 0 where
  pub same_next : next_id v.esql_id ≡ next_id w.esql_id
  pub same_e : v.e ≡ record (w.e) { error = v.e.error; query_start = v.e.query_start }
  pub same_rest : v ≡ record w { e = v.e; esql_id = v.esql_id; acts = v.acts }

Refused-refl : (w : World) → Refused w w
Refused-refl w = record { same_next = refl; same_e = refl; same_rest = refl }

-- The same, with the counter that a refused start leaves.
abbrev TakenBack : World → World → Type 0
TakenBack w v =
    (v.esql_id ≡ take_back_id w.esql_id)
    × (v.e ≡ record (w.e) { error = v.e.error; query_start = v.e.query_start })
    × (v ≡ record w { e = v.e; esql_id = v.esql_id; acts = v.acts })

start_query-TakenBack :
    (env : Env) (p : Option ℕ) (q : Bytes) (len : ℕ) (w : World)
    → 0 < w.esql_id
    → (start_query env p q len w).1 ≡ 0
    → TakenBack w (start_query env p q len w).0
unfolding start_query send_query
start_query-TakenBack env p q len w pos =
    pick (λ r. r.1 ≡ 0 → TakenBack w r.0) (is_some (send_query env q len w).e.error) _ _
      (λ _ _. (refl, refl, refl)) (λ _ h. absurd (omega arith))

issue_query-Refused :
    (env : Env) (p : Option ℕ) (q : Bytes) (len : ℕ) (w : World)
    → w.esql_id < u32_mod
    → (issue_query env p q len w).1 ≡ 0
    → Refused w (issue_query env p q len w).0
unfolding issue_query
issue_query-Refused env p q len w b =
    pick (λ r. r.1 ≡ 0 → Refused w r.0) (is_idle w.e.current) (start_query env p q len v) _
      (λ _ h.
        let (a, c, d) = start_query-TakenBack env p q len v (next_id_bounds w.esql_id b).0 h in
        record {
          same_next = ap next_id a ∙ next_id-take_back_id w.esql_id b;
          same_e = c;
          same_rest = d;
        })
      (λ _ h. absurd (omega (arith, next_id_bounds w.esql_id b)))
  where
    v : World
    v = record w { esql_id = next_id w.esql_id }

-- A query that is refused, whatever the reason, changes nothing of the connection, its queue and
-- its running query included, but `error` and `query_start`, and nothing outside it but the calls
-- recorded and the
-- counter; and it takes no id: the next query gets the one that this query would have had. The
-- counter fits 32 bits.
pub query-Refused :
    (env : Env) (p : Option ℕ) (q : Bytes) (w : World)
    → w.esql_id < u32_mod
    → (query env p (some q) w).1 ≡ 0
    → Refused w (query env p (some q) w).0
query-Refused env p q w b =
    query_cases (λ r. r.1 ≡ 0 → Refused w r.0) env p q w (λ _. Refused-refl w)
      (issue_query-Refused env p q (length q) w b)
