-- ===== src/Events/Drain/Working.antt =====
-- A connection that works on a query, while the user asks more of it.
use esskyuehl.Prelude.{
  ℕ, suc, ◌≡◌, refl, ap, sym, subst, ◌∙◌, Bool, true, false, Option, List, [], ◌∷◌, ◌++◌,
  append_assoc, append-nil, none, some, Bytes, if_true, if_false, length,
}
use esskyuehl.State.{
  Conn, World, Env, Act, act, set_e, if_cases, idle, is_idle, wants_write, fd_active_set, job_add,
}
use esskyuehl.State
use esskyuehl.Query.{next_id, query, issue_query, queue_query, add_job}
use esskyuehl.Events.Fifo.{text, Holds, queue_query-Holds}
use esskyuehl.Events.Drain.{Seen, trace, texts, Runs}

-- A user who makes one query after the other.
abbrev pub ask_all : Env → List Bytes → World → World
ask_all env [] w = w
ask_all env (q ∷ qs) w = ask_all env qs (query env none (some q) w).0

-- The queries with their ids, the counter being at `k` before them.
abbrev pub numbered : ℕ → List Bytes → List (Bytes × ℕ)
numbered k [] = []
numbered k (q ∷ qs) = (q, next_id k) ∷ numbered (next_id k) qs

pub length-numbered : (k : ℕ) (qs : List Bytes) → length (numbered k qs) ≡ length qs
length-numbered k [] = refl
length-numbered k (q ∷ qs) = ap suc (length-numbered (next_id k) qs)

texts-append : (xs ys : List (Bytes × ℕ)) → texts (xs ++ ys) ≡ texts xs ++ texts ys
texts-append [] ys = refl
texts-append ((q, n) ∷ xs) ys = ap (λ l. text q n ∷ l) (texts-append xs ys)

-- The connection is up and works on the query `n`, `xs` wait, and `h` was seen.
pub record Working (n : ℕ) (xs : List (Bytes × ℕ)) (h : List Seen) (w : World) : Type 0 where
  pub runs : Runs n xs w
  pub is_up : w.e.connected ≡ true
  pub has_db : w.e.db ≡ true
  pub seen : trace w.acts ≡ h

busy_of : (w : World) → w.e.current ≡ State.query → is_idle w.e.current ≡ false
busy_of w e = ap is_idle e

-- A query on a busy connection goes to its queue, with a new id.
pub query-queued :
    (env : Env) (p : Option ℕ) (q : Bytes) (w : World)
    → w.e.connected ≡ true
    → w.e.db ≡ true
    → is_idle w.e.current ≡ false
    → (query env p (some q) w).0 ≡ (queue_query p q (record w { esql_id = next_id w.esql_id })).0
unfolding query issue_query
query-queued env p q w c d i =
    ap (λ (r : World × ℕ). r.0)
      (if_true w.e.connected _ _ c ∙ if_true w.e.db _ _ d ∙ if_false (is_idle w.e.current) _ _ i)

queue_query-Working :
    (q : Bytes) (n : ℕ) (xs : List (Bytes × ℕ)) (h : List Seen) (w : World)
    → Working n xs h w
    → Working n (xs ++ (q, w.esql_id) ∷ []) h (queue_query none q w).0
queue_query-Working q n xs h w g = record {
  runs = record {
    is_current = unfold queue_query in g.runs.is_current;
    has_id = unfold queue_query in g.runs.has_id;
    waits =
        subst (Holds (queue_query none q w).0.e) (sym (texts-append xs ((q, w.esql_id) ∷ [])))
          (queue_query-Holds none q w (texts xs) g.runs.waits);
    alone = unfold queue_query in g.runs.alone;
  };
  is_up = unfold queue_query in g.is_up;
  has_db = unfold queue_query in g.has_db;
  seen = unfold queue_query in g.seen;
}

query-Working :
    (env : Env) (q : Bytes) (n : ℕ) (xs : List (Bytes × ℕ)) (h : List Seen) (w : World)
    → Working n xs h w
    → Working n (xs ++ (q, next_id w.esql_id) ∷ []) h (query env none (some q) w).0
query-Working env q n xs h w g =
    subst (Working n (xs ++ (q, next_id w.esql_id) ∷ []) h)
      (sym (query-queued env none q w g.is_up g.has_db (busy_of w g.runs.is_current)))
      (queue_query-Working q n xs h (record w { esql_id = next_id w.esql_id })
        (record {
          runs = record {
            is_current = g.runs.is_current;
            has_id = g.runs.has_id;
            waits = g.runs.waits;
            alone = g.runs.alone;
          };
          is_up = g.is_up;
          has_db = g.has_db;
          seen = g.seen;
        }))

query-esql_id :
    (env : Env) (q : Bytes) (n : ℕ) (xs : List (Bytes × ℕ)) (h : List Seen) (w : World)
    → Working n xs h w
    → (query env none (some q) w).0.esql_id ≡ next_id w.esql_id
query-esql_id env q n xs h w g =
    ap (λ (v : World). v.esql_id)
      (query-queued env none q w g.is_up g.has_db (busy_of w g.runs.is_current))
    ∙ unfold queue_query in refl

pub ask_all-Working :
    (env : Env) (qs : List Bytes) (n : ℕ) (xs : List (Bytes × ℕ)) (h : List Seen) (w : World)
    → Working n xs h w
    → Working n (xs ++ numbered w.esql_id qs) h (ask_all env qs w)
ask_all-Working env [] n xs h w g = subst (λ l. Working n l h w) (sym (append-nil xs)) g
ask_all-Working env (q ∷ qs) n xs h w g =
    let v = (query env none (some q) w).0 in
    let rest =
      ask_all-Working env qs n (xs ++ (q, next_id w.esql_id) ∷ []) h v
        (query-Working env q n xs h w g) in
    subst (λ l. Working n l h (ask_all env qs v))
      (ap (λ k. (xs ++ (q, next_id w.esql_id) ∷ []) ++ numbered k qs)
          (query-esql_id env q n xs h w g)
        ∙ append_assoc xs ((q, next_id w.esql_id) ∷ []) (numbered (next_id w.esql_id) qs))
      rest

pub set_job-Working :
    (b : Bool) (n : ℕ) (xs : List (Bytes × ℕ)) (h : List Seen) (w : World)
    → Working n xs h w
    → Working n xs h (set_e (record (w.e) { fd_job = b }) w)
set_job-Working b n xs h w g = record {
  runs = record {
    is_current = g.runs.is_current;
    has_id = g.runs.has_id;
    waits = record {
      funcs = g.runs.waits.funcs;
      params = g.runs.waits.params;
      ids = g.runs.waits.ids;
    };
    alone = g.runs.alone;
  };
  is_up = g.is_up;
  has_db = g.has_db;
  seen = g.seen;
}

pub unseen-Working :
    (a : Act) (n : ℕ) (xs : List (Bytes × ℕ)) (h : List Seen) (w : World)
    → trace (a ∷ w.acts) ≡ trace w.acts
    → Working n xs h w
    → Working n xs h (act a w)
unseen-Working a n xs h w e g = record {
  runs = record {
    is_current = g.runs.is_current;
    has_id = g.runs.has_id;
    waits = g.runs.waits;
    alone = g.runs.alone;
  };
  is_up = g.is_up;
  has_db = g.has_db;
  seen = e ∙ g.seen;
}

pub add_job-Working :
    (n : ℕ) (xs : List (Bytes × ℕ)) (h : List Seen) (w : World)
    → Working n xs h w
    → Working n xs h (add_job w)
add_job-Working n xs h w g =
    if_cases (Working n xs h) w.e.fd_job w _ g
      (unseen-Working job_add n xs h _ refl (set_job-Working true n xs h w g))
