-- ===== src/Events/Ledger/Asked.antt =====
-- The books of the queries where the user asks for one: `esql_query` and `esql_query_args`.
use esskyuehl.Prelude.{
  ℤ, ltb, ℕ, ◌+◌, ◌≡◌, refl, subst, Bool, true, false, List, [], ◌∷◌, Option, none, some, arith,
  if◌then◌else◌, Bytes, length, length-append, sum_of,
}
use esskyuehl.State.{World, Env, if_cases, is_idle, run_query}
use esskyuehl.Escape.Format.{Arg, Escaped, text, null, undefined, stuck, query_escape}
use esskyuehl.Query.{
  query, query_vargs, query_callback_set, issue_query, issue_escaped, start_query, queue_query,
  send_query, next_id,
}
use esskyuehl.Connect.{is_positive, connect_timeout_set}
use esskyuehl.Events.Sound.{pick}
use esskyuehl.Events.Ledger.{Ledger, Kept-Ledger, booked, weight-run}

-- The queries that are asked for: those made on a connected object.
abbrev taken_on : World → List Bytes → List Bytes
taken_on w qs = if w.e.connected then (if w.e.db then qs else []) else []

abbrev texts_of : Escaped → List Bytes
texts_of (text q n) = q ∷ []
texts_of null = []
texts_of undefined = []
texts_of stuck = []

abbrev pub asked_query : World → Option Bytes → List Bytes
asked_query w none = []
asked_query w (some q) = taken_on w (q ∷ [])

abbrev pub asked_args : Env → World → Option Bytes → List Arg → List Bytes
asked_args env w none args = []
asked_args env w (some fmt) args =
    taken_on w (texts_of (query_escape env.printer (env.backslashes w.acts) fmt args))

module _ (f : Bytes → ℕ) (env : Env) (n : ℕ) where
  start_query-Ledger :
      (p : Option ℕ) (q : Bytes) (k : ℕ) (w : World)
      → Ledger f n w
      → Ledger f (n + f q) (start_query env p q k w).0
  unfolding start_query send_query
  start_query-Ledger p q k w l =
      pick (λ r. Ledger f (n + f q) r.0) _ _ _
        (Kept-Ledger f (n + f q) v _ (refl, refl, refl, refl, refl) m)
        (if_cases (Ledger f (n + f q)) w.e.fd_job _ _
          (Kept-Ledger f (n + f q) v _ (refl, refl, refl, refl, refl) m)
          (Kept-Ledger f (n + f q) v _ (refl, refl, refl, refl, refl) m))
    where
      v : World
      v = send_query env q k w

      m : Ledger f (n + f q) v
      m = booked f n (f q) w v refl refl l.paired (omega arith) l

  queue_query-Ledger :
      (p : Option ℕ) (q : Bytes) (w : World)
      → Ledger f n w
      → Ledger f (n + f q) (queue_query p q w).0
  unfolding queue_query
  queue_query-Ledger p q w l =
      booked f n (f q) w _ refl refl
        (omega (
          arith,
          l.paired,
          length-append w.e.backend_set_funcs (run_query ∷ []),
          length-append w.e.backend_set_params (some q ∷ []),
        ))
        (omega (arith, weight-run f w.e.backend_set_funcs w.e.backend_set_params (some q) l.paired))
        l

  issue_query-Ledger :
      (p : Option ℕ) (q : Bytes) (k : ℕ) (w : World)
      → Ledger f n w
      → Ledger f (n + f q) (issue_query env p q k w).0
  unfolding issue_query
  issue_query-Ledger p q k w l =
      pick (λ r. Ledger f (n + f q) r.0) (is_idle w.e.current) (start_query env p q k v)
        (queue_query p q v) (start_query-Ledger p q k v m) (queue_query-Ledger p q v m)
    where
      v : World
      v = record w { esql_id = next_id w.esql_id }

      m : Ledger f n v
      m = Kept-Ledger f n w v (refl, refl, refl, refl, refl) l

  -- The books are the same, with another way to write what they amount to.
  also : (k m : ℕ) (w : World) → m ≡ k → Ledger f m w → Ledger f k w
  also k m w e l = subst (λ j. Ledger f j w) e l

  if_taken :
      (b c : Bool) (qs : List Bytes) (r : World × ℕ) (w : World)
      → Ledger f n w
      → Ledger f (n + sum_of f qs) r.0
      → Ledger f
          (n + sum_of f (if b then (if c then qs else []) else []))
          (if b then (if c then r else (w, 0)) else (w, 0)).0
  if_taken true true qs r w l m = m
  if_taken true false qs r w l m = also (n + 0) n w (omega arith) l
  if_taken false c qs r w l m = also (n + 0) n w (omega arith) l

  issue_escaped-Ledger :
      (p : Option ℕ) (r : Escaped) (w : World)
      → Ledger f n w
      → Ledger f (n + sum_of f (texts_of r)) (issue_escaped env p r w).0
  unfolding issue_escaped
  issue_escaped-Ledger p (text q k) w l =
      also (n + (f q + 0)) (n + f q) _ (omega arith) (issue_query-Ledger p q k w l)
  issue_escaped-Ledger p null w l = also (n + 0) n w (omega arith) l
  issue_escaped-Ledger p undefined w l = also (n + 0) n w (omega arith) l
  issue_escaped-Ledger p stuck w l = also (n + 0) n w (omega arith) l

  pub query-Ledger :
      (p : Option ℕ) (o : Option Bytes) (w : World)
      → Ledger f n w
      → Ledger f (n + sum_of f (asked_query w o)) (query env p o w).0
  unfolding query
  query-Ledger p none w l = also (n + 0) n w (omega arith) l
  query-Ledger p (some q) w l =
      if_taken w.e.connected w.e.db (q ∷ []) _ w l
        (also (n + (f q + 0)) (n + f q) _ (omega arith) (issue_query-Ledger p q (length q) w l))

  pub query_vargs-Ledger :
      (p : Option ℕ) (o : Option Bytes) (args : List Arg) (w : World)
      → Ledger f n w
      → Ledger f (n + sum_of f (asked_args env w o args)) (query_vargs env p o args w).0
  unfolding query_vargs
  query_vargs-Ledger p none args w l = also (n + 0) n w (omega arith) l
  query_vargs-Ledger p (some fmt) args w l =
      if_taken w.e.connected w.e.db _ _ w l (issue_escaped-Ledger p _ w l)

  pub query_callback_set-Ledger :
      (id : ℕ) (cb : Option ℕ) (w : World)
      → Ledger f n w
      → Ledger f n (query_callback_set id cb w).0
  unfolding query_callback_set
  query_callback_set-Ledger id none w l = l
  query_callback_set-Ledger id (some cb) w l =
      pick (λ r. Ledger f n r.0) (ltb id 1) (w, false) _ l
        (Kept-Ledger f n w _ (refl, refl, refl, refl, refl) l)

  pub connect_timeout_set-Ledger :
      (t : ℤ) (w : World) → Ledger f n w → Ledger f n (connect_timeout_set t w)
  unfolding connect_timeout_set
  connect_timeout_set-Ledger t w l =
      if_cases (Ledger f n) (is_positive t) _ _
        (if_cases (Ledger f n) w.e.timeout_timer _ _
          (Kept-Ledger f n w _ (refl, refl, refl, refl, refl) l)
          (Kept-Ledger f n w _ (refl, refl, refl, refl, refl) l))
        (Kept-Ledger f n w _ (refl, refl, refl, refl, refl) l)
