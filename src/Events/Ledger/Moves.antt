-- ===== src/Events/Ledger/Moves.antt =====
-- The books of the queries where a pool moves one from a member to another.
use esskyuehl.Prelude.{
  ℕ, ◌+◌, ◌≡◌, refl, subst, Bool, List, [], ◌∷◌, Option, none, some, arith, Bytes, length,
  length-append, sum_of,
}
use esskyuehl.State.{Conn, World, SetFunc, set_database, run_query, CallId}
use esskyuehl.Events.{Taken, take_query, take_head_query, give_query, rebalance, text_of}
use esskyuehl.Events.Rebalance.{
  TakesFirst, here, there, Rebalanced, from_before, from_after, nothing, rebalance-Rebalanced,
}
use esskyuehl.Events.Ledger.{Paired, AllPaired, weight, waiting, weight-run, Ledger}

module _ (f : Bytes → ℕ) where
  -- A query that is taken out of a queue is all that the queue loses.
  abbrev Gives : ℕ → Option Taken → Type 0
  Gives n none = Unit
  Gives n (some t) = (n ≡ f (text_of t.param) + waiting f t.rest) × Paired t.rest

  take_query-Gives :
      (fs : List SetFunc) (ps : List (Option Bytes)) (ids : List CallId) (c : Conn)
      → length fs ≡ length ps
      → Gives (weight f fs ps) (take_query fs ps ids c)
  unfolding take_query
  take_query-Gives (run_query ∷ fs) (p ∷ ps) (i ∷ ids) c h = (refl, omega (arith, h))
  take_query-Gives [] ps ids c h = tt
  take_query-Gives (set_database ∷ fs) ps ids c h = tt
  take_query-Gives (run_query ∷ fs) [] ids c h = tt
  take_query-Gives (run_query ∷ fs) (p ∷ ps) [] c h = tt

  take_head-waiting :
      (c : Conn) (t : Taken)
      → take_head_query c ≡ some t
      → Paired c
      → (waiting f c ≡ f (text_of t.param) + waiting f t.rest) × Paired t.rest
  unfolding take_head_query
  take_head-waiting c t e h =
      subst (Gives (waiting f c)) e
        (take_query-Gives c.backend_set_funcs c.backend_set_params c.backend_ids c h)

  TakesFirst-waiting :
      {cs cs' : List Conn} {t : Taken}
      → TakesFirst cs cs' t
      → AllPaired cs
      → (sum_of (waiting f) cs ≡ f (text_of t.param) + sum_of (waiting f) cs') × AllPaired cs'
  TakesFirst-waiting (here {c} {cs} {t} e) a =
      let (m, p) = take_head-waiting c t e a.0 in (omega (arith, m), (p, a.1))
  TakesFirst-waiting (there {c} n s) a =
      let (m, p) = TakesFirst-waiting s a.1 in (omega (arith, m), (a.0, p))

  give_query-waiting :
      (t : Taken) (c : Conn)
      → Paired c
      → (waiting f (give_query t c) ≡ waiting f c + f (text_of t.param)) × Paired (give_query t c)
  unfolding give_query
  give_query-waiting t c h = (
    weight-run f c.backend_set_funcs c.backend_set_params t.param h,
    omega (
      arith,
      h,
      length-append c.backend_set_funcs (run_query ∷ []),
      length-append c.backend_set_params (t.param ∷ []),
    ),
  )

  Rebalanced-Ledger :
      (n : ℕ) {w : World} {r : World × Bool} → Rebalanced w r → Ledger f n w → Ledger f n r.0
  Rebalanced-Ledger n {w} (from_before {t = t} s) l =
      let (m, a) = TakesFirst-waiting s l.paired_before in
      let (k, p) = give_query-waiting t w.e l.paired in
      record {
        balance = omega (arith, l.balance, m, k);
        paired_before = a;
        paired = p;
        paired_after = l.paired_after;
      }
  Rebalanced-Ledger n {w} (from_after {t = t} b s) l =
      let (m, a) = TakesFirst-waiting s l.paired_after in
      let (k, p) = give_query-waiting t w.e l.paired in
      record {
        balance = omega (arith, l.balance, m, k);
        paired_before = l.paired_before;
        paired = p;
        paired_after = a;
      }
  Rebalanced-Ledger n (nothing b a) l = l

  pub rebalance-Ledger : (n : ℕ) (w : World) → Ledger f n w → Ledger f n (rebalance w).0
  rebalance-Ledger n w l = Rebalanced-Ledger n (rebalance-Rebalanced w) l
