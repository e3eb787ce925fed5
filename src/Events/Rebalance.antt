-- ===== src/Events/Rebalance.antt =====
-- `esql_pool_rebalance`: a member that is idle takes over the first query that waits at the head of
-- another member's queue.
pub mod Queues
use esskyuehl.Prelude.{
  ℕ, suc, ◌+◌, ◌≡◌, refl, Bool, true, false, List, [], ◌∷◌, Option, none, some, arith, Bytes,
  length, length-append, sum_of, All,
}
use esskyuehl.State.{Conn, World, SetFunc, set_database, run_query, CallId}
use esskyuehl.Events.{
  Taken, take_query, take_head_query, first_or, take_first_query, give_query, take_from_before,
  take_from_after, rebalance,
}

-- No query stands at the head of the member's queue.
abbrev pub NoQuery : Conn → Type 0
NoQuery c = take_head_query c ≡ none

-- `t` comes from the first member of `cs` with a query at the head; `cs'` is the list without it.
pub data TakesFirst : List Conn → List Conn → Taken → Type 0 where
  here :
      {c : Conn} {cs : List Conn} {t : Taken}
      → take_head_query c ≡ some t
      → TakesFirst (c ∷ cs) (t.rest ∷ cs) t
  there :
      {c : Conn} {cs cs' : List Conn} {t : Taken}
      → NoQuery c
      → TakesFirst cs cs' t
      → TakesFirst (c ∷ cs) (c ∷ cs') t

pub data Found (cs : List Conn) : Option (List Conn × Taken) → Type 0 where
  nobody : All NoQuery cs → Found cs none
  somebody : {cs' : List Conn} {t : Taken} → TakesFirst cs cs' t → Found cs (some (cs', t))

first_or-Found :
    (c : Conn) (cs : List Conn) (o : Option Taken) (later : Option (List Conn × Taken))
    → take_head_query c ≡ o
    → Found cs later
    → Found (c ∷ cs) (first_or o c cs later)
first_or-Found c cs (some t) later e f = somebody (here e)
first_or-Found c cs none none e (nobody h) = nobody (e, h)
first_or-Found c cs none (some (cs', t)) e (somebody h) = somebody (there e h)

take_first_query-Found : (cs : List Conn) → Found cs (take_first_query cs)
unfolding take_first_query
take_first_query-Found [] = nobody tt
take_first_query-Found (c ∷ cs) =
    first_or-Found c cs (take_head_query c) (take_first_query cs) refl (take_first_query-Found cs)

-- All that `esql_pool_rebalance` may do.
pub data Rebalanced (w : World) : World × Bool → Type 0 where
  from_before :
      {cs : List Conn} {t : Taken}
      → TakesFirst w.before cs t
      → Rebalanced w (record w { before = cs; e = give_query t w.e }, true)
  from_after :
      {cs : List Conn} {t : Taken}
      → All NoQuery w.before
      → TakesFirst w.after cs t
      → Rebalanced w (record w { after = cs; e = give_query t w.e }, true)
  nothing : All NoQuery w.before → All NoQuery w.after → Rebalanced w (w, false)

after-Rebalanced :
    (w : World) (o : Option (List Conn × Taken))
    → All NoQuery w.before
    → Found w.after o
    → Rebalanced w (take_from_after w o)
after-Rebalanced w none b (nobody a) = nothing b a
after-Rebalanced w (some (cs, t)) b (somebody a) = from_after b a

before-Rebalanced :
    (w : World) (o : Option (List Conn × Taken))
    → Found w.before o
    → Rebalanced w (take_from_before w o)
before-Rebalanced w none (nobody b) = after-Rebalanced w _ b (take_first_query-Found w.after)
before-Rebalanced w (some (cs, t)) (somebody b) = from_before b

-- The member takes the first query that waits at the head of a queue, in the order of the pool's
-- list, and changes nothing, with the result false, only if there is none.
pub rebalance-Rebalanced : (w : World) → Rebalanced w (rebalance w)
unfolding rebalance
rebalance-Rebalanced w = before-Rebalanced w _ (take_first_query-Found w.before)

-- The number of calls that wait on a connection, and on all of them.
abbrev pub calls : Conn → ℕ
calls c = length c.backend_set_funcs

abbrev pub all_calls : World → ℕ
all_calls w = sum_of calls w.before + calls w.e + sum_of calls w.after

take_query-calls :
    (fs : List SetFunc) (ps : List (Option Bytes)) (is : List CallId) (c : Conn) (t : Taken)
    → take_query fs ps is c ≡ some t
    → length fs ≡ suc (calls t.rest)
unfolding take_query
take_query-calls (run_query ∷ fs) (p ∷ ps) (i ∷ is) c t e = ground arith
take_query-calls (run_query ∷ fs) (p ∷ ps) [] c t e = cc
take_query-calls (run_query ∷ fs) [] is c t e = cc
take_query-calls (set_database ∷ fs) ps is c t e = cc
take_query-calls [] ps is c t e = cc

take_head_query-calls :
    (c : Conn) (t : Taken) → take_head_query c ≡ some t → calls c ≡ suc (calls t.rest)
unfolding take_head_query
take_head_query-calls c t e = take_query-calls c.backend_set_funcs _ _ c t e

TakesFirst-calls :
    {cs cs' : List Conn} {t : Taken}
    → TakesFirst cs cs' t
    → sum_of calls cs ≡ suc (sum_of calls cs')
TakesFirst-calls (here {c = c} {t = t} e) = omega (arith, take_head_query-calls c t e)
TakesFirst-calls (there n h) = omega (arith, TakesFirst-calls h)

give_query-calls : (t : Taken) (c : Conn) → calls (give_query t c) ≡ suc (calls c)
unfolding give_query
give_query-calls t c = omega (arith, length-append c.backend_set_funcs (run_query ∷ []))

Rebalanced-all_calls : {w : World} {r : World × Bool} → Rebalanced w r → all_calls r.0 ≡ all_calls w
Rebalanced-all_calls {w} (from_before {t = t} h) =
    omega (arith, TakesFirst-calls h, give_query-calls t w.e)
Rebalanced-all_calls {w} (from_after {t = t} b h) =
    omega (arith, TakesFirst-calls h, give_query-calls t w.e)
Rebalanced-all_calls (nothing b a) = refl

-- Rebalancing neither loses nor repeats a call of the pool.
pub rebalance-all_calls : (w : World) → all_calls (rebalance w).0 ≡ all_calls w
rebalance-all_calls w = Rebalanced-all_calls (rebalance-Rebalanced w)

-- What a rebalancing leaves alone in the connection in hand.
Rebalanced-e :
    {w : World} {r : World × Bool}
    → Rebalanced w r
    → (r.0.e.connected ≡ w.e.connected) × (r.0.e.current ≡ w.e.current)
unfolding give_query
Rebalanced-e (from_before s) = (refl, refl)
Rebalanced-e (from_after b s) = (refl, refl)
Rebalanced-e (nothing b a) = (refl, refl)

pub rebalance-e :
    (w : World)
    → ((rebalance w).0.e.connected ≡ w.e.connected) × ((rebalance w).0.e.current ≡ w.e.current)
rebalance-e w = Rebalanced-e (rebalance-Rebalanced w)
