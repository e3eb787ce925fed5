-- ===== src/Events/Rebalance/Queues.antt =====
-- The queues of a pool behind `esql_pool_rebalance`.
use mathlib.Core.List.{map-append}
use esskyuehl.Prelude.{
  ℕ, ◌≡◌, refl, ap, sym, ◌∙◌, subst, ◌⊎◌, inl, inr, Bool, true, false, List, [], ◌∷◌, ◌++◌, map,
  Option, some, Bytes, All,
}
use esskyuehl.State.{Conn, World, SetFunc, run_query, CallId, query_id}
use esskyuehl.Events.{Taken, take_query, take_head_query, give_query, rebalance}
use esskyuehl.Events.Fifo.{Pending, database, text, func_of, param_of, id_of, Holds}
use esskyuehl.Events.Rebalance.{
  NoQuery, TakesFirst, here, there, Rebalanced, from_before, from_after, nothing,
  rebalance-Rebalanced,
}

-- The queues of a list of members.
abbrev pub HoldsAll : List Conn → List (List Pending) → Type 0
HoldsAll [] [] = Unit {0}
HoldsAll [] (xs ∷ xss) = ⊥
HoldsAll (c ∷ cs) [] = ⊥
HoldsAll (c ∷ cs) (xs ∷ xss) = Holds c xs × HoldsAll cs xss

-- No query stands at the head of the queue.
abbrev pub NoHead : List Pending → Type 0
NoHead [] = Unit
NoHead (database name ∷ xs) = Unit
NoHead (text q n ∷ xs) = ⊥

-- Taking a query out of the queues `xss` leaves `yss`: it stood at the head of a queue, which is
-- left with its other calls, and no queue in front of that one had a query at its head. All other
-- queues are as they were.
abbrev pub Moved : List (List Pending) → List (List Pending) → Bytes → ℕ → Type 0
Moved xss yss q n =
    (front : List (List Pending)) × (xs : List Pending) × (back : List (List Pending)) × (xss
      ≡ front ++ (text q n ∷ xs) ∷ back)
    × (yss ≡ front ++ xs ∷ back)
    × All NoHead front

take_head_query_nil : (c : Conn) → Holds c [] → NoQuery c
unfolding take_head_query take_query
take_head_query_nil c h = rw (h.funcs)

take_head_query_database :
    (c : Conn) (name : Bytes) (xs : List Pending) → Holds c (database name ∷ xs) → NoQuery c
unfolding take_head_query take_query
take_head_query_database c name xs h = rw (h.funcs)

take_head_query_text :
    (c : Conn) (q : Bytes) (n : ℕ) (xs : List Pending)
    → Holds c (text q n ∷ xs)
    → (t : Taken) × (take_head_query c ≡ some t)
      × Holds t.rest xs
      × (t.param ≡ some q)
      × (t.id ≡ query_id n)
unfolding take_head_query take_query
take_head_query_text c q n xs h = (
  record {
    rest = record c {
      backend_set_funcs = map func_of xs;
      backend_set_params = map param_of xs;
      backend_ids = map id_of xs;
    };
    param = some q;
    id = query_id n;
  },
  ap₃ take_query h.funcs h.params h.ids c,
  record { funcs = refl; params = refl; ids = refl },
  refl,
  refl,
)
  where
    ap₃ :
        (f : List SetFunc → List (Option Bytes) → List CallId → Conn → Option Taken)
        {fs fs' : List SetFunc} {ps ps' : List (Option Bytes)} {is is' : List CallId}
        → fs ≡ fs'
        → ps ≡ ps'
        → is ≡ is'
        → (d : Conn) → f fs ps is d ≡ f fs' ps' is' d
    ap₃ f a b e d = λ i. f (a i) (b i) (e i) d

Moved-cons :
    (q : Bytes) (n : ℕ) (xs : List Pending) (xss yss : List (List Pending))
    → NoHead xs
    → Moved xss yss q n
    → Moved (xs ∷ xss) (xs ∷ yss) q n
Moved-cons q n xs xss yss h (front, ys, back, a, b, none_there) =
    (xs ∷ front, ys, back, ap (λ l. xs ∷ l) a, ap (λ l. xs ∷ l) b, (h, none_there))

NoQuery-NoHead : (c : Conn) (xs : List Pending) → NoQuery c → Holds c xs → NoHead xs
NoQuery-NoHead c [] n h = tt
NoQuery-NoHead c (database name ∷ xs) n h = tt
NoQuery-NoHead c (text q i ∷ xs) n h =
    let (t, found, a, b, d) = take_head_query_text c q i xs h in cc (n, found)

NoQuery-NoHeads :
    (cs : List Conn) (xss : List (List Pending)) → All NoQuery cs → HoldsAll cs xss → All NoHead xss
NoQuery-NoHeads [] [] n h = tt
NoQuery-NoHeads [] (xs ∷ xss) n h = absurd h
NoQuery-NoHeads (c ∷ cs) [] n h = absurd h
NoQuery-NoHeads (c ∷ cs) (xs ∷ xss) n h =
    (NoQuery-NoHead c xs n.0 h.0, NoQuery-NoHeads cs xss n.1 h.1)

-- The queues behind a take, with the query that it took.
pub record Took (cs' : List Conn) (t : Taken) (xss : List (List Pending)) : Type 0 where
  pub q : Bytes
  pub n : ℕ
  pub left : List (List Pending)
  pub holds : HoldsAll cs' left
  pub has_text : t.param ≡ some q
  pub has_id : t.id ≡ query_id n
  pub moved : Moved xss left q n

Took-here :
    (c : Conn) (cs : List Conn) (t : Taken) (xs : List Pending) (xss : List (List Pending))
    → take_head_query c ≡ some t
    → Holds c xs
    → HoldsAll cs xss
    → Took (t.rest ∷ cs) t (xs ∷ xss)
Took-here c cs t [] xss e h hs = cc (take_head_query_nil c h)
Took-here c cs t (database name ∷ xs) xss e h hs = cc (take_head_query_database c name xs h)
Took-here c cs t (text q n ∷ xs) xss e h hs =
    let (u, found, held, p, i) = take_head_query_text c q n xs h in
    let same : u ≡ t = cc (found, e) in
    record {
      q = q;
      n = n;
      left = xs ∷ xss;
      holds = (subst (λ s. Holds s.rest xs) same held, hs);
      has_text = ap (λ (s : Taken). s.param) (sym same) ∙ p;
      has_id = ap (λ (s : Taken). s.id) (sym same) ∙ i;
      moved = ([], xs, xss, refl, refl, tt);
    }

TakesFirst-Took :
    {cs cs' : List Conn} {t : Taken} (xss : List (List Pending))
    → TakesFirst cs cs' t
    → HoldsAll cs xss
    → Took cs' t xss
TakesFirst-Took [] (here e) h = absurd h
TakesFirst-Took [] (there n s) h = absurd h
TakesFirst-Took (xs ∷ xss) (here {c = c} {cs = cs} {t = t} e) h = Took-here c cs t xs xss e h.0 h.1
TakesFirst-Took (xs ∷ xss) (there {c = c} n s) h =
    let k = TakesFirst-Took xss s h.1 in
    record {
      q = k.q;
      n = k.n;
      left = xs ∷ k.left;
      holds = (h.0, k.holds);
      has_text = k.has_text;
      has_id = k.has_id;
      moved = Moved-cons k.q k.n xs xss k.left (NoQuery-NoHead c xs n h.0) k.moved;
    }

give_query-Holds :
    (t : Taken) (c : Conn) (q : Bytes) (n : ℕ) (ys : List Pending)
    → t.param ≡ some q
    → t.id ≡ query_id n
    → Holds c ys
    → Holds (give_query t c) (ys ++ text q n ∷ [])
unfolding give_query
give_query-Holds t c q n ys p i h = record {
  funcs = rw (map-append func_of ys) (ap (λ l. l ++ run_query ∷ []) h.funcs);
  params = rw (map-append param_of ys, p) (ap (λ l. l ++ some q ∷ []) h.params);
  ids = rw (map-append id_of ys, i) (ap (λ l. l ++ query_id n ∷ []) h.ids);
}

-- The state of the queues behind a rebalancing that found a query.
pub record Balanced (v : World) (xss zss : List (List Pending)) (ys : List Pending) : Type 0 where
  pub q : Bytes
  pub n : ℕ
  pub before_left : List (List Pending)
  pub after_left : List (List Pending)
  pub before_holds : HoldsAll v.before before_left
  pub after_holds : HoldsAll v.after after_left
  pub gained : Holds v.e (ys ++ text q n ∷ [])
  pub moved :
      (Moved xss before_left q n × (after_left ≡ zss))
      ⊎ (Moved zss after_left q n × (before_left ≡ xss) × All NoHead xss)

-- What a rebalancing comes to: no queue has a query at its head and nothing changes, or one query
-- changes its queue.
abbrev pub Outcome :
    World → World × Bool → List (List Pending) → List (List Pending) → List Pending → Type 0
Outcome w r xss zss ys =
    ((r ≡ (w, false)) × All NoHead xss × All NoHead zss) ⊎ ((r.1 ≡ true) × Balanced r.0 xss zss ys)

Rebalanced-Balanced :
    {w : World} {r : World × Bool} (xss zss : List (List Pending)) (ys : List Pending)
    → Rebalanced w r
    → HoldsAll w.before xss
    → HoldsAll w.after zss
    → Holds w.e ys
    → Outcome w r xss zss ys
Rebalanced-Balanced {w} xss zss ys (from_before {t = t} s) b a h =
    let k = TakesFirst-Took xss s b in
    inr (
      refl,
      record {
        q = k.q;
        n = k.n;
        before_left = k.left;
        after_left = zss;
        before_holds = k.holds;
        after_holds = a;
        gained = give_query-Holds t w.e k.q k.n ys k.has_text k.has_id h;
        moved = inl (k.moved, refl);
      },
    )
Rebalanced-Balanced {w} xss zss ys (from_after {t = t} nb s) b a h =
    let k = TakesFirst-Took zss s a in
    inr (
      refl,
      record {
        q = k.q;
        n = k.n;
        before_left = xss;
        after_left = k.left;
        before_holds = b;
        after_holds = k.holds;
        gained = give_query-Holds t w.e k.q k.n ys k.has_text k.has_id h;
        moved = inr (k.moved, refl, NoQuery-NoHeads w.before xss nb b);
      },
    )
Rebalanced-Balanced {w} xss zss ys (nothing nb na) b a h =
    inl (refl, NoQuery-NoHeads w.before xss nb b, NoQuery-NoHeads w.after zss na a)

-- A rebalancing takes the query at the head of the first other queue that has one there, in the
-- order of the pool's list, and puts it, with its text and id, at the end of the queue in hand; all
-- other calls stay in their queues and in their places. It answers false only where no other queue
-- has a query at its head, and then changes nothing.
pub rebalance-Balanced :
    (w : World) (xss zss : List (List Pending)) (ys : List Pending)
    → HoldsAll w.before xss
    → HoldsAll w.after zss
    → Holds w.e ys
    → Outcome w (rebalance w) xss zss ys
rebalance-Balanced w xss zss ys = Rebalanced-Balanced xss zss ys (rebalance-Rebalanced w)
