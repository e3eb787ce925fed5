-- ===== src/Pool/Free.antt =====
-- `esql_pool_free`: the end of a pool and of its members.
use esskyuehl.Prelude.{
  suc, ◌≡◌, ◌≢◌, ◌<◌, refl, ap, sym, ◌∙◌, Bool, true, false, List, [], ◌∷◌, ◌++◌, append_assoc,
  append-nil, arith, ◌==◌, if◌then◌else◌, u32_mod,
}
use esskyuehl.State.{
  Conn, World, Env, Act, event_add, on_pool, members, set_e, target, Target, on_conn,
}
use esskyuehl.State
use esskyuehl.Connect.{disconnect, post}
use esskyuehl.Object.{Fate, alive, gone, shut_down, free, free_pool}

-- `esql_free` on a member: the world behind it, and whether the member's memory was returned.
unfoldable pub free_member : Env → Bool → World → World × Bool
unfolding disconnect
free_member env modules w =
    if w.e.event_count == 0
    then (if modules then shut_down env w else w, true)
    else (set_e (record (w.e) { dead = true }) w, false)

-- The loop over the members `cs`, with the members that are still there from before them.
unfoldable pub free_each : Env → Bool → List Conn → List Conn → World → List Conn × World
unfolding free_member
free_each env modules kept [] w = (kept, w)
free_each env modules kept (c ∷ cs) w =
    let r = free_member env modules (record w { before = kept; e = c; after = cs }) in
    free_each env modules (if r.1 then kept else kept ++ r.0.e ∷ []) cs r.0

-- `esql_pool_free`: the members whose memory is not returned, and the world, whose pool is gone.
unfoldable pub pool_free : Env → Bool → World → List Conn × World
unfolding free_each
pool_free env modules w = free_each env modules [] (members w) w

-- The members with events that are still counted, marked.
abbrev pub left_dead : List Conn → List Conn
left_dead [] = []
left_dead (c ∷ cs) =
    let rest = left_dead cs in if c.event_count == 0 then rest else record c { dead = true } ∷ rest

abbrev fate_of : World × Bool → Fate
fate_of (w, true) = gone w.acts
fate_of (w, false) = alive w

-- It is `esql_free` that is called on each member.
free_member-free :
    (env : Env) (modules : Bool) (w : World)
    → fate_of (free_member env modules w) ≡ free env modules w
unfolding free_member free
free_member-free env modules w = by_test (w.e.event_count == 0)
  where
    by_test :
        (b : Bool)
        → fate_of (
            if b
            then (if modules then shut_down env w else w, true)
            else (set_e (record (w.e) { dead = true }) w, false))
          ≡ (if b
              then gone (if modules then shut_down env w else w).acts
              else alive (set_e (record (w.e) { dead = true }) w))
    by_test true = refl
    by_test false = refl

abbrev marked : World → World
marked w = set_e (record (w.e) { dead = true }) w

kept_on :
    (b : Bool) (x w : World) (kept rest : List Conn)
    → let r : World × Bool = if b then (x, true) else (marked w, false) in
      (if r.1 then kept else kept ++ r.0.e ∷ []) ++ rest
      ≡ kept ++ (if b then rest else record (w.e) { dead = true } ∷ rest)
kept_on true x w kept rest = refl
kept_on false x w kept rest = append_assoc kept (record (w.e) { dead = true } ∷ []) rest

free_each-left_dead :
    (env : Env) (modules : Bool) (kept cs : List Conn) (w : World)
    → (free_each env modules kept cs w).0 ≡ kept ++ left_dead cs
unfolding free_each
free_each-left_dead env modules kept [] w = sym (append-nil kept)
free_each-left_dead env modules kept (c ∷ cs) w =
    free_each-left_dead env modules (if r.1 then kept else kept ++ r.0.e ∷ []) cs r.0
    ∙ unfold free_member in
      kept_on (c.event_count == 0) (if modules then shut_down env v else v) v kept (left_dead cs)
  where
    v : World
    v = record w { before = kept; e = c; after = cs }

    r : World × Bool
    r = free_member env modules v

-- `esql_pool_free` returns the memory of just the members without counted events, and leaves the
-- others, in order and marked for an end of their events.
pub pool_free-left_dead :
    (env : Env) (modules : Bool) (w : World) → (pool_free env modules w).0 ≡ left_dead (members w)
unfolding pool_free
pool_free-left_dead env modules w = free_each-left_dead env modules [] (members w) w

cons_if :
    (b : Bool) (x d : Conn) (us vs rest : List Conn)
    → rest ≡ us ++ d ∷ vs
    → (if b then rest else x ∷ rest) ≡ (if b then us else x ∷ us) ++ d ∷ vs
cons_if true x d us vs rest e = e
cons_if false x d us vs rest e = ap (λ l. x ∷ l) e

left_dead-some :
    (xs : List Conn) (c : Conn) (ys : List Conn)
    → c.event_count ≢ 0
    → (us : List Conn) × (vs : List Conn) × (left_dead (xs ++ c ∷ ys)
        ≡ us ++ record c { dead = true } ∷ vs)
left_dead-some [] c ys n = ([], left_dead ys, ground arith)
left_dead-some (x ∷ xs) c ys n =
    let (us, vs, e) = left_dead-some xs c ys n in
    (
      if x.event_count == 0 then us else record x { dead = true } ∷ us,
      vs,
      cons_if (x.event_count == 0) (record x { dead = true }) (record c { dead = true }) us vs _ e,
    )

-- The events of a pool name the pool and are counted on a member. So `esql_free` on a pool without
-- events of its own count frees it while an event that names it is still to come, and the member
-- that posted that event outlives the pool.
pub pool_free-post :
    (env : Env) (modules : Bool) (k : State.EventKind) (w : World)
    → w.e.pool_member ≡ true
    → w.ep.event_count ≡ 0
    → suc w.e.event_count < u32_mod
    → ((post k w).acts ≡ event_add k on_pool ∷ w.acts)
      × ((free_pool (post k w).ep).1 ≡ true)
      × (us : List Conn) × (vs : List Conn) × ((pool_free env modules (post k w)).0
          ≡ us ++ record ((post k w).e) { dead = true } ∷ vs)
pool_free-post env modules k w m z b =
    let (us, vs, e) = left_dead-some w.before (post k w).e w.after (λ n. omega (arith, n)) in
    (
      ap (λ (p : Bool). event_add k (if p then on_pool else on_conn) ∷ w.acts) m,
      unfold free_pool in ground arith,
      us,
      vs,
      pool_free-left_dead env modules (post k w) ∙ e,
    )
