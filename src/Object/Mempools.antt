-- ===== src/Object/Mempools.antt =====
-- The pools that src/lib/esql_alloc.c takes from eina: `esql_mempool_init`, `esql_mempool_new` and
-- `esql_mempool_shutdown`, with the pools that eina holds.
use esskyuehl.Prelude.{
  ℕ, ◌≡◌, refl, ap, Bool, List, [], ◌∷◌, Option, none, some, arith, Bytes, ◌==◌, if◌then◌else◌,
}
use esskyuehl.Object.Library.{
  Outcome, added, failed, retrying, add_pool, chosen, mempool_init, next_pool,
}

-- The `mp` of `esql_res_mp` and of `esql_row_mp`, and `mempool_type`; `live` are the pools that
-- eina holds.
pub record Mempools : Type 0 where
  pub res_mp : Option ℕ
  pub row_mp : Option ℕ
  pub mempool_type : Option Bytes
  pub live : List ℕ

-- `eina_mempool_del` on the pools that eina holds.
abbrev pub mempool_del : Option ℕ → List ℕ → List ℕ
mempool_del none hs = hs
mempool_del (some h) [] = []
mempool_del (some h) (k ∷ hs) = if k == h then hs else k ∷ mempool_del (some h) hs

-- The second round of `esql_mempool_init`, with the pool `h` where eina adds one.
abbrev pub row_pool : Bytes → Outcome → ℕ → Mempools → Mempools × Outcome
row_pool choice added h p =
    (record p { row_mp = some h; mempool_type = some choice; live = h ∷ p.live }, added)
row_pool choice failed h p = (record p { row_mp = none }, failed)
row_pool choice retrying h p = (record p { row_mp = none }, retrying)

-- Both rounds.
abbrev pub res_pool : Bytes → Outcome → Outcome → ℕ → ℕ → Mempools → Mempools × Outcome
res_pool choice added o g h p =
    row_pool choice o h (record p { res_mp = some g; live = g ∷ p.live })
res_pool choice failed o g h p = (record p { res_mp = none }, failed)
res_pool choice retrying o g h p = (record p { res_mp = none }, retrying)

-- `esql_mempool_init`, where `g` and `h` are the pools that eina makes.
unfoldable pub mempools_init :
    (Bytes → ℕ → ℕ → Bool) → ℕ → Option Bytes → ℕ → ℕ → Mempools → Mempools × Outcome
mempools_init add fuel env g h p =
    res_pool (chosen env) (add_pool add fuel (chosen env) 0 0) (add_pool add fuel (chosen env) 1 0)
      g h p

-- `esql_mempool_shutdown`
unfoldable pub mempools_shutdown : Mempools → Mempools
mempools_shutdown p = record {
  res_mp = none;
  row_mp = none;
  mempool_type = none;
  live = mempool_del p.row_mp (mempool_del p.res_mp p.live);
}

-- The pool that eina made, if it made one, is one more that it holds.
abbrev pub with_pool : Option ℕ → Mempools → Mempools
with_pool none p = p
with_pool (some h) p = record p { live = h ∷ p.live }

-- `esql_mempool_new`; `add` is `eina_mempool_add` by the type and the size.
unfoldable pub mempool_new : (Option Bytes → ℕ → Option ℕ) → ℕ → Mempools → Mempools × Option ℕ
mempool_new add size p = (with_pool (add p.mempool_type size) p, add p.mempool_type size)

-- No pool is in use, while eina holds some of others.
abbrev pub no_pools : List ℕ → Mempools
no_pools hs = record { res_mp = none; row_mp = none; mempool_type = none; live = hs }

mempool_del-head : (h : ℕ) (hs : List ℕ) → mempool_del (some h) (h ∷ hs) ≡ hs
mempool_del-head h hs = ground arith

mempool_del-two :
    (g h : ℕ) (hs : List ℕ) → mempool_del (some h) (mempool_del (some g) (h ∷ g ∷ hs)) ≡ hs
mempool_del-two g h hs = ground arith

-- `eina_mempool_del` on the pool of a result leaves the pools that there were before it was made.
pub mempool_del-new :
    (add : Option Bytes → ℕ → Option ℕ) (size : ℕ) (p : Mempools)
    → let r = mempool_new add size p in mempool_del r.1 r.0.live ≡ p.live
unfolding mempool_new
mempool_del-new add size p = given_back (add p.mempool_type size)
  where
    given_back : (o : Option ℕ) → mempool_del o (with_pool o p).live ≡ p.live
    given_back none = refl
    given_back (some h) = mempool_del-head h p.live

module _ (add : Bytes → ℕ → ℕ → Bool) (fuel : ℕ) (env : Option Bytes) (g h : ℕ) (hs : List ℕ) where
  -- The outcome is that of `mempool_init`, which has no pools to keep.
  pub mempools_init-outcome :
      (p : Mempools) → (mempools_init add fuel env g h p).1 ≡ mempool_init add fuel env
  unfolding mempools_init mempool_init
  mempools_init-outcome p =
      same (add_pool add fuel (chosen env) 0 0) (add_pool add fuel (chosen env) 1 0)
    where
      same : (o r : Outcome) → (res_pool (chosen env) o r g h p).1 ≡ next_pool o r
      same added added = refl
      same added failed = refl
      same added retrying = refl
      same failed r = refl
      same retrying r = refl

  -- Whether both pools are added or only the first one is, the shutdown gives back what was taken.
  pub mempools_shutdown-init :
      add_pool add fuel (chosen env) 0 0 ≡ added
      → mempools_shutdown (mempools_init add fuel env g h (no_pools hs)).0 ≡ no_pools hs
  unfolding mempools_init mempools_shutdown
  mempools_shutdown-init e = rw e (given_back (add_pool add fuel (chosen env) 1 0))
    where
      given_back :
          (r : Outcome)
          → mempools_shutdown
              (row_pool
                (chosen env)
                r
                h
                (record (no_pools hs) { res_mp = some g; live = g ∷ hs })).0
            ≡ no_pools hs
      given_back added = ap no_pools (mempool_del-two g h hs)
      given_back failed = ap no_pools (mempool_del-head g hs)
      given_back retrying = ap no_pools (mempool_del-head g hs)

  -- Where the second pool cannot be added, the first one stays with eina after the failure, which
  -- the caller leaves without a call of the shutdown.
  pub mempools_init-lost :
      add_pool add fuel (chosen env) 0 0 ≡ added
      → add_pool add fuel (chosen env) 1 0 ≡ failed
      → ((mempools_init add fuel env g h (no_pools hs)).1 ≡ failed)
        × ((mempools_init add fuel env g h (no_pools hs)).0.live ≡ g ∷ hs)
  unfolding mempools_init
  mempools_init-lost e d = (rw (e, d) refl, rw (e, d) refl)
