-- ===== src/Object/Life.antt =====
-- When an object's memory goes away.
use esskyuehl.Prelude.{
  ℕ, zero, suc, ◌-◌, ◌%◌, ◌<◌, ◌≡◌, ◌≢◌, refl, ◌⊎◌, inl, inr, Bool, true, false, List, [], ◌∷◌,
  arith, if◌then◌else◌, u32_mod,
}
use esskyuehl.State.{
  Conn, Pool, World, Env, Act, if_cases, if_split, event_add, disconnect_event, on_conn, set_e, act,
  backend_free, backend_disconnect,
}
use esskyuehl.State
use esskyuehl.Connect.{disconnect, announce_disconnect, close}
use esskyuehl.Object.{alive, gone, shut_down, free, fake_free_pool, free_pool}

-- The event stands among the calls made.
abbrev pub Posted : State.EventKind → State.Target → List Act → Type 0
Posted k t [] = ⊥
Posted k t (a ∷ h) = (a ≡ event_add k t) ⊎ Posted k t h

-- An object with events that are still to come is kept, and is marked for the last of them.
pub free_pending :
    (env : Env) (modules : Bool) (w : World)
    → w.e.event_count ≢ 0
    → free env modules w ≡ alive (set_e (record (w.e) { dead = true }) w)
unfolding free
free_pending env modules w h = ground arith

disconnect-acts :
    (env : Env) (w : World)
    → w.e.connected ≡ true
    → w.e.db ≡ true
    → w.e.pool_member ≡ false
    → (disconnect env w).acts ≡ event_add disconnect_event on_conn ∷ (close env w).acts
unfolding disconnect announce_disconnect
disconnect-acts env w c d m = ground arith

-- `esql_free` on a connected object outside a pool, with no pending event and with modules loaded,
-- posts a disconnect event that names the object, and returns the object's memory in the same call:
-- the event is left with an object that is gone. The comment on `esql_free` says that an object
-- with pending events is not freed.
pub free_connected :
    (env : Env) (w : World)
    → w.e.event_count ≡ 0
    → w.e.connected ≡ true
    → w.e.db ≡ true
    → w.e.pool_member ≡ false
    → (h : List Act) × (free env true w ≡ gone h) × Posted disconnect_event on_conn h
free_connected env w n c d m = (
  (shut_down env w).acts,
  unfold free in ground arith,
  if_cases (λ v. Posted disconnect_event on_conn v.acts) closed.e.free_hook
      (act backend_free closed) closed (inr posted) posted,
)
  where
    closed : World
    closed = if w.e.connected then disconnect env w else w

    posted : Posted disconnect_event on_conn closed.acts
    posted =
        if_split (λ v. Posted disconnect_event on_conn v.acts) w.e.connected (disconnect env w) w
          (λ _. rw (disconnect-acts env w c d m) (inl refl)) (λ f. cc)

-- `k` events of a pool that come to their end.
abbrev pub fake_free_times : ℕ → Pool → Pool
fake_free_times zero p = p
fake_free_times (suc k) p = (fake_free_pool (fake_free_times k p)).0

fake_free_times-count :
    (k : ℕ) (p : Pool)
    → p.event_count ≡ 0
    → k < u32_mod
    → (fake_free_times k p).event_count ≡ (u32_mod - k) % u32_mod
unfolding fake_free_pool
fake_free_times-count zero p e h = omega arith
fake_free_times-count (suc k) p e h = omega (arith, fake_free_times-count k p e)

-- The events of a pool are counted on the member that posts them and taken off the pool's own
-- count, which stays 0 until then and wraps: after the end of any number of events, from one to
-- 2^32 - 1, neither `esql_free` nor the end of the last event frees the pool.
pub free_pool_leaks :
    (k : ℕ) (p : Pool)
    → p.event_count ≡ 0
    → suc k < u32_mod
    → ((free_pool (fake_free_times (suc k) p)).1 ≡ false)
      × ((fake_free_pool (fake_free_times k p)).1 ≡ false)
unfolding free_pool fake_free_pool
free_pool_leaks k p e h = ground (arith, fake_free_times-count k p e)
