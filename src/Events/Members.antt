-- ===== src/Events/Members.antt =====
-- The pool's count of connected members, and when the pool itself is connected.
use esskyuehl.Prelude.{
  ℕ, ◌+◌, ◌≡◌, refl, true, false, not, Option, none, some, arith, if◌then◌else◌, sum_of, length,
}
use esskyuehl.State.{Conn, World, Env, set_e, if_cases, if_split}
use esskyuehl.Connect.{announce_disconnect, disconnect}
use esskyuehl.Events.{announce_with, announce_connect, complete_init}

abbrev pub up : Conn → ℕ
up c = if c.connected then 1 else 0

-- How many members of the pool are connected, and how many there are.
abbrev pub ups : World → ℕ
ups w = sum_of up w.before + up w.e + sum_of up w.after

abbrev pub size_of : World → ℕ
size_of w = length w.before + 1 + length w.after

-- The pool's count is right.
abbrev pub Counts : World → Type 0
Counts w = w.ep.e_connected ≡ ups w

-- What the connect callback leaves alone.
pub record KeepsCount (env : Env) : Type 0 where
  pub counts : (cb : ℕ) (p : Option ℕ) (w : World) → Counts w → Counts (env.on_connect cb p w)
  pub connected :
      (cb : ℕ) (p : Option ℕ) (w : World)
      → w.ep.connected ≡ true
      → (env.on_connect cb p w).ep.connected ≡ true

announce_with-Counts :
    (env : Env) (keeps : KeepsCount env) (o : Option ℕ) (w : World)
    → Counts w
    → Counts (announce_with env o w)
announce_with-Counts env keeps none w h = h
announce_with-Counts env keeps (some cb) w h = keeps.counts cb _ _ h

announce_with-connected :
    (env : Env) (keeps : KeepsCount env) (o : Option ℕ) (w : World)
    → w.ep.connected ≡ true
    → (announce_with env o w).ep.connected ≡ true
announce_with-connected env keeps none w h = h
announce_with-connected env keeps (some cb) w h = keeps.connected cb _ _ h

module _ (env : Env) (w : World) where
  -- The three states behind `e->connected = EINA_TRUE`.
  abbrev pub came_up : World
  came_up = set_e (record (w.e) { connected = true }) w

  abbrev pub counted : World
  counted = record came_up { ep = record (came_up.ep) { e_connected = came_up.ep.e_connected + 1 } }

  abbrev pub full : World
  full = record counted { ep = record (counted.ep) { connected = true } }

pub counted-Counts :
    (w : World)
    → w.e.connected ≡ false
    → Counts w
    → w.ep.e_connected + 1 ≡ sum_of up w.before + 1 + sum_of up w.after
counted-Counts w d h = ground arith

-- The end of a connection attempt of a pool member, which was down before, keeps the count right,
-- if the connect callback does.
pub complete_init-Counts :
    (env : Env) (w : World)
    → KeepsCount env
    → w.e.pool_member ≡ true
    → w.e.connected ≡ false
    → Counts w
    → Counts (complete_init env w)
unfolding complete_init announce_connect
complete_init-Counts env w keeps m d h =
    if_split Counts (not w.e.pool_member) (announce_with env _ (came_up env w)) _
      (λ n. ground arith)
      (λ n.
        if_cases Counts _ (announce_with env _ (full env w)) (counted env w)
          (announce_with-Counts env keeps _ (full env w) (counted-Counts w d h))
          (counted-Counts w d h))

-- The pool counts as connected from the moment that its last member has come up, where the count
-- was right and the connect callback leaves both alone.
complete_init-connected :
    (env : Env) (w : World)
    → KeepsCount env
    → w.e.pool_member ≡ true
    → w.e.connected ≡ false
    → Counts w
    → ups w + 1 ≡ w.ep.size
    → (complete_init env w).ep.connected ≡ true
unfolding complete_init announce_connect
complete_init-connected env w keeps m d h s =
    if_split (λ v. v.ep.connected ≡ true) (not w.e.pool_member)
      (announce_with env _ (came_up env w)) _ (λ n. ground arith)
      (λ n.
        if_split (λ v. v.ep.connected ≡ true) _ (announce_with env _ (full env w)) (counted env w)
          (λ _. announce_with-connected env keeps _ (full env w) refl) (λ k. ground arith))

-- `esql_disconnect` of a pool member keeps the count right, on every branch.
pub disconnect-Counts :
    (env : Env) (w : World) → w.e.pool_member ≡ true → Counts w → Counts (disconnect env w)
unfolding disconnect announce_disconnect
disconnect-Counts env w m h = ground arith
