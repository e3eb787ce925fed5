-- ===== src/Events/Termination.antt =====
-- What bounds the chain of `esql_next`, `esql_call_complete`, `esql_event_error` and
-- `esql_connect_handler`.
pub mod Next
pub mod Answers
pub mod Runs
use esskyuehl.Prelude.{ℕ, ◌+◌, ◌*◌, ◌≤◌, ◌<◌, ◌≡◌, ◌⊎◌, true, Option, none, some}
use esskyuehl.State.{World, Env, Res, init}
use esskyuehl.Events.{Call, next, call_complete, event_error, connect_handler}
use esskyuehl.Events.Rebalance.{all_calls}

-- The user's callbacks queue no further calls on these connections and do not disconnect.
pub record Calm (env : Env) : Type 0 where
  pub connect_calls :
      (cb : ℕ) (p : Option ℕ) (w : World) → all_calls (env.on_connect cb p w) ≤ all_calls w
  pub result_calls :
      (cb : ℕ) (r : Res) (p : Option ℕ) (w : World)
      → all_calls (env.on_result cb r p w) ≤ all_calls w
  pub connect_stays :
      (cb : ℕ) (p : Option ℕ) (w : World)
      → w.e.connected ≡ true
      → (env.on_connect cb p w).e.connected ≡ true
  pub result_stays :
      (cb : ℕ) (r : Res) (p : Option ℕ) (w : World)
      → w.e.connected ≡ true
      → (env.on_result cb r p w).e.connected ≡ true

-- The connection is up, or about to be, where the next call is `c`.
abbrev pub Live : Call → World → Type 0
Live next w = w.e.connected ≡ true
Live call_complete w = (w.e.connected ≡ true) ⊎ (w.e.current ≡ init)
Live event_error w = (w.e.connected ≡ true) ⊎ (w.e.current ≡ init)
Live connect_handler w = (w.e.connected ≡ true) ⊎ (w.e.current ≡ init)

abbrev pub rank : Call → ℕ
rank next = 0
rank call_complete = 1
rank event_error = 1
rank connect_handler = 2

-- Every call that is made takes one off the queue, or passes on to one of less rank.
abbrev pub measure : Call → World → ℕ
measure c w = 3 * all_calls w + rank c

abbrev pub Falls : Call → World → World × Option Call → Type 0
Falls c w (v, none) = Unit {0}
Falls c w (v, some d) = Live d v × (measure d v < measure c w)
