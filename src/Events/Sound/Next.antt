-- ===== src/Events/Sound/Next.antt =====
-- `esql_next` on a pool.
use esskyuehl.Prelude.{
  ◌≡◌, ◌≢◌, refl, sym, ◌∙◌, Bool, true, false, List, [], ◌∷◌, Option, none, some, if◌then◌else◌,
  is_some,
}
use esskyuehl.State.{World, Env, set_e, if_cases, idle, init, SetFunc, set_database, run_query}
use esskyuehl.Query.{send_query}
use esskyuehl.Events.{
  Call, next, call_complete, event_error, connect_handler, param_at, rebalance, next_call,
  head_call, refill, next_step, give_query, issue_queued, update_lists,
}
use esskyuehl.Events.Rebalance.{Rebalanced, from_before, from_after, nothing, rebalance-Rebalanced}
use esskyuehl.Events.Sound.{Sound, Kept-Sound, Good, rebalance-Sound, database_set-Settled}

-- The state in front of a call: `esql_next` is called with the connection just made, too.
abbrev pub Fine : World × Option Call → Type 0
Fine (w, some next) = Sound w
Fine (w, some call_complete) = Good w
Fine (w, some event_error) = Good w
Fine (w, some connect_handler) = Good w
Fine (w, none) = Good w

idle-ne-init : idle ≢ init
idle-ne-init e = cc

rebalance-current : (w : World) → (rebalance w).0.e.current ≡ w.e.current
rebalance-current w = Rebalanced-current (rebalance-Rebalanced w)
  where
    Rebalanced-current : {r : World × Bool} → Rebalanced w r → r.0.e.current ≡ w.e.current
    Rebalanced-current (from_before s) = unfold give_query in refl
    Rebalanced-current (from_after b s) = unfold give_query in refl
    Rebalanced-current (nothing b a) = refl

-- `esql_next` finds the member at no call.
abbrev AtRest : World → Type 0
AtRest w = Sound w × (w.e.current ≡ idle)

refill-AtRest : (fs : List SetFunc) (w : World) → AtRest w → AtRest (refill fs w)
refill-AtRest (f ∷ fs) w g = g
refill-AtRest [] w g =
    if_cases AtRest w.e.pool_member (rebalance w).0 w
      (rebalance-Sound w g.0, rebalance-current w ∙ g.1) g

either_way :
    (b : Bool) (w : World) → Good w → Fine (w, if b then some event_error else some connect_handler)
either_way true w g = g
either_way false w g = g

next_call-Fine : (env : Env) (f : SetFunc) (w : World) → AtRest w → Fine (next_call env f w)
unfolding next_call update_lists
next_call-Fine env set_database w g =
    let (k, c) = database_set-Settled (param_at w.e.backend_set_params) w in
    (Kept-Sound w _ (k.0, k.1, k.2, k.3, k.4) g.0, λ e. absurd (idle-ne-init (sym g.1 ∙ c e)))
next_call-Fine env run_query w g =
    either_way (is_some (issue_queued env w).e.error) (issue_queued env w) (
      unfold issue_queued send_query update_lists in
      (Kept-Sound w _ (refl, refl, refl, refl, refl) g.0, λ e. cc))

head_call-Fine : (env : Env) (fs : List SetFunc) (w : World) → AtRest w → Fine (head_call env fs w)
head_call-Fine env [] w g = (g.0, λ e. absurd (idle-ne-init (sym g.1 ∙ e)))
head_call-Fine env (f ∷ fs) w g = next_call-Fine env f w g

pub next_step-Fine : (env : Env) (w : World) → Sound w → Fine (next_step env w)
unfolding next_step
next_step-Fine env w s =
    head_call-Fine env (refill v.e.backend_set_funcs v).e.backend_set_funcs
      (refill v.e.backend_set_funcs v)
      (refill-AtRest v.e.backend_set_funcs v
        (Kept-Sound w v (refl, refl, refl, refl, refl) s, refl))
  where
    v : World
    v = set_e (record (w.e) { current = idle }) w
