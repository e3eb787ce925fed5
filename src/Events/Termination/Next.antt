-- ===== src/Events/Termination/Next.antt =====
-- The measure of the chain over `esql_next`.
use esskyuehl.Prelude.{
  suc, ◌≡◌, refl, ap, ◌∙◌, inl, Bool, true, false, List, [], ◌∷◌, Option, none, some, arith, Bytes,
  if◌then◌else◌, length, sum_of, is_some,
}
use esskyuehl.State.{if_cases, Conn, World, Env, set_e, SetFunc, set_database, run_query, idle}
use esskyuehl.Connect.{database_set}
use esskyuehl.Events.{
  next, event_error, connect_handler, rebalance, update_lists, drop_head, param_at, issue_queued,
  next_call, head_call, refill, next_step,
}
use esskyuehl.Events.Rebalance.{calls, all_calls, rebalance-all_calls, rebalance-e}
use esskyuehl.Events.Termination.{Live, Falls}

-- On an idle connection that is up, `esql_database_set` queues nothing.
database_set_idle :
    (o : Option Bytes) (w : World)
    → w.e.connected ≡ true
    → w.e.current ≡ idle
    → ((database_set o w).0.e.backend_set_funcs ≡ w.e.backend_set_funcs)
      × ((database_set o w).0.e.connected ≡ true)
      × ((database_set o w).0.before ≡ w.before)
      × ((database_set o w).0.after ≡ w.after)
unfolding database_set
database_set_idle none w h k = (refl, h, refl, refl)
database_set_idle (some name) w h k = ground arith

drop_head-length :
    (f : SetFunc) (fs gs : List SetFunc)
    → gs ≡ f ∷ fs
    → suc (length (drop_head f gs gs)) ≡ length gs
drop_head-length set_database fs gs e = ground arith
drop_head-length run_query fs gs e = ground arith

update_lists-calls :
    (f : SetFunc) (fs : List SetFunc) (c : Conn)
    → c.backend_set_funcs ≡ f ∷ fs
    → suc (calls (update_lists f c)) ≡ calls c
unfolding update_lists
update_lists-calls f fs c e = drop_head-length f fs c.backend_set_funcs e

issue_queued-calls :
    (env : Env) (fs : List SetFunc) (w : World)
    → w.e.backend_set_funcs ≡ run_query ∷ fs
    → (issue_queued env w).e.connected ≡ w.e.connected
      × (suc (all_calls (issue_queued env w)) ≡ all_calls w)
unfolding issue_queued
issue_queued-calls env fs w e =
    (refl, omega (arith, drop_head-length run_query fs w.e.backend_set_funcs e))

next_call-Falls :
    (env : Env) (f : SetFunc) (fs : List SetFunc) (w u : World)
    → u.e.backend_set_funcs ≡ f ∷ fs
    → u.e.connected ≡ true
    → u.e.current ≡ idle
    → all_calls u ≡ all_calls w
    → Falls next w (next_call env f u)
unfolding next_call
next_call-Falls env set_database fs w u e h k same =
    let (a, b, c, d) = database_set_idle (param_at u.e.backend_set_params) u h k in
    let v = (database_set (param_at u.e.backend_set_params) u).0 in
    (
      inl (unfold update_lists in b),
      omega (
        arith,
        update_lists-calls set_database fs v.e (a ∙ e),
        ap length a,
        ap (sum_of calls) c,
        ap (sum_of calls) d,
      ),
    )
next_call-Falls env run_query fs w u e h k same =
    let (a, b) = issue_queued-calls env fs u e in
    error_or_not (is_some (issue_queued env u).e.error) (a ∙ h) (omega (arith, b))
  where
    error_or_not :
        (b : Bool)
        → (issue_queued env u).e.connected ≡ true
        → suc (all_calls (issue_queued env u)) ≡ all_calls w
        → Falls next w (issue_queued env u, if b then some event_error else some connect_handler)
    error_or_not true c s = (inl c, omega arith)
    error_or_not false c s = (inl c, omega arith)

head_call-Falls :
    (env : Env) (fs : List SetFunc) (w u : World)
    → u.e.backend_set_funcs ≡ fs
    → u.e.connected ≡ true
    → u.e.current ≡ idle
    → all_calls u ≡ all_calls w
    → Falls next w (head_call env fs u)
head_call-Falls env [] w u e h k same = tt
head_call-Falls env (f ∷ fs) w u e h k same = next_call-Falls env f fs w u e h k same

refill-keeps :
    (fs : List SetFunc) (w : World)
    → ((refill fs w).e.connected ≡ w.e.connected)
      × ((refill fs w).e.current ≡ w.e.current)
      × (all_calls (refill fs w) ≡ all_calls w)
refill-keeps (f ∷ fs) w = (refl, refl, refl)
refill-keeps [] w =
    if_cases
      (λ v.
        (v.e.connected ≡ w.e.connected) × (v.e.current ≡ w.e.current) × (all_calls v ≡ all_calls w))
      w.e.pool_member (rebalance w).0 w
      ((rebalance-e w).0, (rebalance-e w).1, rebalance-all_calls w) (refl, refl, refl)

pub next-Falls : (env : Env) (w : World) → Live next w → Falls next w (next_step env w)
unfolding next_step
next-Falls env w l =
    let v = set_e (record (w.e) { current = idle }) w in
    let (a, b, c) = refill-keeps v.e.backend_set_funcs v in
    head_call-Falls env _ w (refill v.e.backend_set_funcs v) refl (a ∙ l) b c
