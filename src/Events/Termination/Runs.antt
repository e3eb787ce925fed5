-- ===== src/Events/Termination/Runs.antt =====
-- The measure over each step of the chain, and whole runs.
use esskyuehl.Prelude.{ℕ, zero, suc, ◌<◌, ◌≡◌, refl, Option, none, some, arith}
use esskyuehl.State.{World, Env}
use esskyuehl.Events.{Call, next, call_complete, event_error, connect_handler, step, run, go_on}
use esskyuehl.Events.Termination.{Calm, Live, measure, Falls}
use esskyuehl.Events.Termination.Next.{next-Falls}
use esskyuehl.Events.Termination.Answers.{
  connect_handler-Falls, call_complete-Falls, event_error-Falls,
}

step-Falls :
    (env : Env) (calm : Calm env) (c : Call) (w : World) → Live c w → Falls c w (step env c w)
step-Falls env calm next w l = unfold step in next-Falls env w l
step-Falls env calm call_complete w l = unfold step in call_complete-Falls env calm w l
step-Falls env calm event_error w l = unfold step in event_error-Falls env calm w l
step-Falls env calm connect_handler w l = unfold step in connect_handler-Falls env w l

-- The chain of calls ends, whatever the backend answers, if the callbacks queue nothing and do not
-- disconnect: on a connection that is up, or is being set up, fuel above three rounds for every
-- call that waits in the pool and the rank of the first call, at most 2, is enough, and no call is
-- left to make.
pub run-none :
    (env : Env) (fuel : ℕ) (c : Call) (w : World)
    → Calm env
    → Live c w
    → measure c w < fuel
    → (run env fuel c w).1 ≡ none
unfolding run
run-none env zero c w calm l m = absurd (omega arith)
run-none env (suc fuel) c w calm l m =
    go (step env c w) (step-Falls env calm c w l)
      λ v d k n. run-none env fuel d v calm k (omega arith)
  where
    go :
        (r : World × Option Call)
        → Falls c w r
        → ((v : World) (d : Call)
            → Live d v
            → measure d v < measure c w
            → (run env fuel d v).1 ≡ none)
        → (go_on (run env fuel) r).1 ≡ none
    go (v, none) f rest = refl
    go (v, some d) f rest = rest v d f.0 f.1
