-- ===== src/Events/Drain/Order.antt =====
-- The whole chain of calls over a queue.
use esskyuehl.Prelude.{
  ℕ, zero, suc, ◌+◌, ◌*◌, ◌≤◌, refl, ap, sym, subst, ◌∙◌, List, [], ◌∷◌, arith, Bytes, length,
}
use esskyuehl.State.{World, Env}
use esskyuehl.Events.{call_complete, connect_handler, step, go_on, run}
use esskyuehl.Events.Drain.{sent, outcome, trace, Smooth, story, Runs, Drained}
use esskyuehl.Events.Drain.Steps.{
  Runs-same, connect_handler-Same, next_step-Runs, next_step-nil, call_complete-Answered,
}

module _ (env : Env) (smooth : Smooth env) where
  drain :
      (xs : List (Bytes × ℕ)) (n fuel : ℕ) (w : World)
      → Runs n xs w
      → 3 * length xs + 2 ≤ fuel
      → Drained (story n xs (trace w.acts)) (run env fuel call_complete w)
  unfolding run step
  drain xs n zero w r h = absurd (omega arith)
  drain xs n (suc zero) w r h = absurd (omega arith)
  drain [] n (suc (suc fuel)) w r h =
      let (v, done_eq, held, a, seen) = call_complete-Answered env smooth n [] w r in
      let path =
        ap (go_on (run env (suc fuel))) done_eq
        ∙ ap (go_on (run env fuel)) (next_step-nil env v held a) in
      subst (Drained (outcome n ∷ trace w.acts)) (sym path)
        (refl, record { funcs = held.funcs; params = held.params; ids = held.ids }, refl, seen)
  drain (x ∷ xs) n (suc (suc zero)) w r h = absurd (omega arith)
  drain ((q, m) ∷ xs) n (suc (suc (suc fuel))) w r h =
      let (v, done_eq, held, a, seen) = call_complete-Answered env smooth n ((q, m) ∷ xs) w r in
      let (u, next_eq, runs, seen') = next_step-Runs env smooth q m xs v held a in
      let (t, handler_eq, (same_e, same_t)) = connect_handler-Same env smooth u in
      let path =
        ap (go_on (run env (suc (suc fuel)))) done_eq
        ∙ ap (go_on (run env (suc fuel))) next_eq
        ∙ ap (go_on (run env fuel)) handler_eq in
      subst (Drained (story m xs (sent q ∷ outcome n ∷ trace w.acts))) (sym path) (
        subst (λ s. Drained (story m xs s) (run env fuel call_complete t))
          (same_t ∙ seen' ∙ ap (λ s. sent q ∷ s) seen)
          (drain xs m fuel t (Runs-same u t m xs same_e runs) (omega arith)))

  -- A connection of its own on which a query runs, with others that wait, over a backend that
  -- answers at once and without errors and callbacks that leave the connection alone: the main
  -- loop's call of the handler works off the whole queue within three rounds for each query that
  -- waits and three more. Each query is sent once, in the order of the queue and behind the outcome
  -- of the one before it, and each has one outcome; then nothing waits and the connection is idle.
  pub run-Drained :
      (xs : List (Bytes × ℕ)) (n fuel : ℕ) (w : World)
      → Runs n xs w
      → 3 * length xs + 3 ≤ fuel
      → Drained (story n xs (trace w.acts)) (run env fuel connect_handler w)
  unfolding run step
  run-Drained xs n zero w r h = absurd (omega arith)
  run-Drained xs n (suc fuel) w r h =
      let (t, handler_eq, (same_e, same_t)) = connect_handler-Same env smooth w in
      subst (Drained (story n xs (trace w.acts))) (sym (ap (go_on (run env fuel)) handler_eq)) (
        subst (λ s. Drained (story n xs s) (run env fuel call_complete t)) same_t
          (drain xs n fuel t (Runs-same w t n xs same_e r) (omega arith)))
