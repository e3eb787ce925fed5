-- ===== src/Events/Drain/Steps.antt =====
-- One round each of `esql_connect_handler`, `esql_call_complete` and `esql_next`.
use esskyuehl.Prelude.{
  ℕ, ◌≡◌, refl, ap, ◌∙◌, Bool, false, List, [], ◌∷◌, map, Option, none, some, Bytes, if◌then◌else◌,
  is_some,
}
use esskyuehl.State.{
  Conn, World, Env, Act, Res, Io, done, new_res, act, set_e, result_add, query_cb_call,
  backend_query, SetFunc, CallId, run_query, ConnectType, idle, backend_io, if_cases, fd_active_set,
  timer_reset, backend_res,
}
use esskyuehl.State
use esskyuehl.Query.{send_query}
use esskyuehl.Events.{
  next, call_complete, event_error, rebalance, connect_handler, issue_queued, update_lists,
  next_call, next_step, head_call, refill, call_query_cb, deliver, fetch_res, hand_out, own_res,
  complete_query, complete, call_complete_step, after_io, connect_handler_step,
}
use esskyuehl.Events.Fifo.{Pending, text, func_of, Holds, issue_queued-Issued, next_step-cons}
use esskyuehl.Events.Drain.{sent, outcome, trace, Smooth, texts, queue, Parts, Runs}

queue-Holds : (c d : Conn) (xs : List Pending) → queue d ≡ queue c → Holds c xs → Holds d xs
queue-Holds c d xs e h = record {
  funcs = ap (λ (p : Parts). p.0) e ∙ h.funcs;
  params = ap (λ (p : Parts). p.1) e ∙ h.params;
  ids = ap (λ (p : Parts). p.2) e ∙ h.ids;
}

pub Runs-same :
    (w v : World) (n : ℕ) (xs : List (Bytes × ℕ)) → v.e ≡ w.e → Runs n xs w → Runs n xs v
Runs-same w v n xs e r = record {
  is_current = ap (λ (c : Conn). c.current) e ∙ r.is_current;
  has_id = ap (λ (c : Conn). c.cur_id) e ∙ r.has_id;
  waits = queue-Holds w.e v.e (texts xs) (ap queue e) r.waits;
  alone = ap (λ (c : Conn). c.pool_member) e ∙ r.alone;
}

-- With an empty queue a connection of its own is idle, and no call is made.
pub next_step-nil :
    (env : Env) (w : World)
    → Holds w.e []
    → w.e.pool_member ≡ false
    → next_step env w ≡ (set_e (record (w.e) { current = idle }) w, none)
unfolding next_step
next_step-nil env w h a =
    ap (λ l. head_call env (refill l v).e.backend_set_funcs (refill l v)) h.funcs
    ∙ ap
        (λ (b : Bool).
          let u = if b then (rebalance v).0 else v in head_call env u.e.backend_set_funcs u)
        a
    ∙ ap (λ l. head_call env l v) h.funcs
  where
    v : World
    v = set_e (record (w.e) { current = idle }) w

module _ (env : Env) (smooth : Smooth env) where
  abbrev pub Answered : ℕ → World → World → Type 0
  Answered n w v = (queue v.e ≡ queue w.e) × (trace v.acts ≡ outcome n ∷ trace w.acts)

  deliver-Answered : (o : Option ℕ) (r : Res) (w : World) → Answered r.qid w (deliver env o r w)
  unfolding call_query_cb
  deliver-Answered none r w = (refl, refl)
  deliver-Answered (some cb) r w = (
    ap queue (smooth.same_e cb r w.e.cur_data (act (query_cb_call cb r w.e.cur_data) w)),
    smooth.same_trace cb r w.e.cur_data (act (query_cb_call cb r w.e.cur_data) w),
  )

  hand_out-Answered :
      (o : Option Res) (w : World) → Answered w.e.cur_id w (hand_out env (fetch_res env o w))
  hand_out-Answered (some r) w =
      deliver-Answered (w.query_callbacks w.e.cur_id) (own_res w.e r)
        (set_e (record (w.e) { cur_query = none }) w)
  hand_out-Answered none w =
      let u = act backend_res w in
      deliver-Answered (u.query_callbacks u.e.cur_id) (own_res u.e (env.fill_res u.acts new_res))
        (set_e (record (u.e) { cur_query = none }) u)

  complete-Answered :
      (k : ConnectType) (w : World) → k ≡ State.query → Answered w.e.cur_id w (complete env k w)
  complete-Answered State.query w e =
      unfold complete_query in
      hand_out-Answered w.e.res (set_e (record (w.e) { query_end = env.time w.acts }) w)
  complete-Answered State.init w e = cc
  complete-Answered State.database_set w e = cc
  complete-Answered State.idle w e = cc

  -- What the handler does before it asks the backend.
  abbrev prepared : World → World
  prepared w =
      let v = if w.e.fdh then act (fd_active_set done) w else w in
      if v.e.timeout_timer then act timer_reset v else v

  abbrev pub Same : World → World → Type 0
  Same w v = (v.e ≡ w.e) × (trace v.acts ≡ trace w.acts)

  prepared-Same : (w : World) → Same w (prepared w)
  prepared-Same w = if_cases (Same w) v.e.timeout_timer (act timer_reset v) v first first
    where
      v : World
      v = if w.e.fdh then act (fd_active_set done) w else w

      first : Same w v
      first = if_cases (Same w) w.e.fdh (act (fd_active_set done) w) w (refl, refl) (refl, refl)

  pub connect_handler-Same :
      (w : World) → (v : World) × (connect_handler_step env w ≡ (v, some call_complete)) × Same w v
  unfolding connect_handler_step
  connect_handler-Same w = (
    act backend_io (prepared w),
    ap (λ r. after_io env r (act backend_io (prepared w))) (smooth.at_once _),
    prepared-Same w,
  )

  -- The query at the head is sent and runs.
  issue_queued-Runs :
      (q : Bytes) (n : ℕ) (xs : List (Bytes × ℕ)) (w : World)
      → Holds w.e (text q n ∷ texts xs)
      → w.e.pool_member ≡ false
      → Runs n xs (issue_queued env w)
        × (trace (issue_queued env w).acts ≡ sent q ∷ trace w.acts)
        × ((issue_queued env w).e.error ≡ none)
  issue_queued-Runs q n xs w h a =
      let i = issue_queued-Issued env q n (texts xs) w h in
      (
        record {
          is_current = i.is_current;
          has_id = i.has_id;
          waits = i.rest;
          alone = unfold issue_queued update_lists send_query in a;
        },
        ap trace i.was_sent,
        unfold issue_queued update_lists send_query in smooth.no_error _,
      )

  next_call-some :
      (w : World)
      → (issue_queued env w).e.error ≡ none
      → next_call env run_query w ≡ (issue_queued env w, some connect_handler)
  unfolding next_call
  next_call-some w e =
      ap
        (λ (o : Option Bytes).
          (issue_queued env w, if is_some o then some event_error else some connect_handler))
        e

  pub next_step-Runs :
      (q : Bytes) (n : ℕ) (xs : List (Bytes × ℕ)) (w : World)
      → Holds w.e (text q n ∷ texts xs)
      → w.e.pool_member ≡ false
      → (v : World) × (next_step env w ≡ (v, some connect_handler))
        × Runs n xs v
        × (trace v.acts ≡ sent q ∷ trace w.acts)
  next_step-Runs q n xs w h a =
      let u = set_e (record (w.e) { current = idle }) w in
      let r =
        issue_queued-Runs q n xs u (record { funcs = h.funcs; params = h.params; ids = h.ids }) a in
      (
        issue_queued env u,
        next_step-cons env w run_query (map func_of (texts xs)) h.funcs ∙ next_call-some u r.2,
        r.0,
        r.1,
      )

  pub call_complete-Answered :
      (n : ℕ) (xs : List (Bytes × ℕ)) (w : World)
      → Runs n xs w
      → (v : World) × (call_complete_step env w ≡ (v, some next))
        × Holds v.e (texts xs)
        × (v.e.pool_member ≡ false)
        × (trace v.acts ≡ outcome n ∷ trace w.acts)
  unfolding call_complete_step
  call_complete-Answered n xs w r =
      let (same, seen) = complete-Answered w.e.current w r.is_current in
      (
        complete env w.e.current w,
        refl,
        queue-Holds w.e (complete env w.e.current w).e (texts xs) same r.waits,
        ap (λ (p : Parts). p.3) same ∙ r.alone,
        seen ∙ ap (λ i. outcome i ∷ trace w.acts) r.has_id,
      )
