-- ===== src/Events/Delivery.antt =====
-- Where the outcome of a query goes: to its callback, or out as an event.
use esskyuehl.Prelude.{
  ℕ, suc, ◌≡◌, refl, ap, sym, ◌∙◌, Bool, true, false, List, [], ◌∷◌, Option, none, some, ◌==◌,
  if◌then◌else◌,
}
use esskyuehl.State.{
  if_cases, Conn, World, Env, Act, Res, new_res, act, set_e, update, update_same, first_of,
  result_add, query_cb_call, is_query, ConnectType, backend_error_get, res_unref, backend_res,
}
use esskyuehl.State
use esskyuehl.Events.{
  Call, next, call_query_cb, deliver, fetch_res, hand_out, own_res, complete_query, complete,
  call_complete_step, copy_error, report_query_error, error_branch, event_error_step,
}

-- How often an outcome of the query `n` was handed to the user.
abbrev pub delivered : ℕ → List Act → ℕ
delivered n [] = 0
delivered n (query_cb_call cb r p ∷ h) = let k = delivered n h in if r.qid == n then suc k else k
delivered n (result_add r ∷ h) = let k = delivered n h in if r.qid == n then suc k else k
delivered n (_ ∷ h) = delivered n h

-- The user's callback hands out no outcome itself, the running query stays the same, and no
-- callback is set behind another one.
pub record Silent (env : Env) : Type 0 where
  pub no_delivery :
      (cb : ℕ) (r : Res) (p : Option ℕ) (w : World) (n : ℕ)
      → delivered n (env.on_result cb r p w).acts ≡ delivered n w.acts
  pub same_id :
      (cb : ℕ) (r : Res) (p : Option ℕ) (w : World) → (env.on_result cb r p w).e.cur_id ≡ w.e.cur_id
  pub same_more :
      (cb : ℕ) (r : Res) (p : Option ℕ) (w : World) (n : ℕ)
      → (env.on_result cb r p w).more_callbacks n ≡ w.more_callbacks n

-- One more outcome of the query `i`, seen from the query `n`.
abbrev pub one_more : ℕ → ℕ → ℕ → ℕ
one_more i n k = if i == n then suc k else k

abbrev untexted : World → World
untexted w = set_e (record (w.e) { cur_query = none }) w

-- The callback of an id when the one that there is has been deleted: the one set behind it, or none
-- if the id had one callback or none.
abbrev pub following : Option ℕ → List ℕ → Option ℕ
following none hs = none
following (some cb) hs = first_of hs

-- The outcome with one callback of the query less.
abbrev pub HandedOut : ℕ → ℕ → World → World → Type 0
HandedOut i n w v =
    (delivered n v.acts ≡ one_more i n (delivered n w.acts))
    × (v.query_callbacks i ≡ following (w.query_callbacks i) (w.more_callbacks i))

module _ (env : Env) (silent : Silent env) where
  call_query_cb-delivered :
      (cb : ℕ) (r : Res) (w : World) (n : ℕ)
      → (delivered n (call_query_cb env cb r w).acts ≡ one_more r.qid n (delivered n w.acts))
        × ((call_query_cb env cb r w).query_callbacks w.e.cur_id
            ≡ first_of (w.more_callbacks w.e.cur_id))
  unfolding call_query_cb
  call_query_cb-delivered cb r w n = (
    silent.no_delivery cb r _ _ n,
    ap (λ k. update v.query_callbacks k (first_of (v.more_callbacks k)) w.e.cur_id)
          (silent.same_id cb r w.e.cur_data u)
        ∙ update_same v.query_callbacks w.e.cur_id _
        ∙ ap first_of (silent.same_more cb r w.e.cur_data u w.e.cur_id),
  )
    where
      u : World
      u = act (query_cb_call cb r w.e.cur_data) w

      v : World
      v = env.on_result cb r w.e.cur_data u

  deliver-HandedOut :
      (o : Option ℕ) (r : Res) (w : World) (n : ℕ)
      → w.query_callbacks w.e.cur_id ≡ o
      → r.qid ≡ w.e.cur_id
      → HandedOut w.e.cur_id n w (deliver env o r w)
  deliver-HandedOut (some cb) r w n e q =
      let h = call_query_cb-delivered cb r w n in
      (
        h.0 ∙ ap (λ i. one_more i n (delivered n w.acts)) q,
        h.1 ∙ ap (λ x. following x (w.more_callbacks w.e.cur_id)) (sym e),
      )
  deliver-HandedOut none r w n e q = (
    ap (λ i. one_more i n (delivered n w.acts)) q,
    e ∙ ap (λ x. following x (w.more_callbacks w.e.cur_id)) (sym e),
  )

  hand_out-HandedOut :
      (o : Option Res) (w : World) (n : ℕ)
      → HandedOut w.e.cur_id n w (hand_out env (fetch_res env o w))
  hand_out-HandedOut (some r) w n =
      deliver-HandedOut (w.query_callbacks w.e.cur_id) (own_res w.e r) (untexted w) n refl refl
  hand_out-HandedOut none w n =
      let u = act backend_res w in
      deliver-HandedOut (u.query_callbacks u.e.cur_id) (own_res u.e (env.fill_res u.acts new_res))
        (untexted u) n refl refl

  complete-HandedOut :
      (k : ConnectType) (w : World) (n : ℕ)
      → k ≡ State.query
      → HandedOut w.e.cur_id n w (complete env k w)
  complete-HandedOut State.query w n e =
      unfold complete_query in
      hand_out-HandedOut w.e.res (set_e (record (w.e) { query_end = env.time w.acts }) w) n
  complete-HandedOut State.init w n e = cc
  complete-HandedOut State.database_set w n e = cc
  complete-HandedOut State.idle w n e = cc

  -- If callbacks hand out no outcome themselves, leave the id of the running query and set no
  -- callback for an id that has one, a completed query has exactly one outcome more than before,
  -- and no other query has one more. The callback that took it is deleted: none is left for the
  -- query if it was set once, and the next one if it was set more than once.
  pub call_complete-HandedOut :
      (w : World) (n : ℕ)
      → w.e.current ≡ State.query
      → HandedOut w.e.cur_id n w (call_complete_step env w).0
  call_complete-HandedOut w n e = unfold call_complete_step in complete-HandedOut w.e.current w n e

-- What is handed out carries the query's id, data and text, and one reference.
pub record IsOutcome (c : Conn) (r : Res) : Type 0 where
  pub same_qid : r.qid ≡ c.cur_id
  pub same_data : r.data_ptr ≡ c.cur_data
  pub same_text : r.query_text ≡ c.cur_query
  pub one_ref : r.refcount ≡ 1

abbrev ended : Env → World → World
ended env w = set_e (record (w.e) { query_end = env.time w.acts }) w

-- Without a callback the result goes out as an event, the last call made.
pub call_complete-result_add :
    (env : Env) (w : World)
    → w.e.current ≡ State.query
    → w.query_callbacks w.e.cur_id ≡ none
    → (r : Res) × (h : List Act) × ((call_complete_step env w).0.acts ≡ result_add r ∷ h)
      × IsOutcome w.e r
call_complete-result_add env w e o = unfold call_complete_step in by_kind w.e.current e
  where
    by_res :
        (x : Option Res)
        → (r : Res) × (h : List Act) × ((hand_out env (fetch_res env x (ended env w))).acts
            ≡ result_add r ∷ h)
          × IsOutcome w.e r
    by_res (some raw) = (
      own_res w.e raw,
      w.acts,
      rw o,
      record { same_qid = refl; same_data = refl; same_text = refl; one_ref = refl },
    )
    by_res none = (
      own_res w.e (env.fill_res (backend_res ∷ w.acts) new_res),
      backend_res ∷ w.acts,
      rw o,
      record { same_qid = refl; same_data = refl; same_text = refl; one_ref = refl },
    )

    by_kind :
        (k : ConnectType)
        → k ≡ State.query
        → (r : Res) × (h : List Act) × ((complete env k w).acts ≡ result_add r ∷ h)
          × IsOutcome w.e r
    by_kind State.query d = unfold complete_query in by_res w.e.res
    by_kind State.init d = cc
    by_kind State.database_set d = cc
    by_kind State.idle d = cc

error_branch_lost :
    (env : Env) (b : Bool) (v : World)
    → b ≡ true
    → v.query_callbacks v.e.cur_id ≡ none
    → env.fd_has_error v.acts ≡ false
    → error_branch env b v ≡ (v, some next)
unfolding report_query_error
error_branch_lost env true v b o f = rw (o, f)
error_branch_lost env false v b o f = cc

-- An error of a query without a callback, on a connection whose fd shows no error, reaches nobody:
-- no event is posted and no outcome handed out, and the queue goes on. The header promises an event
-- on each error.
event_error_lost :
    (env : Env) (w : World)
    → w.e.current ≡ State.query
    → w.query_callbacks w.e.cur_id ≡ none
    → env.fd_has_error (backend_error_get ∷ w.acts) ≡ false
    → ((event_error_step env w).1 ≡ some next)
      × ((event_error_step env w).0.acts ≡ backend_error_get ∷ w.acts)
      × ((event_error_step env w).0.e.event_count ≡ w.e.event_count)
unfolding event_error_step
event_error_lost env w e o f =
    let r =
      error_branch_lost env (is_query v.e.current) v (rw (k.0, e)) (rw (k.0, k.1) o) (rw k.2 f) in
    (
      ap (λ (x : World × Option Call). x.1) r,
      ap (λ (x : World × Option Call). x.0.acts) r ∙ k.2,
      ap (λ (x : World × Option Call). x.0.e.event_count) r ∙ ap (λ (c : Conn). c.event_count) k.0,
    )
  where
    h : List Act
    h = backend_error_get ∷ w.acts

    x : World
    x = record w { e = record (w.e) { error = env.error_get h; query_end = env.time h }; acts = h }

    v : World
    v = copy_error x

    k : (v.e ≡ x.e) × (v.query_callbacks ≡ x.query_callbacks) × (v.acts ≡ x.acts)
    k =
        if_cases (λ y. (y.e ≡ x.e) × (y.query_callbacks ≡ x.query_callbacks) × (y.acts ≡ x.acts))
          w.e.pool_member _ x (refl, refl, refl) (refl, refl, refl)
