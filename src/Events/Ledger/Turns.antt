-- ===== src/Events/Ledger/Turns.antt =====
-- The books of the queries under the main loop and the user's calls.
use esskyuehl.Prelude.{
  ℕ, ◌+◌, ◌≡◌, refl, ap, sym, subst, ◌∙◌, false, List, [], ◌∷◌, ◌++◌, Option, none, arith, Bytes,
  sum_of, sum_of-append,
}
use esskyuehl.State.{Conn, World, Env, set_e, if_cases, members}
use esskyuehl.Connect.{connect_callback_set, reconnect_set}
use esskyuehl.Events.{Call, fd_handler, run}
use esskyuehl.Events.Turns.{
  Turn, calls, wakes, runs_job, ends_thread, cancels_thread, opens_database, times_out, reconnects,
  connects, disconnects, queries, queries_args, sets_database, sets_query_callback,
  sets_connect_callback, sets_timeout, sets_reconnect, turns_to, Reach, here, more,
}
use esskyuehl.Events.Ledger.{AllPaired, Ledger, Kept-Ledger, waiting, total, sent_texts}
use esskyuehl.Events.Ledger.Queues.{database_set-Ledger}
use esskyuehl.Events.Ledger.Steps.{KeepsBooks, disconnect-Ledger, timeout_cb-Ledger, step-Ledger}
use esskyuehl.Events.Ledger.Asked.{
  asked_query, asked_args, query-Ledger, query_vargs-Ledger, query_callback_set-Ledger,
  connect_timeout_set-Ledger,
}
use esskyuehl.Events.Ledger.Links.{connect-Ledger, reconnect_handler-Ledger, connect_cb-Ledger}

abbrev asked_in : {env : Env} {s t : World × Option Call} → Turn env s t → List Bytes
asked_in (queries p q w) = asked_query w q
asked_in {env} (queries_args p fmt args w) = asked_args env w fmt args
asked_in _ = []

-- The texts of the queries that the user's calls of a run ask for.
abbrev pub asked : {env : Env} {s t : World × Option Call} → Reach env s t → List Bytes
asked here = []
asked (more r t) = asked r ++ asked_in t

AllPaired-append : (xs ys : List Conn) → AllPaired xs → AllPaired ys → AllPaired (xs ++ ys)
AllPaired-append [] ys p q = q
AllPaired-append (x ∷ xs) ys p q = (p.0, AllPaired-append xs ys p.1 q)

AllPaired-split : (xs ys : List Conn) → AllPaired (xs ++ ys) → AllPaired xs × AllPaired ys
AllPaired-split [] ys p = (tt, p)
AllPaired-split (x ∷ xs) ys p = let (a, b) = AllPaired-split xs ys p.1 in ((p.0, a), b)

module _ (f : Bytes → ℕ) where
  -- The books of the pool as one list.
  Ledger-members :
      (n : ℕ) (w : World)
      → Ledger f n w
      → AllPaired (members w) × (sum_of f (sent_texts w.acts) + sum_of (waiting f) (members w) ≡ n)
  Ledger-members n w l = (
    AllPaired-append w.before (w.e ∷ w.after) l.paired_before (l.paired, l.paired_after),
    omega (arith, l.balance, sum_of-append (waiting f) w.before (w.e ∷ w.after)),
  )

  members-Ledger :
      (n : ℕ) (w : World)
      → AllPaired (members w)
      → sum_of f (sent_texts w.acts) + sum_of (waiting f) (members w) ≡ n
      → Ledger f n w
  members-Ledger n w p e =
      let (a, b) = AllPaired-split w.before (w.e ∷ w.after) p in
      record {
        balance = omega (arith, e, sum_of-append (waiting f) w.before (w.e ∷ w.after));
        paired_before = a;
        paired = b.0;
        paired_after = b.1;
      }

  paired_Ledger : (w : World) → AllPaired (members w) → Ledger f (total f w) w
  paired_Ledger w p =
      members-Ledger (total f w) w p
        (omega (arith, sum_of-append (waiting f) w.before (w.e ∷ w.after)))

  amounts_to : {n k : ℕ} {w : World} → n ≡ k → Ledger f n w → Ledger f k w
  amounts_to {w = w} e l = subst (λ k. Ledger f k w) e l

  -- A turn that asks for no query.
  also : {n : ℕ} {w : World} → Ledger f n w → Ledger f (n + 0) w
  also l = amounts_to (omega arith) l

module _ (f : Bytes → ℕ) (env : Env) (quiet : KeepsBooks f env) where
  Turn-Ledger :
      (n : ℕ) {s t : World × Option Call} (d : Turn env s t)
      → Ledger f n s.0
      → Ledger f (n + sum_of f (asked_in d)) t.0
  Turn-Ledger n (queries p q w) l = query-Ledger f env n p q w l
  Turn-Ledger n (queries_args p fmt args w) l = query_vargs-Ledger f env n p fmt args w l
  Turn-Ledger n (calls c w) l = also f (step-Ledger f env quiet n c w l)
  Turn-Ledger n (wakes w) l = also f l
  Turn-Ledger n (runs_job w) l =
      unfold fd_handler run in
      also f (
        if_cases (Ledger f n) w.e.fdh _ (set_e (record (w.e) { fd_job = false }) w)
          (Kept-Ledger f n w _ (refl, refl, refl, refl, refl) l)
          (Kept-Ledger f n w _ (refl, refl, refl, refl, refl) l))
  Turn-Ledger n (ends_thread w) l = also f l
  Turn-Ledger n (cancels_thread w) l = also f l
  Turn-Ledger n (opens_database b w d) l = also f (connect_cb-Ledger f env n b w l)
  Turn-Ledger n (times_out w) l = also f (timeout_cb-Ledger f env n w l)
  Turn-Ledger n (reconnects w d) l = also f (reconnect_handler-Ledger f env n w l)
  Turn-Ledger n (connects addr user passwd w) l =
      also f (connect-Ledger f env n addr user passwd w l)
  Turn-Ledger n (disconnects w) l = also f (disconnect-Ledger f env n w l)
  Turn-Ledger n (sets_database name w) l = also f (database_set-Ledger f n name w l)
  Turn-Ledger n (sets_query_callback id cb w) l =
      also f (query_callback_set-Ledger f env n id cb w l)
  Turn-Ledger n (sets_connect_callback cb p w) l =
      unfold connect_callback_set in also f (Kept-Ledger f n w _ (refl, refl, refl, refl, refl) l)
  Turn-Ledger n (sets_timeout timeout w) l = also f (connect_timeout_set-Ledger f env n timeout w l)
  Turn-Ledger n (sets_reconnect enable w) l =
      unfold reconnect_set in also f (Kept-Ledger f n w _ (refl, refl, refl, refl, refl) l)
  Turn-Ledger n (turns_to xs c ys w e) l =
      let (p, m) = Ledger-members f n w l in
      also f (
        members-Ledger f n (record w { before = xs; e = c; after = ys }) (subst AllPaired (sym e) p)
          (ap (λ cs. sum_of f (sent_texts w.acts) + sum_of (waiting f) cs) e ∙ m))

  Reach-Ledger :
      (n : ℕ) {s t : World × Option Call} (r : Reach env s t)
      → Ledger f n s.0
      → Ledger f (n + sum_of f (asked r)) t.0
  Reach-Ledger n here l = also f l
  Reach-Ledger n (more r d) l =
      amounts_to f (omega (arith, sum_of-append f (asked r) (asked_in d)))
        (Turn-Ledger (n + sum_of f (asked r)) d (Reach-Ledger n r l))

  -- No query vanishes from a pool's queues and none is given to the backend twice, whatever the
  -- main loop, the timers, threads and the user do on any members and in any order: counted with
  -- any weight `f` of texts, the texts that the backend was given and those that wait at some
  -- member are the ones given and waiting at first and the text of each query that the user made on
  -- a connected object since. A query that the backend was given counts as such whether or not its
  -- outcome reaches the user (KNOWN_BUGS names one whose outcome does not). At first each queued
  -- call has its parameter, and the user's callbacks change no such count, as where they make no
  -- queries or only queries of texts that weigh nothing. The steps connect a member, by its opening
  -- thread or its reconnect timer, only when it is not connected.
  pub Reach-total :
      (w v : World) (o : Option Call) (r : Reach env (w, none) (v, o))
      → AllPaired (members w)
      → total f v ≡ total f w + sum_of f (asked r)
  Reach-total w v o r p = (Reach-Ledger (total f w) r (paired_Ledger f w p)).balance
