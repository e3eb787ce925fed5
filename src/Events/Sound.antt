-- ===== src/Events/Sound.antt =====
-- What holds of a pool between two calls of the chain: the count, and that a member that is being
-- connected is down.
pub mod Asking
pub mod Next
pub mod Steps
pub mod Turns
pub mod Recount
use esskyuehl.Prelude.{
  ℕ, ◌+◌, ◌≡◌, refl, ap, ap₂, sym, subst, ◌∙◌, Bool, true, false, not, ◌&&◌, List, [], ◌∷◌, ◌++◌,
  Option, none, some, arith, ◌==◌, if◌then◌else◌, sum_of, is_some, Bytes,
}
use esskyuehl.State.{
  Conn, World, Env, Act, Res, Io, done, wants_both, wants_read, wants_write, fails, act, set_e,
  if_cases, idle, init, ConnectType, is_query, is_mysql, is_idle, SetFunc, set_database, run_query,
  backend_database_set,
}
use esskyuehl.State
use esskyuehl.Connect.{
  disconnect, close, leave_pool, announce_disconnect, arm_reconnect, timeout_cb, post, database_set,
  queue_database,
}
use esskyuehl.Events.{Taken, take_query, take_head_query, give_query, rebalance}
use esskyuehl.Events.Rebalance.{
  TakesFirst, here, there, Rebalanced, from_before, from_after, nothing, rebalance-Rebalanced,
}
use esskyuehl.Events.Members.{up, ups, Counts, disconnect-Counts}

-- A connection that is being set up is down.
abbrev pub Ready : Conn → Type 0
Ready c = c.current ≡ init → c.connected ≡ false

abbrev pub Fit : Conn → Type 0
Fit c = (c.pool_member ≡ true) × Ready c

abbrev pub AllFit : List Conn → Type 0
AllFit [] = Unit
AllFit (c ∷ cs) = Fit c × AllFit cs

-- The pool of the member in hand, whatever call that one is at.
pub record Sound (w : World) : Type 0 where
  pub count : Counts w
  pub fit_before : AllFit w.before
  pub fit_after : AllFit w.after
  pub is_member : w.e.pool_member ≡ true

-- What `Sound` stands on is the same.
abbrev pub Kept : World → World → Type 0
Kept w v =
    (v.before ≡ w.before)
    × (v.after ≡ w.after)
    × (v.e.connected ≡ w.e.connected)
    × (v.e.pool_member ≡ w.e.pool_member)
    × (v.ep.e_connected ≡ w.ep.e_connected)

pub Kept-Sound : (w v : World) → Kept w v → Sound w → Sound v
Kept-Sound w v k s = record {
  count =
      k.4
      ∙ s.count
      ∙ sym (
          ap₂ (λ a b. a + b)
            (ap₂ (λ a b. a + b) (ap (sum_of up) k.0) (ap (λ (b : Bool). if b then 1 else 0) k.2))
            (ap (sum_of up) k.1));
  fit_before = subst AllFit (sym k.0) s.fit_before;
  fit_after = subst AllFit (sym k.1) s.fit_after;
  is_member = k.3 ∙ s.is_member;
}

-- Taking a query from a queue changes nothing else of the member.
abbrev Same : Conn → Conn → Type 0
Same c d = (d.connected ≡ c.connected) × (d.pool_member ≡ c.pool_member) × (d.current ≡ c.current)

Same-Fit : (c d : Conn) → Same c d → Fit c → Fit d
Same-Fit c d s f = (s.1 ∙ f.0, λ e. s.0 ∙ f.1 (sym s.2 ∙ e))

take_query-Same :
    (fs : List SetFunc) (ps : List (Option Bytes)) (ids : List State.CallId) (c : Conn) (t : Taken)
    → take_query fs ps ids c ≡ some t
    → Same c t.rest
unfolding take_query
take_query-Same (run_query ∷ fs) (p ∷ ps) (i ∷ ids) c t e =
    (ground arith, ground arith, ground arith)
take_query-Same [] ps ids c t e = cc
take_query-Same (set_database ∷ fs) ps ids c t e = cc
take_query-Same (run_query ∷ fs) [] ids c t e = cc
take_query-Same (run_query ∷ fs) (p ∷ ps) [] c t e = cc

TakesFirst-up :
    {cs cs' : List Conn} {t : Taken} → TakesFirst cs cs' t → sum_of up cs' ≡ sum_of up cs
unfolding take_head_query
TakesFirst-up (here {c} {cs} {t} e) =
    ap (λ b. (if b then 1 else 0) + sum_of up cs)
      (take_query-Same c.backend_set_funcs c.backend_set_params c.backend_ids c t e).0
TakesFirst-up (there {c} n s) = ap (λ k. up c + k) (TakesFirst-up s)

TakesFirst-AllFit : {cs cs' : List Conn} {t : Taken} → TakesFirst cs cs' t → AllFit cs → AllFit cs'
unfolding take_head_query
TakesFirst-AllFit (here {c} {cs} {t} e) f = (
  Same-Fit c t.rest (take_query-Same c.backend_set_funcs c.backend_set_params c.backend_ids c t e)
      f.0,
  f.1,
)
TakesFirst-AllFit (there {c} n s) f = (f.0, TakesFirst-AllFit s f.1)

Rebalanced-Sound : {w : World} {r : World × Bool} → Rebalanced w r → Sound w → Sound r.0
unfolding give_query
Rebalanced-Sound (from_before s) h = record {
  count = omega (arith, TakesFirst-up s, h.count);
  fit_before = TakesFirst-AllFit s h.fit_before;
  fit_after = h.fit_after;
  is_member = h.is_member;
}
Rebalanced-Sound (from_after b s) h = record {
  count = omega (arith, TakesFirst-up s, h.count);
  fit_before = h.fit_before;
  fit_after = TakesFirst-AllFit s h.fit_after;
  is_member = h.is_member;
}
Rebalanced-Sound (nothing b a) h = h

pub rebalance-Sound : (w : World) → Sound w → Sound (rebalance w).0
rebalance-Sound w s = Rebalanced-Sound (rebalance-Rebalanced w) s

-- Of two states with their results, the one that a test picks.
pub pick {ℓ κ} :
    {A : Type ℓ} {B : Type κ} (P : A × B → Type 0) (b : Bool) (x y : A × B)
    → P x
    → P y
    → P (if b then x else y)
pick P true x y p q = p
pick P false x y p q = q

-- `esql_database_set` changes what a member waits for, and starts no connection.
abbrev pub Settled : World → World → Type 0
Settled w v = Kept w v × (v.e.current ≡ init → w.e.current ≡ init)

pub same_world : (w : World) → Settled w w
same_world w = ((refl, refl, refl, refl, refl), λ e. e)

pub database_set-Settled : (o : Option Bytes) (w : World) → Settled w (database_set o w).0
unfolding database_set queue_database
database_set-Settled none w = same_world w
database_set-Settled (some name) w =
    pick (λ r. Settled w r.0) (is_some w.e.database && not (is_mysql w.e.kind)) (w, false) _
      (same_world w)
      (pick (λ r. Settled w r.0) (not w.e.database_hook) _ _
        ((refl, refl, refl, refl, refl), λ e. e)
        (pick (λ r. Settled w r.0) (is_idle w.e.current && w.e.connected) _ _
          ((refl, refl, refl, refl, refl), λ e. cc) ((refl, refl, refl, refl, refl), λ e. e)))

-- What `esql_disconnect` leaves alone.
abbrev Frame : World → World → Type 0
Frame w v =
    (v.before ≡ w.before)
    × (v.after ≡ w.after)
    × (v.e.pool_member ≡ w.e.pool_member)
    × (v.e.current ≡ w.e.current)

Frame-trans : (u v w : World) → Frame u v → Frame v w → Frame u w
Frame-trans u v w f g = (g.0 ∙ f.0, g.1 ∙ f.1, g.2 ∙ f.2, g.3 ∙ f.3)

close-Frame : (env : Env) (w : World) → Frame w (close env w)
close-Frame env w = if_cases (Frame w) w.e.fdh _ _ (refl, refl, refl, refl) (refl, refl, refl, refl)

leave_pool-Frame : (w : World) → Frame w (leave_pool w)
leave_pool-Frame w =
    if_cases (Frame w) w.e.pool_member _ w (refl, refl, refl, refl) (refl, refl, refl, refl)

announce_disconnect-Frame : (w : World) → Frame w (announce_disconnect w)
unfolding announce_disconnect
announce_disconnect-Frame w =
    if_cases (Frame w) w.e.connected _ w
      (if_cases (Frame w) _ (post State.disconnect_event (leave_pool w)) (leave_pool w)
        (leave_pool-Frame w) (leave_pool-Frame w))
      (refl, refl, refl, refl)

disconnect-Frame : (env : Env) (w : World) → Frame w (disconnect env w)
unfolding disconnect
disconnect-Frame env w =
    if_cases (Frame w) w.e.db _ w
      (Frame-trans w (close env w) (announce_disconnect (close env w)) (close-Frame env w)
        (announce_disconnect-Frame (close env w)))
      (refl, refl, refl, refl)

disconnect-Ready : (env : Env) (w : World) → Ready w.e → Ready (disconnect env w).e
unfolding disconnect
disconnect-Ready env w r = if_cases (λ v. Ready v.e) w.e.db _ w (λ e. refl) r

disconnect-Sound : (env : Env) (w : World) → Sound w → Sound (disconnect env w)
disconnect-Sound env w s =
    let f = disconnect-Frame env w in
    record {
      count = disconnect-Counts env w s.is_member s.count;
      fit_before = subst AllFit (sym f.0) s.fit_before;
      fit_after = subst AllFit (sym f.1) s.fit_after;
      is_member = f.2 ∙ s.is_member;
    }

-- The pool between two calls of the main loop.
abbrev pub Good : World → Type 0
Good w = Sound w × Ready w.e

-- A change that starts and ends no connection.
pub Settled-Good : (w v : World) → Settled w v → Good w → Good v
Settled-Good w v k g = (Kept-Sound w v k.0 g.0, λ e. k.0.2 ∙ g.1 (k.1 e))

pub disconnect-Good : (env : Env) (w : World) → Good w → Good (disconnect env w)
disconnect-Good env w g = (disconnect-Sound env w g.0, disconnect-Ready env w g.1)

arm_reconnect-Settled : (w : World) → Settled w (arm_reconnect w)
arm_reconnect-Settled w =
    if_cases (Settled w) w.e.reconnect _ w ((refl, refl, refl, refl, refl), λ e. e) (same_world w)

-- The end of a connection, by an error or by the timer.
pub dropped-Good : (env : Env) (w : World) → Good w → Good (arm_reconnect (disconnect env w))
dropped-Good env w g =
    Settled-Good (disconnect env w) (arm_reconnect (disconnect env w))
      (arm_reconnect-Settled (disconnect env w)) (disconnect-Good env w g)

pub timeout_cb-Good : (env : Env) (w : World) → Good w → Good (timeout_cb env w)
unfolding timeout_cb
timeout_cb-Good env w g =
    dropped-Good env v (Settled-Good w v ((refl, refl, refl, refl, refl), λ e. e) g)
  where
    v : World
    v = set_e (record (w.e) { timeout_timer = false }) w
