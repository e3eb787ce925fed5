-- ===== src/Mysql/Rounds.antt =====
-- The rounds in which mysac has something to do: the fd handler, each time that the descriptor is
-- ready.
use esskyuehl.Prelude.{
  ℕ, zero, suc, ◌<◌, arith, ◌≡◌, refl, ap, subst, ◌∙◌, ◌⊎◌, inl, inr, Bool, List, ◌∷◌, Option, none,
  some, Bytes, if◌then◌else◌,
}
use esskyuehl.State.{
  Conn, ConnectType, World, Env, Act, done, wants_read, wants_write, act, if_cases, backend_io,
  fd_active_set, timer_reset,
}
use esskyuehl.Events.{
  Call, call_complete, event_error, go_on, after_io, connect_handler, run, step,
  connect_handler_step,
}
use esskyuehl.Mysql.{Mysac, Errno, no_error, other_error, want_read, want_write, switch_ret}
use esskyuehl.Mysql.Hooks
use esskyuehl.Mysql.Hooks.{MysacCalls, behind, over}

-- A code with which mysac waits for the server.
abbrev pub Waits : Errno → Type 0
Waits n = (n ≡ want_read) ⊎ (n ≡ want_write)

-- A code that is no failure.
abbrev pub NoFailure : Errno → Type 0
NoFailure n = (n ≡ no_error) ⊎ Waits n

-- The next `k` calls of the fd handler.
unfoldable pub wakes : Env → ℕ → ℕ → World × Option Call → World × Option Call
unfolding run
wakes env fuel zero s = s
wakes env fuel (suc k) s = wakes env fuel k (run env fuel connect_handler s.0)

-- The calls that mysac's last code makes.
pub no_error-call :
    (env : Env) (w : World) → after_io env (switch_ret no_error) w ≡ (w, some call_complete)
unfolding switch_ret
no_error-call env w = refl

pub other_error-call :
    (env : Env) (n : ℕ) (w : World)
    → after_io env (switch_ret (other_error n)) w ≡ (w, some event_error)
unfolding switch_ret
other_error-call env n w = refl

-- For `k` calls of the fd handler `current` stays, and no call is left to make.
abbrev pub UnderWay : ConnectType → Env → ℕ → ℕ → World × Option Call → Type 0
UnderWay current env fuel k s =
    (i : ℕ) → i < k → ((wakes env fuel i s).0.e.current ≡ current) × ((wakes env fuel i s).1 ≡ none)

-- For `k` calls of the fd handler the connection stays as it is in `c`, and no call is left to
-- make.
abbrev pub Stays : Conn → Env → ℕ → ℕ → World × Option Call → Type 0
Stays c env fuel k s =
    (i : ℕ) → i < k → ((wakes env fuel i s).0.e ≡ c) × ((wakes env fuel i s).1 ≡ none)

pub Stays-UnderWay :
    (c : Conn) (env : Env) (fuel k : ℕ) (s : World × Option Call)
    → Stays c env fuel k s
    → UnderWay c.current env fuel k s
Stays-UnderWay c env fuel k s h i l = (ap (λ (d : Conn). d.current) (h i l).0, (h i l).1)

module _ {ℓ} {R : Type ℓ} (lib : MysacCalls R) where
  -- From `m` on, mysac waits `k` times and then ends with the code `c`, which leaves `n`.
  pub data Ends (c : Errno) : Mysac → ℕ → Mysac → Type ℓ where
    ends : {m : Mysac} → (lib.mysac_io m).1 ≡ c → Ends c m 0 (lib.mysac_io m).0
    waits :
        {m n : Mysac} {k : ℕ}
        → Waits (lib.mysac_io m).1
        → Ends c (lib.mysac_io m).0 k n
        → Ends c m (suc k) n

module _ {ℓ} {R : Type ℓ} (lib : MysacCalls R) (database : List Act → Option Bytes)
    (m₀ : Mysac) where
  -- `v` is `v₀` but for the calls made since, behind which the MYSAC is `m`.
  pub record At (v₀ : World) (m : Mysac) (v : World) : Type 0 where
    pub same : v ≡ record v₀ { acts = v.acts }
    pub stands : behind lib database m₀ v.acts ≡ m

  pub act-At :
      (v₀ : World) (a : Act) (m n : Mysac) (v : World)
      → behind lib database m₀ (a ∷ v.acts) ≡ n
      → At v₀ m v
      → At v₀ n (act a v)
  act-At v₀ a m n v e h = record {
    same = ap (λ (x : World). record x { acts = a ∷ v.acts }) h.same;
    stands = e;
  }

  -- A call that mysac does not see, made or not.
  pub if_act-At :
      (v₀ : World) (b : Bool) (a : Act) (m : Mysac) (v : World)
      → behind lib database m₀ (a ∷ v.acts) ≡ behind lib database m₀ v.acts
      → At v₀ m v
      → At v₀ m (if b then act a v else v)
  if_act-At v₀ b a m v e h = if_cases (At v₀ m) b (act a v) v (act-At v₀ a m m v (e ∙ h.stands) h) h

  module _ (env : Env) (v₀ : World) where
    abbrev pub mysql : Env
    mysql = over lib database m₀ env

    -- The world in which the handler asks mysac for progress, and the one behind that.
    abbrev pub polled : World → World
    polled w =
        let v = if w.e.fdh then act (fd_active_set done) w else w in
        if v.e.timeout_timer then act timer_reset v else v

    abbrev pub after_poll : World → World
    after_poll w = act backend_io (polled w)

    polled-At : (m : Mysac) (v : World) → At v₀ m v → At v₀ m (polled v)
    polled-At m v h =
        let u = if v.e.fdh then act (fd_active_set done) v else v in
        if_act-At v₀ u.e.timeout_timer timer_reset m u (unfold behind in refl)
          (if_act-At v₀ v.e.fdh (fd_active_set done) m v (unfold behind in refl) h)

    pub after_poll-At :
        (m : Mysac) (v : World) → At v₀ m v → At v₀ (lib.mysac_io m).0 (after_poll v)
    after_poll-At m v h =
        let g = polled-At m v h in
        act-At v₀ backend_io m (lib.mysac_io m).0 (polled v)
          (unfold behind in unfold Hooks.io in ap (λ n. (lib.mysac_io n).0) g.stands) g

    -- What the handler comes to, by the code that mysac gives.
    pub handler-code :
        (m : Mysac) (v : World) (n : Errno)
        → At v₀ m v
        → (lib.mysac_io m).1 ≡ n
        → step mysql connect_handler v ≡ after_io mysql (switch_ret n) (after_poll v)
    unfolding step connect_handler_step over
    handler-code m v n h e =
        ap (λ c. after_io mysql (switch_ret c) (after_poll v))
          (ap (λ x. (lib.mysac_io x).1) (polled-At m v h).stands ∙ e)

    wait-At :
        (m : Mysac) (v : World) (fuel : ℕ)
        → At v₀ m v
        → Waits (lib.mysac_io m).1
        → At v₀ (lib.mysac_io m).0 (run mysql (suc fuel) connect_handler v).0
          × ((run mysql (suc fuel) connect_handler v).1 ≡ none)
    unfolding run switch_ret
    wait-At m v fuel h (inl e) =
        let b = after_poll-At m v h in
        rw (handler-code m v want_read h e)
          (act-At v₀ (fd_active_set wants_read) _ _ _ (unfold behind in b.stands) b, refl)
    wait-At m v fuel h (inr e) =
        let b = after_poll-At m v h in
        rw (handler-code m v want_write h e)
          (act-At v₀ (fd_active_set wants_write) _ _ _ (unfold behind in b.stands) b, refl)

    Stays-suc :
        (fuel k : ℕ) (v : World)
        → (run mysql fuel connect_handler v).0.e ≡ v₀.e
        → (run mysql fuel connect_handler v).1 ≡ none
        → Stays v₀.e mysql fuel k
            (run mysql fuel connect_handler (run mysql fuel connect_handler v).0)
        → Stays v₀.e mysql fuel (suc k) (run mysql fuel connect_handler v)
    unfolding wakes
    Stays-suc fuel k v a b later zero l = (a, b)
    Stays-suc fuel k v a b later (suc i) l = later i (omega arith)

    -- The state in which the fd handler is called for the last time.
    pub record Last (c : Errno) (n : Mysac) (k fuel : ℕ) (s : World × Option Call) : Type 0 where
      pub m : Mysac
      pub v : World
      pub at : At v₀ m v
      pub code : (lib.mysac_io m).1 ≡ c
      pub left : (lib.mysac_io m).0 ≡ n
      pub is_last : wakes mysql fuel k s ≡ run mysql fuel connect_handler v

    pub wakes-Last :
        {c : Errno} {m n : Mysac} {k : ℕ} (v : World) (fuel : ℕ)
        → Ends lib c m k n
        → At v₀ m v
        → Stays v₀.e mysql (suc fuel) k (run mysql (suc fuel) connect_handler v)
          × Last c n k (suc fuel) (run mysql (suc fuel) connect_handler v)
    unfolding wakes
    wakes-Last {m = m} v fuel (ends e) h = (
      (λ i l. absurd (omega arith)),
      record { m = m; v = v; at = h; code = e; left = refl; is_last = refl },
    )
    wakes-Last {m = m} v fuel (waits {k = k} e s) h =
        let (a, b) = wait-At m v fuel h e in
        let (under, last) = wakes-Last (run mysql (suc fuel) connect_handler v).0 fuel s a in
        (
          Stays-suc (suc fuel) k v (ap (λ (x : World). x.e) a.same) b under,
          record {
            m = last.m;
            v = last.v;
            at = last.at;
            code = last.code;
            left = last.left;
            is_last = last.is_last;
          },
        )

    -- The last of those calls, where mysac ends with a code that makes the call `d`.
    pub Last-run :
        {c : Errno} {n : Mysac} {k fuel : ℕ} {s : World × Option Call} (d : Call)
        → ((w : World) → after_io mysql (switch_ret c) w ≡ (w, some d))
        → Last c n k (suc fuel) s
        → (u : World) × At v₀ n u × (wakes mysql (suc fuel) k s ≡ run mysql fuel d u)
    Last-run {c} {n} {k} {fuel} d by_code last = (
      after_poll last.v,
      subst (λ x. At v₀ x (after_poll last.v)) last.left (after_poll-At last.m last.v last.at),
      last.is_last
          ∙ (unfold run in
              ap (go_on (run mysql fuel))
                (handler-code last.m last.v c last.at last.code ∙ by_code (after_poll last.v))),
    )
