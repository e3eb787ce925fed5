-- ===== src/Events/Ledger.antt =====
-- What becomes of the texts of queries: sent to the backend, or waiting at a member.
pub mod Moves
pub mod Queues
pub mod Steps
pub mod Asked
pub mod Links
pub mod Callbacks
pub mod Turns
use esskyuehl.Prelude.{
  ℕ, suc, ◌+◌, ◌≡◌, refl, ap, ap₂, sym, subst, ◌∙◌, Bool, true, false, not, ◌&&◌, List, [], ◌∷◌,
  ◌++◌, Option, none, some, arith, Bytes, if◌then◌else◌, is_some, length, length-append, sum_of,
  sum_of-append,
}
use esskyuehl.State.{
  Conn, World, Env, Act, backend_query, SetFunc, set_database, run_query, CallId, if_cases, is_idle,
  is_mysql, act, set_e, members,
}
use esskyuehl.State
use esskyuehl.Connect.{database_set, queue_database}
use esskyuehl.Events.{
  Taken, take_query, take_head_query, give_query, rebalance, update_lists, text_of, param_at,
  drop_head,
}
use esskyuehl.Events.Rebalance.{
  TakesFirst, here, there, Rebalanced, from_before, from_after, nothing, rebalance-Rebalanced,
}
use esskyuehl.Events.Sound.{pick}

-- The texts that the backend was given, the last one first.
abbrev pub sent_texts : List Act → List Bytes
sent_texts [] = []
sent_texts (backend_query q len ∷ h) = q ∷ sent_texts h
sent_texts (_ ∷ h) = sent_texts h

-- The calls of a queue have a parameter each.
abbrev pub Paired : Conn → Type 0
Paired c = length c.backend_set_funcs ≡ length c.backend_set_params

abbrev pub AllPaired : List Conn → Type 0
AllPaired [] = Unit
AllPaired (c ∷ cs) = Paired c × AllPaired cs

-- The weights of texts may be any: with 1 for one text and 0 for the others they count it.
module _ (f : Bytes → ℕ) where
  abbrev pub weight : List SetFunc → List (Option Bytes) → ℕ
  weight (run_query ∷ fs) (p ∷ ps) = f (text_of p) + weight fs ps
  weight (set_database ∷ fs) (p ∷ ps) = weight fs ps
  weight [] ps = 0
  weight (g ∷ fs) [] = 0

  -- What the texts that wait at a member weigh together.
  abbrev pub waiting : Conn → ℕ
  waiting c = weight c.backend_set_funcs c.backend_set_params

  abbrev pub waiting_in_all : World → ℕ
  waiting_in_all w = sum_of waiting w.before + waiting w.e + sum_of waiting w.after

  -- What the texts that were sent and those that wait weigh together.
  abbrev pub total : World → ℕ
  total w = sum_of f (sent_texts w.acts) + waiting_in_all w

  pub weight-run :
      (fs : List SetFunc) (ps : List (Option Bytes)) (p : Option Bytes)
      → length fs ≡ length ps
      → weight (fs ++ run_query ∷ []) (ps ++ p ∷ []) ≡ weight fs ps + f (text_of p)
  weight-run [] [] p h = omega arith
  weight-run [] (o ∷ ps) p h = absurd (omega (arith, h))
  weight-run (g ∷ fs) [] p h = absurd (omega (arith, h))
  weight-run (run_query ∷ fs) (o ∷ ps) p h = omega (arith, weight-run fs ps p (omega (arith, h)))
  weight-run (set_database ∷ fs) (o ∷ ps) p h = weight-run fs ps p (omega (arith, h))

  pub weight-set :
      (fs : List SetFunc) (ps : List (Option Bytes)) (p : Option Bytes)
      → length fs ≡ length ps
      → weight (fs ++ set_database ∷ []) (ps ++ p ∷ []) ≡ weight fs ps
  weight-set [] [] p h = refl
  weight-set [] (o ∷ ps) p h = absurd (omega (arith, h))
  weight-set (g ∷ fs) [] p h = absurd (omega (arith, h))
  weight-set (run_query ∷ fs) (o ∷ ps) p h = omega (arith, weight-set fs ps p (omega (arith, h)))
  weight-set (set_database ∷ fs) (o ∷ ps) p h = weight-set fs ps p (omega (arith, h))

  pub weight-drop_run :
      (fs gs : List SetFunc) (ps : List (Option Bytes))
      → fs ≡ run_query ∷ gs
      → length fs ≡ length ps
      → (weight fs ps
          ≡ f (text_of (param_at ps))
            + weight (drop_head run_query fs fs) (drop_head run_query fs ps))
        × (length (drop_head run_query fs fs) ≡ length (drop_head run_query fs ps))
  weight-drop_run [] gs ps e h = cc
  weight-drop_run (set_database ∷ fs) gs ps e h = cc
  weight-drop_run (run_query ∷ fs) gs [] e h = absurd (omega (arith, h))
  weight-drop_run (run_query ∷ fs) gs (p ∷ ps) e h = (refl, omega (arith, h))

  pub weight-drop_set :
      (fs : List SetFunc) (ps : List (Option Bytes))
      → length fs ≡ length ps
      → (weight (drop_head set_database fs fs) (drop_head set_database fs ps) ≡ weight fs ps)
        × (length (drop_head set_database fs fs) ≡ length (drop_head set_database fs ps))
  weight-drop_set [] [] h = (refl, refl)
  weight-drop_set [] (p ∷ ps) h = absurd (omega (arith, h))
  weight-drop_set (g ∷ fs) [] h = absurd (omega (arith, h))
  weight-drop_set (run_query ∷ fs) (p ∷ ps) h = (refl, h)
  weight-drop_set (set_database ∷ fs) (p ∷ ps) h = (refl, omega (arith, h))

  -- The books of a pool: its texts weigh `n` together.
  pub record Ledger (n : ℕ) (w : World) : Type 0 where
    pub balance : total w ≡ n
    pub paired_before : AllPaired w.before
    pub paired : Paired w.e
    pub paired_after : AllPaired w.after

  -- What the books stand on is the same.
  abbrev pub Kept : World → World → Type 0
  Kept w v =
      (v.before ≡ w.before)
      × (v.after ≡ w.after)
      × (v.e.backend_set_funcs ≡ w.e.backend_set_funcs)
      × (v.e.backend_set_params ≡ w.e.backend_set_params)
      × (sent_texts v.acts ≡ sent_texts w.acts)

  pub Kept-Ledger : (n : ℕ) (w v : World) → Kept w v → Ledger n w → Ledger n v
  Kept-Ledger n w v k l = record {
    balance =
        ap₂ (λ a b. a + b) (ap (sum_of f) k.4)
          (ap₂ (λ a b. a + b) (ap₂ (λ a b. a + b) (ap (sum_of waiting) k.0) (ap₂ weight k.2 k.3))
            (ap (sum_of waiting) k.1))
        ∙ l.balance;
    paired_before = subst AllPaired (sym k.0) l.paired_before;
    paired = ap length k.2 ∙ l.paired ∙ ap length (sym k.3);
    paired_after = subst AllPaired (sym k.1) l.paired_after;
  }

  -- A change of the queue in hand that is made up for by what is sent or asked for.
  pub booked :
      (n m : ℕ) (w v : World)
      → v.before ≡ w.before
      → v.after ≡ w.after
      → Paired v.e
      → sum_of f (sent_texts v.acts) + waiting v.e ≡ sum_of f (sent_texts w.acts) + waiting w.e + m
      → Ledger n w
      → Ledger (n + m) v
  booked n m w v b a p e l = record {
    balance = omega (arith, e, l.balance, ap (sum_of waiting) b, ap (sum_of waiting) a);
    paired_before = subst AllPaired (sym b) l.paired_before;
    paired = p;
    paired_after = subst AllPaired (sym a) l.paired_after;
  }
