-- ===== src/Pool/Settings.antt =====
-- What the getters say behind the setters, on a pool and on its members.
use esskyuehl.Prelude.{
  ℤ, pos, negsuc, ℕ, zero, suc, ◌≡◌, ◌≢◌, refl, ap, sym, subst, ◌∙◌, Bool, true, List, [], ◌∷◌,
  ◌++◌, some, arith, length, All,
}
use esskyuehl.State.{Conn, World, members}
use esskyuehl.State
use esskyuehl.Connect.{is_positive, connect_timeout_set}
use esskyuehl.Object.Getters.{conn, pool, connect_timeout_get}
use esskyuehl.Pool.Walk.{members-NonEmpty}
use esskyuehl.Pool.{shift, shift_to, rewind, from_list, walk, each, pool_connect_timeout_set}

All-join :
    (P : Conn → Type 0) (xs : List Conn) (c : Conn) (ys : List Conn)
    → All P xs
    → P c
    → All P ys
    → All P (xs ++ c ∷ ys)
All-join P [] c ys a p b = (p, b)
All-join P (x ∷ xs) c ys a p b = (a.0, All-join P xs c ys a.1 p b)

shift_to-ep : (w : World) (cs : List Conn) → (shift_to w cs).ep ≡ w.ep
shift_to-ep w [] = refl
shift_to-ep w (c ∷ cs) = refl

from_list-ep : (cs : List Conn) (w : World) → (from_list cs w).ep ≡ w.ep
from_list-ep [] w = refl
from_list-ep (c ∷ cs) w = refl

-- A body that makes `P` true of the connection in hand and touches no other one nor the pool.
pub record Settles (P : Conn → Type 0) (f : World → World × Bool) : Type 0 where
  pub does : (v : World) → P (f v).0.e
  pub same_before : (v : World) → (f v).0.before ≡ v.before
  pub same_after : (v : World) → (f v).0.after ≡ v.after
  pub same_ep : (v : World) → (f v).0.ep ≡ v.ep

module _ (P : Conn → Type 0) (f : World → World × Bool) (s : Settles P f) where
  walk-All :
      (cs : List Conn) (w : World)
      → w.after ≡ cs
      → All P w.before
      → All P (members (walk (suc (length cs)) f w).0)
  unfolding walk shift
  walk-All [] w e b =
      let v = (f w).0 in
      let q = s.same_after w ∙ e in
      subst (λ l. All P (members (shift_to v l))) (sym q)
        (All-join P v.before v.e v.after (subst (All P) (sym (s.same_before w)) b) (s.does w)
          (subst (All P) (sym q) tt))
  walk-All (c ∷ cs) w e b =
      let v = (f w).0 in
      subst (λ l. All P (members (walk (suc (length cs)) f (shift_to v l)).0))
        (sym (s.same_after w ∙ e))
        (walk-All cs (record v { before = v.before ++ v.e ∷ []; e = c; after = cs }) refl
          (All-join P v.before v.e [] (subst (All P) (sym (s.same_before w)) b) (s.does w) tt))

  walk-ep : (n : ℕ) (w : World) → (walk n f w).0.ep ≡ w.ep
  unfolding walk shift
  walk-ep zero w = refl
  walk-ep (suc n) w = let v = (f w).0 in walk-ep n (shift v) ∙ shift_to-ep v v.after ∙ s.same_ep w

  each-All : (w : World) → All P (members (each f w).0)
  unfolding each rewind
  each-All w = from_list-All (members w) (members-NonEmpty w.before w.e w.after)
    where
      from_list-All :
          (cs : List Conn) → cs ≢ [] → All P (members (walk (length cs) f (from_list cs w)).0)
      from_list-All [] n = absurd (n refl)
      from_list-All (c ∷ cs) n = walk-All cs (record w { before = []; e = c; after = cs }) refl tt

  each-ep : (w : World) → (each f w).0.ep ≡ w.ep
  unfolding each rewind
  each-ep w = walk-ep (length (members w)) (from_list (members w) w) ∙ from_list-ep (members w) w

-- The timeout, or 0 for a negative one.
abbrev pub at_least_zero : ℤ → ℤ
at_least_zero (pos n) = pos n
at_least_zero (negsuc n) = pos 0

-- A connection whose timeout was set to `t`, with a timer if `t` is positive.
abbrev pub TimesOut : ℤ → Conn → Type 0
TimesOut t c =
    (connect_timeout_get (some (conn c)) ≡ some (at_least_zero t))
    × (c.timeout_timer ≡ is_positive t)

connect_timeout_set-Settles : (t : ℤ) → Settles (TimesOut t) (λ v. (connect_timeout_set t v, true))
unfolding connect_timeout_set
connect_timeout_set-Settles (pos t) = record {
  does = λ v. ground arith;
  same_before = λ v. ground arith;
  same_after = λ v. ground arith;
  same_ep = λ v. ground arith;
}
connect_timeout_set-Settles (negsuc t) = record {
  does = λ v. (refl, refl);
  same_before = λ v. ground arith;
  same_after = λ v. ground arith;
  same_ep = λ v. ground arith;
}

-- Behind `esql_connect_timeout_set` on a pool `esql_connect_timeout_get` gives that timeout for the
-- pool, a negative one too, and for each of its members the same or, if it is negative, 0; and a
-- member has a timer exactly if the timeout is positive.
pub pool_connect_timeout_set-get :
    (t : ℤ) (w : World)
    → (connect_timeout_get (some (pool (pool_connect_timeout_set t w).ep)) ≡ some t)
      × All (TimesOut t) (members (pool_connect_timeout_set t w))
unfolding pool_connect_timeout_set
pool_connect_timeout_set-get t w = (
  ap (λ (p : State.Pool). some p.timeout) (each-ep _ _ (connect_timeout_set-Settles t) v),
  each-All _ _ (connect_timeout_set-Settles t) v,
)
  where
    v : World
    v = record w { ep = record (w.ep) { timeout = t } }
