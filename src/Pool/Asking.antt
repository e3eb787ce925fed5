-- ===== src/Pool/Asking.antt =====
-- A query that is made on a pool: which member it goes to, and what it leaves alone.
use esskyuehl.Prelude.{
  ℕ, zero, suc, ◌+◌, ◌≤◌, ◌<◌, ◌≡◌, ◌≢◌, refl, ap, ap₂, sym, ◌∙◌, subst, inl, inr, true, List, [],
  ◌∷◌, ◌++◌, Option, some, arith, Bytes, length, length-append, if_true,
}
use esskyuehl.State.{Conn, World, Env, members}
use esskyuehl.Query.{query}
use esskyuehl.Pool.{shift_to, shift, rewind, from_list, shifts, focus, idle_find, pool_query}
use esskyuehl.Pool.Walk.{shift_to-members, members-NonEmpty}
use esskyuehl.Pool.Idle.{FirstIdle, AgeAt, Chosen, idle_find-Chosen}
use esskyuehl.Events.Sound.Asking.{query-Settled}

FirstIdle-lt : (k : ℕ) (cs : List Conn) (i : ℕ) → FirstIdle k cs i → i < k + length cs
FirstIdle-lt k [] i h = absurd h
FirstIdle-lt k (c ∷ cs) i (inl h) = omega (arith, h.1)
FirstIdle-lt k (c ∷ cs) i (inr h) = omega (arith, FirstIdle-lt (k + 1) cs i h.1)

AgeAt-lt : (now k : ℕ) (cs : List Conn) (i age : ℕ) → AgeAt now k cs i age → i < k + length cs
AgeAt-lt now k [] i age h = absurd h
AgeAt-lt now k (c ∷ cs) i age (inl h) = omega (arith, h.0)
AgeAt-lt now k (c ∷ cs) i age (inr h) = omega (arith, AgeAt-lt now (k + 1) cs i age h)

-- The place is one of the list.
Chosen-lt : (now : ℕ) (cs : List Conn) (i : ℕ) → cs ≢ [] → Chosen now cs i → i < length cs
Chosen-lt now cs i n (inl h) = omega (arith, FirstIdle-lt 0 cs i h)
Chosen-lt now cs i n (inr (h, inl (age, a, o))) = omega (arith, AgeAt-lt now 0 cs i age a)
Chosen-lt now [] i n (inr (h, inr (z, o))) = absurd (n refl)
Chosen-lt now (c ∷ cs) i n (inr (h, inr (z, o))) = omega (arith, z)

-- `v` is `w` with the member at the place `i` taken in hand.
abbrev Focused : ℕ → World → World → Type 0
Focused i w v =
    (xs : List Conn) × (c : Conn) × (ys : List Conn) × (v
      ≡ record w { before = xs; e = c; after = ys })
    × (members w ≡ xs ++ c ∷ ys)
    × (length xs ≡ i)

shifts-Focused :
    (i : ℕ) (w : World) (cs : List Conn)
    → w.after ≡ cs
    → i ≤ length cs
    → Focused (length w.before + i) w (shifts i w)
unfolding shifts shift
shifts-Focused zero w cs e h = (w.before, w.e, w.after, refl, refl, omega arith)
shifts-Focused (suc i) w [] e h = absurd (omega (arith, h))
shifts-Focused (suc i) w (c ∷ cs) e h =
    let u = record w { before = w.before ++ w.e ∷ []; e = c; after = cs } in
    let (xs, d, ys, a, m, l) = shifts-Focused i u cs refl (omega (arith, h)) in
    (
      xs,
      d,
      ys,
      ap (λ ds. shifts i (shift_to w ds)) e ∙ a,
      sym (shift_to-members w (c ∷ cs) e) ∙ m,
      omega (arith, l, length-append w.before (w.e ∷ [])),
    )

from_list-Focused :
    (i : ℕ) (w : World) (cs : List Conn)
    → members w ≡ cs
    → i < length cs
    → Focused i w (shifts i (from_list cs w))
from_list-Focused i w [] e h = absurd (omega (arith, h))
from_list-Focused i w (c ∷ cs) e h =
    let u = record w { before = []; e = c; after = cs } in
    let (xs, d, ys, a, m, l) = shifts-Focused i u cs refl (omega (arith, h)) in
    (xs, d, ys, a, e ∙ m, omega (arith, l))

focus-Focused : (i : ℕ) (w : World) → i < length (members w) → Focused i w (focus i w)
unfolding focus rewind
focus-Focused i w h = from_list-Focused i w (members w) refl h

-- A query on a connected pool is the query on one member, which `Chosen` describes, with the same
-- result; every other member is left as it was, and in its place.
pub pool_query-Chosen :
    (env : Env) (p : Option ℕ) (q : Bytes) (w : World)
    → w.ep.connected ≡ true
    → (xs : List Conn) × (c d : Conn) × (ys : List Conn) × (members w ≡ xs ++ c ∷ ys)
      × Chosen (env.time w.acts) (members w) (length xs)
      × (pool_query env p (some q) w
          ≡ query env p (some q) (record w { before = xs; e = c; after = ys }))
      × (members (pool_query env p (some q) w).0 ≡ xs ++ d ∷ ys)
unfolding pool_query
pool_query-Chosen env p q w h =
    let now = env.time w.acts in
    let i = idle_find now (members w) in
    let o = idle_find-Chosen now (members w) in
    let lt = Chosen-lt now (members w) i (members-NonEmpty w.before w.e w.after) o in
    let (xs, c, ys, a, m, l) = focus-Focused i w lt in
    let u = record w { before = xs; e = c; after = ys } in
    let r = query env p (some q) u in
    let s = query-Settled env p (some q) u in
    let e : pool_query env p (some q) w ≡ r =
      if_true w.ep.connected _ _ h ∙ ap (query env p (some q)) a in
    (
      xs,
      c,
      r.0.e,
      ys,
      m,
      subst (Chosen now (members w)) (sym l) o,
      e,
      ap (λ (x : World × ℕ). members x.0) e ∙ ap₂ (λ bs zs. bs ++ r.0.e ∷ zs) s.0.0 s.0.1,
    )
