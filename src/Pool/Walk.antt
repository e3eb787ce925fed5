-- ===== src/Pool/Walk.antt =====
-- The loops over a pool's members, and the members of a new pool.
use esskyuehl.Prelude.{
  ℕ, zero, suc, ◌+◌, ◌≤◌, ◌≡◌, ◌≢◌, refl, ap, sym, ◌∙◌, Bool, true, false, List, [], ◌∷◌, ◌++◌, map,
  append_assoc, some, arith, if◌then◌else◌, length,
}
use esskyuehl.State.{
  Conn, World, EsqlType, no_type, mysql, postgresql, sqlite, is_no_type, members, set_e, if_cases,
}
use esskyuehl.State
use esskyuehl.Connect.{reconnect_set}
use esskyuehl.Object.{new, init_modules, module_init, same_type, clear_backend, blank}
use esskyuehl.Pool.{
  shift, shift_to, rewind, from_list, walk, each, pool_reconnect_set, new_members, pool_new,
  blank_pool,
}

-- A loop body that only replaces the connection in hand.
abbrev pub replace : (Conn → Conn) → World → World × Bool
replace f v = (set_e (f v.e) v, true)

pub shift_to-members :
    (w : World) (cs : List Conn) → w.after ≡ cs → members (shift_to w cs) ≡ members w
shift_to-members w [] e = refl
shift_to-members w (c ∷ cs) e =
    append_assoc w.before (w.e ∷ []) (c ∷ cs) ∙ ap (λ l. w.before ++ w.e ∷ l) (sym e)

-- Each member from the one in hand on is given to the body once, before any other change of it.
walk-map :
    (f : Conn → Conn) (cs : List Conn) (w : World)
    → w.after ≡ cs
    → members (walk (suc (length cs)) (replace f) w).0 ≡ w.before ++ f w.e ∷ map f cs
unfolding walk shift
walk-map f [] w e =
    shift_to-members (set_e (f w.e) w) w.after refl ∙ ap (λ l. w.before ++ f w.e ∷ l) e
walk-map f (c ∷ ds) w e =
    ap (λ l. members (walk (suc (length ds)) (replace f) (shift_to (set_e (f w.e) w) l)).0) e
    ∙ walk-map f ds (shift_to (set_e (f w.e) w) (c ∷ ds)) refl
    ∙ append_assoc w.before (f w.e ∷ []) (f c ∷ map f ds)

from_list-map :
    (f : Conn → Conn) (cs : List Conn) (w : World)
    → cs ≢ []
    → members (walk (length cs) (replace f) (from_list cs w)).0 ≡ map f cs
from_list-map f [] w n = absurd (n refl)
from_list-map f (c ∷ cs) w n = walk-map f cs (record w { before = []; e = c; after = cs }) refl

pub members-NonEmpty : (xs : List Conn) (c : Conn) (ys : List Conn) → (xs ++ c ∷ ys) ≢ []
members-NonEmpty [] c ys = λ p. cc
members-NonEmpty (x ∷ xs) c ys = λ p. cc

-- The loop over a pool from its first member, whichever was in hand, is a map over the members.
each-map : (f : Conn → Conn) (w : World) → members (each (replace f) w).0 ≡ map f (members w)
unfolding each rewind
each-map f w = from_list-map f (members w) w (members-NonEmpty w.before w.e w.after)

abbrev pub with_reconnect : Bool → Conn → Conn
with_reconnect enable c = record c { reconnect = enable }

-- `esql_reconnect_set` on a pool gives the setting to each member once, and changes nothing else of
-- any of them nor their order.
pub pool_reconnect_set-members :
    (enable : Bool) (w : World)
    → members (pool_reconnect_set enable w) ≡ map (with_reconnect enable) (members w)
unfolding pool_reconnect_set reconnect_set
pool_reconnect_set-members enable w =
    each-map (with_reconnect enable) (record w { ep = record (w.ep) { reconnect = enable } })

module_init-connected : (m : EsqlType) (c : Conn) → (module_init m c).connected ≡ c.connected
unfolding module_init
module_init-connected mysql c = refl
module_init-connected postgresql c = refl
module_init-connected sqlite c = refl
module_init-connected no_type c = refl

one_of-connected :
    (b : Bool) (d c : Conn)
    → d.connected ≡ c.connected
    → (if b then d else c).connected ≡ c.connected
one_of-connected true d c e = e
one_of-connected false d c e = refl

init_modules-connected :
    (type : EsqlType) (modules : List EsqlType) (c : Conn)
    → (init_modules type modules c).connected ≡ c.connected
unfolding init_modules
init_modules-connected type [] c = refl
init_modules-connected type (m ∷ ms) c =
    init_modules-connected type ms (if same_type type m then module_init m c else c)
    ∙ one_of-connected (same_type type m) (module_init m c) c (module_init-connected m c)

-- A member of a new pool, with its id.
abbrev pub IsNew : ℕ → Conn → Type 0
IsNew i c = (c.pool_member ≡ true) × (c.pool_id ≡ i) × (c.connected ≡ false)

abbrev pub AllNew : ℕ → List Conn → Type 0
AllNew i [] = Unit {0}
AllNew i (c ∷ cs) = IsNew i c × AllNew (i + 1) cs

new_members-AllNew :
    (modules : List EsqlType) (type : EsqlType) (n i : ℕ)
    → AllNew i (new_members modules type n i) × (length (new_members modules type n i) ≡ n)
unfolding new_members new
new_members-AllNew modules type zero i = (tt, refl)
new_members-AllNew modules type (suc n) i =
    let (a, b) = new_members-AllNew modules type n (i + 1) in
    (((refl, refl, init_modules-connected type modules (clear_backend blank)), a), ap suc b)

-- A new pool of at least one connection, with a backend, has as many members as were asked for,
-- which are numbered from 0 in order, are marked as a pool's, and are not connected; and it counts
-- none of them as connected.
pub pool_new-AllNew :
    (modules : List EsqlType) (size : ℕ) (type : EsqlType)
    → 1 ≤ size
    → is_no_type type ≡ false
    → (p : State.Pool) × (cs : List Conn) × (pool_new modules size type ≡ some (p, cs))
      × AllNew 0 cs
      × (length cs ≡ size)
      × (p.size ≡ size)
      × (p.e_connected ≡ 0)
pool_new-AllNew modules size type h t =
    let (a, b) = new_members-AllNew modules type size 0 in
    (
      record blank_pool { kind = type; size = size },
      new_members modules type size 0,
      unfold pool_new in ground arith,
      a,
      b,
      refl,
      refl,
    )
