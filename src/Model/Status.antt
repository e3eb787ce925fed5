-- ===== src/Model/Status.antt =====
-- The load state of a model that connects.
use Prim.Native.Nat.{bit_or}
use esskyuehl.Prelude.{
  ℕ, ◌≡◌, ◌≢◌, ◌⊎◌, refl, ap, ◌∙◌, Bool, true, false, not, ◌∷◌, arith, if◌then◌else◌, is_some,
}
use esskyuehl.State.{Env}
use esskyuehl.Model.{
  Masks, Model, settle, has_load, next_status, set_status, load_set, connect_cb, load,
}

set_status-status : (k : Masks) (t : ℕ) (m : Model) → (set_status k t m).status ≡ t
unfolding set_status
set_status-status k t m = ground arith

set_status_cases :
    (k : Masks) (t : ℕ) (m : Model)
    → ((set_status k t m).announced ≡ m.announced) × ((set_status k t m).status ≡ m.status)
      ⊎ ((set_status k t m).announced ≡ (set_status k t m).status ∷ m.announced)
        × ((set_status k t m).status ≢ m.status)
unfolding set_status
set_status_cases k t m = ground arith

-- An announcement is made for each change of the state, and for nothing else.
pub load_set_cases :
    (k : Masks) (s : ℕ) (m : Model)
    → ((load_set k s m).announced ≡ m.announced) × ((load_set k s m).status ≡ m.status)
      ⊎ ((load_set k s m).announced ≡ (load_set k s m).status ∷ m.announced)
        × ((load_set k s m).status ≢ m.status)
unfolding load_set
load_set_cases k s m = set_status_cases k (next_status k m.status s) m

-- What is relied on of the values: the states of a load are seen by the mask, and the two together
-- are none of the four states of one part.
pub record Distinct (k : Masks) : Type 0 where
  pub unloaded_unseen : has_load k k.unloaded ≡ false
  pub old_seen : has_load k k.loading ≡ true
  pub new_seen : has_load k k.loaded ≡ true
  pub ne_loaded_properties : bit_or k.loading k.loaded ≢ k.loaded_properties
  pub ne_loading_properties : bit_or k.loading k.loaded ≢ k.loading_properties
  pub ne_loaded_children : bit_or k.loading k.loaded ≢ k.loaded_children
  pub ne_loading_children : bit_or k.loading k.loaded ≢ k.loading_children

connect_cb-loading :
    (k : Masks) (m : Model)
    → Distinct k
    → m.status ≡ k.loading
    → (connect_cb k m).status ≡ bit_or k.loading k.loaded
unfolding connect_cb load_set
connect_cb-loading k m d e =
    set_status-status k (next_status k m.status k.loaded) m
    ∙ ap (λ s. next_status k s k.loaded) e
    ∙ unfold next_status in rw (d.old_seen, d.new_seen) settled
  where
    settled : settle k (bit_or k.loading k.loaded) ≡ bit_or k.loading k.loaded
    settled =
        unfold settle in
        ground (
          arith, d.ne_loaded_properties, d.ne_loading_properties, d.ne_loaded_children,
          d.ne_loading_children,
        )

third :
    (b c : Bool) (x y z : Model)
    → b ≡ true
    → c ≡ false
    → (if not b then x else if c then y else z).status ≡ z.status
third true false x y z e f = refl
third true true x y z e f = cc
third false c x y z e f = cc

load-status :
    (k : Masks) (env : Env) (m : Model)
    → Distinct k
    → is_some m.world.e.database ≡ true
    → m.world.e.connected ≡ false
    → m.status ≡ k.unloaded
    → (load k env m).status ≡ k.loading
unfolding load load_set
load-status k env m d some_db down e =
    third (is_some m.world.e.database) m.world.e.connected _ _ _ some_db down
    ∙ set_status-status k (next_status k m.status k.loading) m
    ∙ ap (λ s. next_status k s k.loading) e
    ∙ unfold next_status in rw d.unloaded_unseen

-- A model that is loaded over a connection that is down, and whose connection then comes up, ends
-- in the state of the load and of its end together, since the `switch` clears the bits of the load
-- only for a state of one part.
pub connect_cb-load :
    (k : Masks) (env : Env) (m : Model)
    → Distinct k
    → is_some m.world.e.database ≡ true
    → m.world.e.connected ≡ false
    → m.status ≡ k.unloaded
    → (connect_cb k (load k env m)).status ≡ bit_or k.loading k.loaded
connect_cb-load k env m d some_db down e =
    connect_cb-loading k (load k env m) d (load-status k env m d some_db down e)
