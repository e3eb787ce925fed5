-- ===== src/Object/Types.antt =====
-- Which types of database `esql_type_set` accepts.
use esskyuehl.Prelude.{
  ◌≡◌, refl, ap, ◌∙◌, Bool, true, false, not, ◌&&◌, ◌||◌, List, [], ◌∷◌, if◌then◌else◌,
}
use esskyuehl.State.{
  Conn, World, EsqlType, no_type, mysql, postgresql, sqlite, is_no_type, if_cases, act,
  backend_free,
}
use esskyuehl.Object.{same_type, module_init, init_modules, clear_backend, type_set}

-- A module of the type is loaded.
abbrev pub has_module : EsqlType → List EsqlType → Bool
has_module type [] = false
has_module type (m ∷ ms) = same_type type m || has_module type ms

module_init-kind :
    (type m : EsqlType) (c : Conn)
    → is_no_type type ≡ false
    → same_type type m ≡ true
    → same_type (module_init m c).kind type ≡ true
unfolding module_init
module_init-kind no_type m c n e = cc
module_init-kind mysql mysql c n e = refl
module_init-kind postgresql postgresql c n e = refl
module_init-kind sqlite sqlite c n e = refl
module_init-kind mysql no_type c n e = cc
module_init-kind mysql postgresql c n e = cc
module_init-kind mysql sqlite c n e = cc
module_init-kind postgresql no_type c n e = cc
module_init-kind postgresql mysql c n e = cc
module_init-kind postgresql sqlite c n e = cc
module_init-kind sqlite no_type c n e = cc
module_init-kind sqlite mysql c n e = cc
module_init-kind sqlite postgresql c n e = cc

or_true : (b : Bool) → (b || true) ≡ true
or_true true = refl
or_true false = refl

init_modules-kind :
    (type : EsqlType) (ms : List EsqlType) (c : Conn)
    → is_no_type type ≡ false
    → same_type (init_modules type ms c).kind type ≡ (has_module type ms || same_type c.kind type)
unfolding init_modules
init_modules-kind type [] c n = refl
init_modules-kind type (m ∷ ms) c n =
    by_test (same_type type m) refl (init_modules-kind type ms (module_init m c) n)
      (init_modules-kind type ms c n)
  where
    by_test :
        (b : Bool)
        → same_type type m ≡ b
        → same_type (init_modules type ms (module_init m c)).kind type
          ≡ (has_module type ms || same_type (module_init m c).kind type)
        → same_type (init_modules type ms c).kind type
          ≡ (has_module type ms || same_type c.kind type)
        → same_type (init_modules type ms (if b then module_init m c else c)).kind type
          ≡ ((b || has_module type ms) || same_type c.kind type)
    by_test true e new old =
        new
        ∙ ap (λ b. has_module type ms || b) (module_init-kind type m c n e)
        ∙ or_true (has_module type ms)
    by_test false e new old = old

-- `esql_type_set` succeeds for exactly the types of the loaded modules, and for the type that the
-- object has already.
pub type_set-has_module :
    (modules : List EsqlType) (type : EsqlType) (w : World)
    → is_no_type type ≡ false
    → (type_set modules type w).1 ≡ (has_module type modules || same_type w.e.kind type)
unfolding type_set
type_set-has_module modules type w n =
    init_modules-kind type modules (clear_backend v.e) n
    ∙ ap (λ (k : EsqlType). has_module type modules || same_type k type)
        (if_cases (λ u. u.e.kind ≡ w.e.kind) _ (act backend_free w) w refl refl)
  where
    v : World
    v = if not (same_type type w.e.kind) && (w.e.db && w.e.free_hook) then act backend_free w else w
