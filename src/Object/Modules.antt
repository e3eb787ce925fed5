-- ===== src/Object/Modules.antt =====
-- `module_check` (src/lib/esql.c) over the files that `eina_module_list_get` finds.
use esskyuehl.Prelude.{
  ℕ, zero, suc, ◌-◌, ◌≤◌, ◌<◌, ◌⊎◌, inl, inr, ◌≡◌, ◌≢◌, refl, ap, sym, ◌∙◌, Bool, true, false, not,
  ◌&&◌, ◌||◌, List, [], ◌∷◌, ◌++◌, Option, none, some, arith, Bytes, ◌==◌, if◌then◌else◌, length,
  ltb,
}
use native.Mathlib.Nat.{eq-or-lt_of_le}
use mathlib.Core.Bool.{and-false, or-false, or_assoc}
use esskyuehl.State.{World, EsqlType, is_no_type}
use esskyuehl.Object.{same_type, type_set}
use esskyuehl.Object.Library.{same_text}
use esskyuehl.Object.Types.{has_module, type_set-has_module}

-- A file: its path, whether `eina_module_load` takes it, and the type that its `esql_module_init`
-- gives, if it has that symbol.
pub record ModuleFile : Type 0 where
  pub path : Bytes
  pub loads : Bool
  pub symbol : Option EsqlType

-- `strrchr(filename, '/') + 1`, or `none` where there is no '/'.
unfoldable pub file_name : Bytes → Option Bytes
file_name [] = none
file_name (c ∷ p) = elim (file_name p) [
  | some n ↦ some n
  | none ↦ if c == b'/' then some p else none
]

abbrev pub drop {ℓ} : {A : Type ℓ} → ℕ → List A → List A
drop zero xs = xs
drop (suc n) [] = []
drop (suc n) (x ∷ xs) = drop n xs

-- `filename + (strlen(filename) - 3)`, or `none` where that is in front of the name.
abbrev pub last_three : Option Bytes → Option Bytes
last_three none = none
last_three (some n) = if ltb (length n) 3 then none else some (drop (length n - 3) n)

-- The rest of the function, for a module that is loaded: `esql_modules` and the result.
abbrev pub add_module : Option EsqlType → List EsqlType → List EsqlType × Bool
add_module none modules = (modules, false)
add_module (some type) modules = (modules ++ type ∷ [], true)

abbrev pub check_loaded : ModuleFile → List EsqlType → List EsqlType × Bool
check_loaded file modules =
    if not file.loads then (modules, false) else add_module file.symbol modules

-- `module_check`; `ext` is SHARED_LIB_SUFFIX, and `none` that the name is read outside its bounds.
unfoldable pub module_check : Bytes → ModuleFile → List EsqlType → Option (List EsqlType × Bool)
unfolding file_name
module_check ext file modules = elim (last_three (file_name file.path)) [
  | none ↦ none
  | some s ↦ some (if same_text s ext then check_loaded file modules else (modules, false))
]

-- The call for each file in turn.
unfoldable pub check_all : Bytes → List ModuleFile → List EsqlType → Option (List EsqlType)
unfolding module_check
check_all ext [] modules = some modules
check_all ext (file ∷ files) modules = elim (module_check ext file modules) [
  | none ↦ none
  | some r ↦ check_all ext files r.0
]

-- The path ends in `ext`.
abbrev pub ends_in : Bytes → Bytes → Bool
ends_in ext [] = same_text [] ext
ends_in ext (c ∷ p) = same_text (c ∷ p) ext || ends_in ext p

-- The symbol is there, for this type.
abbrev pub gives_type : EsqlType → Option EsqlType → Bool
gives_type type none = false
gives_type type (some t) = same_type type t

-- One of the files has the suffix, loads, and has a module of the type.
abbrev pub offered : Bytes → EsqlType → List ModuleFile → Bool
offered ext type [] = false
offered ext type (file ∷ files) =
    (ends_in ext file.path && (file.loads && gives_type type file.symbol)) || offered ext type files

-- A path with a name of three bytes or more behind its last '/'.
abbrev pub Named : Bytes → Type 0
Named p = (n : Bytes) × (file_name p ≡ some n) × (3 ≤ length n)

abbrev pub AllNamed : List ModuleFile → Type 0
AllNamed [] = Unit
AllNamed (file ∷ files) = Named file.path × AllNamed files

same_text_length : (s t : Bytes) → length s ≢ length t → same_text s t ≡ false
same_text_length [] [] h = absurd (h refl)
same_text_length [] (d ∷ t) h = refl
same_text_length (c ∷ s) [] h = refl
same_text_length (c ∷ s) (d ∷ t) h =
    rw (same_text_length s t (λ e. h (omega (arith, e)))) (and-false (c == d))

ends_in-short : (ext p : Bytes) → suc (length p) ≤ length ext → ends_in ext p ≡ false
ends_in-short ext [] h = same_text_length [] ext (λ e. omega (arith, e, h))
ends_in-short ext (c ∷ p) h = rw (
  same_text_length (c ∷ p) ext (λ e. omega (arith, e, h)),
  ends_in-short ext p (omega (arith, h)),
)

-- Bytes in front of a text that is long enough do not count.
ends_in-cons :
    (ext : Bytes) (c : ℕ) (p : Bytes) → length ext ≤ length p → ends_in ext (c ∷ p) ≡ ends_in ext p
ends_in-cons ext c p h = rw (same_text_length (c ∷ p) ext (λ e. omega (arith, e, h)))

ends_in-drop :
    (ext p : Bytes)
    → length ext ≤ length p
    → ends_in ext p ≡ same_text (drop (length p - length ext) p) ext
ends_in-drop ext [] h = ap (λ k. same_text (drop k []) ext) none_over
  where
    none_over : 0 ≡ length {A = ℕ} [] - length ext
    none_over = omega (arith, h)
ends_in-drop ext (c ∷ p) h = by_length (λ l. ends_in-drop ext p l) (eq-or-lt_of_le h)
  where
    by_length :
        (length ext ≤ length p → ends_in ext p ≡ same_text (drop (length p - length ext) p) ext)
        → (length ext ≡ suc (length p)) ⊎ (length ext < suc (length p))
        → ends_in ext (c ∷ p) ≡ same_text (drop (suc (length p) - length ext) (c ∷ p)) ext
    by_length rest (inl e) =
        let d : suc (length p) - length ext ≡ 0 = omega (arith, e) in
        rw (d, ends_in-short ext p (omega (arith, e)), or-false)
    by_length rest (inr l) =
        let d : suc (length p) - length ext ≡ suc (length p - length ext) = omega (arith, l) in
        ends_in-cons ext c p (omega (arith, l)) ∙ rw d (rest (omega (arith, l)))

name_of_none : (c : ℕ) (p n : Bytes) → (if c == b'/' then some p else none) ≡ some n → p ≡ n
name_of_none c p n e = by_test (c == b'/') e
  where
    by_test : (b : Bool) → (if b then some p else none) ≡ some n → p ≡ n
    by_test true e = cc
    by_test false e = cc

-- The name stands at the end of the path, behind a byte at least.
ends_in-file_name :
    (ext p n : Bytes)
    → file_name p ≡ some n
    → length ext ≤ length n
    → (suc (length n) ≤ length p) × (ends_in ext p ≡ ends_in ext n)
unfolding file_name
ends_in-file_name ext [] n e h = cc
ends_in-file_name ext (c ∷ p) n e h =
    by_rest (file_name p) (λ m d. ends_in-file_name ext p m d) refl e
  where
    by_rest :
        (o : Option Bytes)
        → ((m : Bytes)
            → file_name p ≡ some m
            → length ext ≤ length m
            → (suc (length m) ≤ length p) × (ends_in ext p ≡ ends_in ext m))
        → file_name p ≡ o
        → (elim o [ some m ↦ some m | none ↦ if c == b'/' then some p else none ]) ≡ some n
        → (suc (length n) ≤ suc (length p)) × (ends_in ext (c ∷ p) ≡ ends_in ext n)
    by_rest none rec d f =
        let q = name_of_none c p n f in
        (
          omega (arith, ap length q),
          ends_in-cons ext c p (omega (arith, ap length q, h)) ∙ ap (ends_in ext) q,
        )
    by_rest (some m) rec d f =
        let (a, b) = rec n (d ∙ f) h in
        (omega (arith, a), ends_in-cons ext c p (omega (arith, a, h)) ∙ b)

has_module-append :
    (type t : EsqlType) (ms : List EsqlType)
    → has_module type (ms ++ t ∷ []) ≡ (has_module type ms || same_type type t)
has_module-append type t [] = or-false (same_type type t)
has_module-append type t (m ∷ ms) =
    rw (has_module-append type t ms)
      (sym (or_assoc (same_type type m) (has_module type ms) (same_type type t)))

check_loaded-has_module :
    (type : EsqlType) (o : Option EsqlType) (b l : Bool) (p : Bytes) (ms : List EsqlType)
    → has_module type
        (if b then check_loaded (record { path = p; loads = l; symbol = o }) ms else (ms, false)).0
      ≡ (has_module type ms || (b && (l && gives_type type o)))
check_loaded-has_module type o false l p ms = sym (or-false (has_module type ms))
check_loaded-has_module type o true false p ms = sym (or-false (has_module type ms))
check_loaded-has_module type none true true p ms = sym (or-false (has_module type ms))
check_loaded-has_module type (some t) true true p ms = has_module-append type t ms

-- For a suffix of three bytes the test is that of the end of the path.
module_check-ends_in :
    (ext : Bytes) (file : ModuleFile) (ms : List EsqlType)
    → length ext ≡ 3
    → Named file.path
    → module_check ext file ms
      ≡ some (if ends_in ext file.path then check_loaded file ms else (ms, false))
unfolding module_check
module_check-ends_in ext file ms l (n, e, h) =
    let k : length ext ≤ length n = omega (arith, l, h) in
    let b = (ends_in-file_name ext file.path n e k).1 ∙ ends_in-drop ext n k in
    let three : length n - length ext ≡ length n - 3 = omega (arith, l) in
    let long : ltb (length n) 3 ≡ false = ground (arith, h) in rw (e, long, b, three, module_check)

check_all-offered :
    (ext : Bytes) (files : List ModuleFile) (ms : List EsqlType)
    → length ext ≡ 3
    → AllNamed files
    → (ms' : List EsqlType) × (check_all ext files ms ≡ some ms')
      × ((type : EsqlType) → has_module type ms' ≡ (has_module type ms || offered ext type files))
unfolding check_all
check_all-offered ext [] ms l a = (ms, refl, λ type. sym (or-false (has_module type ms)))
check_all-offered ext (file ∷ files) ms l a =
    let r = if ends_in ext file.path then check_loaded file ms else (ms, false) in
    let (ms', e, h) = check_all-offered ext files r.0 l a.1 in
    (
      ms',
      rw (module_check-ends_in ext file ms l a.0, check_all) e,
      λ type.
          h type
          ∙ ap (λ b. b || offered ext type files)
              (check_loaded-has_module type file.symbol (ends_in ext file.path) file.loads file.path
                ms)
          ∙ or_assoc (has_module type ms) _ (offered ext type files),
    )

-- With a suffix of three bytes, for files whose names have as many at least: the walk over the
-- files reads no name out of its bounds, and behind it `esql_type_set` succeeds for exactly the
-- types of which one of the files with the suffix loads and has a module, and for the type that the
-- object has already.
pub type_set-check_all :
    (ext : Bytes) (files : List ModuleFile)
    → length ext ≡ 3
    → AllNamed files
    → (modules : List EsqlType) × (check_all ext files [] ≡ some modules)
      × ((type : EsqlType) (w : World)
          → is_no_type type ≡ false
          → (type_set modules type w).1 ≡ (offered ext type files || same_type w.e.kind type))
type_set-check_all ext files l a =
    let (modules, e, h) = check_all-offered ext files [] l a in
    (
      modules,
      e,
      λ type w n.
          type_set-has_module modules type w n ∙ ap (λ b. b || same_type w.e.kind type) (h type),
    )
