-- ===== src/Desc.antt =====
-- `esql_module_desc_get` and its member search (src/lib/esql_module.c): the layout of a row.
pub mod Layout
use esskyuehl.Prelude.{
  ℕ, ◌+◌, ◌-◌, ◌%◌, Bool, List, [], ◌∷◌, Option, none, some, ◌==◌, ltb, not, if◌then◌else◌, u32_mod,
  suc, length,
}

-- The size that a column takes: its value's size, padded where it is no multiple of the size of a
-- pointer, which is 8 here. All this is `unsigned int`.
unfoldable pub padded : ℕ → ℕ
padded size = if size % 8 == 0 then size else (size + (size - size % 8)) % u32_mod

-- The loop over the columns, from `offset` on: the offsets of the members, and the offset behind
-- them.
unfoldable pub offsets : ℕ → List ℕ → List ℕ
unfolding padded
offsets offset [] = []
offsets offset (s ∷ sizes) = offset ∷ offsets ((offset + padded s) % u32_mod) sizes

unfoldable pub total : ℕ → List ℕ → ℕ
unfolding padded
total offset [] = offset
total offset (s ∷ sizes) = total ((offset + padded s) % u32_mod) sizes

-- `Eina_Value_Struct_Desc`: the members' offsets, and the size of a row.
pub record Desc : Type 0 where
  pub members : List ℕ
  pub size : ℕ

-- `esql_module_desc_get`, from the `value_size` of each column as `setup_cb` gives it.
unfoldable pub module_desc_get : List ℕ → Option Desc
unfolding offsets total
module_desc_get [] = none
module_desc_get (s ∷ sizes) =
    some (record { members = offsets 0 (s ∷ sizes); size = total 0 (s ∷ sizes) })

-- One of the loops of `esql_module_desc_find_member`: the first member with this very name pointer.
unfoldable pub find_pointer : ℕ → List ℕ → Option ℕ
find_pointer name [] = none
find_pointer name (m ∷ ms) =
    let later = find_pointer name ms in
    if m == name then some 0 else elim later [ none ↦ none | some i ↦ some (suc i) ]

-- `esql_module_desc_find_member`; `share` is `eina_stringshare_add`.
unfoldable pub find_member : (ℕ → ℕ) → List ℕ → ℕ → Option ℕ
unfolding find_pointer
find_member share members name = elim (find_pointer name members) [
  | some i ↦ some i
  | none ↦ find_pointer (share name) members
]

-- A row's memory comes from the result's pool, where there is one, and goes back there; `P` and `M`
-- are pools and memory.
module _ {ℓ κ} {P : Type ℓ} {M : Type κ} where
  -- `esql_module_desc_alloc`
  unfoldable pub desc_alloc : (P → ℕ → M) → (ℕ → M) → Option P → Desc → M
  desc_alloc mempool_malloc malloc none d = malloc d.size
  desc_alloc mempool_malloc malloc (some p) d = mempool_malloc p d.size

  -- `esql_module_desc_free`, with what becomes of the heap `H`.
  unfoldable pub desc_free {μ} : {H : Type μ} → (P → M → H → H) → (M → H → H) → Option P → M → H → H
  desc_free mempool_free free none memory h = free memory h
  desc_free mempool_free free (some p) memory h = mempool_free p memory h
