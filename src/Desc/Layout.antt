-- ===== src/Desc/Layout.antt =====
-- Whether the cells of a row overlap, and how they are aligned.
use esskyuehl.Prelude.{
  ℕ, ◌+◌, ◌%◌, ◌≤◌, ◌<◌, ◌≡◌, refl, List, [], ◌∷◌, some, arith, u32_mod, All, sum_of,
}
use esskyuehl.Desc.{padded, offsets, total, Desc, module_desc_get}

-- Sizes of columns that stay below 2^31, as far as padding goes.
abbrev pub Small : ℕ → Type 0
Small s = s < 2147483648

pub padded_bounds : (s : ℕ) → Small s → (s ≤ padded s) × (padded s ≤ s + s)
unfolding padded
padded_bounds s h = ground arith

-- Each cell ends where the next one begins or before, and the last one within the row.
abbrev pub Fit : List ℕ → List ℕ → ℕ → Type 0
Fit [] [] end = Unit {0}
Fit [] (s ∷ ss) end = ⊥
Fit (o ∷ os) [] end = ⊥
Fit (o ∷ []) (s ∷ ss) end = (o + s ≤ end) × Fit [] ss end
Fit (o ∷ p ∷ os) (s ∷ ss) end = (o + s ≤ p) × Fit (p ∷ os) ss end

next_offset :
    (offset s : ℕ)
    → Small s
    → offset + (s + s) < u32_mod
    → offset + s ≤ (offset + padded s) % u32_mod
next_offset offset s h b = omega (arith, padded_bounds s h)

offsets-Fit :
    (offset : ℕ) (sizes : List ℕ)
    → All Small sizes
    → offset + sum_of (λ s. s + s) sizes < u32_mod
    → Fit (offsets offset sizes) sizes (total offset sizes)
unfolding offsets total
offsets-Fit offset [] h b = tt
offsets-Fit offset (s ∷ []) h b = (next_offset offset s h.0 (omega arith), tt)
offsets-Fit offset (s ∷ t ∷ sizes) h b =
    let k = next_offset offset s h.0 (omega arith) in
    (
      k,
      offsets-Fit ((offset + padded s) % u32_mod) (t ∷ sizes) h.1
          (omega (arith, padded_bounds s h.0)),
    )

-- The cells of a row do not overlap and lie within the row, where the columns are so small that no
-- sum wraps.
pub module_desc_get-Fit :
    (s : ℕ) (sizes : List ℕ)
    → All Small (s ∷ sizes)
    → sum_of (λ t. t + t) (s ∷ sizes) < u32_mod
    → (d : Desc) × (module_desc_get (s ∷ sizes) ≡ some d) × Fit d.members (s ∷ sizes) d.size
unfolding module_desc_get
module_desc_get-Fit s sizes h b = (
  record { members = offsets 0 (s ∷ sizes); size = total 0 (s ∷ sizes) },
  refl,
  offsets-Fit 0 (s ∷ sizes) h (omega arith),
)

-- The padding adds what is already a multiple of 8: it never aligns the next cell, which it is
-- there for, and leaves the rest of the size by 8 as it is.
pub padded-mod : (s : ℕ) → Small s → padded s % 8 ≡ s % 8
unfolding padded
padded-mod s h = ground arith
