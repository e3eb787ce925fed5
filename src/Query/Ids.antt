-- ===== src/Query/Ids.antt =====
-- The counter of query ids: an `unsigned int` that skips 0.
use esskyuehl.Prelude.{ℕ, ◌≢◌, ◌+◌, ◌-◌, ◌≤◌, ◌<◌, ◌≡◌, arith, ◌==◌, if◌then◌else◌, u32_mod}
use esskyuehl.Query.{next_id, take_back_id}

next_id_lem : (n : ℕ) → n < u32_mod → next_id n ≡ (if n + 1 == u32_mod then 1 else n + 1)
unfolding next_id
next_id_lem n h = ground arith

take_back_id_lem :
    (n : ℕ) → 0 < n → n < u32_mod → take_back_id n ≡ (if n == 1 then 4294967295 else n - 1)
unfolding take_back_id
take_back_id_lem n h k = ground arith

-- An id is never 0, the value that stands for a failure, and fits 32 bits.
pub next_id_bounds : (n : ℕ) → n < u32_mod → (1 ≤ next_id n) × (next_id n < u32_mod)
next_id_bounds n h = ground (arith, next_id_lem n h)

-- Two counters that differ, neither of them 0, give ids that differ: no id comes back before all
-- others were given out.
pub next_id_injective :
    (a b : ℕ) → 0 < a → 0 < b → a < u32_mod → b < u32_mod → a ≢ b → next_id a ≢ next_id b
next_id_injective a b pa pb ha hb n e = ground (arith, next_id_lem a ha, next_id_lem b hb)

-- An id that was taken back is the next one given out.
pub next_id-take_back_id : (n : ℕ) → n < u32_mod → next_id (take_back_id (next_id n)) ≡ next_id n
next_id-take_back_id n h = ground (
  arith,
  next_id_lem n h,
  next_id_bounds n h,
  take_back_id_lem (next_id n),
  next_id_lem (take_back_id (next_id n)),
)
