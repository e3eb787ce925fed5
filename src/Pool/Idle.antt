-- ===== src/Pool/Idle.antt =====
-- Which member of a pool gets the next query.
use esskyuehl.Prelude.{
  ℕ, ◌+◌, ◌-◌, ◌≤◌, ◌<◌, ◌≡◌, refl, ◌⊎◌, inl, inr, true, false, List, [], ◌∷◌, Option, none, some,
  arith, ltb, ltb→lt, All, Bool-cases,
}
use esskyuehl.State.{Conn, is_idle}
use esskyuehl.Pool.{oldest, first_idle, idle_find}

-- `i` is the place of the first idle member, counted from `k`.
abbrev pub FirstIdle : ℕ → List Conn → ℕ → Type 0
FirstIdle k [] i = ⊥
FirstIdle k (c ∷ cs) i =
    ((is_idle c.current ≡ true) × (i ≡ k)) ⊎ ((is_idle c.current ≡ false) × FirstIdle (k + 1) cs i)

abbrev pub NoIdle : List Conn → Type 0
NoIdle = All (λ c. is_idle c.current ≡ false)

first_idle_cases :
    (k : ℕ) (cs : List Conn)
    → ((first_idle k cs ≡ none) × NoIdle cs)
      ⊎ ((i : ℕ) × (first_idle k cs ≡ some i) × FirstIdle k cs i)
unfolding first_idle
first_idle_cases k [] = inl (refl, tt)
first_idle_cases k (c ∷ cs) = elim (Bool-cases (is_idle c.current)) [
  | inl e ↦ inr (k, ground arith, inl (e, refl))
  | inr e ↦ elim (first_idle_cases (k + 1) cs) [
    | inl h ↦ inl (ground (arith, h.0), (e, h.1))
    | inr h ↦ inr (h.0, ground (arith, h.1), inr (e, h.2))
  ]
]

-- No query of `cs` has run for longer than `age`.
abbrev pub NoOlder : ℕ → ℕ → List Conn → Type 0
NoOlder now age = All (λ c. now - c.query_start ≤ age)

-- What the second loop finds in `cs`, at the place `k`, with the greatest age `cur` so far.
abbrev pub AgeAt : ℕ → ℕ → List Conn → ℕ → ℕ → Type 0
AgeAt now k [] i age = ⊥
AgeAt now k (c ∷ cs) i age = ((i ≡ k) × (now - c.query_start ≡ age)) ⊎ AgeAt now (k + 1) cs i age

oldest_cases :
    (now k cur : ℕ) (found : Option ℕ) (cs : List Conn)
    → ((oldest now k cur found cs ≡ found) × NoOlder now cur cs)
      ⊎ ((i : ℕ) × (age : ℕ) × (oldest now k cur found cs ≡ some i)
          × AgeAt now k cs i age
          × (cur < age)
          × NoOlder now age cs)
unfolding oldest
oldest_cases now k cur found [] = inl (refl, tt)
oldest_cases now k cur found (c ∷ cs) = elim (Bool-cases (ltb cur (now - c.query_start))) [
  | inl e ↦
      let age = now - c.query_start in
      let lt = ltb→lt cur age e in
      elim (oldest_cases now (k + 1) age (some k) cs) [
        | inl h ↦ inr (k, age, rw e h.0, inl (refl, refl), lt, (omega arith, h.1))
        | inr h ↦ inr (h.0, h.1, rw e h.2, inr h.3, omega (arith, h.4), (omega (arith, h.4), h.5))
      ]
  | inr e ↦ elim (oldest_cases now (k + 1) cur found cs) [
    | inl h ↦ inl (rw e h.0, (ground arith, h.1))
    | inr h ↦ inr (h.0, h.1, rw e h.2, inr h.3, h.4, (ground (arith, h.4), h.5))
  ]
]

-- The place that `esql_pool_idle_find_` chooses.
abbrev pub Chosen : ℕ → List Conn → ℕ → Type 0
Chosen now cs i =
    FirstIdle 0 cs i
    ⊎ (NoIdle cs
        × (((age : ℕ) × AgeAt now 0 cs i age × NoOlder now age cs) ⊎ ((i ≡ 0) × NoOlder now 0 cs)))

-- A query goes to the first idle member; where no member is idle, to one whose query has run for
-- the longest time, or to the first member if no query has run for any time.
pub idle_find-Chosen : (now : ℕ) (cs : List Conn) → Chosen now cs (idle_find now cs)
unfolding idle_find
idle_find-Chosen now cs = elim (first_idle_cases 0 cs) [
  | inr h ↦ inl (rw h.1 h.2)
  | inl h ↦ inr (
    h.1,
    elim (oldest_cases now 0 0 none cs) [
      | inl o ↦ inr (rw (h.0, o.0), o.1)
      | inr o ↦ inl (o.1, rw (h.0, o.2) o.3, o.5)
    ],
  )
]
