-- ===== src/Events/Ledger/Callbacks.antt =====
-- The books of the queries where the user's callbacks make queries of their own.
use esskyuehl.Prelude.{
  ℕ, ◌≡◌, subst, Bool, true, false, Bytes, [], ◌∷◌, Option, none, some, arith, if◌then◌else◌,
  sum_of,
}
use esskyuehl.State.{World, Env}
use esskyuehl.Events.{text_of}
use esskyuehl.Query.{query}
use esskyuehl.Events.Ledger.{Ledger}
use esskyuehl.Events.Ledger.Asked.{asked_query, query-Ledger}
use esskyuehl.Events.Ledger.Steps.{KeepsBooks}

-- Each callback makes one query, or none, on the object that it is called for.
abbrev pub asking : Env → (ℕ → Option Bytes) → (ℕ → Option Bytes) → Env
asking env on_connect on_result = record env {
  on_connect = λ cb p w. (query env p (on_connect cb) w).0;
  on_result = λ cb r p w. (query env p (on_result cb) w).0;
}

module _ (f : Bytes → ℕ) where
  weightless : (o : Option Bytes) → f (text_of o) ≡ 0 → (w : World) → sum_of f (asked_query w o) ≡ 0
  weightless none e w = omega arith
  weightless (some q) e w = if_weightless w.e.connected w.e.db
    where
      if_weightless : (b c : Bool) → sum_of f (if b then (if c then q ∷ [] else []) else []) ≡ 0
      if_weightless true true = omega (arith, e)
      if_weightless true false = omega arith
      if_weightless false c = omega arith

  query-kept :
      (env : Env) (n : ℕ) (p : Option ℕ) (o : Option Bytes)
      → f (text_of o) ≡ 0
      → (w : World) → Ledger f n w
      → Ledger f n (query env p o w).0
  query-kept env n p o e w l =
      subst (λ k. Ledger f k (query env p o w).0) (omega (arith, weightless o e w))
        (query-Ledger f env n p o w l)

  -- Callbacks that make queries keep the books of the texts that are not theirs.
  pub asking-KeepsBooks :
      (env : Env) (on_connect on_result : ℕ → Option Bytes)
      → ((cb : ℕ) → f (text_of (on_connect cb)) ≡ 0)
      → ((cb : ℕ) → f (text_of (on_result cb)) ≡ 0)
      → KeepsBooks f (asking env on_connect on_result)
  asking-KeepsBooks env on_connect on_result c r = record {
    in_connect = λ n cb p w l. query-kept env n p (on_connect cb) (c cb) w l;
    in_result = λ n cb s p w l. query-kept env n p (on_result cb) (r cb) w l;
  }
