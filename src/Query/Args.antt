-- ===== src/Query/Args.antt =====
-- `esql_query_args` and `esql_query_vargs` (src/lib/esql_query.c) beside `esql_query`.
use esskyuehl.Prelude.{ℕ, ◌<◌, ◌≡◌, subst, List, Option, some, arith, Bytes, length, u32_mod}
use esskyuehl.Escape.Format.{Arg, text, query_escape}
use esskyuehl.Escape.Format.Measured.{Measured, query_escape-Measured}
use esskyuehl.State.{World, Env}
use esskyuehl.Query.{query, query_vargs, issue_escaped}

-- A formatted query whose text is shorter than 2^32 bytes does what `esql_query` does with that
-- text: the same id, and the same state behind it.
pub query_vargs-query :
    (env : Env) (p : Option ℕ) (fmt : Bytes) (args : List Arg) (w : World) (q : Bytes) (n : ℕ)
    → query_escape env.printer (env.backslashes w.acts) fmt args ≡ text q n
    → length q < u32_mod
    → query_vargs env p (some fmt) args w ≡ query env p (some q) w
query_vargs-query env p fmt args w q n e h = unfold query_vargs query issue_escaped in rw (e, own)
  where
    own : n ≡ length q
    own = omega (
      arith,
      h,
      subst Measured e (query_escape-Measured env.printer (env.backslashes w.acts) fmt args),
    )
