-- ===== src/Sqlite/Steps.antt =====
-- What a statement comes to, by the answers of `sqlite3_step`.
use esskyuehl.Prelude.{
  ℕ, zero, suc, ◌+◌, ◌<◌, ◌≡◌, refl, ap, ap₂, subst, append-nil, sym, ◌∙◌, true, false, List, [],
  ◌∷◌, ◌++◌, map, Option, none, some, arith, lt→ltb, length, append_assoc,
}
use esskyuehl.Events.{call_complete, event_error}
use esskyuehl.Sqlite.{
  Cell, Answer, busy, done, row, failed, ValueType, SqliteRes, Work, row_values, row_add, res_init,
  out, guarded, nulls, query_loop, query_cb, thread_over,
}

-- Answers that end well, behind `tries` rounds without a row, with the rows that come: never more
-- than 998 busy ones in a row.
pub data Delivers : ℕ → List Answer → List (List Cell) → Type 0 where
  ends : {tries : ℕ} {answers : List Answer} → tries < 999 → Delivers tries (done ∷ answers) []
  waits :
      {tries : ℕ} {answers : List Answer} {rows : List (List Cell)}
      → tries < 999
      → Delivers (tries + 1) answers rows
      → Delivers tries (busy ∷ answers) rows
  comes :
      {tries : ℕ} {answers : List Answer} {cs : List Cell} {rows : List (List Cell)}
      → tries < 999
      → Delivers 0 answers rows
      → Delivers tries (row cs ∷ answers) (cs ∷ rows)

module _ {ℓ} {V : Type ℓ} (unset : V) (member_set : ValueType → ValueType → Cell → V)
    (columns changes : ℕ) where
  -- The result `r` with `rows` added.
  abbrev pub with_rows : List (List Cell) → SqliteRes V → SqliteRes V
  with_rows rows r = record r {
    rows = r.rows ++ map (row_values unset member_set columns changes r.desc) rows;
    row_count = r.row_count + length rows;
  }

  with_rows-nil : (r : SqliteRes V) → r ≡ with_rows [] r
  with_rows-nil r =
      ap₂ (λ xs n. record r { rows = xs; row_count = n }) (sym (append-nil r.rows)) (omega arith)

  with_rows-cons :
      (cs : List Cell) (rows : List (List Cell)) (r : SqliteRes V)
      → with_rows rows (row_add unset member_set columns changes cs r) ≡ with_rows (cs ∷ rows) r
  unfolding row_add
  with_rows-cons cs rows r =
      ap₂ (λ xs n. record r { rows = xs; row_count = n }) (append_assoc r.rows _ _) (omega arith)

  -- The thread at work, and when it has come to its end.
  abbrev pub at_work : Option (SqliteRes V) → Work V
  at_work o = record { stmt = true; res = o; cancelled = false }

  abbrev pub ended : SqliteRes V → Work V
  ended r = record { stmt = false; res = some r; cancelled = false }

  guarded-lt :
      (tries : ℕ) (w : Work V) (x : Option (Work V))
      → tries < 999
      → w.stmt ≡ true
      → guarded unset member_set columns changes tries w x ≡ x
  guarded-lt tries w x h s = rw (lt→ltb (tries + 1) 1000 (omega arith), s) refl

  query_loop-some :
      {tries : ℕ} {answers : List Answer} {rows : List (List Cell)} (r : SqliteRes V)
      → Delivers tries answers rows
      → query_loop unset member_set columns changes tries answers (at_work (some r))
        ≡ some (ended (with_rows rows r))
  unfolding query_loop
  query_loop-some r (ends h) =
      guarded-lt _ (at_work (some r)) _ h refl ∙ ap (λ s. some (ended s)) (with_rows-nil r)
  query_loop-some r (waits h d) = guarded-lt _ (at_work (some r)) _ h refl ∙ query_loop-some r d
  query_loop-some r (comes {cs = cs} {rows = rows} h d) =
      guarded-lt _ (at_work (some r)) _ h refl
      ∙ query_loop-some (row_add unset member_set columns changes cs r) d
      ∙ ap (λ s. some (ended s)) (with_rows-cons cs rows r)

  -- The cells that the columns' types are read from: the first row's, or NULLs.
  abbrev pub first_row : List (List Cell) → List Cell
  first_row [] = nulls unset member_set columns changes columns
  first_row (cs ∷ rows) = cs

  -- The result of a statement that gives `rows`.
  abbrev pub result_of : List (List Cell) → SqliteRes V
  result_of rows = with_rows rows (res_init unset member_set columns changes (first_row rows))

  query_loop-none :
      {tries : ℕ} {answers : List Answer} {rows : List (List Cell)}
      → Delivers tries answers rows
      → query_loop unset member_set columns changes tries answers (at_work none)
        ≡ some (ended (result_of rows))
  unfolding query_loop
  query_loop-none (ends h) =
      guarded-lt _ (at_work none) _ h refl ∙ ap (λ s. some (ended s)) (with_rows-nil _)
  query_loop-none (waits h d) = guarded-lt _ (at_work none) _ h refl ∙ query_loop-none d
  query_loop-none (comes {cs = cs} {rows = rows} h d) =
      guarded-lt _ (at_work none) _ h refl
      ∙ query_loop-some
          (row_add unset member_set columns changes cs
            (res_init unset member_set columns changes cs))
          d
      ∙ ap (λ s. some (ended s))
          (with_rows-cons cs rows (res_init unset member_set columns changes cs))

  -- A statement that is stepped to its end, with fewer than 999 busy answers in a row, gives a
  -- result with all its rows in order and their number, under the column types of the first row;
  -- the statement is released, and the call is completed.
  pub query_cb-Delivers :
      (answers : List Answer) (rows : List (List Cell))
      → Delivers 0 answers rows
      → (query_cb unset member_set columns changes answers (at_work none)
          ≡ some (ended (result_of rows)))
        × (thread_over unset member_set columns changes (ended (result_of rows)) ≡ call_complete)
  unfolding query_cb thread_over
  query_cb-Delivers answers rows d = (query_loop-none d, refl)

  abbrev pub busies : ℕ → List Answer → List Answer
  busies zero answers = answers
  busies (suc k) answers = busy ∷ busies k answers

  -- In the thousandth round the loop is over, whatever would be answered.
  query_loop_over :
      (answers : List Answer) (w : Work V)
      → query_loop unset member_set columns changes 999 answers w
        ≡ some (out unset member_set columns changes w)
  unfolding query_loop
  query_loop_over [] w = refl
  query_loop_over (busy ∷ answers) w = refl
  query_loop_over (done ∷ answers) w = refl
  query_loop_over (row cs ∷ answers) w = refl
  query_loop_over (failed ∷ answers) w = refl

  query_loop-busies :
      (k tries : ℕ) (answers : List Answer) (w : Work V)
      → w.stmt ≡ true
      → tries + k ≡ 999
      → query_loop unset member_set columns changes tries (busies k answers) w
        ≡ some (out unset member_set columns changes w)
  unfolding query_loop
  query_loop-busies zero tries answers w s e =
      subst
        (λ t.
          query_loop unset member_set columns changes t answers w
          ≡ some (out unset member_set columns changes w))
        {x = 999} {y = tries} (omega (arith, e)) (query_loop_over answers w)
  query_loop-busies (suc k) tries answers w s e =
      guarded-lt tries w _ (omega (arith, e)) s
      ∙ query_loop-busies k (tries + 1) answers w s (omega (arith, e))

  -- After 999 busy answers in a row, whatever would come then, the statement is given up and
  -- released, the thread is cancelled, and the call ends with an error.
  pub query_cb-busies :
      (k : ℕ) (answers : List Answer) (w : Work V)
      → w.stmt ≡ true
      → k ≡ 999
      → (query_cb unset member_set columns changes (busies k answers) w
          ≡ some (out unset member_set columns changes w))
        × (thread_over unset member_set columns changes (out unset member_set columns changes w)
            ≡ event_error)
  unfolding query_cb thread_over
  query_cb-busies k answers w s e = (query_loop-busies k 0 answers w s (omega (arith, e)), refl)
