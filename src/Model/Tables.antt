-- ===== src/Model/Tables.antt =====
-- The statements that a model makes.
use esskyuehl.Prelude.{
  false, ◌==◌, ℕ, zero, suc, ◌+◌, ◌-◌, ◌≤◌, ◌≡◌, ◌≢◌, inl, inr, refl, ap, ◌∙◌, true, not, List, [],
  ◌∷◌, ◌++◌, Option, none, some, arith, Bytes, codes, length, take, length-append, is_some, if_true,
  if_false, ltb, Bool-cases,
}
use esskyuehl.State.{Env, World, Act, Conn, is_idle, if_cases}
use esskyuehl.Query.{
  query, queue_query, query_callback_set, issue_query, start_query, send_query, add_job, next_id,
}
use esskyuehl.Events.Drain.Working.{query-queued}
use esskyuehl.Model.{
  Masks, Model, create_text, alter_full, total_len, alter_text, table_add, table_added,
  create_table_cb_id, create_table_cb, alter_table_cb_id,
}

take_rest {ℓ} :
    {A : Type ℓ} (n : ℕ) (xs : List A)
    → n ≤ length xs
    → (rest : List A) × (xs ≡ take n xs ++ rest) × (length rest + n ≡ length xs)
take_rest zero xs h = (xs, refl, omega arith)
take_rest (suc n) [] h = absurd (omega arith)
take_rest (suc n) (x ∷ xs) h =
    let (rest, e, l) = take_rest n xs (omega arith) in (rest, ap (λ t. x ∷ t) e, omega (arith, l))

total_len-length :
    (table row type : Bytes) → total_len table row type ≡ length (alter_full table row type)
unfolding total_len
total_len-length table row type = omega (
  arith,
  length-append {0} table (codes " ADD COLUMN " ++ (row ++ (codes " " ++ type))),
  length-append {0} row (codes " " ++ type),
)

-- The statement for a new table loses its last 14 bytes, and so the whole of a name of up to 14 and
-- more than the name of any shorter one.
create_text-rest :
    (name : Bytes)
    → name ≢ []
    → (rest : Bytes) × (codes "CREATE TABLE " ++ name ≡ create_text name ++ rest)
      × (length rest ≡ 14)
unfolding create_text
create_text-rest [] n = absurd (n refl)
create_text-rest (c ∷ cs) n =
    let name = c ∷ cs in
    let (rest, e, l) = take_rest (length name - 1) (codes "CREATE TABLE " ++ name) (omega arith) in
    (rest, e, omega (arith, l))

-- The statement for a column loses its last byte.
alter_text-rest :
    (table row type : Bytes)
    → (rest : Bytes) × (alter_full table row type ≡ alter_text table row type ++ rest)
      × (length rest ≡ 1)
unfolding alter_text
alter_text-rest table row type =
    let same = total_len-length table row type in
    let (rest, e, l) =
      take_rest (total_len table row type - 1) (alter_full table row type) (omega (arith, same)) in
    (rest, e, omega (arith, l, same))

add_job-cur_query : (w : World) → (add_job w).e.cur_query ≡ w.e.cur_query
add_job-cur_query w = if_cases (λ v. v.e.cur_query ≡ w.e.cur_query) w.e.fd_job w _ refl refl

module _ (env : Env) (no_error : (h : List Act) → env.error_get h ≡ none) where
  start_query-cur_query :
      (p : Option ℕ) (q : Bytes) (n : ℕ) (w : World)
      → (start_query env p q n w).0.e.cur_query ≡ some q
  unfolding start_query send_query
  start_query-cur_query p q n w =
      ap (λ (r : World × ℕ). r.0.e.cur_query) (if_false _ _ _ (ap is_some (no_error _)))
      ∙ add_job-cur_query _

  query-cur_query :
      (p : Option ℕ) (q : Bytes) (w : World)
      → w.e.connected ≡ true
      → w.e.db ≡ true
      → is_idle w.e.current ≡ true
      → (query env p (some q) w).0.e.cur_query ≡ some q
  unfolding query issue_query
  query-cur_query p q w c b i =
      ap (λ (r : World × ℕ). r.0.e.cur_query)
        (if_true w.e.connected _ _ c ∙ if_true w.e.db _ _ b ∙ if_true (is_idle w.e.current) _ _ i)
      ∙ start_query-cur_query p q (length q) (record w { esql_id = next_id w.esql_id })

query_callback_set-e : (n : ℕ) (cb : Option ℕ) (w : World) → (query_callback_set n cb w).0.e ≡ w.e
unfolding query_callback_set
query_callback_set-e n none w = refl
query_callback_set-e n (some cb) w = elim (Bool-cases (ltb n 1)) [
  | inl t ↦ rw t refl
  | inr f ↦ rw f refl
]

table_add-cur_query :
    (k : Masks) (env : Env) (name row type : Bytes) (m : Model)
    → ((h : List Act) → env.error_get h ≡ none)
    → is_some m.world.e.database ≡ true
    → m.world.e.connected ≡ true
    → m.world.e.db ≡ true
    → is_idle m.world.e.current ≡ true
    → (table_add k env (some name) row type m).0.world.e.cur_query ≡ some (create_text name)
unfolding table_add
table_add-cur_query k env name row type m e d c b i =
    ap (λ (r : Model × ℕ). r.0.world.e.cur_query)
      (if_false (not (is_some m.world.e.database)) (m, k.error) _ (ap not d)
        ∙ if_false (not m.world.e.connected) (m, k.error)
            (table_added env name row type m, m.status) (ap not c))
    ∙ ap (λ (x : Conn). x.cur_query) (query_callback_set-e r.1 (some create_table_cb_id) r.0)
    ∙ query-cur_query env e (some m.self) (create_text name) m.world c b i
  where
    r : World × ℕ
    r = query env (some m.self) (some (create_text name)) m.world

-- On an idle connection without errors that has a database, `_esql_model_table_add` runs the
-- statement for a new table without its last 14 bytes.
pub table_add-create_text :
    (k : Masks) (env : Env) (name row type : Bytes) (m : Model)
    → ((h : List Act) → env.error_get h ≡ none)
    → is_some m.world.e.database ≡ true
    → m.world.e.connected ≡ true
    → m.world.e.db ≡ true
    → is_idle m.world.e.current ≡ true
    → name ≢ []
    → (sent_text : Bytes) × (rest : Bytes) × ((table_add k env
          (some name)
          row
          type
          m).0.world.e.cur_query
        ≡ some sent_text)
      × (codes "CREATE TABLE " ++ name ≡ sent_text ++ rest)
      × (length rest ≡ 14)
table_add-create_text k env name row type m e d c b i n =
    let (rest, same, l) = create_text-rest name n in
    (create_text name, rest, table_add-cur_query k env name row type m e d c b i, same, l)

create_table_cb-queue :
    (env : Env) (table : Bytes) (m : Model)
    → (create_table_cb env table m).world.e
      ≡ (query env (some m.self) (some (alter_text table m.row_name m.row_type)) m.world).0.e
unfolding create_table_cb
create_table_cb-queue env table m =
    if_cases (λ v. v.e ≡ r.0.e) (r.1 == 0) r.0 _ refl
      (query_callback_set-e r.1 (some alter_table_cb_id) r.0)
  where
    r : World × ℕ
    r = query env (some m.self) (some (alter_text table m.row_name m.row_type)) m.world

-- `_esql_query_create_table_cb` is called while the statement for the table is still the current
-- query. On a connection that is up and busy it puts the statement for the column at the end of the
-- queue, without its last byte.
pub create_table_cb-alter_text :
    (env : Env) (table : Bytes) (m : Model)
    → m.world.e.connected ≡ true
    → m.world.e.db ≡ true
    → is_idle m.world.e.current ≡ false
    → (sent_text : Bytes) × (rest : Bytes) × ((create_table_cb env table
          m).world.e.backend_set_params
        ≡ m.world.e.backend_set_params ++ some sent_text ∷ [])
      × (alter_full table m.row_name m.row_type ≡ sent_text ++ rest)
      × (length rest ≡ 1)
create_table_cb-alter_text env table m c b i =
    let (rest, same, l) = alter_text-rest table m.row_name m.row_type in
    let sent_text = alter_text table m.row_name m.row_type in
    (
      sent_text,
      rest,
      ap (λ (x : Conn). x.backend_set_params) (create_table_cb-queue env table m)
          ∙ ap (λ (v : World). v.e.backend_set_params)
              (query-queued env (some m.self) sent_text m.world c b i)
          ∙ unfold queue_query in refl,
      same,
      l,
    )
