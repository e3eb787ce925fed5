-- ===== src/Sqlite.antt =====
-- src/modules/sqlite/esql_sqlite_backend.c: the thread that steps a statement, and the result that
-- it fills. The answers of `sqlite3_step` are a list, in order.
pub mod Steps
pub mod Connection
use esskyuehl.Prelude.{
  ℕ, zero, suc, ◌+◌, Bool, true, false, List, [], ◌∷◌, ◌++◌, map, Option, none, some, Bytes, ltb,
  if◌then◌else◌,
}
use esskyuehl.Events.{Call, call_complete, event_error}

-- A cell of the row in hand, by its `sqlite3_column_type`.
pub data Cell : Type 0 where
  text_cell : Bytes → Cell
  integer_cell : ℕ → Cell
  float_cell : ℕ → Cell
  blob_cell : Bytes → Cell
  null_cell : Cell

pub data Answer : Type 0 where
  busy : Answer
  done : Answer
  row : List Cell → Answer
  failed : Answer

-- EINA_VALUE_TYPE_STRING and so on.
pub data ValueType : Type 0 where
  string int64 double blob : ValueType

-- `esql_module_setup_cb`: the type of a column.
unfoldable pub setup_cb : Cell → ValueType
setup_cb (text_cell s) = string
setup_cb (integer_cell n) = int64
setup_cb (float_cell d) = double
setup_cb (blob_cell s) = blob
setup_cb null_cell = blob

-- The `switch` of `esql_sqlite_row_add`: the type that the value of a cell is set up with, or
-- `none` for the `default`, which sets nothing.
unfoldable pub value_type : Cell → Option ValueType
value_type (text_cell s) = some string
value_type (integer_cell n) = some int64
value_type (float_cell d) = some double
value_type (blob_cell s) = some blob
value_type null_cell = none

-- A struct member holds a `V`.
module _ {ℓ} (V : Type ℓ) where
  pub record SqliteRes : Type ℓ where
    pub desc : List ValueType
    pub rows : List (List V)
    pub row_count : ℕ
    pub affected : ℕ

  -- `e->backend.stmt`, `e->res`, and whether `ecore_thread_cancel` was called.
  pub record Work : Type ℓ where
    pub stmt : Bool
    pub res : Option SqliteRes
    pub cancelled : Bool

-- A member is `unset` at first, and `member_set m t c` behind `eina_value_struct_member_value_set`
-- of the cell `c`, set up with type `t`, in a member of type `m`. A statement has `columns`
-- columns, and its change count is `changes`.
module _ {ℓ} {V : Type ℓ} (unset : V) (member_set : ValueType → ValueType → Cell → V)
    (columns changes : ℕ) where
  abbrev pub set_as : ValueType → Cell → Option ValueType → V
  set_as m c none = unset
  set_as m c (some t) = member_set m t c

  -- The loop over the members of a row; a column that the row does not have reads as NULL.
  unfoldable pub row_values : List ValueType → List Cell → List V
  unfolding value_type
  row_values [] cs = []
  row_values (m ∷ ms) [] = unset ∷ row_values ms []
  row_values (m ∷ ms) (c ∷ cs) = set_as m c (value_type c) ∷ row_values ms cs

  -- `esql_sqlite_row_add`
  unfoldable pub row_add : List Cell → SqliteRes V → SqliteRes V
  unfolding row_values
  row_add cs r = record r {
    rows = r.rows ++ row_values r.desc cs ∷ [];
    row_count = r.row_count + 1;
  }

  -- `esql_sqlite_res_init`, on the row in hand.
  unfoldable pub res_init : List Cell → SqliteRes V
  unfolding setup_cb
  res_init cs = record { desc = map setup_cb cs; rows = []; row_count = 0; affected = changes }

  -- `if (!e->res) …`
  abbrev pub found_res : List Cell → Option (SqliteRes V) → SqliteRes V
  found_res cs none = res_init cs
  found_res cs (some r) = r

  -- Without a row in hand each column reads as NULL.
  abbrev pub nulls : ℕ → List Cell
  nulls zero = []
  nulls (suc n) = null_cell ∷ nulls n

  -- The label `out`.
  abbrev pub out : Work V → Work V
  out w = record w { stmt = false; cancelled = true }

  -- One round of the `while` loop with the statement there: `goes_on` is what the rounds behind it
  -- come to.
  abbrev pub guarded : ℕ → Work V → Option (Work V) → Option (Work V)
  guarded tries w goes_on =
      if ltb (tries + 1) 1000 then (if w.stmt then goes_on else some w) else some (out w)

  -- The loop of `esql_sqlite_query_cb`, behind `tries` rounds without a row; `none` while it waits
  -- for an answer that is not in the list.
  unfoldable pub query_loop : ℕ → List Answer → Work V → Option (Work V)
  unfolding row_add res_init
  query_loop tries [] w = guarded tries w none
  query_loop tries (busy ∷ answers) w = guarded tries w (query_loop (tries + 1) answers w)
  query_loop tries (done ∷ answers) w =
      guarded tries w
        (some (record w { stmt = false; res = some (found_res (nulls columns) w.res) }))
  query_loop tries (row cs ∷ answers) w =
      guarded tries w
        (query_loop 0 answers (record w { res = some (row_add cs (found_res cs w.res)) }))
  query_loop tries (failed ∷ answers) w = guarded tries w (some (out w))

  -- `esql_sqlite_query_cb`
  unfoldable pub query_cb : List Answer → Work V → Option (Work V)
  unfolding query_loop
  query_cb answers w = query_loop 0 answers w

  -- `esql_sqlite_thread_end_cb` and `esql_sqlite_thread_cancel_cb`, one of which the main loop
  -- calls behind the thread.
  unfoldable pub thread_over : Work V → Call
  thread_over w = if w.cancelled then event_error else call_complete
