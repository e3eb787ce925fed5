-- ===== src/Postgresql.antt =====
-- src/modules/postgresql/esql_postgresql_backend.c: errors, progress, results and the types of
-- columns. What libpq answers is a parameter.
pub mod Errors
pub mod Values
pub mod Setup
use esskyuehl.Prelude.{
  ℕ, zero, suc, Bool, true, false, not, List, [], ◌∷◌, Option, none, some, Bytes, ltb,
  if◌then◌else◌,
}
use esskyuehl.Escape.Format.{Arg, Printer, Escaped, query_escape}
use esskyuehl.State.{ConnectType, init, Io, done, wants_both, wants_read, wants_write, fails, Res}

-- `(!p) || (!*p)`, and `p` otherwise.
abbrev pub if_text : Option Bytes → Option Bytes → Option Bytes
if_text none other = other
if_text (some []) other = other
if_text (some (c ∷ s)) other = some (c ∷ s)

-- `PQerrorMessage`, `PQresultErrorMessage` of the next result, and `PQresStatus` of the one behind
-- it.
pub record Messages : Type 0 where
  pub of_connection : Option Bytes
  pub of_result : Option Bytes
  pub of_status : Option Bytes

-- `esql_postgresql_error_get`
unfoldable pub error_get : Messages → Option Bytes
error_get m = if_text m.of_connection (if_text m.of_result m.of_status)

-- `PQconnectPoll`
pub data Poll : Type 0 where
  polling_ok polling_reading polling_writing polling_failed : Poll

-- `PQstatus(…) == CONNECTION_BAD`, `PQconnectPoll`, `PQconsumeInput` and `PQisBusy`.
pub record Progress : Type 0 where
  pub bad : Bool
  pub poll : Poll
  pub consumed : Bool
  pub busy : Bool

unfoldable pub io_init : Poll → Io
io_init polling_ok = done
io_init polling_reading = wants_read
io_init polling_writing = wants_write
io_init polling_failed = fails

abbrev pub is_init : ConnectType → Bool
is_init init = true
is_init _ = false

-- `esql_postgresql_io`
unfoldable pub io : ConnectType → Progress → Io
unfolding io_init
io current x =
    if x.bad
    then fails
    else if is_init current
    then io_init x.poll
    else if not x.consumed
    then fails
    else if not x.busy
    then done
    else wants_both

-- `PQresultStatus`: PGRES_COMMAND_OK with `PQcmdTuples` as a number, if it has one, and
-- `PQoidValue`, PGRES_TUPLES_OK with `PQntuples`, or any other with `PQresultErrorMessage`.
pub data Status : Type 0 where
  command_ok : Option ℕ → ℕ → Status
  tuples_ok : ℕ → Status
  result_error : Option Bytes → Status

-- The loop that makes a row for each `i < res->row_count`.
unfoldable pub row_loop : ℕ → Res → Res
row_loop zero r = r
row_loop (suc n) r = row_loop n (record r { rows = suc r.rows })

abbrev pub affected_by : Option ℕ → Res → Res
affected_by none r = r
affected_by (some n) r = record r { affected = n }

-- `esql_postgresql_res`; a description has the number of columns that it is asked for.
unfoldable pub fill_res : Option Status → Res → Res
unfolding row_loop
fill_res none r = r
fill_res (some (command_ok a oid)) r = record (affected_by a r) { id = oid }
fill_res (some (tuples_ok n)) r =
    row_loop r.row_count (record r { desc = if ltb n 1 then none else some n })
fill_res (some (result_error s)) r = record r { error = s }

-- A connection of libpq is a `P`.
module _ {ℓ} {P : Type ℓ} where
  -- `esql_postgresql_query`: what `PQsendQuery` leaves, whether it succeeds or not.
  abbrev pub query : (Bytes → P → P × Bool) → Bytes → P → P
  query send q db = (send q db).0

  -- `esql_postgresql_fd_get`
  abbrev pub fd_get : (P → Option ℕ) → P → Option ℕ
  fd_get socket db = socket db

-- `esql_postgresql_escape`
abbrev pub escape : Printer → Bytes → List Arg → Escaped
escape pr fmt args = query_escape pr true fmt args

-- `PQftype`, by the names of the OIDs.
pub data Oid : Type 0 where
  timestamp_oid abstime_oid bytea_oid name_oid text_oid varchar_oid bpchar_oid bool_oid char_oid :
      Oid
  int2_oid int4_oid int8_oid float4_oid float8_oid tinterval_oid reltime_oid other_oid : Oid

-- EINA_VALUE_TYPE_TIMESTAMP and so on.
pub data ValueType : Type 0 where
  timestamp string char short long int64 float double ulong blob : ValueType

-- `esql_module_setup_cb`: the type of a column.
unfoldable pub column_type : Oid → ValueType
column_type timestamp_oid = timestamp
column_type abstime_oid = timestamp
column_type bytea_oid = string
column_type name_oid = string
column_type text_oid = string
column_type varchar_oid = string
column_type bpchar_oid = string
column_type bool_oid = char
column_type char_oid = char
column_type int2_oid = short
column_type int4_oid = long
column_type int8_oid = int64
column_type float4_oid = float
column_type float8_oid = double
column_type tinterval_oid = double
column_type reltime_oid = double
column_type other_oid = blob
