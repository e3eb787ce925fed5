-- ===== src/Mysql.antt =====
-- src/modules/mysql/esql_mysql_backend.c: errors, progress, the buffer for queries, and results.
-- What mysac, a library of its own, answers is a parameter.
pub mod Buffer
pub mod Rows
pub mod Values
pub mod Closing
pub mod Hooks
pub mod Rounds
pub mod Asking
pub mod Connecting
pub mod Session
use esskyuehl.Prelude.{
  ℕ, zero, suc, ◌+◌, ◌-◌, ◌*◌, ◌/◌, ◌%◌, Bool, true, false, not, List, [], ◌∷◌, ◌++◌, Option, none,
  some, Bytes, ◌==◌, ltb, if◌then◌else◌, length, u32_mod,
}
use esskyuehl.Escape.Format.{Arg, Printer, Escaped, text, null, undefined, stuck, query_escape}
use esskyuehl.State.{Io, done, wants_read, wants_write, fails, Res}

-- What a call of mysac returns, and `mysac_errno`: 0, MYERR_WANT_READ, MYERR_WANT_WRITE, or any
-- other.
pub data Errno : Type 0 where
  no_error want_read want_write : Errno
  other_error : ℕ → Errno

-- ESQL_MYSAC_SWITCH_RET, the whole of `esql_mysac_connect` and `esql_mysac_io`.
unfoldable pub switch_ret : Errno → Io
switch_ret no_error = done
switch_ret want_read = wants_read
switch_ret want_write = wants_write
switch_ret (other_error n) = fails

-- `esql_mysac_error_get`; the text is that of `mysac_advance_error`.
unfoldable pub error_get : Errno → Option Bytes → Option Bytes
error_get want_read msg = none
error_get want_write msg = none
error_get no_error msg = none
error_get (other_error n) msg = msg

-- The fields of MYSAC that the backend itself reads and writes; `fd` is NULL where it is negative,
-- and `started` says that `qst` is MYSAC_START.
pub record Mysac : Type 0 where
  pub fd : Option ℕ
  pub bufsize : ℕ
  pub status : ℕ
  pub addr : Option Bytes
  pub login : Option Bytes
  pub password : Option Bytes
  pub database : Option Bytes
  pub errorcode : ℕ
  pub mysql_error : Option Bytes
  pub affected_rows : ℕ
  pub insert_id : ℕ
  pub free_it : Bool
  pub started : Bool

-- What `esql_mysac_disconnect` leaves for `mysac_setup`: a MYSAC that is cleared but for its
-- buffer.
unfoldable pub cleared : Mysac → Mysac
cleared m = record {
  fd = some 0;
  bufsize = m.bufsize;
  status = 0;
  addr = none;
  login = none;
  password = none;
  database = none;
  errorcode = 0;
  mysql_error = none;
  affected_rows = 0;
  insert_id = 0;
  free_it = true;
  started = true;
}

-- `esql_mysac_disconnect`, with `mysac_setup` as a parameter, and the descriptor that it closes.
unfoldable pub disconnect :
    (Option Bytes → Option Bytes → Option Bytes → Option Bytes → Mysac → Mysac)
    → Option Bytes
    → Mysac
    → Mysac × Option ℕ
unfolding cleared
disconnect setup database m = (setup m.addr m.login m.password database (cleared m), m.fd)

-- `esql_mysac_setup`
unfoldable pub setup :
    (Option Bytes → Option Bytes → Option Bytes → Option Bytes → Mysac → Mysac)
    → Option Bytes
    → Bytes
    → Bytes
    → Option Bytes
    → Mysac
    → Mysac
setup mysac_setup database addr user passwd m =
    mysac_setup (some addr) (some user) passwd database m

-- `esql_mysac_free`: the descriptor that it closes, and the strings that it releases.
unfoldable pub free :
    (Option Bytes → Option Bytes → Option Bytes → Option Bytes → Mysac → Mysac)
    → Option Bytes
    → Mysac
    → Option ℕ × List (Option Bytes)
unfolding disconnect
free mysac_setup database m =
    let (n, fd) = disconnect mysac_setup database m in (fd, n.addr ∷ n.login ∷ n.password ∷ [])

-- `m->status & 512`
abbrev pub no_backslashes : Mysac → Bool
no_backslashes m = (m.status / 512) % 2 == 1

-- `*len`, which is 0 where there is no text.
abbrev pub len_of : Escaped → ℕ
len_of (text s n) = n
len_of null = 0
len_of undefined = 0
len_of stuck = 0

-- `if (*len > m->bufsize - 5) …`, in arithmetic of `unsigned int`.
unfoldable pub grow : ℕ → Mysac → Mysac
grow len m =
    if ltb ((m.bufsize + u32_mod - 5) % u32_mod) len
    then record m { bufsize = (len * 2) % u32_mod }
    else m

-- `esql_mysac_escape`
unfoldable pub escape : Printer → Bytes → List Arg → Mysac → Mysac × Escaped
unfolding grow query_escape
escape pr fmt args m =
    let r = query_escape pr (not (no_backslashes m)) fmt args in (grow (len_of r) m, r)

-- A result of mysac: the number of its columns, what `mysac_num_rows` says, and the rows that
-- `mysac_fetch_row` gives from the first one on.
pub record MysacRes {ℓ} (R : Type ℓ) : Type ℓ where
  pub nb_cols : ℕ
  pub num_rows : ℕ
  pub fetched : List R

module _ {ℓ} {R : Type ℓ} where
  -- The `do … while` loop, on the rows from the one in hand on.
  unfoldable pub add_rows : List R → Res → Res
  add_rows [] r = r
  add_rows (x ∷ xs) r = add_rows xs (record r { rows = suc r.rows })

  -- A statement with no row to fetch is an insertion or the like.
  abbrev pub with_rows : Mysac → ℕ → List R → Res → Res
  with_rows m n [] r = record r { affected = m.affected_rows; id = m.insert_id }
  with_rows m n (x ∷ xs) r = add_rows (x ∷ xs) (record r { row_count = n })

  -- `esql_mysac_res`; a description has the number of columns that it is asked for.
  unfoldable pub fill_res : Mysac → Option (MysacRes R) → Res → Res
  unfolding add_rows
  fill_res m none r = r
  fill_res m (some x) r =
      with_rows m x.num_rows x.fetched
        (record r { desc = if ltb x.nb_cols 1 then none else some x.nb_cols })

-- `esql_mysac_res_free`: what it does to the MYSAC of the connection that the result names.
unfoldable pub res_free : Mysac → Mysac
res_free m = record m { errorcode = 0; mysql_error = none }

-- The column types of mysac's header.
pub data ColumnType : Type 0 where
  mysql_decimal mysql_tiny mysql_short mysql_long mysql_float mysql_double mysql_null : ColumnType
  mysql_timestamp mysql_longlong mysql_int24 mysql_date mysql_time mysql_datetime : ColumnType
  mysql_year mysql_varchar mysql_newdecimal mysql_tiny_blob mysql_medium_blob : ColumnType
  mysql_long_blob mysql_blob mysql_var_string mysql_string : ColumnType
  mysql_other : ColumnType

-- EINA_VALUE_TYPE_TIMESTAMP and so on.
pub data ValueType : Type 0 where
  timestamp string char short long int64 float double blob : ValueType

-- `esql_module_setup_cb`: the type of a column.
unfoldable pub column_type : ColumnType → ValueType
column_type mysql_time = double
column_type mysql_double = double
column_type mysql_year = timestamp
column_type mysql_timestamp = timestamp
column_type mysql_datetime = timestamp
column_type mysql_date = timestamp
column_type mysql_string = string
column_type mysql_varchar = string
column_type mysql_var_string = string
column_type mysql_tiny = char
column_type mysql_short = short
column_type mysql_long = long
column_type mysql_int24 = long
column_type mysql_decimal = int64
column_type mysql_newdecimal = int64
column_type mysql_longlong = int64
column_type mysql_float = float
column_type mysql_null = blob
column_type mysql_tiny_blob = blob
column_type mysql_medium_blob = blob
column_type mysql_long_blob = blob
column_type mysql_blob = blob
column_type mysql_other = blob
