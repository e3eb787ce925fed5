-- ===== src/Result/Getters.antt =====
-- The getters of src/lib/esql_res.c, on a result that may be NULL.
use esskyuehl.Prelude.{ℕ, Option, none, some, Bytes, if◌then◌else◌}
use esskyuehl.State.{Conn, Res, Target, on_conn, on_pool}

-- `esql_res_esql_get`, by the connection that the result names.
abbrev pub esql_get : Option Conn → Option Target
esql_get none = none
esql_get (some c) = some (if c.pool_member then on_pool else on_conn)

-- `esql_res_error_get`
abbrev pub error_get : Option Res → Option Bytes
error_get none = none
error_get (some r) = r.error

-- `esql_res_data_get`
abbrev pub data_get : Option Res → Option ℕ
data_get none = none
data_get (some r) = r.data_ptr

-- `esql_res_query_id_get`
abbrev pub query_id_get : Option Res → ℕ
query_id_get none = 0
query_id_get (some r) = r.qid

-- `esql_res_query_get`
abbrev pub query_get : Option Res → Option Bytes
query_get none = none
query_get (some r) = r.query_text

-- `esql_res_rows_count`, where `none` is -1, as in the next three.
abbrev pub rows_count : Option Res → Option ℕ
rows_count none = none
rows_count (some r) = some r.row_count

-- `esql_res_rows_affected`
abbrev pub rows_affected : Option Res → Option ℕ
rows_affected none = none
rows_affected (some r) = some r.affected

-- `esql_res_id`
abbrev pub id : Option Res → Option ℕ
id none = none
id (some r) = some r.id

-- `esql_res_refcount`
abbrev pub refcount : Option Res → Option ℕ
refcount none = none
refcount (some r) = some r.refcount
