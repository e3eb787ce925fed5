-- ===== src/Object/Getters.antt =====
-- The getters of src/lib/esql.c and src/lib/esql_connect.c, on a connection or a pool, and
-- `esql_data_set`. A pool begins with the same fields as a connection.
use esskyuehl.Prelude.{ℤ, ℕ, Bool, false, Option, none, some, Bytes}
use esskyuehl.State.{Conn, Pool, EsqlType, no_type}

-- `Esql *`, where it is not NULL.
pub data Handle : Type 0 where
  conn : Conn → Handle
  pool : Pool → Handle

-- `esql_isconnected`
abbrev pub isconnected : Option Handle → Bool
isconnected none = false
isconnected (some (conn c)) = c.connected
isconnected (some (pool p)) = p.connected

-- `esql_data_get`
abbrev pub data_get : Option Handle → Option ℕ
data_get none = none
data_get (some (conn c)) = c.data_ptr
data_get (some (pool p)) = p.data_ptr

-- `esql_data_set`
abbrev pub data_set : Option ℕ → Option Handle → Option Handle
data_set p none = none
data_set p (some (conn c)) = some (conn (record c { data_ptr = p }))
data_set p (some (pool q)) = some (pool (record q { data_ptr = p }))

-- `esql_type_get`
abbrev pub type_get : Option Handle → EsqlType
type_get none = no_type
type_get (some (conn c)) = c.kind
type_get (some (pool p)) = p.kind

-- `esql_current_query_id_get`
abbrev pub current_query_id_get : Option Handle → ℕ
current_query_id_get none = 0
current_query_id_get (some (conn c)) = c.cur_id
current_query_id_get (some (pool p)) = p.cur_id

-- `esql_current_query_get`
abbrev pub current_query_get : Option Handle → Option Bytes
current_query_get none = none
current_query_get (some (conn c)) = c.cur_query
current_query_get (some (pool p)) = p.cur_query

-- `esql_error_get`
abbrev pub error_get : Option Handle → Option Bytes
error_get none = none
error_get (some (conn c)) = c.error
error_get (some (pool p)) = p.error

-- `esql_database_get`
abbrev pub database_get : Option Handle → Option Bytes
database_get none = none
database_get (some (conn c)) = c.database
database_get (some (pool p)) = p.database

-- `esql_connect_timeout_get`, where `none` is -1.0.
abbrev pub connect_timeout_get : Option Handle → Option ℤ
connect_timeout_get none = none
connect_timeout_get (some (conn c)) = some c.timeout
connect_timeout_get (some (pool p)) = some p.timeout

-- `esql_reconnect_get`
abbrev pub reconnect_get : Option Handle → Bool
reconnect_get none = false
reconnect_get (some (conn c)) = c.reconnect
reconnect_get (some (pool p)) = p.reconnect
