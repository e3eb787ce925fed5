-- ===== src/Lib.antt =====
-- Esskyuehl: an asynchronous SQL client library with backends for MySQL, PostgreSQL and SQLite.
--
-- The program. A user makes a connection object (`Esql`) or a pool of them (`Esql_Pool`), connects
-- it, and makes queries. One call at a time runs on a connection; further ones wait in three
-- parallel lists. The main loop calls `esql_connect_handler`, which asks the backend for progress
-- and passes on to `esql_call_complete` or `esql_event_error`, and these to `esql_next`, which
-- makes the next queued call. A member of a pool that has none takes one from another member.
-- Outcomes go to callbacks or out as events.
--
-- The files:
--   Prelude           the names the other files share: tests on native numbers, lists, bytes
--   State             src/lib/esql_private.h, src/lib/Esskyuehl.h: the structs `Esql` (Conn), `Esql_Pool`
--                     (Pool), `Esql_Res` (Res) and the enumerations; World, the top-level object with
--                     the connection in hand; Env, what the library asks of other code; Act, what it
--                     calls
--   Escape            src/lib/esql_query.c: `esql_string_escape`; Escape/Literal has an SQL reader
--   Escape/Format     src/lib/esql_query.c: `esql_query_escape`; its children have the formats in pieces
--                     and the end of the loop
--   Query             src/lib/esql_query.c: `esql_query`, `esql_query_vargs`, `esql_query_callback_set`;
--                     Query/Ids has the counter of ids, Query/Accept what becomes of a query,
--                     Query/Args the query with arguments beside the plain one
--   Connect           src/lib/esql_connect.c, and `esql_timeout_cb` of src/lib/esql_events.c
--   Events            src/lib/esql_events.c, and `esql_pool_rebalance` of src/lib/esql_pool.c, with
--                     the queue of calls and `esql_next` in Events/Calls, `esql_call_complete` and
--                     `esql_event_error` in Events/Outcomes; its other children have the order of the
--                     queue, rebalancing, the end of the chain of calls, the delivery of outcomes, the
--                     count of connected members, and in Events/Drain a queue that is worked off.
--                     Events/Turns has the turns that the main loop takes, as a step relation over
--                     calls of the chain, threads, timers and the user; Events/Sound has what they
--                     keep of the members of a pool, Events/Ledger what becomes by them of the texts
--                     of queries
--   Object            src/lib/esql.c: `esql_type_set`, `esql_new`, `esql_free`, `esql_fake_free`, and the
--                     module initialisers of src/modules; Object/Library has `esql_init`,
--                     `esql_shutdown` and, from src/lib/esql_alloc.c, the outcome of
--                     `esql_mempool_init`; Object/Mempools has the pools that it takes and that
--                     `esql_mempool_shutdown` gives back; Object/Types has the types that
--                     `esql_type_set` accepts, Object/Modules `module_check` and the files it is called
--                     for, Object/Getters the getters, those of src/lib/esql_connect.c included
--   Result            src/lib/esql_res.c and src/lib/esql_convert.c; Result/Freeing has what the end of a
--                     result releases, Result/Getters the getters
--   Desc              src/lib/esql_module.c: the layout of a row
--   Pool              the rest of src/lib/esql_pool.c; Pool/Idle has the choice of a member, Pool/Walk
--                     the loops over the members, Pool/Settings what a setter leaves on them, Pool/Asking
--                     where a query goes, Pool/Free `esql_pool_free`
--   Sqlite            src/modules/sqlite/esql_sqlite_backend.c: the thread of a query, its result and its
--                     rows; Sqlite/Steps has what they come to, Sqlite/Connection the other hooks, the
--                     thread that opens the database and, in Asking, a query from end to end
--   Postgresql        src/modules/postgresql/esql_postgresql_backend.c: `esql_postgresql_error_get`,
--                     `_io`, `_res`, and the types of columns; Postgresql/Errors has what queries come to
--                     by them, Postgresql/Setup the connection string, Postgresql/Values the values of
--                     cells
--   Mysql             src/modules/mysql/esql_mysql_backend.c: errors, progress, the buffer for queries,
--                     the end of a connection, results, and the types of columns; Mysql/Values has the
--                     values of cells, Mysql/Hooks the calls of mysac and the backend as the library
--                     meets it, Mysql/Rounds the fd handler while mysac waits, and from end to end
--                     Mysql/Connecting and Mysql/Asking a connection and a query,
--                     Mysql/Session both
--   Model             src/lib/esql_model.c: the load state of a model, what is announced of it, and the
--                     statements that the model makes; Model/Getters has the getters
--   Examples          concrete objects, and the theorems applied to them
--
-- How the code is read. A function of the code that changes objects is a function from World to
-- World, with its result beside it. A World holds one top-level object: a connection alone, or the
-- member of a pool in hand with the members before and after it; a pool's loop takes one member
-- after the other in hand. The process-wide counter of query ids and the two hash tables are part
-- of it, a table being a function. Every call of a backend hook, of ecore and of the user's
-- callbacks is recorded in `acts`, the last one first; what such a call answers is a field of Env
-- and may depend on all calls made before. A callback of the user may change the whole World. A
-- pointer that may be NULL is an Option, or a Bool where it is only tested; opaque pointers are
-- numbers. `unsigned int` wraps at 2^32; a time is a number of ticks from 0, a timeout an integer
-- number of them, and a difference of times stops at 0. C strings are the lists of their bytes before the NUL.
--
-- Loops. The walks over lists are structural. `esql_query_escape` runs on fuel of `strlen(fmt) +
-- 1` rounds, enough since every round that goes on is past one more byte of the format. The loops
-- that skip the id 0 have two rounds, as no two ids in a row are 0. The functions of the chain of
-- calls call each other last, so each is one step and `run` repeats steps on fuel; the bound is
-- three for each queued call of the pool and the rank of the first call. `retry` in
-- `esql_mempool_init` is on fuel and may use up any. The loop over `sqlite3_step` is structural in
-- the list of the answers.
--
-- The table of callbacks keeps each entry that `eina_hash_add` adds for an id: the first one is found
-- and a deletion takes one. A pool's `e_connected` stops at 0 where the int of the code goes on to -1.
-- A query counts as given to the backend from the call of the hook on, whatever becomes of its
-- outcome; KNOWN_BUGS says that the current query of a member that is connected again is lost.
--
-- Not modelled. Allocation succeeds. The backends (src/modules) are parameters of the library's
-- files; the initialisers' fields stand in Object, and the backends' own code in files of its own,
-- with the answers of sqlite3, libpq, mysac and the C library, and what eina does with a value, as
-- parameters. What the backends' files only pass on to those libraries is left out. The write of `ev->res`
-- in `esql_call_complete` and its reset in `esql_res_unref`, which lie outside the struct of a pool,
-- are left out.
-- src/modules/mysql/mysac is a copy of another project's client library. Of src/lib/esql_model.c the
-- parts that only call the object system are left out, since its classes are generated, and the
-- values of the load states are a parameter. src/tests are programs that need a server.
mod Prelude
pub mod Escape
pub mod State
pub mod Query
pub mod Connect
pub mod Events
pub mod Object
pub mod Result
pub mod Desc
pub mod Pool
pub mod Sqlite
pub mod Postgresql
pub mod Mysql
pub mod Model
pub mod Examples
