-- ===== src/Examples/Links.antt =====
-- Connections that are set up, lost and made again, and what the backends keep of them.
use esskyuehl.Prelude.{
  take, ◌+◌, ◌≡◌, ◌≤◌, ◌<◌, refl, true, false, [], ◌∷◌, none, some, Option, arith, Bytes, codes,
}
use esskyuehl.State.{
  on_conn, connect_event, idle, World, Env, wants_both, sqlite, backend_connect, event_add,
  disconnect_event,
}
use esskyuehl.Object.{blank}
use esskyuehl.Escape.Format.{signed, w_int}
use esskyuehl.Connect.{connect}
use esskyuehl.Events.{reconnect_handler}
use esskyuehl.Mysql.{Mysac, MysacRes, cleared, len_of, escape, fill_res, disconnect}
use esskyuehl.Mysql
use esskyuehl.Mysql.Buffer.{SizeOk, escape-SizeOk}
use esskyuehl.Mysql.Closing.{Stores, free-setup}
use esskyuehl.Postgresql.Setup.{Backend, setup, options, setup-options}
use esskyuehl.Sqlite.Connection.{Handles, open_thread}
use esskyuehl.Sqlite.Connection
use esskyuehl.Sqlite.Connection.Opening.{Threaded, IsFresh, Connected, open_thread-Connected}
use esskyuehl.Sqlite.Connection.Again.{reconnect_handler-Threaded}
use esskyuehl.Examples.{plain, quiet, ready, alone}

abbrev fresh_mysac : Mysac
fresh_mysac = record {
  fd = some 4;
  bufsize = 4096;
  status = 0;
  addr = some (codes "db");
  login = some (codes "me");
  password = none;
  database = none;
  errorcode = 0;
  mysql_error = none;
  affected_rows = 0;
  insert_id = 0;
  free_it = true;
  started = false;
}

-- The format `%i` grows to one digit.
abbrev short_format : Bytes
short_format = codes "id=%i"

short_len :
    len_of (Mysql.escape plain short_format (signed w_int 7 ∷ []) fresh_mysac).1 < 2147483648
unfolding Mysql.escape
short_len = omega arith

escape-SizeOk_example :
    SizeOk (Mysql.escape plain short_format (signed w_int 7 ∷ []) fresh_mysac).0
    × (4096 ≤ (Mysql.escape plain short_format (signed w_int 7 ∷ []) fresh_mysac).0.bufsize)
    × (len_of (Mysql.escape plain short_format (signed w_int 7 ∷ []) fresh_mysac).1 + 5
        ≤ (Mysql.escape plain short_format (signed w_int 7 ∷ []) fresh_mysac).0.bufsize)
escape-SizeOk_example =
    escape-SizeOk plain short_format (signed w_int 7 ∷ []) fresh_mysac (omega arith, omega arith)
      short_len

-- `mysac_setup` as far as the backend relies on it.
abbrev store : Option Bytes → Option Bytes → Option Bytes → Option Bytes → Mysac → Mysac
store a l p d m = record m { addr = a; login = l; password = p; database = d }

store-Stores : Stores store
store-Stores = record {
  same_fd = λ a l p d m. refl;
  has_addr = λ a l p d m. refl;
  has_login = λ a l p d m. refl;
  has_password = λ a l p d m. refl;
}

free-setup_example :
    Mysql.free store none
      (disconnect store none (Mysql.setup store none (codes "a") (codes "u") none fresh_mysac)).0
    ≡ (some 0, some (codes "a") ∷ some (codes "u") ∷ none ∷ [])
free-setup_example =
    free-setup store none none none (codes "a") (codes "u") none fresh_mysac store-Stores

abbrev shown : Option Bytes → Bytes
shown none = codes "(null)"
shown (some s) = s

abbrev unset : Backend
unset = record { db = false; conn_str = none }

setup-options_example :
    (setup shown none (some (codes "h:1")) (some (codes "me")) (some (codes "x")) unset).conn_str
    ≡ some
        (take 4095 (options (codes "h") (some (codes "1")) (codes "me") (codes "me") (codes "x")))
setup-options_example =
    setup-options shown none (codes "h") (some (codes "1")) (codes "me") (codes "x") unset
      ((λ e. omega (arith, e)), tt) refl

abbrev in_threads : Env
in_threads = record quiet { connect = λ h. (wants_both, false); fd_get = λ h. none }

in_threads-Threaded : Threaded in_threads
in_threads-Threaded = record { starts = λ h. refl; no_fd = λ h. refl }

abbrev new_object : World
new_object = alone (record blank { kind = sqlite })

new_object-IsFresh : IsFresh new_object
new_object-IsFresh = record {
  is_sqlite = refl;
  is_down = refl;
  is_alone = refl;
  is_empty = record { funcs = refl; params = refl; ids = refl };
  no_callback = refl;
}

open_thread-Connected_example :
    Connected (connect in_threads (some (codes "f.db")) [] none new_object) (
      open_thread in_threads 2 true (connect in_threads (some (codes "f.db")) [] none new_object).0)
open_thread-Connected_example =
    open_thread-Connected in_threads in_threads-Threaded (codes "f.db") [] none new_object 0
      new_object-IsFresh

abbrev opened : Handles
opened = record { db = true; stmt = false; thread = false; conn_str = some (codes "f.db") }

-- The object of a connection that was lost.
abbrev lost : World
lost = alone (record ready { connected = false })

reconnect_handler-Threaded_example :
    ((reconnect_handler in_threads lost).acts
      ≡ event_add disconnect_event on_conn ∷ backend_connect ∷ [])
    × ((reconnect_handler in_threads lost).e.connected ≡ false)
    × ((open_thread in_threads 2 true (reconnect_handler in_threads lost)).0.acts
        ≡ event_add connect_event on_conn ∷ (reconnect_handler in_threads lost).acts)
    × ((open_thread in_threads 2 true (reconnect_handler in_threads lost)).0.e.connected ≡ true)
    × ((open_thread in_threads 2 true (reconnect_handler in_threads lost)).0.e.current ≡ idle)
    × ((open_thread in_threads 2 true (reconnect_handler in_threads lost)).1 ≡ none)
    × ((Connection.connect true (Connection.disconnect opened)).0.conn_str ≡ none)
reconnect_handler-Threaded_example =
    reconnect_handler-Threaded in_threads lost opened 0 in_threads-Threaded refl refl refl refl
      (record { funcs = refl; params = refl; ids = refl })
