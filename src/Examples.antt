-- ===== src/Examples.antt =====
-- Concrete objects and surroundings on which the other modules' theorems are tried out.
mod Calls
mod Backends
mod Texts
mod Objects
mod Links
mod Models
mod Pools
mod Cells
mod Modules
mod Servers
use esskyuehl.Prelude.{
  ℕ, ◌+◌, ◌%◌, Bool, true, false, List, [], ◌∷◌, ◌++◌, Option, none, some, Bytes, length,
}
use esskyuehl.Escape.Format.{Printer}
use esskyuehl.State.{
  Conn, World, Env, Res, sqlite, mysql, done, wants_both, query, init, run_query, query_id, update,
}
use esskyuehl.Object.{blank}
use esskyuehl.Pool.{blank_pool}

-- A buffer that always grows; a number is printed by its last digit.
abbrev pub plain : Printer
plain = record {
  append = λ buf x. some (buf ++ x);
  lli = λ n. (48 + n % 10) ∷ [];
  llu = λ n. (48 + n % 10) ∷ [];
  lf = λ n. (48 + n % 10) ∷ [];
}

-- A backend whose calls all succeed, and callbacks that do nothing.
abbrev pub quiet : Env
quiet = record {
  io = λ h. done;
  connect = λ h. (wants_both, true);
  db_left = λ h. false;
  fd_get = λ h. some 7;
  error_get = λ h. none;
  fill_res = λ h r. record r { rows = 1; row_count = 1 };
  fd_has_error = λ h. false;
  time = λ h. length h;
  printer = plain;
  backslashes = λ h. false;
  on_connect = λ cb p w. w;
  on_result = λ cb r p w. w;
}

-- The same with an error behind each query.
abbrev pub failing : Env
failing = record quiet { error_get = λ h. some (b'e' ∷ []) }

abbrev pub ready : Conn
ready = record blank { connected = true; kind = sqlite; db = true; free_hook = true }

abbrev pub busy : Conn
busy = record ready { current = query; cur_id = 5; cur_query = some (b'q' ∷ []); cur_data = some 9 }

-- A busy connection with a query that waits.
abbrev pub waiting : Conn
waiting = record busy {
  backend_set_funcs = run_query ∷ [];
  backend_set_params = some (b'r' ∷ []) ∷ [];
  backend_ids = query_id 6 ∷ [];
}

abbrev pub alone : Conn → World
alone c = record {
  before = [];
  e = c;
  after = [];
  ep = blank_pool;
  esql_id = 6;
  query_callbacks = λ n. none;
  more_callbacks = λ n. [];
  query_data = λ n. none;
  acts = [];
}

abbrev pub in_pool : Conn → Conn
in_pool c = record c { pool_member = true }

-- A pool of two members: the first one busy, with a query that waits, and `c` in hand.
abbrev pub second : Conn → World
second c = record (alone (record c { pool_member = true; pool_id = 1 })) {
  before = in_pool waiting ∷ [];
  ep = record blank_pool { size = 2; e_connected = 1 };
}
