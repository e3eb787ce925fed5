-- ===== src/Mysql/Hooks.antt =====
-- The hooks of src/modules/mysql/esql_mysql_backend.c that call mysac, and the backend as the
-- library meets it: what a hook answers depends on the calls made before.
use esskyuehl.Prelude.{ℕ, true, not, List, [], ◌∷◌, Option, some, Bytes, ◌==◌, if◌then◌else◌}
use esskyuehl.State.{
  Env, Act, Io, backend_setup, backend_connect, backend_disconnect, backend_io,
  backend_database_set, backend_query, res_unref,
}
use esskyuehl.Mysql.{
  Mysac, MysacRes, Errno, switch_ret, error_get, disconnect, setup, no_backslashes, fill_res,
  res_free,
}

-- The functions of mysac that the backend calls, on a MYSAC; `R` is the type of a row.
pub record MysacCalls {ℓ} (R : Type ℓ) : Type ℓ where
  pub mysac_setup : Option Bytes → Option Bytes → Option Bytes → Option Bytes → Mysac → Mysac
  pub mysac_connect : Mysac → Mysac × Errno
  pub mysac_io : Mysac → Mysac × Errno
  pub mysac_set_database : Bytes → Mysac → Mysac
  -- `mysac_s_set_query` with the result that `mysac_new_res` made for it.
  pub mysac_s_set_query : Bytes → Mysac → Mysac
  pub mysac_get_fd : Mysac → Option ℕ
  pub mysac_get_res : Mysac → Option (MysacRes R)
  pub mysac_errno : Mysac → Errno
  pub mysac_advance_error : Mysac → Bytes

abbrev pub with_io : Mysac × Errno → Mysac × Io
with_io (m, n) = (m, switch_ret n)

module _ {ℓ} {R : Type ℓ} (lib : MysacCalls R) where
  -- `esql_mysac_connect`
  unfoldable pub connect : Mysac → Mysac × Io
  connect m = with_io (lib.mysac_connect m)

  -- `esql_mysac_io`
  unfoldable pub io : Mysac → Mysac × Io
  io m = with_io (lib.mysac_io m)

  -- `esql_mysac_database_set`
  unfoldable pub database_set : Bytes → Mysac → Mysac
  database_set name m = lib.mysac_set_database name m

  -- `esql_mysac_query`
  unfoldable pub query : Bytes → Mysac → Mysac
  query q m = lib.mysac_s_set_query q m

  -- `esql_mysac_fd_get`
  unfoldable pub fd_get : Mysac → Option ℕ
  fd_get m = lib.mysac_get_fd m

  -- The MYSAC behind a history of calls, the last one first; `database` is `e->database` at such a
  -- time. A result that goes out as an event is released later, which no history shows.
  unfoldable pub behind : (List Act → Option Bytes) → Mysac → List Act → Mysac
  unfolding connect io database_set query disconnect setup res_free
  behind database m [] = m
  behind database m (backend_setup addr user passwd ∷ h) =
      setup lib.mysac_setup (database h) addr user passwd (behind database m h)
  behind database m (backend_connect ∷ h) = (connect (behind database m h)).0
  behind database m (backend_disconnect ∷ h) =
      (disconnect lib.mysac_setup (database h) (behind database m h)).0
  behind database m (backend_io ∷ h) = (io (behind database m h)).0
  behind database m (backend_database_set name ∷ h) = database_set name (behind database m h)
  behind database m (backend_query q len ∷ h) = query q (behind database m h)
  behind database m (res_unref r ∷ h) =
      let n = behind database m h in if r.refcount == 1 then res_free n else n
  behind database m (_ ∷ h) = behind database m h

  -- The history before the call in hand.
  abbrev pub earlier : List Act → List Act
  earlier [] = []
  earlier (a ∷ h) = h

  -- The same surroundings with this backend; the MYSAC was `m` at first. `esql_mysac_disconnect`
  -- leaves `backend.db` as it was.
  unfoldable pub over : (List Act → Option Bytes) → Mysac → Env → Env
  unfolding behind connect io fd_get error_get fill_res
  over database m env = record env {
    io = λ h. (io (behind database m (earlier h))).1;
    connect = λ h. ((connect (behind database m (earlier h))).1, true);
    db_left = λ h. true;
    fd_get = λ h. fd_get (behind database m h);
    error_get = λ h.
        let n = behind database m h in
        error_get (lib.mysac_errno n) (some (lib.mysac_advance_error n));
    fill_res = λ h r. let n = behind database m h in fill_res n (lib.mysac_get_res n) r;
    backslashes = λ h. not (no_backslashes (behind database m h));
  }
