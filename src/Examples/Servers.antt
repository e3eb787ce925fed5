-- ===== src/Examples/Servers.antt =====
-- A MySQL server, and queries to it.
use esskyuehl.Prelude.{
  if◌then◌else◌, ℕ, ◌-◌, ◌≡◌, refl, true, none, some, [], ◌∷◌, Bytes, ◌==◌, inl, inr, false, length,
}
use esskyuehl.State
use esskyuehl.State.{World, Env}
use esskyuehl.Object.{blank, mysac_init}
use esskyuehl.Connect.{connect}
use esskyuehl.Mysql.Connecting.{IsClosed, Connected, connect-Connected}
use esskyuehl.Mysql.Session.{Serves, session-Answered}
use esskyuehl.Query.{query, next_id}
use esskyuehl.Events.{connect_handler, run, fd_handler}
use esskyuehl.Mysql.{switch_ret, Mysac, Errno, no_error, want_read, want_write, other_error}
use esskyuehl.Mysql.Hooks.{MysacCalls, behind, over}
use esskyuehl.Mysql.Rounds.{ends, waits, UnderWay, Stays, wakes}
use esskyuehl.Mysql.Asking.{IsOpen}
use esskyuehl.Mysql.Asking.Answer.{Answered, fd_handler-Answered}
use esskyuehl.Mysql.Asking.Failure.{Told, fd_handler-Told}
use esskyuehl.Prelude.{◌+◌}
use esskyuehl.Events.{reconnect_handler, call_complete_step}
use esskyuehl.Events.Members.{ups}
use esskyuehl.Events.Sound.Recount.{Opens, reconnect_handler-recount}
use esskyuehl.Pool.{blank_pool}
use esskyuehl.Examples.{quiet, ready, alone}

abbrev new_mysac : Mysac
new_mysac = record {
  fd = some 5;
  bufsize = 4096;
  status = 0;
  addr = none;
  login = none;
  password = none;
  database = none;
  errorcode = 0;
  mysql_error = none;
  affected_rows = 0;
  insert_id = 0;
  free_it = true;
  started = true;
}

abbrev errno_of : Mysac → Errno
errno_of m = if m.errorcode == 0 then no_error else other_error m.errorcode

-- The server answers behind as many rounds as `affected_rows` counts, with the error `code`, or
-- none if that is 0.
abbrev io_once : ℕ → Mysac → Mysac × Errno
io_once code m =
    if m.affected_rows == 0
    then (record m { errorcode = code }, errno_of (record m { errorcode = code }))
    else (record m { affected_rows = m.affected_rows - 1 }, want_read)

abbrev server : ℕ → MysacCalls ℕ
server code = record {
  mysac_setup = λ addr user passwd name m. record m { addr = addr };
  mysac_connect = λ m. (record m { affected_rows = 1 }, want_write);
  mysac_io = λ m. io_once code m;
  mysac_set_database = λ name m. record m { database = some name };
  mysac_s_set_query = λ q m. record m { affected_rows = length q };
  mysac_get_fd = λ m. m.fd;
  mysac_get_res = λ m. some (record { nb_cols = 1; num_rows = 2; fetched = 8 ∷ 9 ∷ [] });
  mysac_errno = errno_of;
  mysac_advance_error = λ m. b'e' ∷ [];
}

ready-IsOpen : IsOpen (alone ready)
ready-IsOpen = record {
  is_up = refl;
  has_db = refl;
  is_at_rest = refl;
  is_alone = refl;
  is_empty = refl;
  no_job = refl;
  no_res = refl;
}

-- The object with its server, and a query that the server answers in its third round.
abbrev surroundings : ℕ → Env
surroundings code = over (server code) (λ h. none) new_mysac quiet

abbrev two_bytes : Bytes
two_bytes = b'q' ∷ b's' ∷ []

fd_handler-Answered_example :
    ((query (surroundings 0) (some 3) (some two_bytes) (alone ready)).1 ≡ next_id 6)
    × UnderWay State.query (surroundings 0) 3 2 (
        fd_handler
          (surroundings 0)
          3
          (query (surroundings 0) (some 3) (some two_bytes) (alone ready)).0)
    × Answered
        (some 3)
        two_bytes
        (query (surroundings 0) (some 3) (some two_bytes) (alone ready)).1
        2
        (wakes (surroundings 0) 3 2 (
          fd_handler
            (surroundings 0)
            3
            (query (surroundings 0) (some 3) (some two_bytes) (alone ready)).0))
unfolding behind
fd_handler-Answered_example =
    fd_handler-Answered (server 0) (λ h. none) new_mysac quiet (some 3) two_bytes (alone ready)
      (record new_mysac { errorcode = 0 }) 2 0
      (record { nb_cols = 1; num_rows = 2; fetched = 8 ∷ 9 ∷ [] }) ready-IsOpen refl (inl refl)
      (waits (inl refl) (waits (inl refl) (ends refl))) refl refl

-- The same object with a callback for the next query.
abbrev with_callback : World
with_callback = record (alone ready) { query_callbacks = λ n. if n == 7 then some 4 else none }

with_callback-IsOpen : IsOpen with_callback
with_callback-IsOpen = record {
  is_up = refl;
  has_db = refl;
  is_at_rest = refl;
  is_alone = refl;
  is_empty = refl;
  no_job = refl;
  no_res = refl;
}

fd_handler-Told_example :
    UnderWay State.query (surroundings 7) 3 2 (
      fd_handler
        (surroundings 7)
        3
        (query (surroundings 7) (some 3) (some two_bytes) with_callback).0)
    × Told
        (some 3)
        two_bytes
        (query (surroundings 7) (some 3) (some two_bytes) with_callback).1
        4
        (b'e' ∷ [])
        none
        (wakes (surroundings 7) 3 2 (
          fd_handler
            (surroundings 7)
            3
            (query (surroundings 7) (some 3) (some two_bytes) with_callback).0))
unfolding behind
fd_handler-Told_example =
    fd_handler-Told (server 7) (λ h. none) new_mysac quiet (some 3) two_bytes with_callback
      (record new_mysac { errorcode = 7 }) 2 0 4 7 7
      (record { no_change = λ cb r p w. refl; no_fd_error = λ h. refl }) with_callback-IsOpen
      (unfold next_id in refl) (inl refl) (waits (inl refl) (waits (inl refl) (ends refl))) refl

-- A new object of type MySQL.
abbrev fresh : World
fresh = alone (mysac_init blank)

fresh-IsClosed : IsClosed fresh
fresh-IsClosed = record {
  has_kind = refl;
  has_db = refl;
  is_down = refl;
  is_alone = refl;
  is_empty = refl;
  no_callback = refl;
  no_job = refl;
  no_res = refl;
}

connect-Connected_example :
    ((connect (surroundings 0) (some two_bytes) two_bytes none fresh).1 ≡ true)
    × ((connect (surroundings 0) (some two_bytes) two_bytes none fresh).0.e.connected ≡ false)
    × ((connect (surroundings 0) (some two_bytes) two_bytes none fresh).0.e.current ≡ State.init)
    × Stays
        (connect (surroundings 0) (some two_bytes) two_bytes none fresh).0.e
        (surroundings 0)
        3
        1
        (run
          (surroundings 0)
          3
          connect_handler
          (connect (surroundings 0) (some two_bytes) two_bytes none fresh).0)
    × Connected
        (server 0)
        (λ h. none)
        new_mysac
        quiet
        fresh
        (record new_mysac { addr = some two_bytes })
        (wakes (surroundings 0) 3 1 (
          run
            (surroundings 0)
            3
            connect_handler
            (connect (surroundings 0) (some two_bytes) two_bytes none fresh).0))
unfolding behind
connect-Connected_example =
    connect-Connected (server 0) (λ h. none) new_mysac quiet two_bytes two_bytes none fresh
      (record new_mysac { addr = some two_bytes }) 1 0 5 fresh-IsClosed (inr (inr refl)) refl
      (waits (inl refl) (ends refl))

fresh-Serves :
    Serves
      (server 0)
      (λ h. none)
      new_mysac
      quiet
      two_bytes
      two_bytes
      none
      two_bytes
      fresh
      1
      2
      (record { nb_cols = 1; num_rows = 2; fetched = 8 ∷ 9 ∷ [] })
unfolding behind
fresh-Serves = record {
  fd = 5;
  idle_mysac = record new_mysac { addr = some two_bytes };
  last_mysac = record new_mysac { addr = some two_bytes };
  begins = inr (inr refl);
  has_fd = refl;
  connects = waits (inl refl) (ends refl);
  accepts = inl refl;
  works = waits (inl refl) (waits (inl refl) (ends refl));
  has_res = refl;
  counts = refl;
}

abbrev up : World
up =
    (wakes (surroundings 0) 3 1 (
      run (surroundings 0) 3 connect_handler
        (connect (surroundings 0) (some two_bytes) two_bytes none fresh).0)).0

session-Answered_example :
    Answered (some 3) two_bytes (query (surroundings 0) (some 3) (some two_bytes) up).1 2 (
      wakes
        (surroundings 0)
        3
        2
        (fd_handler (surroundings 0) 3 (query (surroundings 0) (some 3) (some two_bytes) up).0))
session-Answered_example =
    session-Answered (server 0) (λ h. none) new_mysac quiet two_bytes two_bytes none (some 3)
      two_bytes fresh 1 2 0 (record { nb_cols = 1; num_rows = 2; fetched = 8 ∷ 9 ∷ [] })
      fresh-IsClosed refl fresh-Serves

-- A connected pool of one member of type MySQL, which the user connected again.
abbrev up_again : World
up_again = record (alone (record ready { kind = State.mysql; pool_member = true })) {
  ep = record blank_pool { size = 1; e_connected = 1; connected = true };
}

up_again-Opens : Opens (surroundings 0) State.wants_write 5 up_again
unfolding behind over switch_ret
up_again-Opens = record { works = tt; starts = refl; has_fd = refl }

reconnect_handler-recount_example :
    (call_complete_step
      (surroundings 0)
      (reconnect_handler (surroundings 0) up_again)).0.ep.e_connected
    ≡ ups (call_complete_step (surroundings 0) (reconnect_handler (surroundings 0) up_again)).0 + 1
reconnect_handler-recount_example =
    reconnect_handler-recount (surroundings 0) State.wants_write 5 up_again up_again-Opens refl refl
      refl refl refl
