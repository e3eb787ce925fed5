-- ===== src/Postgresql/Setup.antt =====
-- `esql_postgresql_setup`, `_connect` and `_disconnect`: the connection string.
use esskyuehl.State.{Io, wants_both, fails}
use esskyuehl.Prelude.{
  ℕ, ◌≡◌, ◌≢◌, refl, ap, ap₂, ◌∙◌, arith, if_false, Bool, true, false, not, [], ◌∷◌, ◌++◌, Option,
  none, some, Bytes, codes, ◌==◌, if◌then◌else◌, take, is_some,
}

-- `backend.db` as far as it is tested, and `backend.conn_str`.
pub record Backend : Type 0 where
  pub db : Bool
  pub conn_str : Option Bytes

-- The text before the first `:` and the one behind it, if there is one.
unfoldable pub host_of : Bytes → Bytes
host_of [] = []
host_of (c ∷ s) = let rest = host_of s in if c == b':' then [] else c ∷ rest

unfoldable pub port_of : Bytes → Option Bytes
port_of [] = none
port_of (c ∷ s) = let later = port_of s in if c == b':' then some s else later

-- `e->database ? e->database : user`
abbrev pub or_user : Option Bytes → Bytes → Bytes
or_user none user = user
or_user (some db) user = db

abbrev pub text_of : Option Bytes → Bytes
text_of none = []
text_of (some s) = s

abbrev pub password_key : Option Bytes → Bytes
password_key none = []
password_key (some s) = codes "password="

-- The two formats of `snprintf`; `shown` is what it writes for `%s`, also for NULL.
unfoldable pub conn_text :
    (Option Bytes → Bytes) → Option Bytes → Bytes → Bytes → Bytes → Option Bytes → Bytes
unfolding host_of
conn_text shown (some port) addr db user passwd =
    codes "host="
    ++ host_of addr
    ++ codes " port="
    ++ port
    ++ codes " dbname="
    ++ db
    ++ codes " user="
    ++ user
    ++ codes " password="
    ++ shown passwd
    ++ codes " connect_timeout=5"
conn_text shown none addr db user passwd =
    codes "host="
    ++ addr
    ++ codes " dbname="
    ++ db
    ++ codes " user="
    ++ user
    ++ codes " "
    ++ password_key passwd
    ++ text_of passwd
    ++ codes " connect_timeout=5"

-- `esql_postgresql_setup`: 4095 bytes at most are kept.
unfoldable pub setup :
    (Option Bytes → Bytes)
    → Option Bytes
    → Option Bytes
    → Option Bytes
    → Option Bytes
    → Backend
    → Backend
unfolding conn_text port_of
setup shown database none user passwd b = b
setup shown database (some addr) none passwd b = b
setup shown database (some addr) (some user) passwd b = record b {
  conn_str =
      some (take 4095 (conn_text shown (port_of addr) addr (or_user database user) user passwd));
}

-- `esql_postgresql_connect` up to the status, with the string that `PQconnectStart` is given;
-- `started` says whether it gives a connection.
unfoldable pub start : Bool → Backend → Backend × Option Bytes
start started b = (record b { db = started; conn_str = none }, b.conn_str)

-- `esql_postgresql_disconnect`
unfoldable pub finish : Backend → Backend
finish b = if b.db then record b { db = false } else b

-- `esql_postgresql_connect`, with the string that it gives to `PQconnectStart`; `bad` is the test
-- of `PQstatus`.
unfoldable pub connect : Bool → Bool → Backend → Backend × Io × Option Bytes
unfolding start
connect started bad b =
    let (c, s) = start started b in
    (c, (if not c.db then fails else if bad then fails else wants_both), s)

-- `esql_postgresql_free`, and whether `backend.free` is left.
unfoldable pub free : Backend → Backend × Bool
free b = if b.db then (record b { db = false }, false) else (b, true)

-- Where the connection string was set up and used to connect, an attempt to connect again, behind
-- the end of the connection or a failure to make it, is made with NULL for it.
pub connect-finish :
    (s s' bad bad' : Bool) (shown : Option Bytes → Bytes) (database : Option Bytes)
    (addr user : Bytes) (passwd : Option Bytes) (b : Backend)
    → let first = connect s bad (setup shown database (some addr) (some user) passwd b) in
      (is_some (first.2) ≡ true) × ((connect s' bad' (finish first.0)).2 ≡ none)
unfolding setup connect start finish
connect-finish true s' bad bad' shown database addr user passwd b = (refl, refl)
connect-finish false s' bad bad' shown database addr user passwd b = (refl, refl)

abbrev pub LacksColon : Bytes → Type 0
LacksColon [] = Unit
LacksColon (c ∷ s) = (c ≢ b':') × LacksColon s

ne_test : (c : ℕ) → c ≢ b':' → (c == b':') ≡ false
ne_test c n = ground (arith, n)

host_of-append : (host port : Bytes) → LacksColon host → host_of (host ++ b':' ∷ port) ≡ host
unfolding host_of
host_of-append [] port l = refl
host_of-append (c ∷ host) port l =
    if_false (c == b':') [] _ (ne_test c l.0) ∙ ap (λ s. c ∷ s) (host_of-append host port l.1)

port_of-append : (host port : Bytes) → LacksColon host → port_of (host ++ b':' ∷ port) ≡ some port
unfolding port_of
port_of-append [] port l = refl
port_of-append (c ∷ host) port l =
    if_false (c == b':') _ _ (ne_test c l.0) ∙ port_of-append host port l.1

port_of-none : (host : Bytes) → LacksColon host → port_of host ≡ none
unfolding port_of
port_of-none [] l = refl
port_of-none (c ∷ host) l = if_false (c == b':') _ _ (ne_test c l.0) ∙ port_of-none host l.1

-- The options that a connection string gives.
abbrev pub options : Bytes → Option Bytes → Bytes → Bytes → Bytes → Bytes
options host none db user passwd =
    codes "host="
    ++ host
    ++ codes " dbname="
    ++ db
    ++ codes " user="
    ++ user
    ++ codes " "
    ++ codes "password="
    ++ passwd
    ++ codes " connect_timeout=5"
options host (some port) db user passwd =
    codes "host="
    ++ host
    ++ codes " port="
    ++ port
    ++ codes " dbname="
    ++ db
    ++ codes " user="
    ++ user
    ++ codes " password="
    ++ passwd
    ++ codes " connect_timeout=5"

abbrev pub address : Bytes → Option Bytes → Bytes
address host none = host
address host (some port) = host ++ b':' ∷ port

conn_text-options :
    (shown : Option Bytes → Bytes) (host : Bytes) (port : Option Bytes) (db user passwd : Bytes)
    → LacksColon host
    → shown (some passwd) ≡ passwd
    → conn_text shown (port_of (address host port)) (address host port) db user (some passwd)
      ≡ options host port db user passwd
unfolding conn_text
conn_text-options shown host none db user passwd l s =
    ap (λ o. conn_text shown o host db user (some passwd)) (port_of-none host l)
conn_text-options shown host (some port) db user passwd l s =
    ap (λ o. conn_text shown o (host ++ b':' ∷ port) db user (some passwd))
      (port_of-append host port l)
    ∙ ap₂ (λ (x y : Bytes). options x (some port) db user y) (host_of-append host port l) s

-- `esql_postgresql_setup` takes an address, of a host without a colon, and of a port after the
-- first colon if there is one, apart into the options of the connection string, of which it keeps
-- 4095 bytes; the database is named like the user where none was set.
pub setup-options :
    (shown : Option Bytes → Bytes) (database : Option Bytes) (host : Bytes) (port : Option Bytes)
    (user passwd : Bytes) (b : Backend)
    → LacksColon host
    → shown (some passwd) ≡ passwd
    → (setup shown database (some (address host port)) (some user) (some passwd) b).conn_str
      ≡ some (take 4095 (options host port (or_user database user) user passwd))
unfolding setup
setup-options shown database host port user passwd b l s =
    ap (λ t. some (take 4095 t))
      (conn_text-options shown host port (or_user database user) user passwd l s)
