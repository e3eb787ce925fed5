-- ===== src/Escape.antt =====
-- `esql_string_escape` (src/lib/esql_query.c): the two copying loops, over the bytes before the
-- NUL.
pub mod Literal
pub mod Format
use esskyuehl.Prelude.{
  ℕ, Bool, true, false, List, [], ◌∷◌, Option, none, some, Bytes, ◌==◌, if◌then◌else◌,
}

abbrev pub quote : ℕ
quote = b'\''

abbrev pub backslash : ℕ
backslash = b'\\'

abbrev pub double_quote : ℕ
double_quote = b'"'

-- No backslashes allowed: a single quote is written twice.
unfoldable pub double_up : Bytes → Bytes
double_up [] = []
double_up (c ∷ s) = let rest = double_up s in if c == quote then quote ∷ c ∷ rest else c ∷ rest

-- The `switch`: what follows the backslash, or `none` for the `default` that copies the byte.
unfoldable pub escape_char : ℕ → Option ℕ
escape_char c =
    if c == quote
    then some c
    else if c == backslash
    then some c
    else if c == double_quote
    then some c
    else if c == 10
    then some b'n'
    else if c == 13
    then some b'r'
    else if c == 0
    then some b'0'
    else none

abbrev pub write_char : Option ℕ → ℕ → Bytes → Bytes
write_char none c rest = c ∷ rest
write_char (some e) c rest = backslash ∷ e ∷ rest

unfoldable pub backslash_escape : Bytes → Bytes
unfolding escape_char
backslash_escape [] = []
backslash_escape (c ∷ s) = write_char (escape_char c) c (backslash_escape s)

unfoldable pub string_escape_bytes : Bool → Bytes → Bytes
unfolding double_up backslash_escape
string_escape_bytes false s = double_up s
string_escape_bytes true s = backslash_escape s

-- A NULL text has a NULL result.
unfoldable pub string_escape : Bool → Option Bytes → Option Bytes
unfolding string_escape_bytes
string_escape backslashes none = none
string_escape backslashes (some s) = some (string_escape_bytes backslashes s)
