-- ===== src/Escape/Format.antt =====
-- `esql_query_escape` (src/lib/esql_query.c): a printf-like formatter that escapes text arguments.
pub mod Pieces
pub mod Total
pub mod Measured
use esskyuehl.Prelude.{
  ℕ, zero, suc, ◌+◌, ◌%◌, Bool, true, false, not, ◌&&◌, List, [], ◌∷◌, ◌++◌, Option, none, some,
  Bytes, ◌==◌, ltb, if◌then◌else◌, length, take, u32_mod,
}
use esskyuehl.Escape.{string_escape_bytes}

-- How wide `va_arg` reads an integer: `int`, `long int` or `long long int`.
pub data Width : Type 0 where
  w_int w_long w_long_long : Width

-- A variable argument, by the type it is passed at. An integer is the 64 bits of the variable that
-- it is read into, a double its 64 bits, and `str none` is a NULL pointer.
pub data Arg : Type 0 where
  signed : Width → ℕ → Arg
  unsigned : Width → ℕ → Arg
  double : ℕ → Arg
  str : Option Bytes → Arg
  chr : ℕ → Arg

-- What `eina` does for the formatter: `append buf x` is the buffer with `x` at its end, or `none`
-- where it returns EINA_FALSE; the others are the bytes of `%lli`, `%llu` and `%lf`.
pub record Printer : Type 0 where
  pub append : Bytes → Bytes → Option Bytes
  pub lli : ℕ → Bytes
  pub llu : ℕ → Bytes
  pub lf : ℕ → Bytes

-- The result: the text with `*len`, or NULL. `undefined` is an argument read at another type than
-- it was passed at, and `stuck` a loop whose fuel ran out.
pub data Escaped : Type 0 where
  text : Bytes → ℕ → Escaped
  null : Escaped
  undefined : Escaped
  stuck : Escaped

-- One round of the loop ends the function, or goes on with `p`, the arguments left and the buffer.
pub data Round : Type 0 where
  finish : Escaped → Round
  again : Bytes → List Arg → Bytes → Round

abbrev pub width : Bool → Bool → Width
width l ll = if l && ll then w_long_long else if l then w_long else w_int

abbrev same_width : Width → Width → Bool
same_width w_int w_int = true
same_width w_long w_long = true
same_width w_long_long w_long_long = true
same_width _ _ = false

-- `EINA_SAFETY_ON_FALSE_GOTO(eina_strbuf_append…(buf, …), err)`, and then the next round at `p`.
abbrev pub appended : Option Bytes → Bytes → List Arg → Round
appended none p args = finish null
appended (some buf) p args = again p args buf

-- `error = eina_strbuf_append(buf, s); … EINA_SAFETY_ON_TRUE_GOTO(error, err)`, as the source has
-- it.
abbrev pub appended_string : Option Bytes → Bytes → List Arg → Bytes → Round
appended_string none p args buf = again p args buf
appended_string (some buf') p args buf = finish null

-- `strchr(p, '%')`: the text before the next `%`, and the text from it on, empty if there is none.
unfoldable pub before_percent : Bytes → Bytes
before_percent [] = []
before_percent (c ∷ p) = let rest = c ∷ before_percent p in if c == b'%' then [] else rest

unfoldable pub from_percent : Bytes → Bytes
from_percent [] = []
from_percent (c ∷ p) = let rest = from_percent p in if c == b'%' then c ∷ p else rest

-- `(pp - p > 1) ? pp - p : 1`
abbrev pub chunk : Bytes → ℕ
chunk p = let n = length (before_percent p) in if ltb 1 n then n else 1

module _ (pr : Printer) (backslashes : Bool) where
  pub print_double : Bytes → List Arg → Bytes → Round
  print_double p (double d ∷ args) buf = appended (pr.append buf (pr.lf d)) p args
  print_double p args buf = finish undefined

  pub print_signed : Width → Bytes → List Arg → Bytes → Round
  print_signed w p (signed v i ∷ args) buf =
      if same_width w v then appended (pr.append buf (pr.lli i)) p args else finish undefined
  print_signed w p args buf = finish undefined

  pub print_unsigned : Width → Bytes → List Arg → Bytes → Round
  print_unsigned w p (unsigned v u ∷ args) buf =
      if same_width w v then appended (pr.append buf (pr.llu u)) p args else finish undefined
  print_unsigned w p args buf = finish undefined

  pub print_string : Bytes → List Arg → Bytes → Round
  print_string p (str none ∷ args) buf = again p args buf
  print_string p (str (some s) ∷ args) buf =
      appended_string (pr.append buf (string_escape_bytes backslashes s)) p args buf
  print_string p args buf = finish undefined

  -- `char c[3]`: the one character is a text of its own, and an empty one if it is NUL.
  pub print_char : Bytes → List Arg → Bytes → Round
  print_char p (chr c ∷ args) buf =
      let body : Bytes = (if c % 256 == 0 then [] else (c % 256) ∷ []) in
      appended (pr.append buf (string_escape_bytes backslashes body)) p args
  print_char p args buf = finish undefined

  -- The `switch` at `top`, on the text behind the `%`; `l` and `ll` are the flags read so far.
  unfoldable pub convert : Bool → Bool → Bytes → List Arg → Bytes → Round
  unfolding print_double print_signed print_unsigned print_string print_char
  convert l ll [] args buf = finish null
  convert l ll (c ∷ p) args buf =
      let first = convert true ll p args buf in
      let second = convert l true p args buf in
      if c == b'l'
      then (if not l then first else if not ll then second else finish null)
      else if c == b'f'
      then (if l && ll then finish null else print_double p args buf)
      else if c == b'i'
      then print_signed (width l ll) p args buf
      else if c == b'd'
      then print_signed (width l ll) p args buf
      else if c == b'u'
      then print_unsigned (width l ll) p args buf
      else if c == b's'
      then (if l then finish null else print_string p args buf)
      else if c == b'c'
      then (if l then finish null else print_char p args buf)
      else if c == b'%'
      then appended (pr.append buf (b'%' ∷ [])) p args
      else finish null

  -- `if (*pp != '%') break;` and the conversion at `pp`.
  unfoldable pub at_percent : Bytes → List Arg → Bytes → Round
  unfolding convert
  at_percent [] args buf = finish (text buf (length buf % u32_mod))
  at_percent (c ∷ p) args buf = convert false false p args buf

  abbrev pub after_chunk : Option Bytes → Bytes → List Arg → Round
  after_chunk none pp args = finish null
  after_chunk (some buf) pp args = at_percent pp args buf

  unfoldable pub round : Bytes → List Arg → Bytes → Round
  unfolding at_percent before_percent from_percent
  round p args buf = after_chunk (pr.append buf (take (chunk p) p)) (from_percent p) args

  -- The `for` loop, on fuel.
  unfoldable pub escape_loop : ℕ → Bytes → List Arg → Bytes → Escaped
  unfolding round
  escape_loop zero p args buf = stuck
  escape_loop (suc fuel) [] args buf = text buf (length buf % u32_mod)
  escape_loop (suc fuel) (c ∷ p) args buf = elim (round (c ∷ p) args buf) [
    | finish r ↦ r
    | again p' args' buf' ↦ escape_loop fuel p' args' buf'
  ]

  unfoldable pub query_escape : Bytes → List Arg → Escaped
  unfolding escape_loop
  query_escape fmt args = escape_loop (suc (length fmt)) fmt args []
