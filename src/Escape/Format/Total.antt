-- ===== src/Escape/Format/Total.antt =====
-- Whether the loop of `esql_query_escape` ends.
use esskyuehl.Prelude.{
  ℕ, zero, suc, ◌≤◌, ◌<◌, ◌≢◌, Bool, true, false, List, [], ◌∷◌, Option, none, some, arith, Bytes,
  length, ◌≡◌, refl,
}
use esskyuehl.Escape.Format.{
  Width, Arg, signed, unsigned, double, str, chr, Printer, stuck, Round, finish, again, appended,
  appended_string, convert, from_percent, at_percent, after_chunk, round, escape_loop, query_escape,
  print_double, print_signed, print_unsigned, print_string, print_char, width,
}

-- A round that goes on leaves less than `n` bytes of the format, and none runs out of fuel.
abbrev Falls : ℕ → Round → Type 0
Falls n (finish r) = r ≢ stuck
Falls n (again p args buf) = length p < n

appended-Falls :
    (n : ℕ) (o : Option Bytes) (p : Bytes) (args : List Arg)
    → length p < n
    → Falls n (appended o p args)
appended-Falls n none p args h = λ e. cc
appended-Falls n (some buf) p args h = h

appended_string-Falls :
    (n : ℕ) (o : Option Bytes) (p : Bytes) (args : List Arg) (buf : Bytes)
    → length p < n
    → Falls n (appended_string o p args buf)
appended_string-Falls n none p args buf h = h
appended_string-Falls n (some buf') p args buf h = λ e. cc

module _ (pr : Printer) (b : Bool) (n : ℕ) (p : Bytes) (h : length p < n) where
  print_double-Falls : (args : List Arg) (buf : Bytes) → Falls n (print_double pr b p args buf)
  unfolding print_double
  print_double-Falls (double d ∷ args) buf = appended-Falls n _ p args h
  print_double-Falls [] buf = λ e. cc
  print_double-Falls (_ ∷ args) buf = λ e. cc

  print_signed-Falls :
      (w : Width) (args : List Arg) (buf : Bytes) → Falls n (print_signed pr b w p args buf)
  unfolding print_signed
  print_signed-Falls w (signed v i ∷ args) buf =
      ground (arith, appended-Falls n (pr.append buf (pr.lli i)) p args h)
  print_signed-Falls w [] buf = λ e. cc
  print_signed-Falls w (_ ∷ args) buf = λ e. cc

  print_unsigned-Falls :
      (w : Width) (args : List Arg) (buf : Bytes) → Falls n (print_unsigned pr b w p args buf)
  unfolding print_unsigned
  print_unsigned-Falls w (unsigned v i ∷ args) buf =
      ground (arith, appended-Falls n (pr.append buf (pr.llu i)) p args h)
  print_unsigned-Falls w [] buf = λ e. cc
  print_unsigned-Falls w (_ ∷ args) buf = λ e. cc

  print_string-Falls : (args : List Arg) (buf : Bytes) → Falls n (print_string pr b p args buf)
  unfolding print_string
  print_string-Falls (str none ∷ args) buf = h
  print_string-Falls (str (some s) ∷ args) buf = appended_string-Falls n _ p args buf h
  print_string-Falls [] buf = λ e. cc
  print_string-Falls (_ ∷ args) buf = λ e. cc

  print_char-Falls : (args : List Arg) (buf : Bytes) → Falls n (print_char pr b p args buf)
  unfolding print_char
  print_char-Falls (chr c ∷ args) buf = appended-Falls n _ p args h
  print_char-Falls [] buf = λ e. cc
  print_char-Falls (_ ∷ args) buf = λ e. cc

convert-Falls :
    (pr : Printer) (b l ll : Bool) (n : ℕ) (p : Bytes) (args : List Arg) (buf : Bytes)
    → length p ≤ n
    → Falls n (convert pr b l ll p args buf)
unfolding convert
convert-Falls pr b l ll n [] args buf h = λ e. cc
convert-Falls pr b l ll n (c ∷ p) args buf h = ground (
  arith,
  convert-Falls pr b true ll n p args buf,
  convert-Falls pr b l true n p args buf,
  print_double-Falls pr b n p h args buf,
  print_signed-Falls pr b n p h (width l ll) args buf,
  print_unsigned-Falls pr b n p h (width l ll) args buf,
  print_string-Falls pr b n p h args buf,
  print_char-Falls pr b n p h args buf,
  appended-Falls n (pr.append buf (b'%' ∷ [])) p args h,
)

from_percent-le : (p : Bytes) → length (from_percent p) ≤ length p
unfolding from_percent
from_percent-le [] = omega arith
from_percent-le (c ∷ p) = ground (arith, from_percent-le p)

at_percent-Falls :
    (pr : Printer) (b : Bool) (n : ℕ) (p : Bytes) (args : List Arg) (buf : Bytes)
    → length p ≤ suc n
    → Falls n (at_percent pr b p args buf)
unfolding at_percent
at_percent-Falls pr b n [] args buf h = λ e. cc
at_percent-Falls pr b n (c ∷ p) args buf h =
    convert-Falls pr b false false n p args buf (omega arith)

after_chunk-Falls :
    (pr : Printer) (b : Bool) (n : ℕ) (o : Option Bytes) (p : Bytes) (args : List Arg)
    → length p ≤ suc n
    → Falls n (after_chunk pr b o p args)
after_chunk-Falls pr b n none p args h = λ e. cc
after_chunk-Falls pr b n (some buf) p args h = at_percent-Falls pr b n p args buf h

round-Falls :
    (pr : Printer) (b : Bool) (c : ℕ) (p : Bytes) (args : List Arg) (buf : Bytes)
    → Falls (length (c ∷ p)) (round pr b (c ∷ p) args buf)
unfolding round
round-Falls pr b c p args buf =
    after_chunk-Falls pr b _ _ (from_percent (c ∷ p)) args (omega (arith, from_percent-le (c ∷ p)))

escape_loop-ne-stuck :
    (pr : Printer) (b : Bool) (fuel : ℕ) (p : Bytes) (args : List Arg) (buf : Bytes)
    → length p < fuel
    → escape_loop pr b fuel p args buf ≢ stuck
unfolding escape_loop
escape_loop-ne-stuck pr b zero p args buf h = absurd (omega arith)
escape_loop-ne-stuck pr b (suc fuel) [] args buf h = λ e. cc
escape_loop-ne-stuck pr b (suc fuel) (c ∷ p) args buf h =
    go (round pr b (c ∷ p) args buf) refl (round-Falls pr b c p args buf)
      λ p' args' buf' q. escape_loop-ne-stuck pr b fuel p' args' buf' (omega arith)
  where
    go :
        (r : Round)
        → round pr b (c ∷ p) args buf ≡ r
        → Falls (length (c ∷ p)) r
        → ((p' : Bytes) (args' : List Arg) (buf' : Bytes)
            → length p' < length (c ∷ p)
            → escape_loop pr b fuel p' args' buf' ≢ stuck)
        → escape_loop pr b (suc fuel) (c ∷ p) args buf ≢ stuck
    go (finish r) e f rest = rw (e, escape_loop) f
    go (again p' args' buf') e f rest = rw (e, escape_loop) (rest p' args' buf' f)

-- The loop ends for every format and all arguments, also where an append fails: each round that
-- goes on is past one more conversion, so `strlen(fmt) + 1` rounds are enough.
pub query_escape-ne-stuck :
    (pr : Printer) (backslashes : Bool) (fmt : Bytes) (args : List Arg)
    → query_escape pr backslashes fmt args ≢ stuck
unfolding query_escape
query_escape-ne-stuck pr b fmt args =
    escape_loop-ne-stuck pr b (suc (length fmt)) fmt args [] (omega arith)
