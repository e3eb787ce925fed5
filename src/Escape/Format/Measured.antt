-- ===== src/Escape/Format/Measured.antt =====
-- The length that `esql_query_escape` gives beside its text.
use esskyuehl.Prelude.{
  ℕ, zero, suc, ◌%◌, ◌≡◌, refl, Bool, true, false, List, [], ◌∷◌, Option, none, some, arith, Bytes,
  length, u32_mod, if◌then◌else◌,
}
use esskyuehl.Escape.Format.{
  Width, Arg, signed, unsigned, double, str, chr, Printer, Escaped, text, null, undefined, stuck,
  Round, finish, again, appended, appended_string, convert, at_percent, after_chunk, round,
  from_percent, escape_loop, query_escape, print_double, print_signed, print_unsigned, print_string,
  print_char, width,
}

-- The length that comes with a text is the text's own, as an `unsigned int`.
abbrev pub Measured : Escaped → Type 0
Measured (text q n) = n ≡ length q % u32_mod
Measured null = Unit
Measured undefined = Unit
Measured stuck = Unit

abbrev RoundMeasured : Round → Type 0
RoundMeasured (finish r) = Measured r
RoundMeasured (again p args buf) = Unit

appended-Measured :
    (o : Option Bytes) (p : Bytes) (args : List Arg) → RoundMeasured (appended o p args)
appended-Measured none p args = tt
appended-Measured (some buf) p args = tt

appended_string-Measured :
    (o : Option Bytes) (p : Bytes) (args : List Arg) (buf : Bytes)
    → RoundMeasured (appended_string o p args buf)
appended_string-Measured none p args buf = tt
appended_string-Measured (some buf') p args buf = tt

module _ (pr : Printer) (b : Bool) where
  print_double-Measured :
      (p : Bytes) (args : List Arg) (buf : Bytes) → RoundMeasured (print_double pr b p args buf)
  unfolding print_double
  print_double-Measured p (double d ∷ args) buf = appended-Measured _ p args
  print_double-Measured p [] buf = tt
  print_double-Measured p (_ ∷ args) buf = tt

  if-Measured :
      (c : Bool) (r s : Round)
      → RoundMeasured r
      → RoundMeasured s
      → RoundMeasured (if c then r else s)
  if-Measured true r s m k = m
  if-Measured false r s m k = k

  print_signed-Measured :
      (w : Width) (p : Bytes) (args : List Arg) (buf : Bytes)
      → RoundMeasured (print_signed pr b w p args buf)
  unfolding print_signed
  print_signed-Measured w p (signed v i ∷ args) buf =
      if-Measured _ _ (finish undefined) (appended-Measured (pr.append buf (pr.lli i)) p args) tt
  print_signed-Measured w p [] buf = tt
  print_signed-Measured w p (_ ∷ args) buf = tt

  print_unsigned-Measured :
      (w : Width) (p : Bytes) (args : List Arg) (buf : Bytes)
      → RoundMeasured (print_unsigned pr b w p args buf)
  unfolding print_unsigned
  print_unsigned-Measured w p (unsigned v i ∷ args) buf =
      if-Measured _ _ (finish undefined) (appended-Measured (pr.append buf (pr.llu i)) p args) tt
  print_unsigned-Measured w p [] buf = tt
  print_unsigned-Measured w p (_ ∷ args) buf = tt

  print_string-Measured :
      (p : Bytes) (args : List Arg) (buf : Bytes) → RoundMeasured (print_string pr b p args buf)
  unfolding print_string
  print_string-Measured p (str none ∷ args) buf = tt
  print_string-Measured p (str (some s) ∷ args) buf = appended_string-Measured _ p args buf
  print_string-Measured p [] buf = tt
  print_string-Measured p (_ ∷ args) buf = tt

  print_char-Measured :
      (p : Bytes) (args : List Arg) (buf : Bytes) → RoundMeasured (print_char pr b p args buf)
  unfolding print_char
  print_char-Measured p (chr c ∷ args) buf = appended-Measured _ p args
  print_char-Measured p [] buf = tt
  print_char-Measured p (_ ∷ args) buf = tt

  convert-Measured :
      (l ll : Bool) (p : Bytes) (args : List Arg) (buf : Bytes)
      → RoundMeasured (convert pr b l ll p args buf)
  unfolding convert
  convert-Measured l ll [] args buf = tt
  convert-Measured l ll (c ∷ p) args buf = ground (
    arith,
    convert-Measured true ll p args buf,
    convert-Measured l true p args buf,
    print_double-Measured p args buf,
    print_signed-Measured (width l ll) p args buf,
    print_unsigned-Measured (width l ll) p args buf,
    print_string-Measured p args buf,
    print_char-Measured p args buf,
    appended-Measured (pr.append buf (b'%' ∷ [])) p args,
  )

  at_percent-Measured :
      (p : Bytes) (args : List Arg) (buf : Bytes) → RoundMeasured (at_percent pr b p args buf)
  unfolding at_percent
  at_percent-Measured [] args buf = refl
  at_percent-Measured (c ∷ p) args buf = convert-Measured false false p args buf

  after_chunk-Measured :
      (o : Option Bytes) (p : Bytes) (args : List Arg) → RoundMeasured (after_chunk pr b o p args)
  after_chunk-Measured none p args = tt
  after_chunk-Measured (some buf) p args = at_percent-Measured p args buf

  escape_loop-Measured :
      (fuel : ℕ) (p : Bytes) (args : List Arg) (buf : Bytes)
      → Measured (escape_loop pr b fuel p args buf)
  unfolding escape_loop
  escape_loop-Measured zero p args buf = tt
  escape_loop-Measured (suc fuel) [] args buf = refl
  escape_loop-Measured (suc fuel) (c ∷ p) args buf =
      by_round (round pr b (c ∷ p) args buf)
        (unfold round in after_chunk-Measured (pr.append buf _) (from_percent (c ∷ p)) args)
        (λ p' args' buf'. escape_loop-Measured fuel p' args' buf')
    where
      by_round :
          (r : Round)
          → RoundMeasured r
          → ((p' : Bytes) (args' : List Arg) (buf' : Bytes)
              → Measured (escape_loop pr b fuel p' args' buf'))
          → Measured (elim r [
            | finish r' ↦ r'
            | again p' args' buf' ↦ escape_loop pr b fuel p' args' buf'
          ])
      by_round (finish r) m rest = m
      by_round (again p' args' buf') m rest = rest p' args' buf'

  pub query_escape-Measured :
      (fmt : Bytes) (args : List Arg) → Measured (query_escape pr b fmt args)
  unfolding query_escape
  query_escape-Measured fmt args = escape_loop-Measured (suc (length fmt)) fmt args []
