-- ===== src/Escape/Literal.antt =====
-- What an SQL server reads from a literal whose body `esql_string_escape` wrote.
use esskyuehl.Prelude.{
  ℕ, ◌+◌, ◌*◌, ◌≤◌, ◌≡◌, refl, Bool, true, false, [], ◌∷◌, ◌++◌, Option, none, some, arith, Bytes,
  ◌==◌, if◌then◌else◌, length,
}
use esskyuehl.Escape.{
  quote, backslash, double_up, escape_char, write_char, backslash_escape, string_escape_bytes,
}

-- The byte that a backslash and `c` stand for.
unfoldable pub unescape_char : ℕ → ℕ
unescape_char c = if c == b'n' then 10 else if c == b'r' then 13 else if c == b'0' then 0 else c

abbrev pub push : ℕ → Option (Bytes × Bytes) → Option (Bytes × Bytes)
push c none = none
push c (some (body, rest)) = some (c ∷ body, rest)

-- The body of a literal and the text behind its closing quote. A doubled quote stands for one.
-- `scan_escape` has just read a backslash, and `scan_quote` a quote.
unfoldable mutual
  pub scan : Bool → Bytes → Option (Bytes × Bytes)
  scan escapes [] = none
  scan escapes (c ∷ s) =
      let after_quote = scan_quote escapes s in
      let after_backslash = scan_escape escapes s in
      let plain = push c (scan escapes s) in
      if c == quote
      then after_quote
      else if escapes
      then (if c == backslash then after_backslash else plain)
      else plain

  pub scan_escape : Bool → Bytes → Option (Bytes × Bytes)
  scan_escape escapes [] = none
  scan_escape escapes (c ∷ s) = push (unescape_char c) (scan escapes s)

  pub scan_quote : Bool → Bytes → Option (Bytes × Bytes)
  scan_quote escapes [] = some ([], [])
  scan_quote escapes (c ∷ s) =
      let again = push quote (scan escapes s) in if c == quote then again else some ([], c ∷ s)

abbrev pub opens_quote : Bytes → Bool
opens_quote [] = false
opens_quote (c ∷ s) = c == quote

scan-quote_end :
    (b : Bool) (rest : Bytes) → opens_quote rest ≡ false → scan b (quote ∷ rest) ≡ some ([], rest)
unfolding scan
scan-quote_end b [] h = refl
scan-quote_end b (c ∷ s) h = ground arith

append_double_up :
    (c : ℕ) (t u : Bytes)
    → (if c == quote then quote ∷ c ∷ t else c ∷ t) ++ u
      ≡ (if c == quote then quote ∷ c ∷ t ++ u else c ∷ t ++ u)
append_double_up c t u = ground arith

append_write_char :
    (e : Option ℕ) (c : ℕ) (t u : Bytes) → write_char e c t ++ u ≡ write_char e c (t ++ u)
append_write_char none c t u = refl
append_write_char (some e) c t u = refl

-- One round of either loop is read back as the byte that it copied.
double_up_round :
    (c : ℕ) (t : Bytes)
    → scan false (if c == quote then quote ∷ c ∷ t else c ∷ t) ≡ push c (scan false t)
unfolding scan
double_up_round c t = ground arith

backslash_round :
    (c : ℕ) (t : Bytes) → scan true (write_char (escape_char c) c t) ≡ push c (scan true t)
unfolding scan escape_char unescape_char
backslash_round c t = ground arith

scan-double_up :
    (s rest : Bytes)
    → opens_quote rest ≡ false
    → scan false (double_up s ++ quote ∷ rest) ≡ some (s, rest)
unfolding double_up
scan-double_up [] rest h = scan-quote_end false rest h
scan-double_up (c ∷ s) rest h =
    rw (append_double_up c (double_up s) (quote ∷ rest), double_up_round, scan-double_up s rest h)

scan-backslash_escape :
    (s rest : Bytes)
    → opens_quote rest ≡ false
    → scan true (backslash_escape s ++ quote ∷ rest) ≡ some (s, rest)
unfolding backslash_escape
scan-backslash_escape [] rest h = scan-quote_end true rest h
scan-backslash_escape (c ∷ s) rest h = rw (
  append_write_char (escape_char c) c (backslash_escape s) (quote ∷ rest),
  backslash_round,
  scan-backslash_escape s rest h,
)

-- No value can end the literal that it is put in: where no further quote follows the closing one,
-- an SQL reader gets back the very bytes that were escaped, in either mode, and goes on behind the
-- closing quote.
pub scan-string_escape_bytes :
    (backslashes : Bool) (s rest : Bytes)
    → opens_quote rest ≡ false
    → scan backslashes (string_escape_bytes backslashes s ++ quote ∷ rest) ≡ some (s, rest)
unfolding string_escape_bytes
scan-string_escape_bytes false s rest h = scan-double_up s rest h
scan-string_escape_bytes true s rest h = scan-backslash_escape s rest h

double_up-le : (s : Bytes) → length (double_up s) ≤ length s * 2
unfolding double_up
double_up-le [] = omega arith
double_up-le (c ∷ s) = ground (arith, double_up-le s)

backslash_escape-le : (s : Bytes) → length (backslash_escape s) ≤ length s * 2
unfolding backslash_escape
backslash_escape-le [] = omega arith
backslash_escape-le (c ∷ s) = ground (arith, backslash_escape-le s)

-- The bytes written and the final NUL fit the buffer of `strlen(s) * 2 + 1` bytes.
pub string_escape_bytes-le :
    (backslashes : Bool) (s : Bytes)
    → length (string_escape_bytes backslashes s) + 1 ≤ length s * 2 + 1
unfolding string_escape_bytes
string_escape_bytes-le false s = omega (arith, double_up-le s)
string_escape_bytes-le true s = omega (arith, backslash_escape-le s)
