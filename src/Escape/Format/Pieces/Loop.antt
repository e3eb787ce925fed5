-- ===== src/Escape/Format/Pieces/Loop.antt =====
-- The loop of `esql_query_escape` on the pieces of a format.
use esskyuehl.Prelude.{
  ℕ, suc, ◌+◌, ◌-◌, ◌%◌, ◌≡◌, ◌∙◌, Bool, true, false, List, [], ◌∷◌, ◌++◌, append_assoc, append-nil,
  some, arith, Bytes, ◌==◌, if◌then◌else◌, length, u32_mod, All,
}
use native.Mathlib.Nat.{zero-add, suc-add}
use esskyuehl.Escape.{string_escape_bytes}
use esskyuehl.Escape.Format.{
  w_int, w_long, w_long_long, Arg, str, Printer, text, null, finish, again, convert, at_percent,
  round, escape_loop, query_escape,
}
use esskyuehl.Escape.Format.Pieces.{
  Conversion, integer, natural, real, character, percent, null_text, LacksPercent, Piece, directive,
  argument, format, arguments, shown_lit, before_percent_lit, before_percent_none, length-format,
  chunk_lit, chunk_none,
}

module _ (pr : Printer) (backslashes : Bool)
    (grows : (buf x : Bytes) → pr.append buf x ≡ some (buf ++ x)) where
  -- What a conversion puts into the query.
  abbrev pub shown : Conversion → Bytes
  shown (integer b w v) = pr.lli v
  shown (natural w v) = pr.llu v
  shown (real b d) = pr.lf d
  shown (character c) =
      string_escape_bytes backslashes (if c % 256 == 0 then [] else (c % 256) ∷ [])
  shown percent = b'%' ∷ []
  shown null_text = []

  abbrev pub shown_pieces : List Piece → Bytes
  shown_pieces [] = []
  shown_pieces (x ∷ xs) = (shown_lit x.lit ++ shown x.conv) ++ shown_pieces xs

  convert-directive :
      (v : Conversion) (p : Bytes) (args : List Arg) (buf : Bytes)
      → convert pr backslashes false false (directive v p) (argument v args) buf
        ≡ again p args (buf ++ shown v)
  unfolding convert
  convert-directive (integer true w_int v) p args buf = rw grows
  convert-directive (integer true w_long v) p args buf = rw grows
  convert-directive (integer true w_long_long v) p args buf = rw grows
  convert-directive (integer false w_int v) p args buf = rw grows
  convert-directive (integer false w_long v) p args buf = rw grows
  convert-directive (integer false w_long_long v) p args buf = rw grows
  convert-directive (natural w_int v) p args buf = rw grows
  convert-directive (natural w_long v) p args buf = rw grows
  convert-directive (natural w_long_long v) p args buf = rw grows
  convert-directive (real true d) p args buf = rw grows
  convert-directive (real false d) p args buf = rw grows
  convert-directive (character c) p args buf = rw grows
  convert-directive percent p args buf = rw grows
  convert-directive null_text p args buf = rw append-nil

  round-piece :
      (s : Bytes) (v : Conversion) (p : Bytes) (args : List Arg) (buf : Bytes)
      → LacksPercent s
      → round pr backslashes (s ++ b'%' ∷ directive v p) (argument v args) buf
        ≡ again p args (buf ++ (shown_lit s ++ shown v))
  round-piece s v p args buf h =
      let t : Bytes = s ++ b'%' ∷ directive v p in
      unfold round in
      rw
        (
          chunk_lit s (directive v p) h,
          grows buf (shown_lit s),
          (before_percent_lit s (directive v p) h).1,
        )
        (unfold at_percent in
          rw (
            convert-directive v p args (buf ++ shown_lit s),
            append_assoc buf (shown_lit s) (shown v),
          ))

  -- One round of the loop for each piece.
  loop-piece :
      (fuel : ℕ) (s : Bytes) (v : Conversion) (p : Bytes) (args : List Arg) (buf : Bytes)
      → LacksPercent s
      → escape_loop pr backslashes (suc fuel) (s ++ b'%' ∷ directive v p) (argument v args) buf
        ≡ escape_loop pr backslashes fuel p args (buf ++ (shown_lit s ++ shown v))
  unfolding escape_loop
  loop-piece fuel [] v p args buf h = rw (round-piece [] v p args buf h, escape_loop)
  loop-piece fuel (c ∷ s) v p args buf h = rw (round-piece (c ∷ s) v p args buf h, escape_loop)

  round-tail :
      (c : ℕ) (s : Bytes) (args : List Arg) (buf : Bytes)
      → LacksPercent (c ∷ s)
      → round pr backslashes (c ∷ s) args buf
        ≡ finish (text (buf ++ c ∷ s) (length (buf ++ c ∷ s) % u32_mod))
  unfolding round at_percent
  round-tail c s args buf h =
      rw (chunk_none c s h, grows buf (c ∷ s), (before_percent_none (c ∷ s) h).1)

  escape_loop-tail :
      (fuel : ℕ) (s : Bytes) (args : List Arg) (buf : Bytes)
      → LacksPercent s
      → escape_loop pr backslashes (suc fuel) s args buf
        ≡ text (buf ++ s) (length (buf ++ s) % u32_mod)
  unfolding escape_loop
  escape_loop-tail fuel [] args buf h = rw append-nil
  escape_loop-tail fuel (c ∷ s) args buf h = rw (round-tail c s args buf h, escape_loop)

  abbrev pub AllLackPercent : List Piece → Type 0
  AllLackPercent = All (λ x. LacksPercent x.lit)

  escape_loop-format :
      (xs : List Piece) (fuel : ℕ) (p : Bytes) (args : List Arg) (buf : Bytes)
      → AllLackPercent xs
      → escape_loop pr backslashes (length xs + fuel) (format xs p) (arguments xs args) buf
        ≡ escape_loop pr backslashes fuel p args (buf ++ shown_pieces xs)
  escape_loop-format [] fuel p args buf h = rw (zero-add, append-nil)
  escape_loop-format (x ∷ xs) fuel p args buf h = rw (
    suc-add,
    loop-piece (length xs + fuel) x.lit x.conv (format xs p) (arguments xs args) buf h.0,
    escape_loop-format xs fuel p args (buf ++ (shown_lit x.lit ++ shown x.conv)) h.1,
    append_assoc buf,
  )

  -- The loop has fuel for every piece and for the text behind them.
  query_escape-split :
      (xs : List Piece) (p : Bytes) (args : List Arg)
      → AllLackPercent xs
      → (fuel : ℕ) × (query_escape pr backslashes (format xs p) (arguments xs args)
          ≡ escape_loop pr backslashes (suc fuel) p args (shown_pieces xs))
  unfolding query_escape
  query_escape-split xs p args h = (
    length (format xs p) - length xs,
    rw spare at (escape_loop-format xs (suc (length (format xs p) - length xs)) p args [] h),
  )
    where
      spare : length xs + suc (length (format xs p) - length xs) ≡ suc (length (format xs p))
      spare = omega (arith, length-format xs p)

  -- With a buffer that always grows, for a format made of texts without `%` and of conversions
  -- other than `%s` with a text, whose arguments have the types that it names: the query is the
  -- texts and the printed arguments in order, where an empty text in front of a conversion shows as
  -- a `%`, and `*len` is its length.
  pub query_escape-format :
      (xs : List Piece) (s : Bytes) (args : List Arg)
      → AllLackPercent xs
      → LacksPercent s
      → query_escape pr backslashes (format xs s) (arguments xs args)
        ≡ text (shown_pieces xs ++ s) (length (shown_pieces xs ++ s) % u32_mod)
  query_escape-format xs s args h hs =
      let (fuel, e) = query_escape-split xs s args h in
      e ∙ escape_loop-tail fuel s args (shown_pieces xs) hs

  round-string :
      (s v p : Bytes) (args : List Arg) (buf : Bytes)
      → LacksPercent s
      → round pr backslashes (s ++ b'%' ∷ b's' ∷ p) (str (some v) ∷ args) buf ≡ finish null
  unfolding round at_percent convert
  round-string s v p args buf h = rw (
    chunk_lit s (b's' ∷ p) h,
    grows buf (shown_lit s),
    (before_percent_lit s (b's' ∷ p) h).1,
    grows (buf ++ shown_lit s) (string_escape_bytes backslashes v),
  )

  -- With a buffer that always grows, `%s` with a text that is not NULL, behind any such pieces,
  -- makes the whole call return NULL, since the result of `eina_strbuf_append` is read the wrong
  -- way round.
  pub query_escape-string :
      (xs : List Piece) (s v p : Bytes) (args : List Arg)
      → AllLackPercent xs
      → LacksPercent s
      → query_escape pr backslashes
          (format xs (s ++ b'%' ∷ b's' ∷ p))
          (arguments xs (str (some v) ∷ args))
        ≡ null
  query_escape-string xs s v p args h hs =
      let (fuel, e) = query_escape-split xs (s ++ b'%' ∷ b's' ∷ p) (str (some v) ∷ args) h in
      e ∙ last fuel s hs
    where
      last :
          (fuel : ℕ) (t : Bytes)
          → LacksPercent t
          → escape_loop pr backslashes
              (suc fuel)
              (t ++ b'%' ∷ b's' ∷ p)
              (str (some v) ∷ args)
              (shown_pieces xs)
            ≡ null
      last fuel [] ht =
          unfold escape_loop in rw (round-string [] v p args (shown_pieces xs) ht, escape_loop)
      last fuel (c ∷ t) ht =
          unfold escape_loop in rw (round-string (c ∷ t) v p args (shown_pieces xs) ht, escape_loop)
