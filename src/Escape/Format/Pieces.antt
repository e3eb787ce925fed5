-- ===== src/Escape/Format/Pieces.antt =====
-- What `esql_query_escape` makes of a format, read as a list of pieces: a text and a conversion
-- each.
pub mod Loop
use esskyuehl.Prelude.{
  ℕ, suc, ◌-◌, ◌%◌, ◌≤◌, ◌<◌, ◌≡◌, refl, ap, ◌≢◌, Bool, true, false, List, [], ◌∷◌, ◌++◌, none,
  arith, Bytes, length, length-append, take, take-length, take-append_length, lt→ltb, All,
}
use esskyuehl.Escape.Format.{
  Width, w_int, w_long, w_long_long, Arg, signed, unsigned, double, str, chr, before_percent,
  from_percent, chunk,
}

-- A conversion with the argument that it prints.
pub data Conversion : Type 0 where
  integer : Bool → Width → ℕ → Conversion
  natural : Width → ℕ → Conversion
  real : Bool → ℕ → Conversion
  character : ℕ → Conversion
  percent : Conversion
  null_text : Conversion

abbrev pub LacksPercent : Bytes → Type 0
LacksPercent = All (λ c. c ≢ b'%')

pub record Piece : Type 0 where
  pub lit : Bytes
  pub conv : Conversion

abbrev pub length_flags : Width → Bytes → Bytes
length_flags w_int p = p
length_flags w_long p = b'l' ∷ p
length_flags w_long_long p = b'l' ∷ b'l' ∷ p

-- The text of a conversion behind its `%`, in front of `p`.
abbrev pub directive : Conversion → Bytes → Bytes
directive (integer true w v) p = length_flags w (b'd' ∷ p)
directive (integer false w v) p = length_flags w (b'i' ∷ p)
directive (natural w v) p = length_flags w (b'u' ∷ p)
directive (real true d) p = b'l' ∷ b'f' ∷ p
directive (real false d) p = b'f' ∷ p
directive (character c) p = b'c' ∷ p
directive percent p = b'%' ∷ p
directive null_text p = b's' ∷ p

abbrev pub argument : Conversion → List Arg → List Arg
argument (integer b w v) args = signed w v ∷ args
argument (natural w v) args = unsigned w v ∷ args
argument (real b d) args = double d ∷ args
argument (character c) args = chr c ∷ args
argument percent args = args
argument null_text args = str none ∷ args

abbrev pub format : List Piece → Bytes → Bytes
format [] p = p
format (x ∷ xs) p = x.lit ++ b'%' ∷ directive x.conv (format xs p)

abbrev pub arguments : List Piece → List Arg → List Arg
arguments [] args = args
arguments (x ∷ xs) args = argument x.conv (arguments xs args)

-- A text in front of a `%`: where there is none, the `%` itself is copied.
abbrev pub shown_lit : Bytes → Bytes
shown_lit [] = b'%' ∷ []
shown_lit (c ∷ s) = c ∷ s

pub before_percent_lit :
    (s p : Bytes)
    → LacksPercent s
    → (before_percent (s ++ b'%' ∷ p) ≡ s) × (from_percent (s ++ b'%' ∷ p) ≡ b'%' ∷ p)
unfolding before_percent from_percent
before_percent_lit [] p h = (refl, refl)
before_percent_lit (c ∷ s) p h = ground (arith, before_percent_lit s p h.1)

pub before_percent_none :
    (s : Bytes) → LacksPercent s → (before_percent s ≡ s) × (from_percent s ≡ [])
unfolding before_percent from_percent
before_percent_none [] h = (refl, refl)
before_percent_none (c ∷ s) h = ground (arith, before_percent_none s h.1)

length_flags-le : (w : Width) (p : Bytes) → length p ≤ length (length_flags w p)
length_flags-le w_int p = omega arith
length_flags-le w_long p = omega arith
length_flags-le w_long_long p = omega arith

directive-lt : (v : Conversion) (p : Bytes) → length p < length (directive v p)
directive-lt (integer true w v) p = omega (arith, length_flags-le w (b'd' ∷ p))
directive-lt (integer false w v) p = omega (arith, length_flags-le w (b'i' ∷ p))
directive-lt (natural w v) p = omega (arith, length_flags-le w (b'u' ∷ p))
directive-lt (real true d) p = omega arith
directive-lt (real false d) p = omega arith
directive-lt (character c) p = omega arith
directive-lt percent p = omega arith
directive-lt null_text p = omega arith

pub length-format : (xs : List Piece) (p : Bytes) → length xs ≤ length (format xs p)
length-format [] p = omega arith
length-format (x ∷ xs) p = omega (
  arith,
  length-append x.lit (b'%' ∷ directive x.conv (format xs p)),
  directive-lt x.conv (format xs p),
  length-format xs p,
)

-- What the loop copies before it looks at the next `%`.
pub chunk_lit :
    (s p : Bytes) → LacksPercent s → take (chunk (s ++ b'%' ∷ p)) (s ++ b'%' ∷ p) ≡ shown_lit s
chunk_lit [] p h = rw (before_percent_lit [] p h).0
chunk_lit (c ∷ []) p h = rw (before_percent_lit (c ∷ []) p h).0
chunk_lit (c ∷ d ∷ s) p h =
    rw ((before_percent_lit (c ∷ d ∷ s) p h).0, lt→ltb 1 (suc (suc (length s))) (omega arith))
      (ap (λ t. c ∷ d ∷ t) (take-append_length s (b'%' ∷ p)))

pub chunk_none : (c : ℕ) (s : Bytes) → LacksPercent (c ∷ s) → take (chunk (c ∷ s)) (c ∷ s) ≡ c ∷ s
chunk_none c [] h = rw (before_percent_none (c ∷ []) h).0
chunk_none c (d ∷ s) h =
    rw ((before_percent_none (c ∷ d ∷ s) h).0, lt→ltb 1 (suc (suc (length s))) (omega arith))
      (ap (λ t. c ∷ d ∷ t) (take-length s))
