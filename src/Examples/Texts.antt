-- ===== src/Examples/Texts.antt =====
-- Values in literals, and formats.
use esskyuehl.Prelude.{◌≡◌, ◌≢◌, refl, true, false, [], ◌∷◌, ◌++◌, none, some, arith, codes, Bytes}
use esskyuehl.Escape.{quote, string_escape_bytes}
use esskyuehl.Escape.Literal.{scan, scan-string_escape_bytes}
use esskyuehl.Escape.Format.{w_int, signed, str, text, null, stuck, query_escape}
use esskyuehl.Escape.Format.Pieces.{Piece, LacksPercent, integer, format, arguments}
use esskyuehl.Escape.Format.Pieces.Loop.{query_escape-format, query_escape-string}
use esskyuehl.Escape.Format.Total.{query_escape-ne-stuck}
use esskyuehl.Query.{query, query_vargs}
use esskyuehl.Query.Args.{query_vargs-query}
use esskyuehl.Examples.{plain, quiet, ready, alone}

-- A quote and a backslash.
abbrev hostile : Bytes
hostile = b'\'' ∷ b'\\' ∷ []

scan-string_escape_bytes_example :
    scan true (string_escape_bytes true hostile ++ quote ∷ b';' ∷ []) ≡ some (hostile, b';' ∷ [])
scan-string_escape_bytes_example = scan-string_escape_bytes true hostile (b';' ∷ []) refl

-- "a=" in front of `%i` with 7.
abbrev piece : Piece
piece = record { lit = b'a' ∷ b'=' ∷ []; conv = integer false w_int 7 }

lacks : LacksPercent (b'a' ∷ b'=' ∷ [])
lacks = (λ e. omega (arith, e), (λ e. omega (arith, e), tt))

query_escape-format_example :
    query_escape plain false (format (piece ∷ []) (b';' ∷ [])) (arguments (piece ∷ []) [])
    ≡ text (b'a' ∷ b'=' ∷ b'7' ∷ b';' ∷ []) 4
query_escape-format_example =
    query_escape-format plain false (λ buf x. refl) (piece ∷ []) (b';' ∷ []) [] (lacks, tt)
      ((λ e. omega (arith, e)), tt)

query_escape-string_example :
    query_escape plain false
      (format (piece ∷ []) (b';' ∷ b'%' ∷ b's' ∷ []))
      (arguments (piece ∷ []) (str (some hostile) ∷ []))
    ≡ null
query_escape-string_example =
    query_escape-string plain false (λ buf x. refl) (piece ∷ []) (b';' ∷ []) hostile [] []
      (lacks, tt) ((λ e. omega (arith, e)), tt)

query_escape-ne-stuck_example : query_escape plain false (b'a' ∷ b'%' ∷ b'i' ∷ []) [] ≢ stuck
query_escape-ne-stuck_example = query_escape-ne-stuck plain false (b'a' ∷ b'%' ∷ b'i' ∷ []) []

query_vargs-query_example :
    query_vargs quiet none (some (codes "a%d")) (signed w_int 7 ∷ []) (alone ready)
    ≡ query quiet none (some (codes "a7")) (alone ready)
unfolding query_escape
query_vargs-query_example =
    query_vargs-query quiet none (codes "a%d") (signed w_int 7 ∷ []) (alone ready) (codes "a7") 2
      refl (omega arith)
