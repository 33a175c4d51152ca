-- ===== src/Tests/Lexer.antt =====
-- The lexer on short sources.
use rvcc.Prelude.{ℕ, zero, suc, ◌≡◌, refl, none, List, [], ◌∷◌, ◌++◌, length, arith}
use rvcc.Result.{Result, ok, err, ◌>>=◌, Error}
use rvcc.Il.{CString, same_string}
use rvcc.Tables.{Tables, find_alias}
use rvcc.Lexer.{LToken, Lexed}
use rvcc.Lexer.Chars.{is_whitespace, is_alnum, is_digit}
use rvcc.Lexer.Scan.{overwrite, c_string}
use rvcc.Lexer.Word.{codes, find_keyword}
use rvcc.Lexer.Next.{l_next_token}
use rvcc.Lexer.Calls.{l_initialize, advance}
use rvcc.Lexer.Fixed.{at}
use rvcc.Ends.{Ends}
use rvcc.Lexer.Moved.{Moved}
use rvcc.Lexer.Progress.{l_next_token-Moved}
use rvcc.Lexer.Lexeme.{Lexeme, print, kind, text}
use rvcc.Lexer.RoundTrip.{l_next_token-print}
use rvcc.Lexer.Skipped.{l_next_token-comment}
use rvcc.Lexer.Conditional.{l_next_token-ifdef}

-- #define ARM 1
abbrev defined : Tables
defined = record {
  types = [];
  functions = [];
  blocks = [];
  il = [];
  aliases = record { alias = codes "ARM"; value = codes "1" } ∷ [];
  constants = [];
}

abbrev token_and_text : Lexed → LToken × CString
unfolding c_string
token_and_text l = (l.token, c_string l.token_string)

-- The tokens behind the first one, up to `rounds` of them.
tokens : ℕ → Lexed → Result (List (LToken × CString))
unfolding advance
tokens zero l = ok []
tokens (suc rounds) l = do
  next ← advance defined l
  others ← tokens rounds next
  ok (token_and_text next ∷ others)

run :
    (l_initialize defined (codes "x = ARM /* y */ + \"a\\\"b\" ;" ++ 0 ∷ []) >>= tokens 6)
    ≡ ok (
        (LToken.assign, [])
        ∷ (LToken.numeric, codes "1")
        ∷ (LToken.plus, [])
        ∷ (LToken.string, codes "a\"b")
        ∷ (LToken.semicolon, [])
        ∷ (LToken.eof, [])
        ∷ [])
unfolding l_initialize tokens
run = refl

-- The line of #include is not ended with a 0, so the end of a longer token before it stays behind it.
stale_text :
    (l_initialize defined (codes "int some_long_name ;\n#include <stdio.h>\nx" ++ 0 ∷ [])
      >>= tokens 3)
    ≡ ok (
        (LToken.identifier, codes "some_long_name")
        ∷ (LToken.semicolon, [])
        ∷ (LToken.include_, codes "<stdio.h>_name")
        ∷ [])
unfolding l_initialize tokens
stale_text = refl

-- A comment that ends in an even number of stars is not seen to end.
even_stars : l_initialize defined (codes "/***/ x" ++ 0 ∷ []) ≡ err Error.unexpected_slash
unfolding l_initialize
even_stars = refl

-- A backslash that was written as an escape is taken for the beginning of the next one.
two_escapes :
    (l_initialize defined (codes "x \"\\\\n\" ;" ++ 0 ∷ []) >>= tokens 1)
    ≡ ok ((LToken.string, b'\n' ∷ []) ∷ [])
unfolding l_initialize tokens
two_escapes = refl

-- Blanks before the first token.
first_blank : l_initialize defined (codes " x" ++ 0 ∷ []) ≡ err Error.unrecognized_input
unfolding l_initialize
first_blank = refl

abbrev cells : List ℕ
cells = codes "before" ++ 0 ∷ []

l_next_token-Moved_example :
    Ends
      (Moved (length (at (codes "#define x 1")).behind))
      (l_next_token 12 defined cells (at (codes "#define x 1")))
l_next_token-Moved_example =
    l_next_token-Moved 12 defined cells (at (codes "#define x 1")) (omega arith)

l_next_token-print_example :
    (cells' : List ℕ) × (l_next_token 1 defined cells
        (at (print (Lexeme.alias b'A' (codes "RM") (codes "1")) ++ b' ' ∷ b';' ∷ 0 ∷ []))
      ≡ ok record {
        token = kind (Lexeme.alias b'A' (codes "RM") (codes "1"));
        token_string = cells';
        input = record { next_char = b';'; behind = 0 ∷ [] };
      })
    × (c_string cells' ≡ text (Lexeme.alias b'A' (codes "RM") (codes "1")))
unfolding is_whitespace is_alnum is_digit find_keyword find_alias same_string
l_next_token-print_example =
    l_next_token-print 0 defined cells b';' (0 ∷ []) refl
      (Lexeme.alias b'A' (codes "RM") (codes "1"))
      (((refl, (refl, (refl, tt))), refl, refl, omega arith), refl, (refl, tt))

l_next_token-comment_example :
    l_next_token 2 defined cells (at (codes "/* o*ne */ x" ++ 0 ∷ []))
    ≡ l_next_token 1 defined (overwrite (0 ∷ []) cells) (at (codes "x" ++ 0 ∷ []))
unfolding is_whitespace
l_next_token-comment_example =
    l_next_token-comment 1 defined cells b'x' (0 ∷ []) refl (codes " o*ne ") refl

l_next_token-ifdef_example :
    (cells' : List ℕ) × (l_next_token 3 defined cells
        (at (codes "#ifdef X86\nint y;\n#endif\nx" ++ 0 ∷ []))
      ≡ l_next_token 2 defined cells' (at (codes "x" ++ 0 ∷ [])))
unfolding is_whitespace find_alias same_string
l_next_token-ifdef_example =
    l_next_token-ifdef 2 defined cells b'X' (codes "86") ((b'i', codes "nt y;") ∷ []) b'x' (0 ∷ [])
      none refl (refl, (refl, (refl, tt)), (refl, (refl, (refl, tt))), omega arith)
      (
        (
          refl,
          (refl, (refl, (refl, (refl, (refl, tt))))),
          (refl, (refl, (refl, (refl, (refl, (refl, tt)))))),
          omega arith,
        ),
        refl,
        tt,
      )
      (omega arith) refl
