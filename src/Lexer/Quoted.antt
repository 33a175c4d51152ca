-- ===== src/Lexer/Quoted.antt =====
-- src/lexer.c: strings and character constants in quotes, and the words for both.
use rvcc.Prelude.{ℕ, Bool, true, false, not, ◌&&◌, List, [], ◌∷◌, ◌==◌, if◌then◌else◌}
use rvcc.Result.{Result, ok, err, ◌>>=◌, Error}
use rvcc.Lexer.{Input, LToken, Lexed}
use rvcc.Lexer.Scan.{Scan, l_read_char, put, terminate}

-- The character that stands behind a backslash.
unfoldable pub string_escape : ℕ → Result ℕ
string_escape c =
    if c == b'n'
    then ok b'\n'
    else if c == b'"'
    then ok b'"'
    else if c == b'r'
    then ok b'\r'
    else if c == b'\''
    then ok b'\''
    else if c == b't'
    then ok b'\t'
    else if c == b'\\'
    then ok b'\\'
    else err Error.aborted

-- One round of the loop: a backslash that was written gives way to the character it announces.
unfoldable pub string_put : List ℕ → ℕ → Result (List ℕ)
unfolding string_escape put
string_put [] c = put [] c
string_put (last ∷ written) c = elim (last == b'\\') [
  | true ↦ do escaped ← string_escape c; ok (escaped ∷ written)
  | false ↦ put (last ∷ written) c
]

-- while (l_read_char(0) != '"' || special)
unfoldable pub read_string : List ℕ → Bool → List ℕ → Result Scan
unfolding string_put
read_string written special [] = err Error.out_of_bounds
read_string written special (c ∷ cs) = elim (c == b'"' && not special) [
  | true ↦ ok record { written = written; input = record { next_char = c; behind = cs } }
  | false ↦ do written ← string_put written c; read_string written (c == b'\\') cs
]

unfoldable pub string_token : List ℕ → Input → Result Lexed
unfolding read_string terminate l_read_char
string_token cells i = do
  scan ← read_string [] false i.behind
  cells ← terminate scan.written cells
  i ← l_read_char 1 scan.input
  ok record { token = LToken.string; token_string = cells; input = i }

-- The same escapes, in the order in which character constants test them.
unfoldable pub char_escape : ℕ → Result ℕ
char_escape c =
    if c == b'n'
    then ok b'\n'
    else if c == b'r'
    then ok b'\r'
    else if c == b'\''
    then ok b'\''
    else if c == b'"'
    then ok b'"'
    else if c == b't'
    then ok b'\t'
    else if c == b'\\'
    then ok b'\\'
    else err Error.aborted

unfoldable pub char_value : Input → Result Scan
unfolding char_escape l_read_char
char_value i = elim (i.next_char == b'\\') [
  | true ↦ do
    i ← l_read_char 0 i
    value ← char_escape i.next_char
    ok record { written = value ∷ []; input = i }
  | false ↦ ok record { written = i.next_char ∷ []; input = i }
]

unfoldable pub char_token : List ℕ → Input → Result Lexed
unfolding char_value terminate l_read_char
char_token cells i = do
  i ← l_read_char 0 i
  scan ← char_value i
  cells ← terminate scan.written cells
  i ← l_read_char 0 scan.input
  elim (i.next_char == b'\'') [
    | true ↦ do
      i ← l_read_char 1 i
      ok record { token = LToken.char; token_string = cells; input = i }
    | false ↦ err Error.aborted
  ]
