-- ===== src/Lexer/Directive.antt =====
-- src/lexer.c: the lines that begin with '#', and comments.
use rvcc.Prelude.{
  ℕ, zero, suc, Bool, true, false, not, Option, none, some, List, [], ◌∷◌, ◌==◌, if◌then◌else◌,
}
use rvcc.Result.{Result, ok, err, ◌>>=◌, Error}
use rvcc.Il.{CString, same_string}
use rvcc.Tables.{Tables, find_alias}
use rvcc.Lexer.{Input, LToken, Lexed}
use rvcc.Lexer.Chars.{is_alnum}
use rvcc.Lexer.Scan.{
  Scan, onto, overwrite, read_while, terminate, l_skip_whitespace, l_read_char, c_string,
}
use rvcc.Lexer.Word.{codes}

abbrev pub in_line : ℕ → Bool
in_line c = not (c == b'\n')

-- The characters from the next one to the end of its line.
unfoldable pub read_line : Input → Result Scan
unfolding read_while
read_line i = read_while in_line [] i.next_char i.behind

-- Lines are read until one is #endif, and each round reads a character, so the length of the source
-- bounds the rounds.
unfoldable pub skip_lines : ℕ → List ℕ → Input → Result (List ℕ × Input)
unfolding l_skip_whitespace read_line terminate same_string c_string
skip_lines zero cells i = err Error.out_of_fuel
skip_lines (suc fuel) cells i = do
  i ← l_skip_whitespace i
  line ← read_line i
  cells ← terminate line.written cells
  elim (same_string (c_string cells) (codes "#endif")) [
    | true ↦ do i ← l_skip_whitespace line.input; ok (cells, i)
    | false ↦ skip_lines fuel cells line.input
  ]

-- `again` is the call of l_next_token that goes on behind the directive.
module _ (fuel : ℕ) (again : List ℕ → Input → Result Lexed) (t : Tables) where
  -- The line is not ended with a 0: the cells behind it keep what they held.
  unfoldable pub include_token : List ℕ → Input → Result Lexed
  unfolding read_line l_skip_whitespace
  include_token cells i = do
    line ← read_line i
    i ← l_skip_whitespace line.input
    ok record {
      token = LToken.include_;
      token_string = overwrite (onto line.written []) cells;
      input = i;
    }

  unfoldable pub define_token : List ℕ → Input → Result Lexed
  unfolding l_skip_whitespace
  define_token cells i = do
    i ← l_skip_whitespace i
    ok record { token = LToken.define_; token_string = cells; input = i }

  unfoldable pub skip_and_go : List ℕ → Input → Result Lexed
  unfolding l_skip_whitespace
  skip_and_go cells i = do i ← l_skip_whitespace i; again cells i

  unfoldable pub is_defined : Option CString → Bool
  is_defined none = false
  is_defined (some value) = true

  unfoldable pub ifdef_token : List ℕ → Input → Result Lexed
  unfolding read_line terminate find_alias c_string skip_and_go skip_lines is_defined
  ifdef_token cells i = do
    line ← read_line i
    cells ← terminate line.written cells
    elim (is_defined (find_alias (c_string cells) t)) [
      | true ↦ skip_and_go cells line.input
      | false ↦ do (cells, i) ← skip_lines fuel cells line.input; again cells i
    ]

  unfoldable pub directive_named : CString → List ℕ → Input → Result Lexed
  unfolding same_string include_token define_token ifdef_token skip_and_go
  directive_named name cells i =
      if same_string name (codes "#include")
      then include_token cells i
      else if same_string name (codes "#define")
      then define_token cells i
      else if same_string name (codes "#ifdef")
      then ifdef_token cells i
      else if same_string name (codes "#endif")
      then skip_and_go cells i
      else err Error.unknown_directive

  unfoldable pub directive_token : List ℕ → Input → Result Lexed
  unfolding is_alnum read_while terminate l_skip_whitespace directive_named c_string
  directive_token cells i = do
    scan ← read_while is_alnum [] i.next_char i.behind
    cells ← terminate scan.written cells
    i ← l_skip_whitespace scan.input
    directive_named (c_string cells) cells i

-- From the character behind "/*" on, to the "*/" that ends the comment: a star takes the character
-- behind it along, whatever that is.
unfoldable pub end_of_comment : List ℕ → Result Input
unfolding l_read_char
end_of_comment [] = err Error.out_of_bounds
end_of_comment (c ∷ []) =
    if c == b'*'
    then err Error.out_of_bounds
    else if c == 0
    then err Error.unexpected_slash
    else err Error.out_of_bounds
end_of_comment (c ∷ d ∷ ds) = elim (c == b'*') [
  | true ↦ elim (d == b'/') [
    | true ↦ l_read_char 1 record { next_char = d; behind = ds }
    | false ↦ elim (d == 0) [ true ↦ err Error.unexpected_slash | false ↦ end_of_comment ds ]
  ]
  | false ↦ elim (c == 0) [ true ↦ err Error.unexpected_slash | false ↦ end_of_comment (d ∷ ds) ]
]

unfoldable pub comment_token : (List ℕ → Input → Result Lexed) → List ℕ → Input → Result Lexed
unfolding l_read_char end_of_comment
comment_token again cells i = do
  i ← l_read_char 0 i
  elim (i.next_char == b'*') [
    | true ↦ do i ← end_of_comment i.behind; again cells i
    | false ↦ err Error.unexpected_slash
  ]
