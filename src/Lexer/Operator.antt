-- ===== src/Lexer/Operator.antt =====
-- src/lexer.c: the tokens that punctuation makes.
use rvcc.Prelude.{ℕ, true, false, List, [], ◌∷◌, ◌==◌, if◌then◌else◌}
use rvcc.Result.{Result, ok, err, ◌>>=◌, Error}
use rvcc.Lexer.{Input, LToken, Lexed}
use rvcc.Lexer.Scan.{l_read_char, l_skip_whitespace}

-- A token of the one character that is next: l_read_char(1).
unfoldable pub one_char : LToken → List ℕ → Input → Result Lexed
unfolding l_read_char
one_char token cells i = do
  i ← l_read_char 1 i
  ok record { token = token; token_string = cells; input = i }

-- The first of the pairs whose character is next makes its token, and without one the token is
-- `alone`.
unfoldable pub second_char : List (ℕ × LToken) → LToken → List ℕ → Input → Result Lexed
unfolding one_char l_skip_whitespace
second_char [] alone cells i = do
  i ← l_skip_whitespace i
  ok record { token = alone; token_string = cells; input = i }
second_char ((c, token) ∷ pairs) alone cells i =
    if i.next_char == c then one_char token cells i else second_char pairs alone cells i

unfoldable pub up_to_two : List (ℕ × LToken) → LToken → List ℕ → Input → Result Lexed
unfolding l_read_char second_char
up_to_two pairs alone cells i = do i ← l_read_char 0 i; second_char pairs alone cells i

-- Behind a dot: two more of them, or none.
unfoldable pub dot_token : List ℕ → Input → Result Lexed
unfolding l_read_char l_skip_whitespace one_char
dot_token cells i = do
  i ← l_read_char 0 i
  elim (i.next_char == b'.') [
    | true ↦ do
      i ← l_read_char 0 i
      if i.next_char == b'.' then one_char LToken.elipsis cells i else err Error.aborted
    | false ↦ do
      i ← l_skip_whitespace i
      ok record { token = LToken.dot; token_string = cells; input = i }
  ]

-- From '*' to '=', or what `other` makes of the character.
unfoldable pub operator_token : Result Lexed → List ℕ → Input → Result Lexed
unfolding one_char up_to_two dot_token
operator_token other cells i =
    let c = i.next_char in
    if c == b'*'
    then one_char LToken.star cells i
    else if c == b'&'
    then up_to_two ((b'&', LToken.log_and) ∷ (b'=', LToken.andeq) ∷ []) LToken.ampersand cells i
    else if c == b'|'
    then up_to_two ((b'|', LToken.log_or) ∷ (b'=', LToken.oreq) ∷ []) LToken.bit_or cells i
    else if c == b'<'
    then up_to_two ((b'=', LToken.le) ∷ (b'<', LToken.lshift) ∷ []) LToken.lt cells i
    else if c == b'>'
    then up_to_two ((b'=', LToken.ge) ∷ (b'>', LToken.rshift) ∷ []) LToken.gt cells i
    else if c == b'!'
    then up_to_two ((b'=', LToken.noteq) ∷ []) LToken.log_not cells i
    else if c == b'.'
    then dot_token cells i
    else if c == b'-'
    then up_to_two ((b'>', LToken.arrow) ∷ (b'-', LToken.minusminus) ∷ (b'=', LToken.minuseq) ∷ [])
        LToken.minus cells i
    else if c == b'+'
    then up_to_two ((b'+', LToken.plusplus) ∷ (b'=', LToken.pluseq) ∷ []) LToken.plus cells i
    else if c == b';'
    then one_char LToken.semicolon cells i
    else if c == b':'
    then one_char LToken.colon cells i
    else if c == b'='
    then up_to_two ((b'=', LToken.eq) ∷ []) LToken.assign cells i
    else other

-- From '(' to ','.
unfoldable pub bracket_token : Result Lexed → List ℕ → Input → Result Lexed
unfolding one_char
bracket_token other cells i =
    let c = i.next_char in
    if c == b'('
    then one_char LToken.op_bracket cells i
    else if c == b')'
    then one_char LToken.cl_bracket cells i
    else if c == b'{'
    then one_char LToken.op_curly cells i
    else if c == b'}'
    then one_char LToken.cl_curly cells i
    else if c == b'['
    then one_char LToken.op_square cells i
    else if c == b']'
    then one_char LToken.cl_square cells i
    else if c == b','
    then one_char LToken.comma cells i
    else other
