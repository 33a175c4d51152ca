-- ===== src/Lexer/Next.antt =====
-- src/lexer.c: l_next_token, and the calls that the parser makes.
use rvcc.Prelude.{ℕ, zero, suc, List, [], ◌∷◌, ◌||◌, ◌==◌, if◌then◌else◌}
use rvcc.Result.{Result, ok, err, Error}
use rvcc.Tables.{Tables}
use rvcc.Lexer.{Input, LToken, Lexed}
use rvcc.Lexer.Chars.{is_alnum, is_digit}
use rvcc.Lexer.Scan.{overwrite}
use rvcc.Lexer.Quoted.{string_token, char_token}
use rvcc.Lexer.Directive.{directive_token, comment_token}
use rvcc.Lexer.Operator.{bracket_token, operator_token}
use rvcc.Lexer.Word.{numeric_token, word_token}

-- What is left behind the operators: the end of the source, a word or a character of no token.
unfoldable pub last_token : Tables → List ℕ → Input → Result Lexed
unfolding is_alnum word_token
last_token t cells i =
    if i.next_char == 0 || i.next_char == 255
    then ok record { token = LToken.eof; token_string = cells; input = i }
    else if is_alnum i.next_char
    then word_token t cells i
    else err Error.unrecognized_input

unfoldable pub quoted_token : Tables → List ℕ → Input → Result Lexed
unfolding string_token char_token operator_token last_token
quoted_token t cells i =
    if i.next_char == b'"'
    then string_token cells i
    else if i.next_char == b'\''
    then char_token cells i
    else operator_token (last_token t cells i) cells i

-- The body of l_next_token, over the call of itself.
unfoldable pub token_at :
    ℕ → (List ℕ → Input → Result Lexed) → Tables → List ℕ → Input → Result Lexed
unfolding directive_token comment_token is_digit numeric_token bracket_token quoted_token
token_at fuel again t cells i =
    if i.next_char == b'#'
    then directive_token fuel again t cells i
    else if i.next_char == b'/'
    then comment_token again cells i
    else if is_digit i.next_char
    then numeric_token cells i
    else bracket_token (quoted_token t cells i) cells i

-- Directives and comments are read away before the call of itself, so the length of the source bounds
-- the calls.
unfoldable pub l_next_token : ℕ → Tables → List ℕ → Input → Result Lexed
unfolding token_at
l_next_token zero t cells i = err Error.out_of_fuel
l_next_token (suc fuel) t cells i =
    token_at fuel (l_next_token fuel t) t (overwrite (0 ∷ []) cells) i
