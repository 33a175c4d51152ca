-- ===== src/Lexer.antt =====
-- src/lexer.c: the lexer. The source is the array of characters from the current place on: the next
-- character and those behind it, up to the end of the array.
pub mod Chars
pub mod Scan
pub mod Quoted
pub mod Directive
pub mod Operator
pub mod Word
pub mod Next
pub mod Calls
pub mod Ends
pub mod Spelling
pub mod Collect
pub mod Fixed
pub mod Printed
pub mod Lexeme
pub mod RoundTrip
pub mod Skipped
pub mod Conditional
pub mod Moved
pub mod Progress
use rvcc.Prelude.{ℕ, List}

-- l_token
pub data LToken : Type 0 where
  sof numeric identifier comma string char : LToken
  op_bracket cl_bracket op_curly cl_curly op_square cl_square : LToken
  star bit_or log_and log_or log_not lt gt le ge lshift rshift dot arrow : LToken
  plus minus minuseq pluseq oreq andeq eq noteq assign plusplus minusminus : LToken
  colon semicolon eof ampersand : LToken
  return_ if_ else_ while_ for_ do_ : LToken
  op_comment cl_comment define_ include_ typedef_ enum_ struct_ sizeof_ elipsis asm_ : LToken
  switch_ case_ break_ default_ : LToken

-- _l_next_char is always _source[_source_idx].
pub record Input : Type 0 where
  pub next_char : ℕ
  pub behind : List ℕ

-- What l_next_token leaves: the token it returns, _l_token_string with all its cells, and the source.
pub record Lexed : Type 0 where
  pub token : LToken
  pub token_string : List ℕ
  pub input : Input
