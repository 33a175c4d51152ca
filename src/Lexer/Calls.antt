-- ===== src/Lexer/Calls.antt =====
-- src/lexer.c: what the parser calls, over the lexer's own state.
use rvcc.Prelude.{
  ℕ, zero, suc, Bool, true, false, Option, none, some, List, [], ◌∷◌, ◌==◌, if◌then◌else◌, length,
}
use rvcc.Result.{Result, ok, err, ◌>>=◌, Error}
use rvcc.Il.{CString}
use rvcc.Tables.{Tables}
use rvcc.Lexer.{LToken, Lexed}
use rvcc.Lexer.Scan.{c_string}
use rvcc.Lexer.Next.{l_next_token}

-- The values of l_token.
unfoldable pub l_token : LToken → ℕ
l_token LToken.sof = 0
l_token LToken.numeric = 1
l_token LToken.identifier = 2
l_token LToken.comma = 3
l_token LToken.string = 4
l_token LToken.char = 5
l_token LToken.op_bracket = 6
l_token LToken.cl_bracket = 7
l_token LToken.op_curly = 8
l_token LToken.cl_curly = 9
l_token LToken.op_square = 10
l_token LToken.cl_square = 11
l_token LToken.star = 12
l_token LToken.bit_or = 13
l_token LToken.log_and = 14
l_token LToken.log_or = 15
l_token LToken.log_not = 16
l_token LToken.lt = 17
l_token LToken.gt = 18
l_token LToken.le = 19
l_token LToken.ge = 20
l_token LToken.lshift = 21
l_token LToken.rshift = 22
l_token LToken.dot = 23
l_token LToken.arrow = 24
l_token LToken.plus = 25
l_token LToken.minus = 26
l_token LToken.minuseq = 27
l_token LToken.pluseq = 28
l_token LToken.oreq = 29
l_token LToken.andeq = 30
l_token LToken.eq = 31
l_token LToken.noteq = 32
l_token LToken.assign = 33
l_token LToken.plusplus = 34
l_token LToken.minusminus = 35
l_token LToken.colon = 36
l_token LToken.semicolon = 37
l_token LToken.eof = 38
l_token LToken.ampersand = 39
l_token LToken.return_ = 40
l_token LToken.if_ = 41
l_token LToken.else_ = 42
l_token LToken.while_ = 43
l_token LToken.for_ = 44
l_token LToken.do_ = 45
l_token LToken.op_comment = 46
l_token LToken.cl_comment = 47
l_token LToken.define_ = 48
l_token LToken.include_ = 49
l_token LToken.typedef_ = 50
l_token LToken.enum_ = 51
l_token LToken.struct_ = 52
l_token LToken.sizeof_ = 53
l_token LToken.elipsis = 54
l_token LToken.asm_ = 55
l_token LToken.switch_ = 56
l_token LToken.case_ = 57
l_token LToken.break_ = 58
l_token LToken.default_ = 59

unfoldable pub same_token : LToken → LToken → Bool
unfolding l_token
same_token a b = l_token a == l_token b

-- _l_next_token = l_next_token(), with fuel for every character that is left
unfoldable pub advance : Tables → Lexed → Result Lexed
unfolding l_next_token
advance t l = l_next_token (suc (length l.input.behind)) t l.token_string l.input

-- Whether the token was there, and the state behind it.
unfoldable pub l_accept : LToken → Tables → Lexed → Result (Bool × Lexed)
unfolding same_token advance
l_accept token t l = elim (same_token l.token token) [
  | true ↦ do l ← advance t l; ok (true, l)
  | false ↦ ok (false, l)
]

-- The string is copied to where `value` points, and the state stays.
unfoldable pub l_peek : LToken → Lexed → Option CString
unfolding same_token c_string
l_peek token l = if same_token l.token token then some (c_string l.token_string) else none

unfoldable pub l_ident : LToken → Tables → Lexed → Result (CString × Lexed)
unfolding same_token c_string advance
l_ident token t l = elim (same_token l.token token) [
  | true ↦ do l' ← advance t l; ok (c_string l.token_string, l')
  | false ↦ err Error.unexpected_token
]

unfoldable pub l_expect : LToken → Tables → Lexed → Result Lexed
unfolding same_token advance
l_expect token t l = elim (same_token l.token token) [
  | true ↦ advance t l
  | false ↦ err Error.unexpected_token
]

abbrev pub zeros : ℕ → List ℕ
zeros zero = []
zeros (suc n) = 0 ∷ zeros n

-- _l_next_token and _l_token_string are 0 before, and 0 is t_sof.
unfoldable pub l_initialize : Tables → List ℕ → Result Lexed
unfolding l_expect
l_initialize t [] = err Error.out_of_bounds
l_initialize t (c ∷ cs) = l_expect LToken.sof t record {
  token = LToken.sof;
  token_string = zeros 256;
  input = record { next_char = c; behind = cs };
}
