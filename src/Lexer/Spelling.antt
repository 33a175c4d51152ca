-- ===== src/Lexer/Spelling.antt =====
-- How tokens are spelled, written down from the C language and not from the lexer.
use rvcc.Prelude.{Option, none, some, []}
use rvcc.Il.{CString}
use rvcc.Lexer.{LToken}
use rvcc.Lexer.Word.{codes}

-- The one spelling of a token of punctuation or of a keyword.
abbrev pub spelling : LToken → Option CString
spelling LToken.comma = some (codes ",")
spelling LToken.op_bracket = some (codes "(")
spelling LToken.cl_bracket = some (codes ")")
spelling LToken.op_curly = some (codes "{")
spelling LToken.cl_curly = some (codes "}")
spelling LToken.op_square = some (codes "[")
spelling LToken.cl_square = some (codes "]")
spelling LToken.star = some (codes "*")
spelling LToken.bit_or = some (codes "|")
spelling LToken.log_and = some (codes "&&")
spelling LToken.log_or = some (codes "||")
spelling LToken.log_not = some (codes "!")
spelling LToken.lt = some (codes "<")
spelling LToken.gt = some (codes ">")
spelling LToken.le = some (codes "<=")
spelling LToken.ge = some (codes ">=")
spelling LToken.lshift = some (codes "<<")
spelling LToken.rshift = some (codes ">>")
spelling LToken.dot = some (codes ".")
spelling LToken.arrow = some (codes "->")
spelling LToken.plus = some (codes "+")
spelling LToken.minus = some (codes "-")
spelling LToken.minuseq = some (codes "-=")
spelling LToken.pluseq = some (codes "+=")
spelling LToken.oreq = some (codes "|=")
spelling LToken.andeq = some (codes "&=")
spelling LToken.eq = some (codes "==")
spelling LToken.noteq = some (codes "!=")
spelling LToken.assign = some (codes "=")
spelling LToken.plusplus = some (codes "++")
spelling LToken.minusminus = some (codes "--")
spelling LToken.colon = some (codes ":")
spelling LToken.semicolon = some (codes ";")
spelling LToken.ampersand = some (codes "&")
spelling LToken.return_ = some (codes "return")
spelling LToken.if_ = some (codes "if")
spelling LToken.else_ = some (codes "else")
spelling LToken.while_ = some (codes "while")
spelling LToken.for_ = some (codes "for")
spelling LToken.do_ = some (codes "do")
spelling LToken.typedef_ = some (codes "typedef")
spelling LToken.enum_ = some (codes "enum")
spelling LToken.struct_ = some (codes "struct")
spelling LToken.sizeof_ = some (codes "sizeof")
spelling LToken.elipsis = some (codes "...")
spelling LToken.asm_ = some (codes "_asm")
spelling LToken.switch_ = some (codes "switch")
spelling LToken.case_ = some (codes "case")
spelling LToken.break_ = some (codes "break")
spelling LToken.default_ = some (codes "default")
spelling _ = none

-- What a keyword leaves in the token string: itself. Punctuation leaves nothing.
abbrev pub fixed_text : LToken → CString
fixed_text LToken.return_ = codes "return"
fixed_text LToken.if_ = codes "if"
fixed_text LToken.else_ = codes "else"
fixed_text LToken.while_ = codes "while"
fixed_text LToken.for_ = codes "for"
fixed_text LToken.do_ = codes "do"
fixed_text LToken.typedef_ = codes "typedef"
fixed_text LToken.enum_ = codes "enum"
fixed_text LToken.struct_ = codes "struct"
fixed_text LToken.sizeof_ = codes "sizeof"
fixed_text LToken.asm_ = codes "_asm"
fixed_text LToken.switch_ = codes "switch"
fixed_text LToken.case_ = codes "case"
fixed_text LToken.break_ = codes "break"
fixed_text LToken.default_ = codes "default"
fixed_text _ = []
