-- ===== src/Lexer/Word.antt =====
-- src/lexer.c: numbers, keywords, aliases and identifiers.
use Prim.Native.Char.{code}
use Prim.Native.String.{String}
use rvcc.Prelude.{ℕ, Option, none, some, List, [], ◌∷◌, ◌++◌, if◌then◌else◌}
use rvcc.Result.{Result, ok, ◌>>=◌}
use rvcc.Il.{CString, same_string}
use rvcc.Tables.{Tables, find_alias}
use rvcc.Lexer.{Input, LToken, Lexed}
use rvcc.Lexer.Chars.{is_alnum, is_hex}
use rvcc.Lexer.Scan.{read_while, terminate, l_skip_whitespace, c_string, overwrite}

unfoldable pub numeric_token : List ℕ → Input → Result Lexed
unfolding is_hex read_while terminate l_skip_whitespace
numeric_token cells i = do
  scan ← read_while is_hex [] i.next_char i.behind
  cells ← terminate scan.written cells
  i ← l_skip_whitespace scan.input
  ok record { token = LToken.numeric; token_string = cells; input = i }

abbrev pub codes : String → CString
codes String.[] = []
codes (String.◌∷◌ c s) = code c ∷ codes s

abbrev pub keywords : List (CString × LToken)
keywords =
    (codes "if", LToken.if_)
    ∷ (codes "while", LToken.while_)
    ∷ (codes "for", LToken.for_)
    ∷ (codes "do", LToken.do_)
    ∷ (codes "else", LToken.else_)
    ∷ (codes "return", LToken.return_)
    ∷ (codes "typedef", LToken.typedef_)
    ∷ (codes "enum", LToken.enum_)
    ∷ (codes "struct", LToken.struct_)
    ∷ (codes "sizeof", LToken.sizeof_)
    ∷ (codes "switch", LToken.switch_)
    ∷ (codes "case", LToken.case_)
    ∷ (codes "break", LToken.break_)
    ∷ (codes "default", LToken.default_)
    ∷ (codes "#define", LToken.define_)
    ∷ (codes "#include", LToken.include_)
    ∷ (codes "_asm", LToken.asm_)
    ∷ []

unfoldable pub find_keyword : List (CString × LToken) → CString → Option LToken
unfolding same_string
find_keyword [] name = none
find_keyword ((word, token) ∷ pairs) name =
    if same_string name word then some token else find_keyword pairs name

-- An alias puts its value in the place of the word: strcpy copies it with its end.
unfoldable pub alias_or_identifier : Option CString → List ℕ → Input → Lexed
alias_or_identifier (some value) cells i = record {
  token = LToken.numeric;
  token_string = overwrite (value ++ 0 ∷ []) cells;
  input = i;
}
alias_or_identifier none cells i = record {
  token = LToken.identifier;
  token_string = cells;
  input = i;
}

unfoldable pub named_token : Tables → Option LToken → List ℕ → Input → Lexed
unfolding find_alias alias_or_identifier
named_token t (some token) cells i = record { token = token; token_string = cells; input = i }
named_token t none cells i = alias_or_identifier (find_alias (c_string cells) t) cells i

unfoldable pub word_token : Tables → List ℕ → Input → Result Lexed
unfolding is_alnum read_while terminate l_skip_whitespace find_keyword named_token
word_token t cells i = do
  scan ← read_while is_alnum [] i.next_char i.behind
  cells ← terminate scan.written cells
  i ← l_skip_whitespace scan.input
  ok (named_token t (find_keyword keywords (c_string cells)) cells i)
