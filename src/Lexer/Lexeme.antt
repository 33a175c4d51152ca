-- ===== src/Lexer/Lexeme.antt =====
-- Tokens as C writes them.
use rvcc.Prelude.{
  ℕ, ◌<◌, ◌≡◌, ◌≢◌, ap, Bool, true, false, not, Option, none, some, [], ◌∷◌, ◌++◌, ◌==◌,
  if◌then◌else◌, length,
}
use rvcc.Il.{CString}
use rvcc.Tables.{Tables, find_alias}
use rvcc.Lexer.{LToken}
use rvcc.Lexer.Chars.{is_alnum, is_hex, is_digit}
use rvcc.Lexer.Word.{keywords, find_keyword}
use rvcc.Lexer.Spelling.{spelling, fixed_text}
use rvcc.Lexer.Collect.{All, quote, quote_all}
use rvcc.Lexer.Printed.{differs}

-- A token as C's source has it: an alias comes with the value that the table has for it, and a
-- string or a character with the way in which the quote of the other kind is written in it.
pub data Lexeme : Type 0 where
  fixed : LToken → Lexeme
  identifier : ℕ → CString → Lexeme
  alias : ℕ → CString → CString → Lexeme
  number : ℕ → CString → Lexeme
  string : Bool → CString → Lexeme
  char : Bool → ℕ → Lexeme

-- Between apostrophes, a backslash and an apostrophe have a backslash, a double quote may have one.
unfoldable pub char_quote : Bool → ℕ → CString
unfolding quote
char_quote escape c =
    if c == b'\\'
    then b'\\' ∷ b'\\' ∷ []
    else if c == b'"'
    then (if escape then b'\\' ∷ b'"' ∷ [] else b'"' ∷ [])
    else quote true c

abbrev pub letters : Option CString → CString
letters none = []
letters (some text) = text

abbrev pub print : Lexeme → CString
print (fixed token) = letters (spelling token)
print (identifier c cs) = c ∷ cs
print (alias c cs value) = c ∷ cs
print (number c cs) = c ∷ cs
print (string escape text) = b'"' ∷ quote_all escape text ++ b'"' ∷ []
print (char escape c) = b'\'' ∷ char_quote escape c ++ b'\'' ∷ []

abbrev pub kind : Lexeme → LToken
kind (fixed token) = token
kind (identifier c cs) = LToken.identifier
kind (alias c cs value) = LToken.numeric
kind (number c cs) = LToken.numeric
kind (string escape text) = LToken.string
kind (char escape c) = LToken.char

abbrev pub text : Lexeme → CString
text (fixed token) = fixed_text token
text (identifier c cs) = c ∷ cs
text (alias c cs value) = value
text (number c cs) = c ∷ cs
text (string escape s) = s
text (char escape c) = c ∷ []

abbrev pub NoZero : CString → Type 0
NoZero = All (λ c. not (c == 0))

-- A word begins with no digit and is no keyword.
abbrev pub IsWord : ℕ → CString → Type 0
IsWord c cs =
    All is_alnum (c ∷ cs)
    × (is_digit c ≡ false)
    × (find_keyword keywords (c ∷ cs) ≡ none)
    × (length (c ∷ cs) < 256)

abbrev pub IsWritten : Tables → Lexeme → Type 0
IsWritten t (fixed token) = spelling token ≢ none
IsWritten t (identifier c cs) = IsWord c cs × (find_alias (c ∷ cs) t ≡ none)
IsWritten t (alias c cs value) = IsWord c cs × (find_alias (c ∷ cs) t ≡ some value) × NoZero value
IsWritten t (number c cs) = (is_digit c ≡ true) × All is_hex (c ∷ cs) × (length (c ∷ cs) < 256)
IsWritten t (string escape s) = NoZero s × All (λ c. not (c == b'\\')) s × (length s < 256)
IsWritten t (char escape c) = not (c == 0) ≡ true

-- A character that passes a test which 0 does not pass is not 0.
pub All-NoZero : (test : ℕ → Bool) → test 0 ≡ false → (cs : CString) → All test cs → NoZero cs
All-NoZero test z [] all = tt
All-NoZero test z (c ∷ cs) (e, all) = (ap not (differs test c 0 e z), All-NoZero test z cs all)
