-- ===== src/Parser/Numerals.antt =====
-- src/parser.c: the two readers of numbers against each other and against numbers without a bound.
use rvcc.Prelude.{ℕ, Bool, ◌∷◌, if◌then◌else◌}
use rvcc.Il.{CString}
use rvcc.Word.{neg32}
use rvcc.Lexer.Chars.{is_digit}
use rvcc.Lexer.Collect.{All}
use rvcc.Tables.{Tables}
use rvcc.Parser.Digits.{decimal_number, is_hex_digit, hex_number}

-- A numeral: digits, or 0x and hexadecimal digits.
pub data Numeral : Type 0 where
  decimal : ℕ → CString → Numeral
  hexadecimal : ℕ → CString → Numeral

abbrev pub numeral_text : Numeral → CString
numeral_text (decimal c cs) = c ∷ cs
numeral_text (hexadecimal c cs) = b'0' ∷ b'x' ∷ c ∷ cs

abbrev pub IsNumeral : Numeral → Type 0
IsNumeral (decimal c cs) = All is_digit (c ∷ cs)
IsNumeral (hexadecimal c cs) = All is_hex_digit (c ∷ cs)

abbrev pub number_of : Numeral → ℕ
number_of (decimal c cs) = decimal_number 0 (c ∷ cs)
number_of (hexadecimal c cs) = hex_number 0 (c ∷ cs)

abbrev pub with_sign : Bool → ℕ → ℕ
with_sign isneg value = if isneg then neg32 value else value
