-- ===== src/Parser/Number.antt =====
-- src/parser.c: p_read_numeric_constant, and the value that p_read_numeric_param reads.
use rvcc.Prelude.{
  ℕ, ◌+◌, ◌-◌, ◌*◌, ◌%◌, Bool, true, false, ◌&&◌, ◌||◌, List, [], ◌∷◌, ◌++◌, leb, ltb, ◌==◌,
  if◌then◌else◌,
}
use rvcc.Result.{Result, ok, err, ◌>>=◌, Error}
use rvcc.Il.{CString}
use rvcc.Word.{word_mod, add32, sub32, neg32, shl32}
use rvcc.Lexer.Chars.{is_digit, is_hex}

-- A char is signed, so one above 127 is negative as an int.
abbrev pub char_int : ℕ → ℕ
char_int c = if ltb c 128 then c else c + (word_mod - 256)

-- value * 10 + c - '0'
unfoldable pub decimal_value : ℕ → CString → ℕ
decimal_value value [] = value
decimal_value value (c ∷ cs) =
    decimal_value (sub32 (add32 (value * 10 % word_mod) (char_int c)) b'0') cs

abbrev pub is_between : ℕ → ℕ → ℕ → Bool
is_between low high c = leb low c && leb c high

-- What a character adds behind value << 4.
unfoldable pub add_hex_digit : ℕ → ℕ → ℕ
add_hex_digit value c =
    if is_between b'0' b'9' c
    then add32 value (c - b'0')
    else if is_between b'a' b'f' c
    then add32 value (c - b'a' + 10)
    else if is_between b'A' b'F' c
    then add32 value (c - b'A' + 10)
    else value

unfoldable pub hex_value : ℕ → CString → ℕ
unfolding add_hex_digit
hex_value value [] = value
hex_value value (c ∷ cs) = hex_value (add_hex_digit (shl32 value 4) c) cs

-- An x at the second place starts again behind it.
unfoldable pub p_read_numeric_constant : CString → ℕ
unfolding decimal_value hex_value
p_read_numeric_constant (a ∷ x ∷ cs) =
    if x == b'x' || x == b'X' then hex_value 0 cs else decimal_value 0 (a ∷ x ∷ cs)
p_read_numeric_constant buffer = decimal_value 0 buffer

-- The character of p_read_numeric_param as a digit.
unfoldable pub hex_digit : ℕ → Result ℕ
hex_digit c =
    if is_between b'0' b'9' c
    then ok (c - b'0')
    else if is_between b'a' b'f' c
    then ok (c - b'a' + 10)
    else if is_between b'A' b'F' c
    then ok (c - b'A' + 10)
    else err Error.invalid_numeric_constant

-- do { ... } while (is_hex(token[i])), over the text and its 0
unfoldable pub hex_loop : ℕ → ℕ → List ℕ → Result ℕ
unfolding hex_digit is_hex
hex_loop value c [] = do digit ← hex_digit c; err Error.out_of_bounds
hex_loop value c (d ∷ ds) = do
  digit ← hex_digit c
  elim (is_hex d) [
    | true ↦ hex_loop (add32 (value * 16 % word_mod) digit) d ds
    | false ↦ ok (add32 (value * 16 % word_mod) digit)
  ]

-- c = token[i++] - '0', in a char
unfoldable pub decimal_loop : ℕ → ℕ → List ℕ → Result ℕ
unfolding is_digit
decimal_loop value c [] = err Error.out_of_bounds
decimal_loop value c (d ∷ ds) =
    let next = add32 (value * 10 % word_mod) (char_int ((c + (256 - b'0')) % 256)) in
    elim (is_digit d) [ true ↦ decimal_loop next d ds | false ↦ ok next ]

-- token[0] is tested for 'X' where token[1] is meant.
unfoldable pub unsigned_value : List ℕ → Result ℕ
unfolding hex_loop decimal_loop
unsigned_value (a ∷ x ∷ c ∷ cs) =
    if a == b'0' && (x == b'x' || a == b'X') then hex_loop 0 c cs else decimal_loop 0 a (x ∷ c ∷ cs)
unsigned_value (a ∷ cs) = decimal_loop 0 a cs
unsigned_value [] = err Error.out_of_bounds

-- A minus sign is passed over, and turns the sign about.
unfoldable pub signed_value : Bool → List ℕ → Result ℕ
unfolding unsigned_value decimal_loop
signed_value isneg (a ∷ b ∷ cs) = do
  value ← if a == b'-' then decimal_loop 0 b cs else unsigned_value (a ∷ b ∷ cs)
  ok (
      if a == b'-'
      then (if isneg then value else neg32 value)
      else if isneg
      then neg32 value
      else value)
signed_value isneg cs = err Error.out_of_bounds

-- The text that l_ident copied, and its 0.
unfoldable pub numeric_param_value : Bool → CString → Result ℕ
unfolding signed_value
numeric_param_value isneg token = signed_value isneg (token ++ 0 ∷ [])
