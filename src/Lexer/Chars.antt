-- ===== src/Lexer/Chars.antt =====
-- src/helpers.c: the classes of characters. A char is signed, and a number below 256 stands for its
-- bits, so that 255 is -1.
use rvcc.Prelude.{ℕ, Bool, ◌&&◌, ◌||◌, leb, ◌==◌}

abbrev is_between : ℕ → ℕ → ℕ → Bool
is_between low high c = leb low c && leb c high

unfoldable pub is_whitespace : ℕ → Bool
is_whitespace c = c == b' ' || c == b'\r' || c == b'\n' || c == b'\t'

unfoldable pub is_alnum : ℕ → Bool
is_alnum c = is_between b'a' b'z' c || is_between b'A' b'Z' c || is_between b'0' b'9' c || c == b'_'

unfoldable pub is_digit : ℕ → Bool
is_digit c = is_between b'0' b'9' c

unfoldable pub is_hex : ℕ → Bool
is_hex c = is_between b'0' b'9' c || is_between b'a' b'f' c || c == b'x' || is_between b'A' b'F' c
