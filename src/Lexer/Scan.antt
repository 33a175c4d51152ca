-- ===== src/Lexer/Scan.antt =====
-- src/lexer.c: reading characters, and the loops that collect them in _l_token_string.
use rvcc.Prelude.{
  ℕ, suc, Bool, true, false, List, [], ◌∷◌, ◌++◌, ltb, leb, ◌==◌, if◌then◌else◌, length, drop,
}
use rvcc.Result.{Result, ok, err, ◌>>=◌, Error}
use rvcc.Il.{CString}
use rvcc.Lexer.{Input}
use rvcc.Lexer.Chars.{is_whitespace, is_alnum}

abbrev pub max_token_len : ℕ
max_token_len = 256

unfoldable pub skip_from : ℕ → List ℕ → Result Input
unfolding is_whitespace
skip_from c [] =
    if is_whitespace c then err Error.out_of_bounds else ok record { next_char = c; behind = [] }
skip_from c (d ∷ ds) = elim (is_whitespace c) [
  | true ↦ skip_from d ds
  | false ↦ ok record { next_char = c; behind = d ∷ ds }
]

unfoldable pub l_skip_whitespace : Input → Result Input
unfolding skip_from
l_skip_whitespace i = skip_from i.next_char i.behind

-- _source[++_source_idx], which must lie in the array
unfoldable pub next_of : List ℕ → Result Input
next_of [] = err Error.out_of_bounds
next_of (d ∷ ds) = ok record { next_char = d; behind = ds }

unfoldable pub l_read_char : ℕ → Input → Result Input
unfolding next_of l_skip_whitespace
l_read_char skip_whitespace i = do
  i ← next_of i.behind
  if skip_whitespace == 1 then l_skip_whitespace i else ok i

-- The characters collected so far, the last one first.
abbrev pub onto : List ℕ → List ℕ → List ℕ
onto [] text = text
onto (c ∷ cs) text = onto cs (c ∷ text)

-- _l_token_string[i++] = c
unfoldable pub put : List ℕ → ℕ → Result (List ℕ)
put written c =
    if ltb (length written) max_token_len then ok (c ∷ written) else err Error.out_of_bounds

-- The cells behind the text keep what they held.
abbrev pub overwrite : List ℕ → List ℕ → List ℕ
overwrite text cells = text ++ drop (length text) cells

-- What the functions on strings see of an array: the characters before the first 0.
unfoldable pub c_string : List ℕ → CString
c_string [] = []
c_string (c ∷ cs) = if c == 0 then [] else c ∷ c_string cs

-- _l_token_string[i] = 0
unfoldable pub terminate : List ℕ → List ℕ → Result (List ℕ)
unfolding put
terminate written cells = do all ← put written 0; ok (overwrite (onto all []) cells)

pub record Scan : Type 0 where
  pub written : List ℕ
  pub input : Input

-- do { _l_token_string[i++] = _l_next_char; } while (test(l_read_char(0)));
module _ (test : ℕ → Bool) where
  unfoldable pub read_while : List ℕ → ℕ → List ℕ → Result Scan
  unfolding put
  read_while written c [] = err Error.out_of_bounds
  read_while written c (d ∷ ds) = do
    written ← put written c
    elim (test d) [
      | true ↦ read_while written d ds
      | false ↦ ok record { written = written; input = record { next_char = d; behind = ds } }
    ]

-- The loop of l_read_alnum: what is in the buffer, and where it stopped.
unfoldable pub read_alnum : ℕ → List ℕ → List ℕ → Result Scan
unfolding is_alnum
read_alnum max_len written [] = err Error.out_of_bounds
read_alnum max_len written (d ∷ ds) = elim (is_alnum d) [
  | true ↦
      if leb max_len (suc (length written))
      then err Error.length_exceeded
      else read_alnum max_len (d ∷ written) ds
  | false ↦ ok record { written = written; input = record { next_char = d; behind = ds } }
]

unfoldable pub l_read_alnum : ℕ → Input → Result Scan
unfolding read_alnum
l_read_alnum max_len i = read_alnum max_len [] i.behind
