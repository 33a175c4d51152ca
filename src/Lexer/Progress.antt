-- ===== src/Lexer/Progress.antt =====
-- src/lexer.c: each call of l_next_token ends, and moves forward until the source is at its end.
use rvcc.Prelude.{ℕ, zero, suc, ◌≤◌, ◌<◌, ◌≡◌, refl, List, [], ◌∷◌, ◌==◌, length, arith}
use rvcc.Result.{Result, err, ◌>>=◌, Error}
use rvcc.Il.{same_string, CString}
use rvcc.Tables.{Tables, find_alias}
use rvcc.Lexer.{Input, LToken, Lexed}
use rvcc.Lexer.Chars.{is_alnum, is_digit}
use rvcc.Lexer.Scan.{
  onto, overwrite, c_string, l_read_char, l_skip_whitespace, terminate, read_while,
}
use rvcc.Lexer.Word.{codes, numeric_token}
use rvcc.Lexer.Operator.{bracket_token}
use rvcc.Lexer.Directive.{
  end_of_comment, read_line, skip_lines, include_token, define_token, skip_and_go, ifdef_token,
  directive_named, directive_token, comment_token, is_defined,
}
use rvcc.Lexer.Next.{quoted_token, token_at, l_next_token}
use rvcc.Ends.{Ends, Ends->>=, Ends-if, Ends-elim, Ends-weaken}
use rvcc.Lexer.Ends.{
  Within, Before, Ends-l_skip_whitespace, Ends-l_read_char, Ends-terminate, Ends-read_while,
  Ends-end_of_comment, Ends-read_line, Ends-skip_lines,
}
use rvcc.Lexer.Moved.{
  Moved, Moved-le, Moved-lt, skip_to, numeric_token-Moved, bracket_token-Moved, quoted_token-Moved,
}

-- What the call of itself does for sources that are shorter.
abbrev Goes : ℕ → (List ℕ → Input → Result Lexed) → Type 0
Goes n again =
    (cells : List ℕ) (i : Input)
    → length i.behind < n
    → Ends (Moved (length i.behind)) (again cells i)

module _ (fuel n : ℕ) (again : List ℕ → Input → Result Lexed) (t : Tables) (go : Goes n again) where
  again-Moved : (cells : List ℕ) (i : Input) → length i.behind < n → Ends (Moved n) (again cells i)
  again-Moved cells i b =
      Ends-weaken (Moved (length i.behind)) (Moved n) (again cells i) (go cells i b)
        (Moved-lt (length i.behind) n b)

  skip_and_go-Moved :
      (cells : List ℕ) (i : Input)
      → length i.behind < n
      → Ends (Moved n) (skip_and_go fuel again t cells i)
  unfolding skip_and_go
  skip_and_go-Moved cells i b =
      Ends->>= (Within (length i.behind)) (Moved n) (l_skip_whitespace i) (again cells)
        (Ends-l_skip_whitespace i) λ j w. again-Moved cells j (omega (arith, b, w))

  ifdef_token-Moved :
      (cells : List ℕ) (i : Input)
      → length i.behind < n
      → n ≤ fuel
      → Ends (Moved n) (ifdef_token fuel again t cells i)
  unfolding ifdef_token
  ifdef_token-Moved cells i b f =
      Ends->>= (λ s. Before (length i.behind) s.input) (Moved n) (read_line i) _ (Ends-read_line i)
        λ line c.
          Ends->>= (λ _. Unit) (Moved n) (terminate line.written cells) _
            (Ends-terminate line.written cells)
            λ cells' _.
              Ends-elim (Moved n) (is_defined fuel again t (find_alias (c_string cells') t))
                (skip_and_go fuel again t cells' line.input)
                (skip_lines fuel cells' line.input >>= λ (cells, i). again cells i)
                (skip_and_go-Moved cells' line.input (omega (arith, b, c)))
                (Ends->>= (λ r. Before (length line.input.behind) r.1) (Moved n)
                  (skip_lines fuel cells' line.input) (λ (cells, i). again cells i)
                  (Ends-skip_lines fuel cells' line.input (omega (arith, b, c, f)))
                  λ r d. again-Moved r.0 r.1 (omega (arith, b, c, d)))

  include_token-Moved :
      (cells : List ℕ) (i : Input)
      → length i.behind < n
      → Ends (Moved n) (include_token fuel again t cells i)
  unfolding include_token
  include_token-Moved cells i b =
      Ends->>= (λ s. Before (length i.behind) s.input) (Moved n) (read_line i) _ (Ends-read_line i)
        λ line c.
          skip_to n LToken.include_ (overwrite (onto line.written []) cells) line.input
            (omega (arith, b, c))

  directive_named-Moved :
      (name : CString) (cells : List ℕ) (i : Input)
      → length i.behind < n
      → n ≤ fuel
      → Ends (Moved n) (directive_named fuel again t name cells i)
  unfolding directive_named define_token
  directive_named-Moved name cells i b f =
      Ends-if (Moved n) (same_string name (codes "#include")) _ _ (include_token-Moved cells i b) (
        Ends-if (Moved n) (same_string name (codes "#define")) _ _
          (skip_to n LToken.define_ cells i b)
          (Ends-if (Moved n) (same_string name (codes "#ifdef")) _ _ (ifdef_token-Moved cells i b f)
            (Ends-if (Moved n) (same_string name (codes "#endif"))
              (skip_and_go fuel again t cells i) (err Error.unknown_directive)
              (skip_and_go-Moved cells i b) tt)))

  directive_token-Moved :
      (cells : List ℕ) (i : Input)
      → length i.behind ≡ n
      → n ≤ fuel
      → Ends (Moved n) (directive_token fuel again t cells i)
  unfolding directive_token
  directive_token-Moved cells i e f =
      Ends->>= (λ s. Before (length i.behind) s.input) (Moved n)
        (read_while is_alnum [] i.next_char i.behind) _
        (Ends-read_while is_alnum [] i.next_char i.behind)
        λ s b.
          Ends->>= (λ _. Unit) (Moved n) (terminate s.written cells) _
            (Ends-terminate s.written cells)
            λ cells' _.
              Ends->>= (Within (length s.input.behind)) (Moved n) (l_skip_whitespace s.input)
                (λ j. directive_named fuel again t (c_string cells') cells' j)
                (Ends-l_skip_whitespace s.input)
                λ j w. directive_named-Moved (c_string cells') cells' j (omega (arith, e, b, w)) f

  comment_token-Moved :
      (cells : List ℕ) (i : Input)
      → length i.behind ≡ n
      → Ends (Moved n) (comment_token again cells i)
  unfolding comment_token
  comment_token-Moved cells i e =
      Ends->>= (Before (length i.behind)) (Moved n) (l_read_char 0 i) _ (Ends-l_read_char 0 i)
        λ j b.
          Ends-elim (Moved n) (j.next_char == b'*') (end_of_comment j.behind >>= λ k. again cells k)
            (err Error.unexpected_slash)
            (Ends->>= (Before (length j.behind)) (Moved n) (end_of_comment j.behind) (again cells)
              (Ends-end_of_comment j.behind) λ k c. again-Moved cells k (omega (arith, e, b, c)))
            tt

  token_at-Moved :
      (cells : List ℕ) (i : Input)
      → length i.behind ≡ n
      → n ≤ fuel
      → Ends (Moved n) (token_at fuel again t cells i)
  unfolding token_at
  token_at-Moved cells i e f =
      Ends-if (Moved n) (i.next_char == b'#') _ _ (directive_token-Moved cells i e f) (
        Ends-if (Moved n) (i.next_char == b'/') _ _ (comment_token-Moved cells i e) (
          Ends-if (Moved n) (is_digit i.next_char) (numeric_token cells i)
            (bracket_token (quoted_token t cells i) cells i)
            (same (numeric_token cells i) (numeric_token-Moved cells i))
            (same (bracket_token (quoted_token t cells i) cells i) (
              bracket_token-Moved cells i (quoted_token t cells i)
                (quoted_token-Moved t cells i)))))
    where
      same : (r : Result Lexed) → Ends (Moved (length i.behind)) r → Ends (Moved n) r
      same r h =
          Ends-weaken (Moved (length i.behind)) (Moved n) r h
            (Moved-le (length i.behind) n (omega (arith, e)))

-- With more fuel than there are characters behind the next one, l_next_token never ends for want
-- of fuel. It ends with an error of the source, or with a token and fewer characters behind the
-- next one than before, or with t_eof and no more of them.
pub l_next_token-Moved :
    (fuel : ℕ) (t : Tables) (cells : List ℕ) (i : Input)
    → length i.behind < fuel
    → Ends (Moved (length i.behind)) (l_next_token fuel t cells i)
unfolding l_next_token
l_next_token-Moved zero t cells i h = absurd (omega (arith, h))
l_next_token-Moved (suc fuel) t cells i h =
    token_at-Moved fuel (length i.behind) (l_next_token fuel t) t
      (λ cells' j b. l_next_token-Moved fuel t cells' j (omega (arith, h, b)))
      (overwrite (0 ∷ []) cells) i refl (omega (arith, h))
