-- ===== src/Lexer/Moved.antt =====
-- src/lexer.c: the tokens, each for itself, move the source forward.
use rvcc.Prelude.{
  ℕ, ◌≤◌, ◌<◌, ◌≡◌, refl, sym, subst, false, ◌||◌, ◌⊎◌, inl, inr, Option, none, some, List, [], ◌∷◌,
  ◌==◌, if◌then◌else◌, length, arith,
}
use rvcc.Result.{Result, ok, err, ◌>>=◌, Error}
use rvcc.Il.{CString}
use rvcc.Tables.{Tables, find_alias}
use rvcc.Lexer.{Input, LToken, Lexed}
use rvcc.Lexer.Chars.{is_alnum, is_hex}
use rvcc.Lexer.Scan.{c_string, l_read_char, l_skip_whitespace, terminate, read_while}
use rvcc.Lexer.Word.{
  keywords, find_keyword, named_token, alias_or_identifier, numeric_token, word_token,
}
use rvcc.Lexer.Quoted.{read_string, char_value, string_token, char_token}
use rvcc.Lexer.Operator.{one_char, second_char, up_to_two, dot_token, operator_token, bracket_token}
use rvcc.Lexer.Next.{last_token, quoted_token}
use rvcc.Ends.{Ends, Ends->>=, Ends-if, Ends-elim, Ends-weaken}
use rvcc.Lexer.Ends.{
  Within, Before, Ends-l_skip_whitespace, Ends-l_read_char, Ends-terminate, Ends-read_while,
  Ends-read_string, Ends-char_value,
}

-- A token was read and the source is shorter, or it was at its end.
abbrev pub Moved : ℕ → Lexed → Type 0
Moved n r = (Before n r.input) ⊎ ((r.token ≡ LToken.eof) × Within n r.input)

pub Moved-le : (m n : ℕ) → m ≤ n → (r : Lexed) → Moved m r → Moved n r
Moved-le m n h r (inl b) = inl (omega (arith, b, h))
Moved-le m n h r (inr (e, w)) = inr (e, omega (arith, w, h))

pub Moved-lt : (m n : ℕ) → m < n → (r : Lexed) → Moved m r → Moved n r
Moved-lt m n h = Moved-le m n (omega (arith, h))

one_char-Moved :
    (token : LToken) (cells : List ℕ) (i : Input)
    → Ends (Moved (length i.behind)) (one_char token cells i)
unfolding one_char
one_char-Moved token cells i =
    Ends->>= (Before (length i.behind)) (Moved (length i.behind)) (l_read_char 1 i)
      (λ j. ok record { token = token; token_string = cells; input = j }) (Ends-l_read_char 1 i)
      λ j b. inl b

-- What skipping to the next token leaves behind a character that was read.
pub skip_to :
    (n : ℕ) (token : LToken) (cells : List ℕ) (i : Input)
    → length i.behind < n
    → Ends
        (Moved n)
        (l_skip_whitespace i >>= λ j. ok record { token = token; token_string = cells; input = j })
skip_to n token cells i h =
    Ends->>= (Within (length i.behind)) (Moved n) (l_skip_whitespace i)
      (λ j. ok record { token = token; token_string = cells; input = j }) (Ends-l_skip_whitespace i)
      λ j w. inl (omega (arith, w, h))

second_char-Moved :
    (n : ℕ) (pairs : List (ℕ × LToken)) (alone : LToken) (cells : List ℕ) (i : Input)
    → length i.behind < n
    → Ends (Moved n) (second_char pairs alone cells i)
unfolding second_char
second_char-Moved n [] alone cells i h = skip_to n alone cells i h
second_char-Moved n ((c, token) ∷ pairs) alone cells i h =
    Ends-if (Moved n) (i.next_char == c) (one_char token cells i) (second_char pairs alone cells i)
      (Ends-weaken (Moved (length i.behind)) (Moved n) (one_char token cells i)
        (one_char-Moved token cells i) (Moved-lt (length i.behind) n h))
      (second_char-Moved n pairs alone cells i h)

up_to_two-Moved :
    (pairs : List (ℕ × LToken)) (alone : LToken) (cells : List ℕ) (i : Input)
    → Ends (Moved (length i.behind)) (up_to_two pairs alone cells i)
unfolding up_to_two
up_to_two-Moved pairs alone cells i =
    Ends->>= (Before (length i.behind)) (Moved (length i.behind)) (l_read_char 0 i)
      (λ j. second_char pairs alone cells j) (Ends-l_read_char 0 i)
      λ j b. second_char-Moved (length i.behind) pairs alone cells j b

dot_token-Moved : (cells : List ℕ) (i : Input) → Ends (Moved (length i.behind)) (dot_token cells i)
unfolding dot_token
dot_token-Moved cells i =
    let n = length i.behind in
    Ends->>= (Before n) (Moved n) (l_read_char 0 i) _ (Ends-l_read_char 0 i) λ j b.
      Ends-elim (Moved n) (j.next_char == b'.')
        (l_read_char 0 j >>= λ k.
          if k.next_char == b'.' then one_char LToken.elipsis cells k else err Error.aborted)
        (l_skip_whitespace j >>= λ k.
          ok record { token = LToken.dot; token_string = cells; input = k })
        (Ends->>= (Before (length j.behind)) (Moved n) (l_read_char 0 j)
          (λ k. if k.next_char == b'.' then one_char LToken.elipsis cells k else err Error.aborted)
          (Ends-l_read_char 0 j)
          λ k c.
            Ends-if (Moved n) (k.next_char == b'.') (one_char LToken.elipsis cells k)
              (err Error.aborted)
              (Ends-weaken (Moved (length k.behind)) (Moved n) (one_char LToken.elipsis cells k)
                (one_char-Moved LToken.elipsis cells k)
                (Moved-lt (length k.behind) n (omega (arith, b, c))))
              tt)
        (skip_to n LToken.dot cells j b)

module _ (cells : List ℕ) (i : Input) (other : Result Lexed)
    (h : Ends (Moved (length i.behind)) other) where
  either :
      (c : ℕ) (x y : Result Lexed)
      → Ends (Moved (length i.behind)) x
      → Ends (Moved (length i.behind)) y
      → Ends (Moved (length i.behind)) (if i.next_char == c then x else y)
  either c = Ends-if (Moved (length i.behind)) (i.next_char == c)

  one : (token : LToken) → Ends (Moved (length i.behind)) (one_char token cells i)
  one token = one_char-Moved token cells i

  two :
      (pairs : List (ℕ × LToken)) (alone : LToken)
      → Ends (Moved (length i.behind)) (up_to_two pairs alone cells i)
  two pairs alone = up_to_two-Moved pairs alone cells i

  pub bracket_token-Moved : Ends (Moved (length i.behind)) (bracket_token other cells i)
  unfolding bracket_token
  bracket_token-Moved = either b'(' _ _ (one LToken.op_bracket) (
      either b')' _ _ (one LToken.cl_bracket) (
        either b'{' _ _ (one LToken.op_curly) (
          either b'}' _ _ (one LToken.cl_curly) (
            either b'[' _ _ (one LToken.op_square)
              (either b']' _ _ (one LToken.cl_square) (either b',' _ _ (one LToken.comma) h))))))

  operator_token-Moved : Ends (Moved (length i.behind)) (operator_token other cells i)
  unfolding operator_token
  operator_token-Moved = either b'*' _ _ (one LToken.star) (
      either b'&' _ _ (two ((b'&', LToken.log_and) ∷ (b'=', LToken.andeq) ∷ []) LToken.ampersand) (
        either b'|' _ _ (two ((b'|', LToken.log_or) ∷ (b'=', LToken.oreq) ∷ []) LToken.bit_or) (
          either b'<' _ _ (two ((b'=', LToken.le) ∷ (b'<', LToken.lshift) ∷ []) LToken.lt) (
            either b'>' _ _ (two ((b'=', LToken.ge) ∷ (b'>', LToken.rshift) ∷ []) LToken.gt) (
              either b'!' _ _ (two ((b'=', LToken.noteq) ∷ []) LToken.log_not) (
                either b'.' _ _ (dot_token-Moved cells i) (
                  either b'-' _ _
                    (two
                      ((b'>', LToken.arrow)
                        ∷ (b'-', LToken.minusminus)
                        ∷ (b'=', LToken.minuseq)
                        ∷ [])
                      LToken.minus)
                    (either b'+' _ _
                      (two ((b'+', LToken.plusplus) ∷ (b'=', LToken.pluseq) ∷ []) LToken.plus)
                      (either b';' _ _ (one LToken.semicolon) (
                        either b':' _ _ (one LToken.colon)
                          (either b'=' _ _ (two ((b'=', LToken.eq) ∷ []) LToken.assign) h)))))))))))

pub numeric_token-Moved :
    (cells : List ℕ) (i : Input) → Ends (Moved (length i.behind)) (numeric_token cells i)
unfolding numeric_token
numeric_token-Moved cells i =
    let n = length i.behind in
    Ends->>= (λ s. Before n s.input) (Moved n) (read_while is_hex [] i.next_char i.behind) _
      (Ends-read_while is_hex [] i.next_char i.behind)
      λ s b.
        Ends->>= (λ _. Unit) (Moved n) (terminate s.written cells) _
          (Ends-terminate s.written cells) λ cells' _. skip_to n LToken.numeric cells' s.input b

alias_or_identifier-input :
    (value : Option CString) (cells : List ℕ) (i : Input)
    → (alias_or_identifier value cells i).input ≡ i
unfolding alias_or_identifier
alias_or_identifier-input (some value) cells i = refl
alias_or_identifier-input none cells i = refl

named_token-input :
    (t : Tables) (known : Option LToken) (cells : List ℕ) (i : Input)
    → (named_token t known cells i).input ≡ i
unfolding named_token
named_token-input t (some token) cells i = refl
named_token-input t none cells i = alias_or_identifier-input (find_alias (c_string cells) t) cells i

word_token-Moved :
    (t : Tables) (cells : List ℕ) (i : Input)
    → Ends (Moved (length i.behind)) (word_token t cells i)
unfolding word_token
word_token-Moved t cells i =
    let n = length i.behind in
    Ends->>= (λ s. Before n s.input) (Moved n) (read_while is_alnum [] i.next_char i.behind) _
      (Ends-read_while is_alnum [] i.next_char i.behind)
      λ s b.
        Ends->>= (λ _. Unit) (Moved n) (terminate s.written cells) _
          (Ends-terminate s.written cells)
          λ cells' _.
            Ends->>= (Within (length s.input.behind)) (Moved n) (l_skip_whitespace s.input)
              (λ j. ok (named_token t (find_keyword keywords (c_string cells')) cells' j))
              (Ends-l_skip_whitespace s.input)
              λ j w. inl (
                subst (Before n)
                  (sym (named_token-input t (find_keyword keywords (c_string cells')) cells' j))
                  (omega (arith, b, w)))

string_token-Moved :
    (cells : List ℕ) (i : Input) → Ends (Moved (length i.behind)) (string_token cells i)
unfolding string_token one_char
string_token-Moved cells i =
    let n = length i.behind in
    Ends->>= (λ s. Before n s.input) (Moved n) (read_string [] false i.behind) _
      (Ends-read_string [] false i.behind)
      λ s b.
        Ends->>= (λ _. Unit) (Moved n) (terminate s.written cells) _
          (Ends-terminate s.written cells)
          λ cells' _.
            Ends-weaken (Moved (length s.input.behind)) (Moved n)
              (one_char LToken.string cells' s.input) (one_char-Moved LToken.string cells' s.input)
              (Moved-lt (length s.input.behind) n b)

char_token-Moved :
    (cells : List ℕ) (i : Input) → Ends (Moved (length i.behind)) (char_token cells i)
unfolding char_token one_char
char_token-Moved cells i =
    let n = length i.behind in
    Ends->>= (Before n) (Moved n) (l_read_char 0 i) _ (Ends-l_read_char 0 i) λ j b.
      Ends->>= (λ s. Within (length j.behind) s.input) (Moved n) (char_value j) _
        (Ends-char_value j)
        λ s w.
          Ends->>= (λ _. Unit) (Moved n) (terminate s.written cells) _
            (Ends-terminate s.written cells)
            λ cells' _.
              Ends->>= (Before (length s.input.behind)) (Moved n) (l_read_char 0 s.input) _
                (Ends-l_read_char 0 s.input)
                λ k c.
                  Ends-elim (Moved n) (k.next_char == b'\'')
                    (l_read_char 1 k >>= λ l.
                      ok record { token = LToken.char; token_string = cells'; input = l })
                    (err Error.aborted)
                    (Ends-weaken (Moved (length k.behind)) (Moved n) (one_char LToken.char cells' k)
                      (one_char-Moved LToken.char cells' k)
                      (Moved-lt (length k.behind) n (omega (arith, b, w, c))))
                    tt

last_token-Moved :
    (t : Tables) (cells : List ℕ) (i : Input)
    → Ends (Moved (length i.behind)) (last_token t cells i)
unfolding last_token
last_token-Moved t cells i =
    Ends-if (Moved (length i.behind)) (i.next_char == 0 || i.next_char == 255)
      (ok record { token = LToken.eof; token_string = cells; input = i }) _
      (inr (refl, omega arith))
      (Ends-if (Moved (length i.behind)) (is_alnum i.next_char) (word_token t cells i)
        (err Error.unrecognized_input) (word_token-Moved t cells i) tt)

pub quoted_token-Moved :
    (t : Tables) (cells : List ℕ) (i : Input)
    → Ends (Moved (length i.behind)) (quoted_token t cells i)
unfolding quoted_token
quoted_token-Moved t cells i =
    let other = last_token t cells i in
    let h = last_token-Moved t cells i in
    either cells i other h b'"' _ _ (string_token-Moved cells i) (
      either cells i other h b'\'' _ _ (char_token-Moved cells i)
        (operator_token-Moved cells i other h))
