-- ===== src/Lexer/Printed.antt =====
-- src/lexer.c: l_next_token against the way C writes tokens.
use rvcc.Prelude.{
  ℕ, ◌<◌, ◌≡◌, refl, ◌∙◌, ap, Bool, true, false, Bool-cases, inl, inr, not, List, [], ◌∷◌, ◌++◌,
  ==_iff, ◌==◌, if◌then◌else◌, length, arith,
}
use rvcc.Result.{Result, ok, err, ◌>>=◌, Error}
use rvcc.Il.{CString}
use rvcc.Tables.{Tables}
use rvcc.Lexer.{Input, LToken, Lexed}
use rvcc.Lexer.Chars.{is_whitespace, is_alnum, is_hex, is_digit}
use rvcc.Lexer.Scan.{l_read_char, overwrite, skip_from, terminate}
use rvcc.Lexer.Word.{keywords, find_keyword, named_token, numeric_token, word_token}
use rvcc.Lexer.Quoted.{string_token, char_token, char_value, char_escape}
use rvcc.Lexer.Operator.{bracket_token, operator_token}
use rvcc.Lexer.Directive.{directive_token, comment_token}
use rvcc.Lexer.Next.{last_token, quoted_token, token_at}
use rvcc.Lexer.Collect.{
  All, quote_all, read_while-All, terminate-onto, c_string-overwrite, read_string-quote_all,
}

pub skip_stop :
    (c : ℕ) (ds : List ℕ)
    → is_whitespace c ≡ false
    → skip_from c ds ≡ ok record { next_char = c; behind = ds }
unfolding skip_from
skip_stop c [] e =
    ap (λ b. if b then err Error.out_of_bounds else ok record { next_char = c; behind = [] }) e
skip_stop c (d ∷ ds) e =
    ap
      (λ b. elim b [ true ↦ skip_from d ds | false ↦ ok record { next_char = c; behind = d ∷ ds } ])
      e

-- A character of one class is no other character.
pub differs : (test : ℕ → Bool) (c k : ℕ) → test c ≡ true → test k ≡ false → c == k ≡ false
differs test c k pass fail = elim (Bool-cases (c == k)) [
  | inl e ↦ absurd (cc (pass, fail, ap test ((==_iff c k).0 e)))
  | inr e ↦ e
]

-- A digit begins a number.
pub token_at-digit :
    (fuel : ℕ) (again : List ℕ → Input → Result Lexed) (t : Tables) (cells : List ℕ) (i : Input)
    → is_digit i.next_char ≡ true
    → token_at fuel again t cells i ≡ numeric_token cells i
unfolding token_at
token_at-digit fuel again t cells i e =
    rw (differs is_digit i.next_char b'#' e refl, differs is_digit i.next_char b'/' e refl, e) refl

-- A letter or an underscore begins no token but a word, and it is not the end of the source.
bracket_token-alnum :
    (other : Result Lexed) (cells : List ℕ) (i : Input)
    → is_alnum i.next_char ≡ true
    → bracket_token other cells i ≡ other
unfolding bracket_token is_alnum
bracket_token-alnum other cells i e =
    let c = i.next_char in
    rw
      (
        differs is_alnum c b'(' e refl,
        differs is_alnum c b')' e refl,
        differs is_alnum c b'{' e refl,
        differs is_alnum c b'}' e refl,
        differs is_alnum c b'[' e refl,
        differs is_alnum c b']' e refl,
        differs is_alnum c b',' e refl,
      )
      refl

operator_token-alnum :
    (other : Result Lexed) (cells : List ℕ) (i : Input)
    → is_alnum i.next_char ≡ true
    → operator_token other cells i ≡ other
unfolding operator_token is_alnum
operator_token-alnum other cells i e =
    let c = i.next_char in
    rw
      (
        differs is_alnum c b'*' e refl,
        differs is_alnum c b'&' e refl,
        differs is_alnum c b'|' e refl,
        differs is_alnum c b'<' e refl,
        differs is_alnum c b'>' e refl,
        differs is_alnum c b'!' e refl,
        differs is_alnum c b'.' e refl,
        differs is_alnum c b'-' e refl,
        differs is_alnum c b'+' e refl,
        differs is_alnum c b';' e refl,
        differs is_alnum c b':' e refl,
        differs is_alnum c b'=' e refl,
      )
      refl

quoted_token-alnum :
    (t : Tables) (cells : List ℕ) (i : Input)
    → is_alnum i.next_char ≡ true
    → quoted_token t cells i ≡ word_token t cells i
unfolding quoted_token last_token
quoted_token-alnum t cells i e =
    let c = i.next_char in
    rw (differs is_alnum c b'"' e refl, differs is_alnum c b'\'' e refl)
      (operator_token-alnum (last_token t cells i) cells i e
        ∙ rw (differs is_alnum c 0 e refl, differs is_alnum c 255 e refl, e) refl)

pub token_at-alnum :
    (fuel : ℕ) (again : List ℕ → Input → Result Lexed) (t : Tables) (cells : List ℕ) (i : Input)
    → is_alnum i.next_char ≡ true
    → is_digit i.next_char ≡ false
    → token_at fuel again t cells i ≡ word_token t cells i
unfolding token_at
token_at-alnum fuel again t cells i e letter =
    (λ j.
      if differs is_alnum i.next_char b'#' e refl j
      then directive_token fuel again t cells i
      else if differs is_alnum i.next_char b'/' e refl j
      then comment_token again cells i
      else if letter j
      then numeric_token cells i
      else bracket_token (quoted_token t cells i) cells i)
    ∙ (bracket_token-alnum (quoted_token t cells i) cells i e ∙ quoted_token-alnum t cells i e)

char_value_raw :
    (c : ℕ) (ds : List ℕ)
    → c == b'\\' ≡ false
    → char_value record { next_char = c; behind = ds }
      ≡ ok record { written = c ∷ []; input = record { next_char = c; behind = ds } }
unfolding char_value
char_value_raw c ds e =
    let i : Input = record { next_char = c; behind = ds } in
    ap
      (λ b. elim b [
        | true ↦ l_read_char 0 i >>= λ j.
            char_escape j.next_char >>= λ value. ok record { written = value ∷ []; input = j }
        | false ↦ ok record { written = c ∷ []; input = i }
      ])
      e

-- The space that ends a printed token, and the next one.
module _ (cells : List ℕ) (d : ℕ) (ds : List ℕ) (next : is_whitespace d ≡ false) where
  pub skip_space : skip_from b' ' (d ∷ ds) ≡ ok record { next_char = d; behind = ds }
  unfolding skip_from
  skip_space = skip_stop d ds next

  pub numeric_token_lem :
      (c : ℕ) (cs : List ℕ)
      → All is_hex cs
      → length (c ∷ cs) < 256
      → numeric_token cells record { next_char = c; behind = cs ++ b' ' ∷ d ∷ ds }
        ≡ ok record {
          token = LToken.numeric;
          token_string = overwrite ((c ∷ cs) ++ 0 ∷ []) cells;
          input = record { next_char = d; behind = ds };
        }
  unfolding numeric_token
  numeric_token_lem c cs all h =
      rw (read_while-All is_hex [] c cs b' ' (d ∷ ds) all refl (omega (arith, h)))
        (rw (terminate-onto (c ∷ cs) cells h) (rw skip_space refl))

  pub word_token_lem :
      (t : Tables) (c : ℕ) (cs : List ℕ)
      → All is_alnum cs
      → All (λ c. not (c == 0)) (c ∷ cs)
      → length (c ∷ cs) < 256
      → word_token t cells record { next_char = c; behind = cs ++ b' ' ∷ d ∷ ds }
        ≡ ok (
            named_token t
              (find_keyword keywords (c ∷ cs))
              (overwrite ((c ∷ cs) ++ 0 ∷ []) cells)
              record { next_char = d; behind = ds })
  unfolding word_token
  word_token_lem t c cs all nonzero h =
      rw (read_while-All is_alnum [] c cs b' ' (d ∷ ds) all refl (omega (arith, h))) (
        rw (terminate-onto (c ∷ cs) cells h) (
          rw skip_space (
            ap
              (λ name. ok (
                named_token t (find_keyword keywords name) (overwrite ((c ∷ cs) ++ 0 ∷ []) cells)
                  record { next_char = d; behind = ds }))
              (c_string-overwrite (c ∷ cs) cells nonzero))))

  pub string_token_lem :
      (escape : Bool) (text : CString)
      → All (λ c. not (c == b'\\')) text
      → length text < 256
      → string_token cells
          record { next_char = b'"'; behind = quote_all escape text ++ b'"' ∷ b' ' ∷ d ∷ ds }
        ≡ ok record {
          token = LToken.string;
          token_string = overwrite (text ++ 0 ∷ []) cells;
          input = record { next_char = d; behind = ds };
        }
  unfolding string_token
  string_token_lem escape text all h =
      rw (read_string-quote_all escape text [] (b' ' ∷ d ∷ ds) all tt (omega (arith, h)))
        (rw (terminate-onto text cells h) (rw skip_space refl))

  pub char_raw :
      (c : ℕ)
      → c == b'\\' ≡ false
      → char_token cells record { next_char = b'\''; behind = c ∷ b'\'' ∷ b' ' ∷ d ∷ ds }
        ≡ ok record {
          token = LToken.char;
          token_string = overwrite (c ∷ 0 ∷ []) cells;
          input = record { next_char = d; behind = ds };
        }
  unfolding char_token
  char_raw c e =
      (λ i. char_value_raw c (b'\'' ∷ b' ' ∷ d ∷ ds) e i >>= λ scan.
      terminate scan.written cells >>= λ cells. l_read_char 0 scan.input >>= λ i.
      elim (i.next_char == b'\'') [
        | true ↦ l_read_char 1 i >>= λ i.
            ok record { token = LToken.char; token_string = cells; input = i }
        | false ↦ err Error.aborted
      ])
      ∙ rw (skip_stop d ds next) refl

  pub char_escaped :
      (letter c : ℕ)
      → char_escape letter ≡ ok c
      → char_token cells
          record { next_char = b'\''; behind = b'\\' ∷ letter ∷ b'\'' ∷ b' ' ∷ d ∷ ds }
        ≡ ok record {
          token = LToken.char;
          token_string = overwrite (c ∷ 0 ∷ []) cells;
          input = record { next_char = d; behind = ds };
        }
  unfolding char_token char_value
  char_escaped letter c e = rw e (rw (skip_stop d ds next) refl)
