-- ===== src/Lexer/RoundTrip.antt =====
-- src/lexer.c: l_next_token against the way C writes tokens, for all kinds of tokens.
use rvcc.Prelude.{
  ℕ, suc, ◌<◌, ◌≡◌, ◌≢◌, refl, sym, subst, ◌∙◌, ap, Bool, true, false, Bool-cases, inl, inr, not,
  Option, none, some, List, [], ◌∷◌, ◌++◌, ==_iff, ◌==◌, length, append_assoc,
}
use rvcc.Result.{ok, ◌>>=◌}
use rvcc.Il.{CString}
use rvcc.Tables.{Tables, find_alias}
use rvcc.Lexer.{Input, LToken}
use rvcc.Lexer.Chars.{is_whitespace, is_alnum, is_hex, is_digit}
use rvcc.Lexer.Scan.{c_string, overwrite}
use rvcc.Lexer.Word.{keywords, find_keyword, named_token, alias_or_identifier}
use rvcc.Lexer.Quoted.{char_token, string_token, char_escape}
use rvcc.Lexer.Operator.{bracket_token}
use rvcc.Lexer.Next.{l_next_token, token_at, quoted_token}
use rvcc.Lexer.Spelling.{spelling, fixed_text}
use rvcc.Lexer.Fixed.{at, IsRead, fixed_lem, fixed_text_lem}
use rvcc.Lexer.Collect.{All, quote, quote_all, c_string-overwrite}
use rvcc.Lexer.Printed.{
  token_at-digit, token_at-alnum, skip_stop, numeric_token_lem, word_token_lem, string_token_lem,
  char_raw, char_escaped,
}
use rvcc.Lexer.Lexeme.{
  Lexeme, char_quote, letters, print, kind, text, NoZero, IsWord, IsWritten, All-NoZero,
}

module _ (fuel : ℕ) (t : Tables) (cells : List ℕ) (d : ℕ) (ds : List ℕ)
    (next : is_whitespace d ≡ false) where
  -- The token, the text and the rest of the source.
  abbrev Reads : Lexeme → Type 0
  Reads x =
      (cells' : List ℕ) × (l_next_token (suc fuel) t cells (at (print x ++ b' ' ∷ d ∷ ds))
        ≡ ok record {
          token = kind x;
          token_string = cells';
          input = record { next_char = d; behind = ds };
        })
      × (c_string cells' ≡ text x)

  abbrev cleared : List ℕ
  cleared = overwrite (0 ∷ []) cells

  fixed-Reads : (token : LToken) → spelling token ≢ none → Reads (Lexeme.fixed token)
  fixed-Reads token some_text = go (spelling token) (fixed_lem fuel t cells d ds token) some_text
    where
      go :
          (s : Option CString)
          → IsRead fuel t cells d ds token s
          → s ≢ none
          → (cells' : List ℕ) × (l_next_token (suc fuel) t cells (at (letters s ++ b' ' ∷ d ∷ ds))
              ≡ ok record {
                token = token;
                token_string = cells';
                input = record { next_char = d; behind = ds };
              })
            × (c_string cells' ≡ fixed_text token)
      go none e n = absurd (n refl)
      go (some s) e n = (
        overwrite (fixed_text token ++ 0 ∷ []) cleared,
        e
            ∙ ap
                (λ r. r >>= λ i. ok record {
                  token = token;
                  token_string = overwrite (fixed_text token ++ 0 ∷ []) cleared;
                  input = i;
                })
                (skip_stop d ds next),
        fixed_text_lem token cleared,
      )

  named_identifier :
      (known : Option LToken) (value : Option CString) (name : CString) (cells' : List ℕ)
      (i : Input)
      → known ≡ none
      → find_alias name t ≡ value
      → c_string cells' ≡ name
      → named_token t known cells' i ≡ alias_or_identifier value cells' i
  unfolding named_token
  named_identifier known value name cells' i e f same =
      ap (λ k. named_token t k cells' i) e
      ∙ ap (λ n. alias_or_identifier (find_alias n t) cells' i) same
      ∙ ap (λ v. alias_or_identifier v cells' i) f

  word-Reads :
      (c : ℕ) (cs : CString) (value : Option CString)
      → IsWord c cs
      → find_alias (c ∷ cs) t ≡ value
      → l_next_token (suc fuel) t cells (at ((c ∷ cs) ++ b' ' ∷ d ∷ ds))
        ≡ ok (
            alias_or_identifier value
              (overwrite ((c ∷ cs) ++ 0 ∷ []) cleared)
              record { next_char = d; behind = ds })
  unfolding l_next_token is_alnum
  word-Reads c cs value (all, letter, no_keyword, h) f =
      let nonzero = All-NoZero is_alnum refl (c ∷ cs) all in
      token_at-alnum fuel (l_next_token fuel t) t cleared
        record { next_char = c; behind = cs ++ b' ' ∷ d ∷ ds } all.0 letter
      ∙ word_token_lem cleared d ds next t c cs all.1 nonzero h
      ∙ ap ok (
          named_identifier (find_keyword keywords (c ∷ cs)) value (c ∷ cs)
            (overwrite ((c ∷ cs) ++ 0 ∷ []) cleared) record { next_char = d; behind = ds }
            no_keyword f (c_string-overwrite (c ∷ cs) cleared nonzero))

  identifier-Reads :
      (c : ℕ) (cs : CString)
      → IsWord c cs
      → find_alias (c ∷ cs) t ≡ none
      → Reads (Lexeme.identifier c cs)
  unfolding is_alnum alias_or_identifier
  identifier-Reads c cs w f = (
    overwrite ((c ∷ cs) ++ 0 ∷ []) cleared,
    word-Reads c cs none w f,
    c_string-overwrite (c ∷ cs) cleared (All-NoZero is_alnum refl (c ∷ cs) w.0),
  )

  alias-Reads :
      (c : ℕ) (cs value : CString)
      → IsWord c cs
      → find_alias (c ∷ cs) t ≡ some value
      → NoZero value
      → Reads (Lexeme.alias c cs value)
  unfolding alias_or_identifier
  alias-Reads c cs value w f nonzero =
      let cells' = overwrite ((c ∷ cs) ++ 0 ∷ []) cleared in
      (
        overwrite (value ++ 0 ∷ []) cells',
        word-Reads c cs (some value) w f,
        c_string-overwrite value cells' nonzero,
      )

  number-Reads :
      (c : ℕ) (cs : CString)
      → is_digit c ≡ true
      → All is_hex (c ∷ cs)
      → length (c ∷ cs) < 256
      → Reads (Lexeme.number c cs)
  unfolding l_next_token is_hex
  number-Reads c cs digit all h = (
    overwrite ((c ∷ cs) ++ 0 ∷ []) cleared,
    token_at-digit fuel (l_next_token fuel t) t cleared
          record { next_char = c; behind = cs ++ b' ' ∷ d ∷ ds } digit
        ∙ numeric_token_lem cleared d ds next c cs all.1 h,
    c_string-overwrite (c ∷ cs) cleared (All-NoZero is_hex refl (c ∷ cs) all),
  )

  string-Reads :
      (escape : Bool) (s : CString)
      → NoZero s
      → All (λ c. not (c == b'\\')) s
      → length s < 256
      → Reads (Lexeme.string escape s)
  unfolding l_next_token token_at is_digit bracket_token quoted_token
  string-Reads escape s nonzero plain h = (
    overwrite (s ++ 0 ∷ []) cleared,
    ap (λ r. string_token cleared record { next_char = b'"'; behind = r })
          (append_assoc (quote_all escape s) (b'"' ∷ []) (b' ' ∷ d ∷ ds))
        ∙ string_token_lem cleared d ds next escape s plain h,
    c_string-overwrite s cleared nonzero,
  )

  abbrev IsCharRead : Bool → ℕ → Type 0
  IsCharRead escape c =
      char_token cleared (at (b'\'' ∷ (char_quote escape c ++ b'\'' ∷ []) ++ b' ' ∷ d ∷ ds))
      ≡ ok record {
        token = LToken.char;
        token_string = overwrite (c ∷ 0 ∷ []) cleared;
        input = record { next_char = d; behind = ds };
      }

  double_quote-IsCharRead : (escape : Bool) → IsCharRead escape b'"'
  unfolding char_quote char_escape
  double_quote-IsCharRead true = char_escaped cleared d ds next b'"' b'"' refl
  double_quote-IsCharRead false = char_raw cleared d ds next b'"' refl

  char_quote_lem : (escape : Bool) (c : ℕ) → IsCharRead escape c
  unfolding quote char_quote char_escape
  char_quote_lem escape c = elim (Bool-cases (c == b'\\')) [
    | inl e ↦ by_char b'\\' e (char_escaped cleared d ds next b'\\' b'\\' refl)
    | inr no_slash ↦ elim (Bool-cases (c == b'"')) [
      | inl e ↦ by_char b'"' e (double_quote-IsCharRead escape)
      | inr no_quote ↦ elim (Bool-cases (c == b'\'')) [
        | inl e ↦ by_char b'\'' e (char_escaped cleared d ds next b'\'' b'\'' refl)
        | inr no_apostrophe ↦ elim (Bool-cases (c == b'\n')) [
          | inl e ↦ by_char b'\n' e (char_escaped cleared d ds next b'n' b'\n' refl)
          | inr no_n ↦ elim (Bool-cases (c == b'\r')) [
            | inl e ↦ by_char b'\r' e (char_escaped cleared d ds next b'r' b'\r' refl)
            | inr no_r ↦ elim (Bool-cases (c == b'\t')) [
              | inl e ↦ by_char b'\t' e (char_escaped cleared d ds next b't' b'\t' refl)
              | inr no_t ↦
                  ap (λ q. char_token cleared (at (b'\'' ∷ (q ++ b'\'' ∷ []) ++ b' ' ∷ d ∷ ds)))
                    {y = c ∷ []} (rw (no_slash, no_quote, no_apostrophe, no_n, no_r, no_t) refl)
                  ∙ char_raw cleared d ds next c no_slash
            ]
          ]
        ]
      ]
    ]
  ]
    where
      by_char : (k : ℕ) → c == k ≡ true → IsCharRead escape k → IsCharRead escape c
      by_char k e done = subst (IsCharRead escape) (sym ((==_iff c k).0 e)) done

  char-Reads : (escape : Bool) (c : ℕ) → not (c == 0) ≡ true → Reads (Lexeme.char escape c)
  unfolding l_next_token token_at is_digit bracket_token quoted_token
  char-Reads escape c nonzero = (
    overwrite (c ∷ 0 ∷ []) cleared,
    char_quote_lem escape c,
    c_string-overwrite (c ∷ []) cleared (nonzero, tt),
  )

  -- l_next_token reads back what C writes. For every token of punctuation, every keyword but the
  -- directives, every identifier that is no keyword and no alias, every alias, every number,
  -- every string without a backslash in its text and every character, a backslash or an
  -- apostrophe too, each without a 0 and shorter than 256 characters and followed by a space and
  -- a character that is no blank, the call returns the token, leaves its text in the token
  -- string, for an alias the value of the alias, which has no 0 either, and stops at the
  -- character behind the space. Strings and characters are written with the escapes of C: a
  -- double quote in a string and an apostrophe or a backslash as a character have a backslash
  -- before them, an apostrophe in a string and a double quote as a character may have one.
  pub l_next_token-print : (x : Lexeme) → IsWritten t x → Reads x
  l_next_token-print (Lexeme.fixed token) w = fixed-Reads token w
  l_next_token-print (Lexeme.identifier c cs) (w, f) = identifier-Reads c cs w f
  l_next_token-print (Lexeme.alias c cs value) (w, f, n) = alias-Reads c cs value w f n
  l_next_token-print (Lexeme.number c cs) (digit, all, h) = number-Reads c cs digit all h
  l_next_token-print (Lexeme.string escape s) (nonzero, plain, h) =
      string-Reads escape s nonzero plain h
  l_next_token-print (Lexeme.char escape c) nonzero = char-Reads escape c nonzero
