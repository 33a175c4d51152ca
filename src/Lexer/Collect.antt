-- ===== src/Lexer/Collect.antt =====
-- src/lexer.c: what the loops collect, and what strcmp and strcpy see of it.
use rvcc.Prelude.{
  ℕ, ◌+◌, ◌≤◌, ◌<◌, ◌≡◌, refl, ◌∙◌, ap, Bool, true, false, Bool-cases, ==_iff, inl, inr, not, ◌&&◌,
  List, [], ◌∷◌, ◌++◌, lt→ltb, ◌==◌, if◌then◌else◌, length, append_assoc, arith,
}
use rvcc.Result.{ok, err, ◌>>=◌, Error}
use rvcc.Il.{CString}
use rvcc.Lexer.Scan.{c_string, onto, overwrite, put, terminate, read_while}
use rvcc.Lexer.Quoted.{read_string, string_put, string_escape}

pub not-true : (b : Bool) → not b ≡ true → b ≡ false
not-true true e = cc e
not-true false e = refl

abbrev pub All : (ℕ → Bool) → List ℕ → Type 0
All test [] = Unit
All test (c ∷ cs) = (test c ≡ true) × All test cs

pub onto-onto : (xs acc ys : List ℕ) → onto (onto xs acc) ys ≡ onto acc (xs ++ ys)
onto-onto [] acc ys = refl
onto-onto (x ∷ xs) acc ys = onto-onto xs (x ∷ acc) ys

length-onto : (xs acc : List ℕ) → length (onto xs acc) ≡ length xs + length acc
length-onto [] acc = omega arith
length-onto (x ∷ xs) acc = length-onto xs (x ∷ acc) ∙ omega arith

pub put_fits : (written : List ℕ) (c : ℕ) → length written < 256 → put written c ≡ ok (c ∷ written)
unfolding put
put_fits written c h =
    ap (λ b. if b then ok (c ∷ written) else err Error.out_of_bounds)
      (lt→ltb (length written) 256 h)

-- A run of characters that pass the test, and one that does not.
pub read_while-All :
    (test : ℕ → Bool) (written : List ℕ) (c : ℕ) (cs : List ℕ) (d : ℕ) (ds : List ℕ)
    → All test cs
    → test d ≡ false
    → length written + length cs < 256
    → read_while test written c (cs ++ d ∷ ds)
      ≡ ok record { written = onto cs (c ∷ written); input = record { next_char = d; behind = ds } }
unfolding read_while
read_while-All test written c [] d ds all stop h =
    rw (put_fits written c (omega (arith, h)), stop) refl
read_while-All test written c (e ∷ cs) d ds (pass, all) stop h =
    rw (put_fits written c (omega (arith, h)), pass)
      (read_while-All test (c ∷ written) e cs d ds all stop (omega (arith, h)))

-- The text that was collected is what stands in the cells then, and its end.
pub terminate-onto :
    (text cells : List ℕ)
    → length text < 256
    → terminate (onto text []) cells ≡ ok (overwrite (text ++ 0 ∷ []) cells)
unfolding terminate
terminate-onto text cells h =
    let room : length (onto text []) < 256 = omega (arith, h, length-onto text []) in
    rw (put_fits (onto text []) 0 room)
      (ap (λ all. ok (overwrite all cells)) (onto-onto text [] (0 ∷ [])))

-- A text without a 0 is what strcmp sees.
c_string-append :
    (text rest : List ℕ) → All (λ c. not (c == 0)) text → c_string ((text ++ 0 ∷ []) ++ rest) ≡ text
unfolding c_string
c_string-append [] rest all = refl
c_string-append (c ∷ text) rest (nonzero, all) =
    rw (not-true (c == 0) nonzero) (ap (λ s. c ∷ s) (c_string-append text rest all))

pub c_string-overwrite :
    (text cells : List ℕ)
    → All (λ c. not (c == 0)) text
    → c_string (overwrite (text ++ 0 ∷ []) cells) ≡ text
c_string-overwrite text cells all = c_string-append text _ all

-- How C writes a character in a string: an apostrophe with a backslash or without.
unfoldable pub quote : Bool → ℕ → CString
quote escape c =
    if c == b'\''
    then (if escape then b'\\' ∷ b'\'' ∷ [] else b'\'' ∷ [])
    else if c == b'"'
    then b'\\' ∷ b'"' ∷ []
    else if c == b'\n'
    then b'\\' ∷ b'n' ∷ []
    else if c == b'\r'
    then b'\\' ∷ b'r' ∷ []
    else if c == b'\t'
    then b'\\' ∷ b't' ∷ []
    else c ∷ []

abbrev pub quote_all : Bool → CString → CString
quote_all escape [] = []
quote_all escape (c ∷ cs) = quote escape c ++ quote_all escape cs

-- The character that was written last is no backslash.
abbrev pub NoSlash : List ℕ → Type 0
NoSlash [] = Unit
NoSlash (c ∷ cs) = not (c == b'\\') ≡ true

string_put-plain :
    (written : List ℕ) (c : ℕ)
    → NoSlash written
    → length written < 256
    → string_put written c ≡ ok (c ∷ written)
unfolding string_put
string_put-plain [] c plain h = put_fits [] c h
string_put-plain (last ∷ written) c plain h =
    ap
      (λ b. elim b [
        | true ↦ string_escape c >>= λ escaped. ok (escaped ∷ written)
        | false ↦ put (last ∷ written) c
      ])
      (not-true (last == b'\\') plain)
    ∙ put_fits (last ∷ written) c h

-- A character that does not end the string.
read_string_round :
    (written : List ℕ) (special : Bool) (c : ℕ) (cs : List ℕ)
    → (c == b'"' && not special) ≡ false
    → read_string written special (c ∷ cs)
      ≡ (string_put written c >>= λ w. read_string w (c == b'\\') cs)
unfolding read_string
read_string_round written special c cs e =
    ap
      (λ b. elim b [
        | true ↦ ok record { written = written; input = record { next_char = c; behind = cs } }
        | false ↦ string_put written c >>= λ w. read_string w (c == b'\\') cs
      ])
      e

and-false : (b : Bool) → (b && false) ≡ false
and-false true = refl
and-false false = refl

module _ (written : List ℕ) (plain : NoSlash written) (h : length written < 256)
    (rest : List ℕ) where
  -- One character of the text is one round or, with an escape, two.
  read_string-escape :
      (letter c : ℕ)
      → string_escape letter ≡ ok c
      → letter == b'\\' ≡ false
      → read_string written false (b'\\' ∷ letter ∷ rest) ≡ read_string (c ∷ written) false rest
  unfolding string_put
  read_string-escape letter c is other =
      read_string_round written false b'\\' (letter ∷ rest) refl
      ∙ ap (λ r. r >>= λ w. read_string w true (letter ∷ rest))
          (string_put-plain written b'\\' plain h)
      ∙ read_string_round (b'\\' ∷ written) true letter rest (and-false (letter == b'"'))
      ∙ (λ i. (is i >>= λ escaped. ok (escaped ∷ written)) >>= λ w. read_string w (other i) rest)

  read_string-raw :
      (c : ℕ)
      → c == b'"' ≡ false
      → c == b'\\' ≡ false
      → read_string written false (c ∷ rest) ≡ read_string (c ∷ written) false rest
  read_string-raw c no_quote no_slash =
      read_string_round written false c rest (ap (λ b. b && true) no_quote)
      ∙ (λ i. string_put-plain written c plain h i >>= λ w. read_string w (no_slash i) rest)

  read_string-apostrophe :
      (escape : Bool)
      → read_string written false (quote escape b'\'' ++ rest)
        ≡ read_string (b'\'' ∷ written) false rest
  unfolding quote string_escape
  read_string-apostrophe true = read_string-escape b'\'' b'\'' refl refl
  read_string-apostrophe false = read_string-raw b'\'' refl refl

  read_string-quote :
      (escape : Bool) (c : ℕ)
      → not (c == b'\\') ≡ true
      → read_string written false (quote escape c ++ rest) ≡ read_string (c ∷ written) false rest
  unfolding quote string_escape
  read_string-quote escape c no_slash = elim (Bool-cases (c == b'\'')) [
    | inl e ↦ by_char b'\'' ((==_iff c b'\'').0 e) (read_string-apostrophe escape)
    | inr no_apostrophe ↦ elim (Bool-cases (c == b'"')) [
      | inl e ↦ by_char b'"' ((==_iff c b'"').0 e) (read_string-escape b'"' b'"' refl refl)
      | inr no_quote ↦ elim (Bool-cases (c == b'\n')) [
        | inl e ↦ by_char b'\n' ((==_iff c b'\n').0 e) (read_string-escape b'n' b'\n' refl refl)
        | inr no_n ↦ elim (Bool-cases (c == b'\r')) [
          | inl e ↦ by_char b'\r' ((==_iff c b'\r').0 e) (read_string-escape b'r' b'\r' refl refl)
          | inr no_r ↦ elim (Bool-cases (c == b'\t')) [
            | inl e ↦ by_char b'\t' ((==_iff c b'\t').0 e) (read_string-escape b't' b'\t' refl refl)
            | inr no_t ↦
                ap (λ s. read_string written false (s ++ rest)) {y = c ∷ []}
                  (rw (no_apostrophe, no_quote, no_n, no_r, no_t) refl)
                ∙ read_string-raw c no_quote (not-true (c == b'\\') no_slash)
          ]
        ]
      ]
    ]
  ]
    where
      by_char :
          (k : ℕ)
          → c ≡ k
          → read_string written false (quote escape k ++ rest)
            ≡ read_string (k ∷ written) false rest
          → read_string written false (quote escape c ++ rest)
            ≡ read_string (c ∷ written) false rest
      by_char k e done = rw e done

-- The whole text up to the quote that ends it.
pub read_string-quote_all :
    (escape : Bool) (text written : List ℕ) (ds : List ℕ)
    → All (λ c. not (c == b'\\')) text
    → NoSlash written
    → length written + length text ≤ 256
    → read_string written false (quote_all escape text ++ b'"' ∷ ds)
      ≡ ok record { written = onto text written; input = record { next_char = b'"'; behind = ds } }
unfolding read_string
read_string-quote_all escape [] written ds all plain h = refl
read_string-quote_all escape (c ∷ text) written ds (no_slash, all) plain h =
    ap (read_string written false)
      (append_assoc (quote escape c) (quote_all escape text) (b'"' ∷ ds))
    ∙ read_string-quote written plain (omega (arith, h)) (quote_all escape text ++ b'"' ∷ ds) escape
        c no_slash
    ∙ read_string-quote_all escape text (c ∷ written) ds all no_slash (omega (arith, h))
