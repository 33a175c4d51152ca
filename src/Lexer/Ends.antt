-- ===== src/Lexer/Ends.antt =====
-- src/lexer.c: how far the readers go. Every loop ends inside the array or with an error of the source.
use rvcc.Prelude.{
  ℕ, zero, suc, ◌≤◌, ◌<◌, Bool, true, false, not, ◌&&◌, List, [], ◌∷◌, ltb, ◌==◌, length, arith,
}
use rvcc.Result.{ok, err, ◌>>=◌, Error}
use rvcc.Ends.{Ends, Ends->>=, Ends-if, any-if, Ends-elim, Ends-weaken}
use rvcc.Lexer.{Input}
use rvcc.Lexer.Chars.{is_whitespace}
use rvcc.Il.{same_string}
use rvcc.Lexer.Word.{codes}
use rvcc.Lexer.Scan.{
  c_string, skip_from, next_of, l_read_char, l_skip_whitespace, put, terminate, read_while,
}
use rvcc.Lexer.Quoted.{string_escape, string_put, read_string, char_escape, char_value}
use rvcc.Lexer.Directive.{end_of_comment, read_line, skip_lines}

-- Where no more than `n` characters are left behind the next one.
abbrev pub Within : ℕ → Input → Type 0
Within n i = length i.behind ≤ n

pub Ends-skip_from : (c : ℕ) (ds : List ℕ) → Ends (Within (length ds)) (skip_from c ds)
unfolding skip_from
Ends-skip_from c [] = Ends-if (Within 0) (is_whitespace c) _ _ tt (omega arith)
Ends-skip_from c (d ∷ ds) =
    Ends-elim (Within (length (d ∷ ds))) (is_whitespace c) (skip_from d ds)
      (ok record { next_char = c; behind = d ∷ ds })
      (Ends-weaken (Within (length ds)) (Within (length (d ∷ ds))) (skip_from d ds)
        (Ends-skip_from d ds) λ i h. omega (arith, h))
      (omega arith)

pub Ends-l_skip_whitespace : (i : Input) → Ends (Within (length i.behind)) (l_skip_whitespace i)
unfolding l_skip_whitespace
Ends-l_skip_whitespace i = Ends-skip_from i.next_char i.behind

-- One character is read at least.
abbrev pub Before : ℕ → Input → Type 0
Before n i = length i.behind < n

pub Ends-next_of : (ds : List ℕ) → Ends (Before (length ds)) (next_of ds)
unfolding next_of
Ends-next_of [] = tt
Ends-next_of (d ∷ ds) = omega arith

pub Ends-l_read_char : (skip : ℕ) (i : Input) → Ends (Before (length i.behind)) (l_read_char skip i)
unfolding l_read_char
Ends-l_read_char skip i =
    Ends->>= (Before (length i.behind)) (Before (length i.behind)) (next_of i.behind) _
      (Ends-next_of i.behind)
      λ j h.
        Ends-if (Before (length i.behind)) (skip == 1) (l_skip_whitespace j) (ok j)
          (Ends-weaken (Within (length j.behind)) (Before (length i.behind)) (l_skip_whitespace j)
            (Ends-l_skip_whitespace j) λ k h'. omega (arith, h, h'))
          h

Ends-put : (written : List ℕ) (c : ℕ) → Ends (λ _. Unit) (put written c)
unfolding put
Ends-put written c = Ends-if (λ _. Unit) (ltb (length written) 256) _ _ tt tt

pub Ends-terminate : (written cells : List ℕ) → Ends (λ _. Unit) (terminate written cells)
unfolding terminate
Ends-terminate written cells =
    Ends->>= (λ _. Unit) (λ _. Unit) (put written 0) _ (Ends-put written 0) λ all _. tt

pub Ends-read_while :
    (test : ℕ → Bool) (written : List ℕ) (c : ℕ) (ds : List ℕ)
    → Ends (λ s. Before (length ds) s.input) (read_while test written c ds)
unfolding read_while
Ends-read_while test written c [] = tt
Ends-read_while test written c (d ∷ ds) =
    Ends->>= (λ _. Unit) (λ s. Before (length (d ∷ ds)) s.input) (put written c) _
      (Ends-put written c)
      λ w _.
        Ends-elim (λ s. Before (length (d ∷ ds)) s.input) (test d) (read_while test w d ds)
          (ok record { written = w; input = record { next_char = d; behind = ds } })
          (Ends-weaken (λ s. Before (length ds) s.input) (λ s. Before (length (d ∷ ds)) s.input)
            (read_while test w d ds) (Ends-read_while test w d ds) λ s h. omega (arith, h))
          (omega arith)

Ends-string_escape : (c : ℕ) → Ends (λ _. Unit) (string_escape c)
unfolding string_escape
Ends-string_escape c = any-if (c == b'n') _ _ tt (
    any-if (c == b'"') _ _ tt (
      any-if (c == b'r') _ _ tt
        (any-if (c == b'\'') _ _ tt (any-if (c == b't') _ _ tt (any-if (c == b'\\') _ _ tt tt)))))

Ends-char_escape : (c : ℕ) → Ends (λ _. Unit) (char_escape c)
unfolding char_escape
Ends-char_escape c = any-if (c == b'n') _ _ tt (
    any-if (c == b'r') _ _ tt (
      any-if (c == b'\'') _ _ tt
        (any-if (c == b'"') _ _ tt (any-if (c == b't') _ _ tt (any-if (c == b'\\') _ _ tt tt)))))

Ends-string_put : (written : List ℕ) (c : ℕ) → Ends (λ _. Unit) (string_put written c)
unfolding string_put
Ends-string_put [] c = Ends-put [] c
Ends-string_put (last ∷ written) c =
    Ends-elim (λ _. Unit) (last == b'\\') (string_escape c >>= λ escaped. ok (escaped ∷ written))
      (put (last ∷ written) c)
      (Ends->>= (λ _. Unit) (λ _. Unit) (string_escape c) (λ escaped. ok (escaped ∷ written))
        (Ends-string_escape c) λ a _. tt)
      (Ends-put (last ∷ written) c)

pub Ends-read_string :
    (written : List ℕ) (special : Bool) (ds : List ℕ)
    → Ends (λ s. Before (length ds) s.input) (read_string written special ds)
unfolding read_string
Ends-read_string written special [] = tt
Ends-read_string written special (c ∷ cs) =
    Ends-elim (λ s. Before (length (c ∷ cs)) s.input) (c == b'"' && not special)
      (ok record { written = written; input = record { next_char = c; behind = cs } })
      (string_put written c >>= λ w. read_string w (c == b'\\') cs) (omega arith)
      (Ends->>= (λ _. Unit) (λ s. Before (length (c ∷ cs)) s.input) (string_put written c) _
        (Ends-string_put written c)
        λ w _.
          Ends-weaken (λ s. Before (length cs) s.input) (λ s. Before (length (c ∷ cs)) s.input)
            (read_string w (c == b'\\') cs) (Ends-read_string w (c == b'\\') cs)
            λ s h. omega (arith, h))

pub Ends-char_value : (i : Input) → Ends (λ s. Within (length i.behind) s.input) (char_value i)
unfolding char_value
Ends-char_value i =
    Ends-elim (λ s. Within (length i.behind) s.input) (i.next_char == b'\\')
      (l_read_char 0 i >>= λ j.
        char_escape j.next_char >>= λ v. ok record { written = v ∷ []; input = j })
      (ok record { written = i.next_char ∷ []; input = i })
      (Ends->>= (Before (length i.behind)) (λ s. Within (length i.behind) s.input) (l_read_char 0 i)
        _ (Ends-l_read_char 0 i)
        λ j h.
          Ends->>= (λ _. Unit) (λ s. Within (length i.behind) s.input) (char_escape j.next_char)
            (λ v. ok record { written = v ∷ []; input = j }) (Ends-char_escape j.next_char)
            λ v _. omega (arith, h))
      (omega arith)

pub Ends-end_of_comment : (ds : List ℕ) → Ends (Before (length ds)) (end_of_comment ds)
unfolding end_of_comment
Ends-end_of_comment [] = tt
Ends-end_of_comment (c ∷ []) =
    Ends-if (Before 1) (c == b'*') _ _ tt (Ends-if (Before 1) (c == 0) _ _ tt tt)
Ends-end_of_comment (c ∷ d ∷ ds) =
    let n = length (c ∷ d ∷ ds) in
    Ends-elim (Before n) (c == b'*')
      (elim (d == b'/') [
        | true ↦ l_read_char 1 record { next_char = d; behind = ds }
        | false ↦ elim (d == 0) [ true ↦ err Error.unexpected_slash | false ↦ end_of_comment ds ]
      ])
      (elim (c == 0) [ true ↦ err Error.unexpected_slash | false ↦ end_of_comment (d ∷ ds) ])
      (Ends-elim (Before n) (d == b'/') (l_read_char 1 record { next_char = d; behind = ds })
        (elim (d == 0) [ true ↦ err Error.unexpected_slash | false ↦ end_of_comment ds ])
        (Ends-weaken (Before (length ds)) (Before n)
          (l_read_char 1 record { next_char = d; behind = ds })
          (Ends-l_read_char 1 record { next_char = d; behind = ds }) λ i h. omega (arith, h))
        (Ends-elim (Before n) (d == 0) (err Error.unexpected_slash) (end_of_comment ds) tt (
          Ends-weaken (Before (length ds)) (Before n) (end_of_comment ds) (Ends-end_of_comment ds)
            λ i h. omega (arith, h))))
      (Ends-elim (Before n) (c == 0) (err Error.unexpected_slash) (end_of_comment (d ∷ ds)) tt (
        Ends-weaken (Before (length (d ∷ ds))) (Before n) (end_of_comment (d ∷ ds))
          (Ends-end_of_comment (d ∷ ds)) λ i h. omega (arith, h)))

pub Ends-read_line : (i : Input) → Ends (λ s. Before (length i.behind) s.input) (read_line i)
unfolding read_line
Ends-read_line i = Ends-read_while _ [] i.next_char i.behind

-- With more fuel than there are characters, a line is #endif or the array ends first.
pub Ends-skip_lines :
    (fuel : ℕ) (cells : List ℕ) (i : Input)
    → length i.behind < fuel
    → Ends (λ r. Before (length i.behind) r.1) (skip_lines fuel cells i)
unfolding skip_lines
Ends-skip_lines zero cells i h = absurd (omega (arith, h))
Ends-skip_lines (suc fuel) cells i h =
    let P : List ℕ × Input → Type 0 = λ r. Before (length i.behind) r.1 in
    Ends->>= (Within (length i.behind)) P (l_skip_whitespace i) _ (Ends-l_skip_whitespace i) λ j w.
      Ends->>= (λ s. Before (length j.behind) s.input) P (read_line j) _ (Ends-read_line j)
        λ line b.
          Ends->>= (λ _. Unit) P (terminate line.written cells) _
            (Ends-terminate line.written cells)
            λ cells' _.
              Ends-elim P (same_string (c_string cells') (codes "#endif"))
                (l_skip_whitespace line.input >>= λ k. ok (cells', k))
                (skip_lines fuel cells' line.input)
                (Ends->>= (Within (length line.input.behind)) P (l_skip_whitespace line.input)
                  (λ k. ok (cells', k)) (Ends-l_skip_whitespace line.input)
                  λ k v. omega (arith, w, b, v))
                (Ends-weaken (λ r. Before (length line.input.behind) r.1) P
                  (skip_lines fuel cells' line.input)
                  (Ends-skip_lines fuel cells' line.input (omega (arith, h, w, b)))
                  λ r v. omega (arith, w, b, v))
