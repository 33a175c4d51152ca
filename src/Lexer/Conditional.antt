-- ===== src/Lexer/Conditional.antt =====
-- src/lexer.c: #ifdef, whose lines are read if the alias is defined and read away if it is not.
use rvcc.Prelude.{
  ℕ, zero, suc, ◌<◌, ◌≡◌, refl, sym, ◌∙◌, ap, Bool, true, false, not, Option, none, some, List, [],
  ◌∷◌, ◌++◌, ◌==◌, length, arith,
}
use rvcc.Result.{Result, ok, ◌>>=◌}
use rvcc.Il.{CString, same_string}
use rvcc.Tables.{Tables, find_alias}
use rvcc.Lexer.{Input, Lexed}
use rvcc.Lexer.Chars.{is_whitespace}
use rvcc.Lexer.Scan.{c_string, overwrite, l_skip_whitespace, skip_from, onto, terminate}
use rvcc.Lexer.Word.{codes}
use rvcc.Lexer.Directive.{
  directive_token, directive_named, ifdef_token, skip_and_go, skip_lines, read_line, is_defined,
  in_line,
}
use rvcc.Lexer.Next.{token_at, l_next_token}
use rvcc.Lexer.Fixed.{at}
use rvcc.Lexer.Collect.{All, read_while-All, terminate-onto, c_string-overwrite}
use rvcc.Lexer.Printed.{skip_stop}

-- A line that begins with its first character, and has none that ends it or a string.
abbrev pub IsLine : ℕ × CString → Type 0
IsLine (c, cs) =
    (is_whitespace c ≡ false)
    × All in_line cs
    × All (λ c. not (c == 0)) (c ∷ cs)
    × (length (c ∷ cs) < 256)

abbrev pub joined : List (ℕ × CString) → List ℕ → List ℕ
joined [] rest = rest
joined ((c, cs) ∷ lines) rest = c ∷ cs ++ b'\n' ∷ joined lines rest

read_line_lem :
    (c : ℕ) (cs rest : List ℕ)
    → IsLine (c, cs)
    → read_line record { next_char = c; behind = cs ++ b'\n' ∷ rest }
      ≡ ok
          record { written = onto (c ∷ cs) []; input = record { next_char = b'\n'; behind = rest } }
unfolding read_line
read_line_lem c cs rest (start, all, nonzero, h) =
    read_while-All in_line [] c cs b'\n' rest all refl (omega (arith, h))

-- The end of a round, by whether the line was #endif.
abbrev end_line : ℕ → List ℕ → Input → Bool → Result (List ℕ × Input)
end_line fuel cells i done = elim done [
  | true ↦ l_skip_whitespace i >>= λ j. ok (cells, j)
  | false ↦ skip_lines fuel cells i
]

abbrev after_line : ℕ → Result (List ℕ) → Input → Result (List ℕ × Input)
after_line fuel made i =
    made >>= λ cells. end_line fuel cells i (same_string (c_string cells) (codes "#endif"))

-- A line that is not #endif takes a round of the loop.
skip_lines_round :
    (fuel : ℕ) (cells : List ℕ) (c : ℕ) (cs rest : List ℕ)
    → IsLine (c, cs)
    → same_string (c ∷ cs) (codes "#endif") ≡ false
    → skip_lines (suc fuel) cells record { next_char = b'\n'; behind = c ∷ cs ++ b'\n' ∷ rest }
      ≡ skip_lines fuel
          (overwrite ((c ∷ cs) ++ 0 ∷ []) cells)
          record { next_char = b'\n'; behind = rest }
unfolding skip_lines
skip_lines_round fuel cells c cs rest (start, all, nonzero, h) other =
    (λ i. skip_stop c (cs ++ b'\n' ∷ rest) start i >>= λ j.
    read_line j >>= λ l. after_line fuel (terminate l.written cells) l.input)
    ∙ (λ i. read_line_lem c cs rest (start, all, nonzero, h) i >>= λ l.
        after_line fuel (terminate l.written cells) l.input)
    ∙ ap (λ r. after_line fuel r record { next_char = b'\n'; behind = rest })
        (terminate-onto (c ∷ cs) cells h)
    ∙ ap
        (λ name.
          end_line fuel (overwrite ((c ∷ cs) ++ 0 ∷ []) cells)
            record { next_char = b'\n'; behind = rest } (same_string name (codes "#endif")))
        (c_string-overwrite (c ∷ cs) cells nonzero)
    ∙ ap
        (end_line fuel (overwrite ((c ∷ cs) ++ 0 ∷ []) cells)
          record { next_char = b'\n'; behind = rest })
        other

-- #endif ends the loop, and the blanks behind it are skipped.
skip_lines_endif :
    (fuel : ℕ) (cells : List ℕ) (d : ℕ) (ds : List ℕ)
    → is_whitespace d ≡ false
    → skip_lines
        (suc fuel)
        cells
        record { next_char = b'\n'; behind = codes "#endif" ++ b'\n' ∷ d ∷ ds }
      ≡ ok (overwrite (codes "#endif" ++ 0 ∷ []) cells, record { next_char = d; behind = ds })
unfolding skip_lines
skip_lines_endif fuel cells d ds next = rw (skip_stop d ds next) refl

-- The lines that are read away.
abbrev pub AreSkipped : List (ℕ × CString) → Type 0
AreSkipped [] = Unit
AreSkipped ((c, cs) ∷ lines) =
    IsLine (c, cs) × (same_string (c ∷ cs) (codes "#endif") ≡ false) × AreSkipped lines

skip_lines-joined :
    (lines : List (ℕ × CString)) (fuel : ℕ) (cells : List ℕ) (d : ℕ) (ds : List ℕ)
    → is_whitespace d ≡ false
    → AreSkipped lines
    → length lines < fuel
    → (cells' : List ℕ) × (skip_lines fuel cells
          record { next_char = b'\n'; behind = joined lines (codes "#endif" ++ b'\n' ∷ d ∷ ds) }
        ≡ ok (cells', record { next_char = d; behind = ds }))
skip_lines-joined lines zero cells d ds next all h = absurd (omega (arith, h))
skip_lines-joined [] (suc fuel) cells d ds next all h = (_, skip_lines_endif fuel cells d ds next)
skip_lines-joined ((c, cs) ∷ lines) (suc fuel) cells d ds next (line, other, all) h =
    let (cells', e) =
      skip_lines-joined lines fuel (overwrite ((c ∷ cs) ++ 0 ∷ []) cells) d ds next all
        (omega (arith, h)) in
    (
      cells',
      skip_lines_round fuel cells c cs (joined lines (codes "#endif" ++ b'\n' ∷ d ∷ ds)) line other
          ∙ e,
    )

-- The first character of the lines is no blank.
joined_start :
    (lines : List (ℕ × CString)) (rest : List ℕ)
    → AreSkipped lines
    → (c : ℕ) × (cs : List ℕ) × (joined lines (codes "#endif" ++ rest) ≡ c ∷ cs)
      × (is_whitespace c ≡ false)
unfolding is_whitespace
joined_start [] rest all = (b'#', codes "endif" ++ rest, refl, refl)
joined_start ((c, cs) ∷ lines) rest (line, other, all) =
    (c, cs ++ b'\n' ∷ joined lines (codes "#endif" ++ rest), refl, line.0)

module _ (fuel : ℕ) (t : Tables) (cells : List ℕ) where
  abbrev go_on : List ℕ → Input → Result Lexed
  go_on = l_next_token fuel t

  abbrev named : List ℕ
  named = overwrite (codes "#ifdef" ++ 0 ∷ []) (overwrite (0 ∷ []) cells)

  -- The directive comes to ifdef_token on the name.
  ifdef_lem :
      (c : ℕ) (rest : List ℕ)
      → is_whitespace c ≡ false
      → l_next_token (suc fuel) t cells (at (codes "#ifdef" ++ b' ' ∷ c ∷ rest))
        ≡ ifdef_token fuel go_on t named record { next_char = c; behind = rest }
  unfolding l_next_token token_at directive_token directive_named
  ifdef_lem c rest start = rw (skip_stop c rest start) refl

  -- What ifdef_token does once the name is read.
  abbrev decided : List ℕ → Input → Bool → Result Lexed
  decided cells' i known = elim known [
    | true ↦ skip_and_go fuel go_on t cells' i
    | false ↦ skip_lines fuel cells' i >>= λ (cells, i). go_on cells i
  ]

  ifdef_token_lem :
      (c : ℕ) (cs rest : List ℕ) (value : Option CString)
      → IsLine (c, cs)
      → find_alias (c ∷ cs) t ≡ value
      → ifdef_token fuel go_on t named record { next_char = c; behind = cs ++ b'\n' ∷ rest }
        ≡ decided
            (overwrite ((c ∷ cs) ++ 0 ∷ []) named)
            record { next_char = b'\n'; behind = rest }
            (is_defined fuel go_on t value)
  unfolding ifdef_token
  ifdef_token_lem c cs rest value (start, all, nonzero, h) e =
      let decide : List ℕ → Input → Result Lexed =
        λ cells' i. decided cells' i (is_defined fuel go_on t (find_alias (c_string cells') t)) in
      (λ i. read_line_lem c cs rest (start, all, nonzero, h) i >>= λ l.
      terminate l.written named >>= λ cells'. decide cells' l.input)
      ∙ ap (λ r. r >>= λ cells'. decide cells' record { next_char = b'\n'; behind = rest })
          (terminate-onto (c ∷ cs) named h)
      ∙ ap
          (λ name.
            decided (overwrite ((c ∷ cs) ++ 0 ∷ []) named)
              record { next_char = b'\n'; behind = rest }
              (is_defined fuel go_on t (find_alias name t)))
          (c_string-overwrite (c ∷ cs) named nonzero)
      ∙ ap
          (λ v.
            decided (overwrite ((c ∷ cs) ++ 0 ∷ []) named)
              record { next_char = b'\n'; behind = rest } (is_defined fuel go_on t v))
          e

  module _ (c : ℕ) (cs : CString) (lines : List (ℕ × CString)) (d : ℕ) (ds : List ℕ) where
    abbrev body : List ℕ
    body = joined lines (codes "#endif" ++ b'\n' ∷ d ∷ ds)

    -- Where the source goes on: at the lines, or behind them.
    abbrev behind_ifdef : Option CString → Input
    behind_ifdef none = record { next_char = d; behind = ds }
    behind_ifdef (some value) = at body

    -- For #ifdef, a space, a name, lines that begin with no blank and of which none is #endif,
    -- and #endif, each line shorter than 256 characters and without a 0, and with more fuel than
    -- there are lines: l_next_token goes on as a call of itself at the first of the lines, or at
    -- #endif without one, where the name is an alias, and as a call of itself behind #endif
    -- where it is none.
    pub l_next_token-ifdef :
        (value : Option CString)
        → find_alias (c ∷ cs) t ≡ value
        → IsLine (c, cs)
        → AreSkipped lines
        → length lines < fuel
        → is_whitespace d ≡ false
        → (cells' : List ℕ) × (l_next_token
              (suc fuel)
              t
              cells
              (at (codes "#ifdef" ++ b' ' ∷ c ∷ cs ++ b'\n' ∷ body))
            ≡ l_next_token fuel t cells' (behind_ifdef value))
    unfolding skip_and_go is_defined
    l_next_token-ifdef none e line all h next =
        let (cells', same) =
          skip_lines-joined lines fuel (overwrite ((c ∷ cs) ++ 0 ∷ []) named) d ds next all h in
        (
          cells',
          ifdef_lem c (cs ++ b'\n' ∷ body) line.0
              ∙ ifdef_token_lem c cs body none line e
              ∙ ap (λ r. r >>= λ (cells, i). go_on cells i) same,
        )
    l_next_token-ifdef (some value) e line all h next =
        let (first, others, same, start) = joined_start lines (b'\n' ∷ d ∷ ds) all in
        let cells' = overwrite ((c ∷ cs) ++ 0 ∷ []) named in
        (
          cells',
          ifdef_lem c (cs ++ b'\n' ∷ body) line.0
              ∙ ifdef_token_lem c cs body (some value) line e
              ∙ ap (λ r. skip_from b'\n' r >>= go_on cells') same
              ∙ ap (λ r. r >>= go_on cells') (skip_stop first others start)
              ∙ ap (λ r. go_on cells' (at r)) (sym same),
        )
