-- ===== src/Lexer/Skipped.antt =====
-- src/lexer.c: comments, which l_next_token reads away.
use rvcc.Prelude.{
  ℕ, suc, ◌≡◌, refl, ◌∙◌, ap, Bool, true, false, Bool-cases, inl, inr, not, ◌&&◌, ◌||◌, List, [],
  ◌∷◌, ◌++◌, ◌==◌,
}
use rvcc.Result.{err, ◌>>=◌, Error}
use rvcc.Tables.{Tables}
use rvcc.Lexer.Chars.{is_whitespace}
use rvcc.Lexer.Scan.{overwrite, l_read_char}
use rvcc.Lexer.Directive.{end_of_comment, comment_token}
use rvcc.Lexer.Next.{token_at, l_next_token}
use rvcc.Lexer.Fixed.{at}
use rvcc.Lexer.Collect.{not-true}
use rvcc.Lexer.Printed.{skip_stop}

abbrev pub goes_on : List ℕ → Bool
goes_on [] = false
goes_on (c ∷ cs) = not (c == b'/') && not (c == b'*')

-- What stands in a comment: no 0, and behind each star a character that is no slash and no star.
abbrev pub is_body : List ℕ → Bool
is_body [] = true
is_body (c ∷ cs) = not (c == 0) && ((not (c == b'*') || goes_on cs) && is_body cs)

both : (a b : Bool) → (a && b) ≡ true → (a ≡ true) × (b ≡ true)
both true b e = (refl, e)
both false b e = cc e

-- A character that is no star is passed over.
end_of_comment_next :
    (c d : ℕ) (ds : List ℕ)
    → c == b'*' ≡ false
    → c == 0 ≡ false
    → end_of_comment (c ∷ d ∷ ds) ≡ end_of_comment (d ∷ ds)
unfolding end_of_comment
end_of_comment_next c d ds no_star no_zero = λ i. elim (no_star i) [
  | true ↦ elim (d == b'/') [
    | true ↦ l_read_char 1 record { next_char = d; behind = ds }
    | false ↦ elim (d == 0) [ true ↦ err Error.unexpected_slash | false ↦ end_of_comment ds ]
  ]
  | false ↦ elim (no_zero i) [ true ↦ err Error.unexpected_slash | false ↦ end_of_comment (d ∷ ds) ]
]

-- A star takes the character behind it along.
end_of_comment_star :
    (c d : ℕ) (ds : List ℕ)
    → c == b'*' ≡ true
    → d == b'/' ≡ false
    → d == 0 ≡ false
    → end_of_comment (c ∷ d ∷ ds) ≡ end_of_comment ds
unfolding end_of_comment
end_of_comment_star c d ds star no_slash no_zero = λ i. elim (star i) [
  | true ↦ elim (no_slash i) [
    | true ↦ l_read_char 1 record { next_char = d; behind = ds }
    | false ↦ elim (no_zero i) [ true ↦ err Error.unexpected_slash | false ↦ end_of_comment ds ]
  ]
  | false ↦ elim (c == 0) [ true ↦ err Error.unexpected_slash | false ↦ end_of_comment (d ∷ ds) ]
]

last_no_star : (c : ℕ) → is_body (c ∷ []) ≡ true → (c == b'*' ≡ false) × (c == 0 ≡ false)
last_no_star c e =
    let (no_zero, more) = both (not (c == 0)) _ e in
    let (star, end) = both (not (c == b'*') || false) true more in
    (or_false (c == b'*') star, not-true (c == 0) no_zero)
  where
    or_false : (b : Bool) → (not b || false) ≡ true → b ≡ false
    or_false true e = cc e
    or_false false e = refl

-- To the first star that a slash follows.
end_of_comment-is_body :
    (body rest : List ℕ)
    → is_body body ≡ true
    → end_of_comment (body ++ b'*' ∷ b'/' ∷ rest)
      ≡ l_read_char 1 record { next_char = b'/'; behind = rest }
unfolding end_of_comment
end_of_comment-is_body [] rest e = refl
end_of_comment-is_body (c ∷ []) rest e =
    let (no_star, no_zero) = last_no_star c e in
    end_of_comment_next c b'*' (b'/' ∷ rest) no_star no_zero
end_of_comment-is_body (c ∷ d ∷ body) rest e =
    let (no_zero, more) = both (not (c == 0)) _ e in
    let (star, behind) = both (not (c == b'*') || goes_on (d ∷ body)) (is_body (d ∷ body)) more in
    let (d_no_zero, d_more) = both (not (d == 0)) _ behind in
    let (d_star, last) = both (not (d == b'*') || goes_on body) (is_body body) d_more in
    elim (Bool-cases (c == b'*')) [
      | inl is ↦
          let (no_slash, d_plain) = both (not (d == b'/')) _ (star_goes_on (c == b'*') _ is star) in
          end_of_comment_star c d (body ++ b'*' ∷ b'/' ∷ rest) is (not-true (d == b'/') no_slash)
            (not-true (d == 0) d_no_zero)
          ∙ end_of_comment-is_body body rest last
      | inr no_star ↦
          end_of_comment_next c d (body ++ b'*' ∷ b'/' ∷ rest) no_star (not-true (c == 0) no_zero)
          ∙ end_of_comment-is_body (d ∷ body) rest behind
    ]
  where
    star_goes_on : (b next : Bool) → b ≡ true → (not b || next) ≡ true → next ≡ true
    star_goes_on true next is e = e
    star_goes_on false next is e = cc is

module _ (fuel : ℕ) (t : Tables) (cells : List ℕ) (d : ℕ) (ds : List ℕ)
    (next : is_whitespace d ≡ false) where
  -- At a comment without a 0, in which what follows a star is neither a slash nor another star
  -- and which ends in one star and a slash, followed by a space and a character that is no
  -- blank, l_next_token comes to a call of itself at that character with an empty token string.
  pub l_next_token-comment :
      (body : List ℕ)
      → is_body body ≡ true
      → l_next_token (suc fuel) t cells (at (b'/' ∷ b'*' ∷ body ++ b'*' ∷ b'/' ∷ b' ' ∷ d ∷ ds))
        ≡ l_next_token fuel t (overwrite (0 ∷ []) cells) (at (d ∷ ds))
  unfolding l_next_token token_at comment_token
  l_next_token-comment body is =
      ap (λ r. r >>= l_next_token fuel t (overwrite (0 ∷ []) cells))
        (end_of_comment-is_body body (b' ' ∷ d ∷ ds) is)
      ∙ ap (λ r. r >>= l_next_token fuel t (overwrite (0 ∷ []) cells)) (skip_stop d ds next)
