-- ===== src/Lexer/Fixed.antt =====
-- The tokens with one spelling.
use rvcc.Prelude.{ℕ, suc, ◌≡◌, refl, Option, some, none, List, [], ◌∷◌, ◌++◌}
use rvcc.Result.{ok, ◌>>=◌}
use rvcc.Il.{CString}
use rvcc.Tables.{Tables}
use rvcc.Lexer.{Input, LToken}
use rvcc.Lexer.Scan.{c_string, overwrite, skip_from}
use rvcc.Lexer.Next.{l_next_token}
use rvcc.Lexer.Spelling.{spelling, fixed_text}

-- The characters up to the end of the source.
abbrev pub at : List ℕ → Input
at [] = record { next_char = 0; behind = [] }
at (c ∷ cs) = record { next_char = c; behind = cs }

module _ (fuel : ℕ) (t : Tables) (cells : List ℕ) (c : ℕ) (ds : List ℕ) where
  -- What l_next_token makes of a token's only spelling and a space.
  abbrev pub IsRead : LToken → Option CString → Type 0
  IsRead token none = Unit
  IsRead token (some text) = l_next_token (suc fuel) t cells (at (text ++ b' ' ∷ c ∷ ds)) ≡ (
      skip_from c ds >>= λ i. ok record {
        token = token;
        token_string = overwrite (fixed_text token ++ 0 ∷ []) (overwrite (0 ∷ []) cells);
        input = i;
      })

  pub fixed_lem : (token : LToken) → IsRead token (spelling token)
  unfolding l_next_token
  fixed_lem LToken.sof = tt
  fixed_lem LToken.numeric = tt
  fixed_lem LToken.identifier = tt
  fixed_lem LToken.comma = refl
  fixed_lem LToken.string = tt
  fixed_lem LToken.char = tt
  fixed_lem LToken.op_bracket = refl
  fixed_lem LToken.cl_bracket = refl
  fixed_lem LToken.op_curly = refl
  fixed_lem LToken.cl_curly = refl
  fixed_lem LToken.op_square = refl
  fixed_lem LToken.cl_square = refl
  fixed_lem LToken.star = refl
  fixed_lem LToken.bit_or = refl
  fixed_lem LToken.log_and = refl
  fixed_lem LToken.log_or = refl
  fixed_lem LToken.log_not = refl
  fixed_lem LToken.lt = refl
  fixed_lem LToken.gt = refl
  fixed_lem LToken.le = refl
  fixed_lem LToken.ge = refl
  fixed_lem LToken.lshift = refl
  fixed_lem LToken.rshift = refl
  fixed_lem LToken.dot = refl
  fixed_lem LToken.arrow = refl
  fixed_lem LToken.plus = refl
  fixed_lem LToken.minus = refl
  fixed_lem LToken.minuseq = refl
  fixed_lem LToken.pluseq = refl
  fixed_lem LToken.oreq = refl
  fixed_lem LToken.andeq = refl
  fixed_lem LToken.eq = refl
  fixed_lem LToken.noteq = refl
  fixed_lem LToken.assign = refl
  fixed_lem LToken.plusplus = refl
  fixed_lem LToken.minusminus = refl
  fixed_lem LToken.colon = refl
  fixed_lem LToken.semicolon = refl
  fixed_lem LToken.eof = tt
  fixed_lem LToken.ampersand = refl
  fixed_lem LToken.return_ = refl
  fixed_lem LToken.if_ = refl
  fixed_lem LToken.else_ = refl
  fixed_lem LToken.while_ = refl
  fixed_lem LToken.for_ = refl
  fixed_lem LToken.do_ = refl
  fixed_lem LToken.op_comment = tt
  fixed_lem LToken.cl_comment = tt
  fixed_lem LToken.define_ = tt
  fixed_lem LToken.include_ = tt
  fixed_lem LToken.typedef_ = refl
  fixed_lem LToken.enum_ = refl
  fixed_lem LToken.struct_ = refl
  fixed_lem LToken.sizeof_ = refl
  fixed_lem LToken.elipsis = refl
  fixed_lem LToken.asm_ = refl
  fixed_lem LToken.switch_ = refl
  fixed_lem LToken.case_ = refl
  fixed_lem LToken.break_ = refl
  fixed_lem LToken.default_ = refl

pub fixed_text_lem :
    (token : LToken) (cells : List ℕ)
    → c_string (overwrite (fixed_text token ++ 0 ∷ []) cells) ≡ fixed_text token
unfolding c_string
fixed_text_lem LToken.return_ cells = refl
fixed_text_lem LToken.if_ cells = refl
fixed_text_lem LToken.else_ cells = refl
fixed_text_lem LToken.while_ cells = refl
fixed_text_lem LToken.for_ cells = refl
fixed_text_lem LToken.do_ cells = refl
fixed_text_lem LToken.typedef_ cells = refl
fixed_text_lem LToken.enum_ cells = refl
fixed_text_lem LToken.struct_ cells = refl
fixed_text_lem LToken.sizeof_ cells = refl
fixed_text_lem LToken.asm_ cells = refl
fixed_text_lem LToken.switch_ cells = refl
fixed_text_lem LToken.case_ cells = refl
fixed_text_lem LToken.break_ cells = refl
fixed_text_lem LToken.default_ cells = refl
fixed_text_lem _ cells = refl
