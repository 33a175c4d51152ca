-- ===== src/Parser/Left.antt =====
-- src/parser.c: what is left to read behind l_accept and p_get_operator.
use rvcc.Prelude.{
  ℕ, suc, ◌+◌, ◌≤◌, ◌<◌, ◌≡◌, refl, ◌∙◌, ap, Bool, true, false, ◌⊎◌, inl, inr, List, [], ◌∷◌, ◌==◌,
  ==_iff, if◌then◌else◌, length, arith,
}
use rvcc.Result.{Result, ok, ◌>>=◌}
use rvcc.Il.{IlOp}
use rvcc.Tables.{Tables}
use rvcc.Lexer.{LToken, Lexed}
use rvcc.Lexer.Calls.{l_token, same_token, advance, l_accept}
use rvcc.Lexer.Next.{l_next_token}
use rvcc.Ends.{Ends, Ends->>=, Ends-weaken}
use rvcc.Lexer.Moved.{Moved}
use rvcc.Lexer.Progress.{l_next_token-Moved}
use rvcc.Parser.Operator.{operators, accept_one, p_get_operator, is_generic}
use rvcc.Parser.Stack.{by_bool}
use rvcc.Parser.Expression.{Reading}

-- A token that is not t_eof counts for one.
abbrev waiting : LToken → ℕ
waiting token = if same_token token LToken.eof then 0 else 1

-- What is left to read: the token that is next, and the characters behind.
abbrev pub left : Lexed → ℕ
left l = waiting l.token + length l.input.behind

waiting_le : (token : LToken) → waiting token ≤ 1
waiting_le token = by_test (same_token token LToken.eof)
  where
    by_test : (b : Bool) → (if b then 0 else 1) ≤ 1
    by_test true = omega arith
    by_test false = omega arith

waiting_eof : waiting LToken.eof ≡ 0
unfolding same_token
waiting_eof = refl

-- A token that is the same as one that is not t_eof.
pub waiting_same :
    (a b : LToken) → same_token a b ≡ true → same_token b LToken.eof ≡ false → waiting a ≡ 1
unfolding same_token
waiting_same a b e other =
    let same : l_token a ≡ l_token b = (==_iff (l_token a) (l_token b)).0 e in
    ap (λ k. if k == 38 then 0 else 1) same ∙ ap (λ b. if b then 0 else 1) other

pub advance-left :
    (t : Tables) (l : Lexed) → waiting l.token ≡ 1 → Ends (λ l'. left l' < left l) (advance t l)
unfolding advance
advance-left t l w =
    Ends-weaken (Moved (length l.input.behind)) (λ l'. left l' < left l)
      (l_next_token (suc (length l.input.behind)) t l.token_string l.input)
      (l_next_token-Moved (suc (length l.input.behind)) t l.token_string l.input (omega arith))
      λ l' moved. elim moved [
        | inl b ↦ omega (arith, b, w, waiting_le l'.token)
        | inr (e, b) ↦
            let none_ : waiting l'.token ≡ 0 = ap waiting e ∙ waiting_eof in
            omega (arith, b, none_, w)
      ]

abbrev AreTokens : List (LToken × IlOp) → Type 0
AreTokens [] = Unit
AreTokens ((token, op) ∷ pairs) = (same_token token LToken.eof ≡ false) × AreTokens pairs

-- No operator and nothing read, or an operator.
abbrev pub Chosen : Lexed → IlOp × Lexed → Type 0
Chosen l r = ((is_generic r.0 ≡ true) × (left r.1 ≤ left l)) ⊎ (left r.1 < left l)

-- Whether the token was there, and if so, something was read.
abbrev Accepted : Lexed → Bool × Lexed → Type 0
Accepted l (true, l') = left l' < left l
Accepted l (false, l') = left l' ≤ left l

l_accept-Accepted :
    (token : LToken) (t : Tables) (l : Lexed)
    → same_token token LToken.eof ≡ false
    → Ends (Accepted l) (l_accept token t l)
unfolding l_accept
l_accept-Accepted token t l other =
    by_bool (Ends (Accepted l)) (same_token l.token token) (advance t l >>= λ l'. ok (true, l'))
      (ok (false, l))
      (λ e.
        Ends->>= (λ l'. left l' < left l) (Accepted l) (advance t l) (λ l'. ok (true, l'))
          (advance-left t l (waiting_same l.token token e other)) λ l' b. b)
      (omega arith)

after_accept :
    (op : IlOp) (pairs : List (LToken × IlOp)) (t : Tables) (l : Lexed) (r : Bool × Lexed)
    → ((l' : Lexed) → left l' ≤ left l → Ends (Chosen l) (accept_one pairs t l'))
    → Accepted l r
    → Ends (Chosen l) (elim r.0 [ true ↦ ok (op, r.1) | false ↦ accept_one pairs t r.1 ])
after_accept op pairs t l (true, l') others b = inr b
after_accept op pairs t l (false, l') others b = others l' b

accept_one-Chosen :
    (pairs : List (LToken × IlOp)) (t : Tables) (l : Lexed)
    → AreTokens pairs
    → Ends (Chosen l) (accept_one pairs t l)
unfolding accept_one
accept_one-Chosen [] t l all = inl (refl, omega arith)
accept_one-Chosen ((token, op) ∷ pairs) t l (other, all) =
    Ends->>= (Accepted l) (Chosen l) (l_accept token t l) _ (l_accept-Accepted token t l other) λ r.
      after_accept op pairs t l r λ l' b.
        Ends-weaken (Chosen l') (Chosen l) (accept_one pairs t l')
          (accept_one-Chosen pairs t l' all)
          λ c chosen. elim chosen [
            | inl (e, b') ↦ inl (e, omega (arith, b, b'))
            | inr b' ↦ inr (omega (arith, b, b'))
          ]

pub p_get_operator-Chosen : (t : Tables) (l : Lexed) → Ends (Chosen l) (p_get_operator t l)
unfolding p_get_operator same_token
p_get_operator-Chosen t l = accept_one-Chosen operators t l (
  refl,
  (
    refl,
    (
      refl,
      (
        refl,
        (refl, (refl, (refl, (refl, (refl, (refl, (refl, (refl, (refl, (refl, (refl, tt))))))))))),
      ),
    ),
  ),
)

pub decide :
    {A : Type 0} (P : A → Type 0) (b : Bool) (x y : Result A)
    → (b ≡ true → Ends P x)
    → (b ≡ false → Ends P y)
    → Ends P (elim b [ true ↦ x | false ↦ y ])
decide P true x y hx hy = hx refl
decide P false x y hx hy = hy refl

-- What an operand does, and the expression as well: it ends, and never goes back.
abbrev pub GoesOn : Reading → Result Reading → Type 0
GoesOn r = Ends (λ r'. left r'.lexed ≤ left r.lexed)
