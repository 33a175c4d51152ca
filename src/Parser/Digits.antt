-- ===== src/Parser/Digits.antt =====
-- src/parser.c: the loops over digits.
use rvcc.Prelude.{
  ℕ, ◌+◌, ◌-◌, ◌*◌, ◌%◌, ◌≤◌, ◌<◌, ◌≡◌, refl, ◌∙◌, ap, Bool, true, false, Bool-cases, inl, inr,
  ◌||◌, [], ◌∷◌, ◌++◌, if◌then◌else◌, arith,
}
use rvcc.Result.{ok, ◌>>=◌}
use rvcc.Il.{CString}
use rvcc.Word.{word_mod, add32, sub32, shl32}
use rvcc.Lexer.Chars.{is_digit, is_hex}
use rvcc.Lexer.Collect.{All}
use rvcc.Parser.Number.{
  char_int, decimal_value, add_hex_digit, hex_value, hex_digit, hex_loop, decimal_loop, is_between,
}

-- The number that decimal digits stand for, behind a number.
abbrev pub decimal_number : ℕ → CString → ℕ
decimal_number n [] = n
decimal_number n (c ∷ cs) = decimal_number (n * 10 + (c - b'0')) cs

-- A hexadecimal digit, and the number of some.
abbrev pub is_hex_digit : ℕ → Bool
is_hex_digit c = is_between b'0' b'9' c || is_between b'a' b'f' c || is_between b'A' b'F' c

abbrev pub hex_digit_number : ℕ → ℕ
hex_digit_number c =
    if is_between b'0' b'9' c
    then c - b'0'
    else if is_between b'a' b'f' c
    then c - b'a' + 10
    else c - b'A' + 10

abbrev pub hex_number : ℕ → CString → ℕ
hex_number n [] = n
hex_number n (c ∷ cs) = hex_number (n * 16 + hex_digit_number c) cs

digit_range : (c : ℕ) → is_digit c ≡ true → (b'0' ≤ c) × (c ≤ b'9')
unfolding is_digit
digit_range c e = (ground (arith, e), ground (arith, e))

decimal_step :
    (n c : ℕ)
    → b'0' ≤ c
    → c ≤ b'9'
    → sub32 (add32 (n % word_mod * 10 % word_mod) (char_int c)) b'0'
      ≡ (n * 10 + (c - b'0')) % word_mod
decimal_step n c low high =
    ap (λ k. sub32 (add32 (n % word_mod * 10 % word_mod) k) b'0') {y = c} (ground (arith, high))
    ∙ omega (arith, low, high)

decimal_loop_step :
    (n c : ℕ)
    → b'0' ≤ c
    → c ≤ b'9'
    → add32 (n % word_mod * 10 % word_mod) (char_int ((c + (256 - b'0')) % 256))
      ≡ (n * 10 + (c - b'0')) % word_mod
decimal_loop_step n c low high =
    let d : (c + (256 - b'0')) % 256 ≡ c - b'0' = omega (arith, low, high) in
    ap (λ k. add32 (n % word_mod * 10 % word_mod) (char_int k)) d
    ∙ ap (λ k. add32 (n % word_mod * 10 % word_mod) k) {y = c - b'0'} (ground (arith, low, high))
    ∙ omega (arith, low, high)

pub decimal_value_lem :
    (n : ℕ) (cs : CString)
    → All is_digit cs
    → decimal_value (n % word_mod) cs ≡ decimal_number n cs % word_mod
unfolding decimal_value
decimal_value_lem n [] all = refl
decimal_value_lem n (c ∷ cs) (e, all) =
    let (low, high) = digit_range c e in
    ap (λ v. decimal_value v cs) (decimal_step n c low high)
    ∙ decimal_value_lem (n * 10 + (c - b'0')) cs all

pub decimal_loop_lem :
    (n c : ℕ) (cs : CString)
    → All is_digit (c ∷ cs)
    → decimal_loop (n % word_mod) c (cs ++ 0 ∷ []) ≡ ok (decimal_number n (c ∷ cs) % word_mod)
unfolding decimal_loop
decimal_loop_lem n c [] (e, all) =
    let (low, high) = digit_range c e in ap ok (decimal_loop_step n c low high)
decimal_loop_lem n c (d ∷ ds) (e, (e', all)) =
    let (low, high) = digit_range c e in
    let next = add32 (n % word_mod * 10 % word_mod) (char_int ((c + (256 - b'0')) % 256)) in
    ap (λ b. elim b [ true ↦ decimal_loop next d (ds ++ 0 ∷ []) | false ↦ ok next ]) e'
    ∙ ap (λ v. decimal_loop v d (ds ++ 0 ∷ [])) (decimal_loop_step n c low high)
    ∙ decimal_loop_lem (n * 10 + (c - b'0')) d ds (e', all)

hex_digit_bound : (c : ℕ) → is_hex_digit c ≡ true → hex_digit_number c < 16
hex_digit_bound c e = ground (arith, e)

hex_digit_lem : (c : ℕ) → is_hex_digit c ≡ true → hex_digit c ≡ ok (hex_digit_number c)
unfolding hex_digit
hex_digit_lem c e = elim (Bool-cases (is_between b'0' b'9' c)) [
  | inl p ↦ rw p refl
  | inr p ↦ elim (Bool-cases (is_between b'a' b'f' c)) [
    | inl q ↦ rw (p, q) refl
    | inr q ↦ let r : is_between b'A' b'F' c ≡ true = cc (p, q, e) in rw (p, q, r) refl
  ]
]

add_hex_digit_lem :
    (v c : ℕ) → is_hex_digit c ≡ true → add_hex_digit v c ≡ add32 v (hex_digit_number c)
unfolding add_hex_digit
add_hex_digit_lem v c e = elim (Bool-cases (is_between b'0' b'9' c)) [
  | inl p ↦ rw p refl
  | inr p ↦ elim (Bool-cases (is_between b'a' b'f' c)) [
    | inl q ↦ rw (p, q) refl
    | inr q ↦ let r : is_between b'A' b'F' c ≡ true = cc (p, q, e) in rw (p, q, r) refl
  ]
]

hex_step : (n d : ℕ) → d < 16 → add32 (n % word_mod * 16 % word_mod) d ≡ (n * 16 + d) % word_mod
hex_step n d h = omega (arith, h)

pub hex_value_lem :
    (n : ℕ) (cs : CString)
    → All is_hex_digit cs
    → hex_value (n % word_mod) cs ≡ hex_number n cs % word_mod
unfolding hex_value
hex_value_lem n [] all = refl
hex_value_lem n (c ∷ cs) (e, all) =
    ap (λ v. hex_value v cs)
      (add_hex_digit_lem (shl32 (n % word_mod) 4) c e
        ∙ hex_step n (hex_digit_number c) (hex_digit_bound c e))
    ∙ hex_value_lem (n * 16 + hex_digit_number c) cs all

is_hex_digit-is_hex : (c : ℕ) → is_hex_digit c ≡ true → is_hex c ≡ true
unfolding is_hex
is_hex_digit-is_hex c e = ground (arith, e)

pub hex_loop_lem :
    (n c : ℕ) (cs : CString)
    → All is_hex_digit (c ∷ cs)
    → hex_loop (n % word_mod) c (cs ++ 0 ∷ []) ≡ ok (hex_number n (c ∷ cs) % word_mod)
unfolding hex_loop
hex_loop_lem n c [] (e, all) =
    rw (hex_digit_lem c e) (ap ok (hex_step n (hex_digit_number c) (hex_digit_bound c e)))
hex_loop_lem n c (d ∷ ds) (e, (e', all)) =
    ap
      (λ r. r >>= λ digit. elim (is_hex d) [
        | true ↦ hex_loop (add32 (n % word_mod * 16 % word_mod) digit) d (ds ++ 0 ∷ [])
        | false ↦ ok (add32 (n % word_mod * 16 % word_mod) digit)
      ])
      (hex_digit_lem c e)
    ∙ ap
        (λ b. elim b [
          | true ↦
              hex_loop (add32 (n % word_mod * 16 % word_mod) (hex_digit_number c)) d (ds ++ 0 ∷ [])
          | false ↦ ok (add32 (n % word_mod * 16 % word_mod) (hex_digit_number c))
        ])
        (is_hex_digit-is_hex d e')
    ∙ ap (λ v. hex_loop v d (ds ++ 0 ∷ [])) (hex_step n (hex_digit_number c) (hex_digit_bound c e))
    ∙ hex_loop_lem (n * 16 + hex_digit_number c) d ds (e', all)
