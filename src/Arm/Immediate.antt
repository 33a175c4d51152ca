-- ===== src/Arm/Immediate.antt =====
-- a_mov: the loop that turns a value into eight bits and a rotation.
use rvcc.Prelude.{
  ℕ, zero, suc, ◌+◌, ◌-◌, ◌*◌, ◌/◌, ◌%◌, ◌^◌, ◌≤◌, ◌<◌, if◌then◌else◌, ◌≡◌, ◌≢◌, refl, sym, ap, ◌∙◌,
  true, false, ◌⊎◌, inl, inr, Bool-cases, ◌==◌, ==_iff, arith,
}
use rvcc.Result.{ok, err, Error}
use rvcc.Word.{sar32, sub32, slt32}
use rvcc.Arm.Encode.{rotate_out, shifter_operand}
use rvcc.Arm.Isa.{expand_immediate, rotate_right}
use native.Mathlib.Nat.{pow-succ', one-mul, mul_assoc, eq-or-lt_of_le, div-eq_of_lt, mod-eq_of_lt}

abbrev pub pow4 : ℕ → ℕ
pow4 zero = 1
pow4 (suc k) = 4 * pow4 k

-- After `k` rounds: what the value and the shift were.
abbrev IsRotated : ℕ → ℕ → ℕ × ℕ → ℕ → Type 0
IsRotated op2 shift r k = (shift ≡ r.1 + k) × (r.0 * pow4 k ≡ op2)

quarter : (op2 : ℕ) → op2 < 2 ^ 31 → op2 % 4 ≡ 0 → (sar32 op2 2 ≡ op2 / 4) × (4 * (op2 / 4) ≡ op2)
quarter op2 w e = ground arith

rotate_out_next :
    (fuel op2 shift : ℕ)
    → op2 < 2 ^ 31
    → op2 % 4 ≡ 0
    → rotate_out (suc fuel) op2 shift ≡ rotate_out fuel (op2 / 4) (sub32 shift 1)
unfolding rotate_out
rotate_out_next fuel op2 shift w e =
    ap (λ b. elim b [ true ↦ rotate_out fuel (sar32 op2 2) (sub32 shift 1) | false ↦ (op2, shift) ])
      ((==_iff (op2 % 4) 0).1 e)
    ∙ ap (λ a. rotate_out fuel a (sub32 shift 1)) (quarter op2 w e).0

rotate_out_last :
    (fuel op2 shift : ℕ) → op2 % 4 == 0 ≡ false → rotate_out (suc fuel) op2 shift ≡ (op2, shift)
unfolding rotate_out
rotate_out_last fuel op2 shift e =
    ap (λ b. elim b [ true ↦ rotate_out fuel (sar32 op2 2) (sub32 shift 1) | false ↦ (op2, shift) ])
      e

rotate_out-IsRotated :
    (fuel op2 shift : ℕ)
    → op2 < 2 ^ 31
    → fuel ≤ shift
    → shift ≤ 16
    → (k : ℕ) × (k ≤ fuel) × IsRotated op2 shift (rotate_out fuel op2 shift) k
unfolding rotate_out
rotate_out-IsRotated zero op2 shift w f s = (0, omega arith, (omega arith, omega arith))
rotate_out-IsRotated (suc fuel) op2 shift w f s = elim (Bool-cases (op2 % 4 == 0)) [
  | inl e ↦
      let zero_bits = (==_iff (op2 % 4) 0).0 e in
      let (q, four) = quarter op2 w zero_bits in
      let less : sub32 shift 1 ≡ shift - 1 = omega (arith, f, s) in
      let (k, bound, (a, b)) =
        rotate_out-IsRotated fuel (op2 / 4) (shift - 1) (omega (arith, w)) (omega (arith, f))
          (omega (arith, s)) in
      rw (rotate_out_next fuel op2 shift w zero_bits)
        (rw less (suc k, omega (arith, bound), (omega (arith, a, f), grind (arith, b, four))))
  | inr e ↦ rw (rotate_out_last fuel op2 shift e) (0, omega arith, (omega arith, omega arith))
]

-- The loop ends with a value whose last two bits are not both 0.
rotate_out-stops :
    (fuel op2 shift : ℕ)
    → op2 < 2 ^ 31
    → 0 < op2
    → op2 < pow4 fuel
    → (rotate_out fuel op2 shift).0 % 4 ≢ 0
rotate_out-stops zero op2 shift w p f = absurd (omega (arith, p, f))
rotate_out-stops (suc fuel) op2 shift w p f = elim (Bool-cases (op2 % 4 == 0)) [
  | inl e ↦
      let zero_bits = (==_iff (op2 % 4) 0).0 e in
      let four = (quarter op2 w zero_bits).1 in
      rw (rotate_out_next fuel op2 shift w zero_bits) (
        rotate_out-stops fuel (op2 / 4) (sub32 shift 1) (omega (arith, w)) (omega (arith, p, four))
          (omega (arith, f, four)))
  | inr e ↦ rw (rotate_out_last fuel op2 shift e) (ground arith)
]

pow4_pos : (k : ℕ) → 0 < pow4 k
pow4_pos zero = omega arith
pow4_pos (suc k) = omega (arith, pow4_pos k)

cancel_four : (v p w q : ℕ) → v * (4 * p) ≡ w * (4 * q) → v * p ≡ w * q
cancel_four v p w q e = grind (arith, e)

not_multiple : (v w q : ℕ) → v * 1 ≡ w * (4 * q) → v % 4 ≡ 0
not_multiple v w q e = grind (arith, e)

bigger_multiple : (v w p : ℕ) → v * (4 * p) ≡ w * 1 → 0 < p → v ≤ w
bigger_multiple v w p e pos = grind (arith, e, pos)

-- Of two ways to write a number as a multiple of a power of 4, the one that is not a multiple of 4
-- has the lesser value.
pow4_cancel : (v imm k j : ℕ) → v * pow4 k ≡ imm * pow4 j → v % 4 ≢ 0 → v ≤ imm
pow4_cancel v imm zero zero e odd = omega (arith, e)
pow4_cancel v imm zero (suc j) e odd = absurd (odd (not_multiple v imm (pow4 j) e))
pow4_cancel v imm (suc k) zero e odd = bigger_multiple v imm (pow4 k) e (pow4_pos k)
pow4_cancel v imm (suc k) (suc j) e odd =
    pow4_cancel v imm k j (cancel_four v (pow4 k) imm (pow4 j) e) odd

pow4_def : (k : ℕ) → 2 ^ (2 * k) ≡ pow4 k
pow4_def zero = refl
pow4_def (suc k) =
    ap (λ n. 2 ^ n) {y = suc (suc (2 * k))} (omega arith)
    ∙ pow-succ' 2 (suc (2 * k))
    ∙ ap (λ n. 2 * n) (pow-succ' 2 (2 * k))
    ∙ omega (arith, pow4_def k)

pow4_add : (j k : ℕ) → pow4 (j + k) ≡ pow4 j * pow4 k
pow4_add zero k = ap pow4 (omega arith) ∙ sym (one-mul (pow4 k))
pow4_add (suc j) k =
    ap pow4 {y = suc (j + k)} (omega arith)
    ∙ ap (λ n. 4 * n) (pow4_add j k)
    ∙ sym (mul_assoc 4 (pow4 j) (pow4 k))

full_turn : (k : ℕ) → k ≤ 16 → 2 ^ (2 * (16 - k)) * pow4 k ≡ 2 ^ 32
full_turn k h =
    ap (λ n. n * pow4 k) (pow4_def (16 - k))
    ∙ sym (pow4_add (16 - k) k)
    ∙ ap pow4 {y = 16} (omega (arith, h))

left_turn : (k : ℕ) → k ≤ 16 → 2 ^ (32 - 2 * (16 - k)) ≡ pow4 k
left_turn k h = ap (λ n. 2 ^ n) {y = 2 * k} (omega (arith, h)) ∙ pow4_def k

less_factor : (v n p : ℕ) → n * p ≡ 2 ^ 32 → v * p < 2 ^ 31 → v < n
less_factor v n p turn small = grind (arith, turn, small)

-- A rotation that keeps every bit multiplies.
rotate_right_lem :
    (n v p : ℕ) → 2 ^ n * p ≡ 2 ^ 32 → 2 ^ (32 - n) ≡ p → v * p < 2 ^ 31 → rotate_right v n ≡ v * p
rotate_right_lem n v p turn e small =
    let less : v < 2 ^ n = less_factor v (2 ^ n) p turn small in
    (λ i. div-eq_of_lt less i + mod-eq_of_lt less i * e i) ∙ omega arith

-- What the processor makes of the field for `k` rounds.
expand_immediate_lem :
    (k v : ℕ)
    → k < 16
    → v < 256
    → v * pow4 k < 2 ^ 31
    → expand_immediate ((16 - k) * 256 + v) ≡ v * pow4 k
unfolding expand_immediate
expand_immediate_lem k v h b small =
    let turns : 2 * (((16 - k) * 256 + v) / 256) ≡ 2 * (16 - k) = omega (arith, b) in
    let low : ((16 - k) * 256 + v) % 256 ≡ v = omega (arith, b) in
    let turned : 2 * (16 - k) == 0 ≡ false = ground (arith, h) in
    (λ i. if turns i == 0 then low i else rotate_right (low i) (turns i))
    ∙ ap (λ b. if b then v else rotate_right v (2 * (16 - k))) turned
    ∙ rotate_right_lem (2 * (16 - k)) v (pow4 k) (full_turn k (omega (arith, h)))
        (left_turn k (omega (arith, h))) small

small_immediate : (v : ℕ) → v < 256 → expand_immediate (v % 256) ≡ v
unfolding expand_immediate
small_immediate v b = ground (arith, b)

factor_le : (v k op2 : ℕ) → v * pow4 k ≡ op2 → v ≤ op2
factor_le v k op2 e = let pos = pow4_pos k in grind (arith, e, pos)

no_product : (v op2 : ℕ) → v * 2 ^ 32 ≡ op2 → 255 < op2 → op2 < 2 ^ 31 → ⊥
no_product v op2 e large w = omega (arith, e, large, w)

turns_left : (v k op2 : ℕ) → k ≤ 16 → v * pow4 k ≡ op2 → 255 < op2 → op2 < 2 ^ 31 → k < 16
turns_left v k op2 bound e large w = elim (eq-or-lt_of_le bound) [
  | inl is ↦ absurd (no_product v op2 (ap (λ k. v * pow4 k) (sym is) ∙ e) large w)
  | inr less ↦ less
]

turns_pos : (v k op2 : ℕ) → v * pow4 k ≡ op2 → v < op2 → 0 < k
turns_pos v zero op2 e less = absurd (omega (arith, e, less))
turns_pos v (suc k) op2 e less = omega arith

above_255 : (v : ℕ) → v < 2 ^ 31 → slt32 255 v ≡ true → 255 < v
above_255 v w e = ground (arith, e, w)

at_most_255 : (v : ℕ) → v < 2 ^ 31 → slt32 255 v ≡ false → v < 256
at_most_255 v w e = ground (arith, e, w)

-- A value that eight bits and an even shift make.
abbrev pub IsEightBits : ℕ → Type 0
IsEightBits op2 = (imm : ℕ) × (j : ℕ) × (imm < 256) × (imm * pow4 j ≡ op2)

-- A field of twelve bits that the processor expands to the value.
abbrev pub IsFieldOf : ℕ → ℕ → Type 0
IsFieldOf op2 f = (f < 4096) × (expand_immediate f ≡ op2)

-- The field of a value below 2^31, or the error, which means that no such field exists without
-- wrapping around.
pub shifter_operand-decides :
    (op2 : ℕ)
    → op2 < 2 ^ 31
    → ((f : ℕ) × (shifter_operand op2 ≡ ok f) × IsFieldOf op2 f)
      ⊎ ((shifter_operand op2 ≡ err Error.unable_to_represent_value) × ¬ IsEightBits op2)
unfolding shifter_operand
shifter_operand-decides op2 w = elim (Bool-cases (slt32 255 op2)) [
  | inr e ↦
      let small : op2 < 256 = at_most_255 op2 w e in
      inl (op2 % 256, rw e refl, (omega arith, small_immediate op2 small))
  | inl big ↦
      let (k, bound, (turns, value)) =
        rotate_out-IsRotated 16 op2 16 w (omega arith) (omega arith) in
      let v = (rotate_out 16 op2 16).0 in
      let large : 255 < op2 = above_255 op2 w big in
      let below : v ≤ op2 = factor_le v k op2 value in
      let odd = rotate_out-stops 16 op2 16 w (omega (arith, large)) (omega (arith, w)) in
      elim (Bool-cases (slt32 255 v)) [
        | inl e ↦
            let wide : 255 < v = above_255 v (omega (arith, below, w)) e in
            inr (
              rw big (rw e refl),
              λ (imm, j, b, same).
                  let narrow : v ≤ imm = pow4_cancel v imm k j (value ∙ sym same) odd in
                  omega (arith, wide, narrow, b),
            )
        | inr e ↦
            let narrow : v < 256 = at_most_255 v (omega (arith, below, w)) e in
            let partial : k < 16 = turns_left v k op2 bound value large w in
            let some_turn : 0 < k = turns_pos v k op2 value (omega (arith, narrow, large)) in
            let field = (16 - k) * 256 + v in
            inl (
              field,
              rw big (rw e (ap ok (omega (arith, turns, bound, narrow)))),
              (
                omega (arith, partial, narrow, some_turn),
                expand_immediate_lem k v partial narrow (omega (arith, value, w)) ∙ value,
              ),
            )
      ]
]
