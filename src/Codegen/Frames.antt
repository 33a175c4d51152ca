-- ===== src/Codegen/Frames.antt =====
-- c_size_function and c_size_block: where the variables of a frame lie.
use rvcc.Prelude.{ℕ, ◌+◌, ◌%◌, ◌^◌, ◌≤◌, ◌<◌, ◌≡◌, refl, ap, ◌∙◌, subst, List, [], ◌∷◌, arith}
use rvcc.Result.{Result, ok, err, >>=-eq-ok}
use rvcc.Word.{word_mod, add32}
use rvcc.Buffer.Writes.{ok_injective}
use rvcc.Tables.{VariableDef, FunctionDef, Tables, size_variable}
use rvcc.Codegen.Sizing.{place_variables, frame_size, c_size_function}

-- The variables lie one behind the other from `lo` to `hi`, each with as many bytes as its size, and
-- the offset of each is the end of its place.
pub data Tiles (t : Tables) : ℕ → List VariableDef → ℕ → Type 0 where
  done : {lo : ℕ} → Tiles t lo [] lo
  next :
      {lo hi : ℕ} {var : VariableDef} {vars : List VariableDef} (n : ℕ)
      → size_variable var t ≡ ok n
      → var.offset ≡ lo + n
      → Tiles t (lo + n) vars hi
      → Tiles t lo (var ∷ vars) hi

abbrev size_or_zero : Result ℕ → ℕ
size_or_zero (ok n) = n
size_or_zero (err e) = 0

-- The sum of the sizes, without a wrap-around.
abbrev pub sum_sizes : Tables → List VariableDef → ℕ
sum_sizes t [] = 0
sum_sizes t (var ∷ vars) = size_or_zero (size_variable var t) + sum_sizes t vars

size_variable-offset :
    (var : VariableDef) (offset : ℕ) (t : Tables)
    → size_variable (record var { offset = offset }) t ≡ size_variable var t
unfolding size_variable
size_variable-offset var offset t = refl

pub place_variables-Tiles :
    (t : Tables) (base size : ℕ) (vars placed : List VariableDef) (total : ℕ)
    → base + size + sum_sizes t vars < word_mod
    → place_variables t base size vars ≡ ok (placed, total)
    → Tiles t (base + size) placed (base + total) × (total ≡ size + sum_sizes t vars)
unfolding place_variables
place_variables-Tiles t base size [] placed total small h =
    let g : ([], size) ≡ (placed, total) = ok_injective h in
    (subst (λ p. Tiles t (base + size) p.0 (base + p.1)) g done, omega (arith, ap (λ p. p.1) g))
place_variables-Tiles t base size (var ∷ vars) placed total small h =
    let (n, h₁, h₂) = >>=-eq-ok (size_variable var t) _ h in
    let n' : size_or_zero (size_variable var t) ≡ n = ap size_or_zero h₁ in
    let ((placed', total'), h₃, h₄) = >>=-eq-ok (place_variables t base (add32 size n) vars) _ h₂ in
    let sum : add32 size n ≡ size + n = omega (arith, n', small) in
    let (tiles, e) =
      place_variables-Tiles t base (size + n) vars placed' total' (omega (arith, n', small))
        (subst (λ k. place_variables t base k vars ≡ ok (placed', total')) sum h₃) in
    let g : (record var { offset = add32 (add32 size base) n } ∷ placed', total')
        ≡ (placed, total) =
      ok_injective h₄ in
    let at : add32 (add32 size base) n ≡ base + size + n = omega (arith, n', small) in
    let lo : base + (size + n) ≡ base + size + n = omega arith in
    (
      subst (λ p. Tiles t (base + size) p.0 (base + p.1)) g
          (next n (size_variable-offset var _ t ∙ h₁) at
            (subst (λ k. Tiles t k placed' (base + total')) lo tiles)),
      omega (arith, ap (λ p. p.1) g, e, n'),
    )

pub frame_size-ok :
    (s n : ℕ)
    → s + 16 < 2 ^ 31
    → frame_size s ≡ ok n
    → (s ≤ n) × (n < s + 16) × (n % 16 ≡ 0) × (n < 2048)
unfolding frame_size
frame_size-ok s n small h = ground arith

-- Where the sizes of the parameters add up to less than 2 ^ 31 - 16 and c_size_function ends
-- well, the parameters lie in the frame one behind the other from offset 0, each with as many
-- bytes as its size, and the size of the frame is the next multiple of 16 and below 2048.
pub c_size_function-Tiles :
    (t : Tables) (fn fn' : FunctionDef)
    → sum_sizes t fn.param_defs + 16 < 2 ^ 31
    → c_size_function t fn ≡ ok fn'
    → Tiles t 0 fn'.param_defs (sum_sizes t fn.param_defs)
      × (sum_sizes t fn.param_defs ≤ fn'.params_size)
      × (fn'.params_size < sum_sizes t fn.param_defs + 16)
      × (fn'.params_size % 16 ≡ 0)
      × (fn'.params_size < 2048)
unfolding c_size_function
c_size_function-Tiles t fn fn' small h =
    let ((placed, s), h₁, h₂) = >>=-eq-ok (place_variables t 0 0 fn.param_defs) _ h in
    let (size, h₃, h₄) = >>=-eq-ok (frame_size s) _ h₂ in
    let (tiles, e) = place_variables-Tiles t 0 0 fn.param_defs placed s (omega (arith, small)) h₁ in
    let g = ok_injective h₄ in
    let (a, b, c, d) = frame_size-ok s size (omega (arith, e, small)) h₃ in
    let e' : 0 + s ≡ sum_sizes t fn.param_defs = omega (arith, e) in
    let f : size ≡ fn'.params_size = ap (λ k. k.params_size) g in
    (
      subst (λ k. Tiles t 0 k (sum_sizes t fn.param_defs)) (ap (λ k. k.param_defs) g)
          (subst (λ k. Tiles t 0 placed k) e' tiles),
      omega (arith, e, a, f),
      omega (arith, e, b, f),
      omega (arith, c, f),
      omega (arith, d, f),
    )
