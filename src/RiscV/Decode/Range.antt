-- ===== src/RiscV/Decode/Range.antt =====
-- src/arch/riscv.c: which immediates the encoders refuse.
use rvcc.Prelude.{ℕ, ◌-◌, ◌^◌, ◌≤◌, ◌<◌, ◌≡◌, ◌↔◌, refl, Bool, true, false, if◌then◌else◌, arith}
use rvcc.Result.{Result, ok, err, Error}
use rvcc.Word.{IsWord}
use rvcc.RiscV.Opcode.{RiOp}
use rvcc.RiscV.Encode.{r_encode_I, r_encode_S, r_encode_B, r_encode_J, r_encode_U, outside}

-- A C int above 2 ^ bits - 1 or below - 2 ^ bits.
abbrev pub TooFar : ℕ → ℕ → Type 0
TooFar bits imm = (2 ^ bits ≤ imm) × (imm < 2 ^ 32 - 2 ^ bits)

abbrev pub Encoded : Result ℕ → Type 0
Encoded r = (w : ℕ) × (r ≡ ok w)

outside-TooFar_11 : (imm : ℕ) → IsWord imm → outside 2047 2048 imm ≡ true ↔ TooFar 11 imm
outside-TooFar_11 imm w = ground arith

outside-TooFar_12 : (imm : ℕ) → IsWord imm → outside 4095 4096 imm ≡ true ↔ TooFar 12 imm
outside-TooFar_12 imm w = ground arith

-- The encoder stops exactly for a value that is too far, and makes a word of any other.
abbrev pub StopsBeyond : ℕ → ℕ → Result ℕ → Type 0
StopsBeyond bits imm r =
    ((r ≡ err Error.offset_too_large) ↔ TooFar bits imm) × (Encoded r ↔ ¬ TooFar bits imm)

test-StopsBeyond :
    (bits imm : ℕ) (test : Bool) (w : ℕ)
    → test ≡ true ↔ TooFar bits imm
    → StopsBeyond bits imm (if test then err Error.offset_too_large else ok w)
test-StopsBeyond bits imm true w (to, from) = (
  ((λ e. to refl), (λ far. refl)),
  ((λ encoded. λ far. let e = encoded.1 in cc e), (λ near. absurd (near (to refl)))),
)
test-StopsBeyond bits imm false w (to, from) = (
  ((λ e. cc e), (λ far. let e = from far in cc e)),
  ((λ encoded. λ far. let e = from far in cc e), (λ near. (w, refl))),
)

-- For any 32-bit value, r_encode_I and r_encode_S stop the compiler exactly if it is, as a C
-- int, below -2048 or above 2047, and r_encode_B exactly if it is below -4096 or above 4095. Of
-- any other value they make a word, as r_encode_J and r_encode_U do of every value.
pub offset_too_large-encoders :
    (on_immediate store branch jump upper : RiOp) (rd rs1 rs2 imm : ℕ)
    → IsWord imm
    → StopsBeyond 11 imm (r_encode_I on_immediate rd rs1 imm)
      × StopsBeyond 11 imm (r_encode_S store rs1 rs2 imm)
      × StopsBeyond 12 imm (r_encode_B branch rs1 rs2 imm)
      × Encoded (r_encode_J jump rd imm)
      × Encoded (r_encode_U upper rd imm)
unfolding r_encode_I r_encode_S r_encode_B r_encode_J r_encode_U
offset_too_large-encoders on_immediate store branch jump upper rd rs1 rs2 imm w = (
  test-StopsBeyond 11 imm (outside 2047 2048 imm) _ (outside-TooFar_11 imm w),
  test-StopsBeyond 11 imm (outside 2047 2048 imm) _ (outside-TooFar_11 imm w),
  test-StopsBeyond 12 imm (outside 4095 4096 imm) _ (outside-TooFar_12 imm w),
  (_, refl),
  (_, refl),
)
