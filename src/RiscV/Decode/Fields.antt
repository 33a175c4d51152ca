-- ===== src/RiscV/Decode/Fields.antt =====
-- How a word is decoded, once its fields are known.
use rvcc.Prelude.{ℕ, ◌<◌, ◌≡◌, false, some}
use rvcc.Result.{Result, ok}
use rvcc.Word.{IsWord}
use rvcc.RiscV.Encode.{outside}
use rvcc.RiscV.Isa.{Instr, decode, decode_fields, opcode_field, funct3_field, funct7_field}

abbrev pub IsRegister : ℕ → Type 0
IsRegister r = r < 32

-- -low ≤ imm ≤ high, for a C int
abbrev pub InRange : ℕ → ℕ → ℕ → Type 0
InRange high low imm = IsWord imm × (outside high low imm ≡ false)

-- What an encoder promises of an instruction: a word that decodes to it.
abbrev pub EncodesTo : Result ℕ → Instr → Type 0
EncodesTo r i = (w : ℕ) × (r ≡ ok w) × IsWord w × (decode w ≡ some i)

pub decode_at :
    {opcode funct3 funct7 : ℕ} (w : ℕ)
    → opcode_field w ≡ opcode
    → funct3_field w ≡ funct3
    → funct7_field w ≡ funct7
    → decode w ≡ decode_fields opcode funct3 funct7 w
unfolding decode
decode_at w p q r = λ i. decode_fields (p i) (q i) (r i) w
