-- ===== src/Arm/Decode/Transfer.antt =====
-- Loads and stores: a_transfer.
use rvcc.Prelude.{
  ℕ, ◌+◌, ◌-◌, ◌*◌, ◌%◌, ◌≤◌, ◌<◌, ◌≡◌, refl, ap, ◌∙◌, ◌⊎◌, Bool, true, false, not, Bool-cases, inl,
  inr, some, ◌==◌, if◌then◌else◌, arith,
}
use rvcc.Result.{ok}
use rvcc.Word.{word_mod, neg32, slt32}
use rvcc.Arm.Opcode.{ArCond, ar_cond}
use rvcc.Arm.Encode.{a_encode}
use rvcc.Arm.Isa.{Instr, decode, decode_class, field, bit}
use rvcc.Arm.Decode.Words.{
  IsRegister, cond_bound, a_word, word_cond, word_rn, word_rd, word_low, decode_at, a_encode_word,
  bit_of,
}
use rvcc.Arm.Encode.{a_transfer}
use rvcc.Arm.Isa.{decode_load_store}
use rvcc.Word.{word_mod, neg32}

-- Loads and stores: the size, the direction and the offset's sign are bits of the opcode.
decode_load_store_lem :
    (w c rn rd f : ℕ) (load byte up : Bool)
    → field w 24 1 ≡ 1
    → field w 21 1 ≡ 0
    → bit w 20 ≡ load
    → bit w 22 ≡ byte
    → bit w 23 ≡ up
    → field w 28 4 ≡ c
    → field w 16 4 ≡ rn
    → field w 12 4 ≡ rd
    → field w 0 12 ≡ f
    → decode_load_store w ≡ some (Instr.load_store c load byte up rn rd f)
unfolding decode_load_store
decode_load_store_lem w c rn rd f load byte up e24 e21 e20 e22 e23 e28 e16 e12 e0 =
    rw (e24, e21, e20, e22, e23, e28, e16, e12, e0) refl

decode-transfer_word :
    (cond : ArCond) (up byte l rn rd f : ℕ)
    → up ≤ 1
    → byte ≤ 1
    → l ≤ 1
    → IsRegister rn
    → IsRegister rd
    → f < 4096
    → decode (a_encode cond (80 + up * 8 + byte * 4 + l) rn rd f)
      ≡ some (Instr.load_store (ar_cond cond) (l == 1) (byte == 1) (up == 1) rn rd f)
unfolding decode_class
decode-transfer_word cond up byte l rn rd f bu bb bl n d bf =
    let o = 80 + up * 8 + byte * 4 + l in
    let c = ar_cond cond in
    let bc = cond_bound cond in
    let bo : o < 256 = omega (arith, bu, bb, bl) in
    let w = a_word c o rn rd f in
    ap decode (a_encode_word cond o rn rd f bo n d bf)
    ∙ decode_at c o rn rd f bc bo n d bf 2 (omega (arith, bu, bb, bl))
    ∙ decode_load_store_lem w c rn rd f (l == 1) (byte == 1) (up == 1) (omega arith) (omega arith)
        (bit_of l w 20 (omega arith)) (bit_of byte w 22 (omega arith))
        (bit_of up w 23 (omega arith)) (word_cond c o rn rd f bc bo n d bf)
        (word_rn c o rn rd f bc bo n d bf) (word_rd c o rn rd f bc bo n d bf)
        (word_low c o rn rd f bc bo n d bf)

-- An offset that a load or a store can hold: twelve bits and a sign.
abbrev pub IsTransferOffset : ℕ → Type 0
IsTransferOffset ofs = (ofs < 4096) ⊎ ((word_mod - 4096 < ofs) × (ofs < word_mod))

-- How an instruction holds it: its distance from 0, and whether it goes up.
abbrev pub distance : ℕ → ℕ
distance ofs = if slt32 ofs 0 then neg32 ofs else ofs

transfer_case :
    (cond : ArCond) (o up byte l rn rd f : ℕ)
    → o ≡ 80 + up * 8 + byte * 4 + l
    → up ≤ 1
    → byte ≤ 1
    → l ≤ 1
    → IsRegister rn
    → IsRegister rd
    → f < 4096
    → (w : ℕ) × (ok (a_encode cond o rn rd f) ≡ ok w)
      × (decode w ≡ some (Instr.load_store (ar_cond cond) (l == 1) (byte == 1) (up == 1) rn rd f))
transfer_case cond o up byte l rn rd f e bu bb bl n d bf = (
  a_encode cond (80 + up * 8 + byte * 4 + l) rn rd f,
  ap (λ o. ok (a_encode cond o rn rd f)) e,
  decode-transfer_word cond up byte l rn rd f bu bb bl n d bf,
)

-- With registers below 16 and an offset from -4095 to 4095, a_transfer makes a word that decodes
-- to the load or store with that size, the sign of the offset and its distance from 0.
pub decode-a_transfer :
    (cond : ArCond) (l size rn rd ofs : ℕ)
    → l ≤ 1
    → IsRegister rn
    → IsRegister rd
    → IsTransferOffset ofs
    → (w : ℕ) × (a_transfer cond l size rn rd ofs ≡ ok w)
      × (decode w
          ≡ some (
              Instr.load_store
                (ar_cond cond)
                (l == 1)
                (size == 1)
                (not (slt32 ofs 0))
                rn
                rd
                (distance ofs)))
unfolding a_transfer
decode-a_transfer cond l size rn rd ofs bl n d (inl small) =
    let up : slt32 ofs 0 ≡ false = ground (arith, small) in
    let low : ofs % 4096 ≡ ofs = omega (arith, small) in
    elim (Bool-cases (size == 1)) [
      | inl e ↦
          rw (e, up, low)
            (transfer_case cond (64 + 16 + 8 + l + 4) 1 1 l rn rd ofs (omega arith) (omega arith)
              (omega arith) bl n d small)
      | inr e ↦
          rw (e, up, low)
            (transfer_case cond (64 + 16 + 8 + l) 1 0 l rn rd ofs (omega arith) (omega arith)
              (omega arith) bl n d small)
    ]
decode-a_transfer cond l size rn rd ofs bl n d (inr (large, word)) =
    let down : slt32 ofs 0 ≡ true = ground (arith, large, word) in
    let small : neg32 ofs < 4096 = omega (arith, large, word) in
    let low : neg32 ofs % 4096 ≡ neg32 ofs = omega (arith, large, word) in
    elim (Bool-cases (size == 1)) [
      | inl e ↦
          rw (e, down, low)
            (transfer_case cond (64 + 16 + 8 + l + 4 - 8) 0 1 l rn rd (neg32 ofs) (omega arith)
              (omega arith) (omega arith) bl n d small)
      | inr e ↦
          rw (e, down, low)
            (transfer_case cond (64 + 16 + 8 + l - 8) 0 0 l rn rd (neg32 ofs) (omega arith)
              (omega arith) (omega arith) bl n d small)
    ]
