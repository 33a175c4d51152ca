-- ===== src/Tests/Arm.antt =====
-- Single ARM instructions, encoded.
use rvcc.Prelude.{ℕ, ◌/◌, ◌%◌, ◌^◌, ◌≡◌, ◌⊎◌, inr, refl, true, false, not, some, ◌==◌, arith}
use rvcc.Result.{ok, err, Error}
use rvcc.Word.{neg32, sub32, slt32}
use rvcc.Arm.Opcode.{ArOp, ar_op, ArCond, ar_cond}
use rvcc.Arm.Encode.{a_encode, a_mov, a_movw, a_movt, a_transfer, shifter_operand}
use rvcc.Arm.Asm.{a_b, a_bl, a_blx, a_mul, a_sll, a_srl, a_bx}
use rvcc.Arm.Isa.{Instr, Operand, decode}
use rvcc.Arm.Immediate.{IsEightBits}
use rvcc.Arm.Decode.Data.{decode-a_mov}
use rvcc.Arm.Decode.Halves.{decode-halves}
use rvcc.Arm.Decode.Transfer.{decode-a_transfer, distance}
use rvcc.Arm.Decode.Branch.{decode-branches}
use rvcc.Arm.Decode.Register.{decode-registers}

-- 0xff00 takes 12 turns of two bits to the right.
field : shifter_operand 0xff00 ≡ ok 0xcff
unfolding shifter_operand
field = refl

-- Nine bits in a row are too many.
no_field : shifter_operand 0x1ff ≡ err Error.unable_to_represent_value
unfolding shifter_operand
no_field = refl

-- The last bits of bx are not those of the instruction set, 0xf10 and the register.
bx_word : a_bx ArCond.al 14 ≡ ok 0xe12ff0ff
unfolding a_bx a_encode
bx_word = refl

decode-a_mov_example :
    ((w : ℕ) × (a_mov ArCond.al 1 ArOp.add 0 13 12 0xff00 ≡ ok w)
      × (decode w
          ≡ some (
              Instr.data_processing
                (ar_cond ArCond.al)
                (ar_op ArOp.add)
                (0 == 1)
                13
                12
                (Operand.immediate 0xff00))))
    ⊎ ((a_mov ArCond.al 1 ArOp.add 0 13 12 0xff00 ≡ err Error.unable_to_represent_value)
        × ¬ IsEightBits 0xff00)
unfolding ar_op
decode-a_mov_example =
    decode-a_mov ArCond.al ArOp.add 0 13 12 0xff00 (omega arith) refl (omega arith) (omega arith)
      (omega arith)

decode-halves_example :
    ((w : ℕ) × (a_movw ArCond.al 8 0x12345678 ≡ ok w)
      × (decode w ≡ some (Instr.movw (ar_cond ArCond.al) 8 (0x12345678 % 2 ^ 16))))
    × ((w : ℕ) × (a_movt ArCond.al 8 0x12345678 ≡ ok w)
        × (decode w ≡ some (Instr.movt (ar_cond ArCond.al) 8 (0x12345678 / 2 ^ 16))))
decode-halves_example = decode-halves ArCond.al 8 0x12345678 (omega arith) (omega arith)

decode-a_transfer_example :
    (w : ℕ) × (a_transfer ArCond.al 1 4 13 0 (neg32 4) ≡ ok w)
    × (decode w
        ≡ some (
            Instr.load_store
              (ar_cond ArCond.al)
              (1 == 1)
              (4 == 1)
              (not (slt32 (neg32 4) 0))
              13
              0
              (distance (neg32 4))))
decode-a_transfer_example =
    decode-a_transfer ArCond.al 1 4 13 0 (neg32 4) (omega arith) (omega arith) (omega arith)
      (inr (omega arith, omega arith))

decode-branches_example :
    ((w : ℕ) × (a_b ArCond.eq (neg32 64) ≡ ok w)
      × (decode w ≡ some (Instr.branch (ar_cond ArCond.eq) false (sub32 (neg32 64) 8))))
    × ((w : ℕ) × (a_bl ArCond.eq (neg32 64) ≡ ok w)
        × (decode w ≡ some (Instr.branch (ar_cond ArCond.eq) true (sub32 (neg32 64) 8))))
decode-branches_example =
    decode-branches ArCond.eq (neg32 64) (refl, inr (omega arith, omega arith))

decode-registers_example :
    ((w : ℕ) × (a_mul ArCond.al 1 2 3 ≡ ok w)
      × (decode w ≡ some (Instr.mul (ar_cond ArCond.al) 1 2 3)))
    × ((w : ℕ) × (a_sll ArCond.al 1 2 3 ≡ ok w)
        × (decode w
            ≡ some (
                Instr.data_processing (ar_cond ArCond.al) 13 false 0 1 (Operand.shifted_left 2 3))))
    × ((w : ℕ) × (a_srl ArCond.al 1 2 3 ≡ ok w)
        × (decode w
            ≡ some (
                Instr.data_processing
                  (ar_cond ArCond.al)
                  13
                  false
                  0
                  1
                  (Operand.shifted_right 2 3))))
    × ((w : ℕ) × (a_blx ArCond.al 1 ≡ ok w)
        × (decode w ≡ some (Instr.branch_register (ar_cond ArCond.al) true 1)))
decode-registers_example =
    decode-registers ArCond.al 1 2 3 (omega arith) (omega arith) (omega arith)
