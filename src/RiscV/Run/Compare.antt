-- ===== src/RiscV/Run/Compare.antt =====
-- r_op_cmp: the emitted instructions compare two registers.
use rvcc.Prelude.{
  ℕ, ◌+◌, ◌<◌, ◌≡◌, refl, ap, Bool, true, false, not, some, [], ◌∷◌, List, arith, ◌==◌,
  if◌then◌else◌,
}
use rvcc.Word.{word_mod, add32, slt32}
use rvcc.Il.{IlOp}
use rvcc.Buffer.{Emit, ◌>>◌, c_emit}
use rvcc.Backend.Defs.{BackendState}
use rvcc.Backend.Laws.{IsCmp}
use rvcc.RiscV.Opcode.{RiOp, r_zero}
use rvcc.RiscV.Encode.{r_encode_B}
use rvcc.RiscV.Asm.{r_beq, r_bne, r_blt, r_bge, r_addi, r_jal}
use rvcc.RiscV.Backend.{r_cmp_branch, r_op_cmp}
use rvcc.RiscV.Isa.{Instr, i_type, b_type, j_type}
use rvcc.RiscV.Decode.Fields.{IsRegister}
use rvcc.RiscV.Decode.Named.{addi-EncodesTo, jal-EncodesTo}
use rvcc.RiscV.Decode.Branch.{IsBranchOp, decode-r_encode_B}
use rvcc.RiscV.Machine.{Machine, read, write, flag, branches, exec}
use rvcc.RiscV.Machine.Code.{
  Assembles, Assembles->>, Assembles-c_emit, Holds, Holds-Code, Code, Runs, here, Runs-step,
}

-- What the comparison operators of C mean on two values.
abbrev pub compares : IlOp → ℕ → ℕ → Bool
compares IlOp.equals a b = a == b
compares IlOp.not_equals a b = not (a == b)
compares IlOp.less_than a b = slt32 a b
compares IlOp.less_eq_than a b = not (slt32 b a)
compares IlOp.greater_than a b = slt32 b a
compares IlOp.greater_eq_than a b = not (slt32 a b)
compares _ a b = false

-- The branch, and the three instructions that it may jump over.
abbrev cmp_listing : RiOp → ℕ → ℕ → ℕ → List Instr
cmp_listing op a b dest =
    b_type op a b 12
    ∷ i_type RiOp.addi dest r_zero 0
    ∷ j_type RiOp.jal r_zero 8
    ∷ i_type RiOp.addi dest r_zero 1
    ∷ []

module _ (state : BackendState) (d : IsRegister state.dest_reg) (o : IsRegister state.op_reg) where
  tail_listing :
      (m : Emit) (op : RiOp) (a b : ℕ)
      → Assembles (b_type op a b 12 ∷ []) m
      → Assembles (cmp_listing op a b state.dest_reg) (
          m
          >> (c_emit (r_addi state.dest_reg r_zero 0)
              >> (c_emit (r_jal r_zero 8) >> c_emit (r_addi state.dest_reg r_zero 1))))
  tail_listing m op a b p = Assembles->> p (
      Assembles->> (Assembles-c_emit (addi-EncodesTo _ _ 0 d (omega arith) (omega arith, refl))) (
        Assembles->>
          (Assembles-c_emit (jal-EncodesTo _ 8 (omega arith) ((omega arith, refl), refl)))
          (Assembles-c_emit (addi-EncodesTo _ _ 1 d (omega arith) (omega arith, refl)))))

  branch_listing :
      (a b : ℕ)
      → IsRegister a
      → IsRegister b
      → (op : RiOp) → IsBranchOp op
      → Assembles (cmp_listing op a b state.dest_reg) (
          c_emit (r_encode_B op a b 12)
          >> (c_emit (r_addi state.dest_reg r_zero 0)
              >> (c_emit (r_jal r_zero 8) >> c_emit (r_addi state.dest_reg r_zero 1))))
  branch_listing a b p q op i =
      tail_listing _ op a b
        (Assembles-c_emit (decode-r_encode_B a b 12 p q ((omega arith, refl), refl) op i))

  -- The mnemonic and the order of the operands, for each comparison.
  cmp-Assembles :
      (op : IlOp)
      → IsCmp op
      → (rop : RiOp) × (a : ℕ) × (b : ℕ) × Assembles
          (cmp_listing rop a b state.dest_reg)
          (r_op_cmp state op)
        × ((m : Machine)
            → branches rop (read m a) (read m b)
              ≡ compares op (read m state.dest_reg) (read m state.op_reg))
  unfolding r_op_cmp r_cmp_branch r_beq r_bne r_blt r_bge branches
  cmp-Assembles IlOp.equals i =
      (RiOp.beq, state.dest_reg, state.op_reg, branch_listing _ _ d o RiOp.beq tt, λ m. refl)
  cmp-Assembles IlOp.not_equals i =
      (RiOp.bne, state.dest_reg, state.op_reg, branch_listing _ _ d o RiOp.bne tt, λ m. refl)
  cmp-Assembles IlOp.less_than i =
      (RiOp.blt, state.dest_reg, state.op_reg, branch_listing _ _ d o RiOp.blt tt, λ m. refl)
  cmp-Assembles IlOp.greater_eq_than i =
      (RiOp.bge, state.dest_reg, state.op_reg, branch_listing _ _ d o RiOp.bge tt, λ m. refl)
  cmp-Assembles IlOp.greater_than i =
      (RiOp.blt, state.op_reg, state.dest_reg, branch_listing _ _ o d RiOp.blt tt, λ m. refl)
  cmp-Assembles IlOp.less_eq_than i =
      (RiOp.bge, state.op_reg, state.dest_reg, branch_listing _ _ o d RiOp.bge tt, λ m. refl)
  cmp-Assembles _ i = absurd i

-- The machine after a comparison: one register set, the code passed.
abbrev pub compared : Machine → ℕ → Bool → ℕ → Machine
compared m dest c pc = record m { reg = write m.reg dest (flag c); pc = pc }

cmp-Runs :
    (m : Machine) (rop : RiOp) (a b dest : ℕ) (c : Bool)
    → Code m.mem m.pc (cmp_listing rop a b dest)
    → m.pc + 16 < word_mod
    → branches rop (read m a) (read m b) ≡ c
    → Runs m (compared m dest c (m.pc + 16))
unfolding exec
cmp-Runs m rop a b dest true (i₀, (i₁, (i₂, (i₃, _)))) fits e =
    let start : Runs m m = here in
    let jumped =
      Runs-step (b_type rop a b 12) m.pc start refl i₀
        (ap (λ t. some (record m { pc = if t then add32 m.pc 12 else add32 m.pc 4 })) e) in
    Runs-step (i_type RiOp.addi dest r_zero 1) (m.pc + 4 + 4 + 4) jumped (omega arith) i₃
      (ap (λ p. some (compared m dest true p)) (omega arith))
cmp-Runs m rop a b dest false (i₀, (i₁, (i₂, (i₃, _)))) fits e =
    let start : Runs m m = here in
    let went_on =
      Runs-step (b_type rop a b 12) m.pc start refl i₀
        (ap (λ t. some (record m { pc = if t then add32 m.pc 12 else add32 m.pc 4 })) e) in
    let cleared =
      Runs-step (i_type RiOp.addi dest r_zero 0) (m.pc + 4) went_on (omega arith) i₁ refl in
    Runs-step (j_type RiOp.jal r_zero 8) (m.pc + 4 + 4) cleared (omega arith) i₂
      (ap (λ p. some (compared m dest false p)) (omega arith))

-- Where the registers are below 32 and the code of a comparison stands in memory at the program
-- counter, 16 bytes before the end of the address space at least, it runs to a machine whose
-- destination register holds 1 or 0 as the operator of C says of the two registers, and that
-- goes on behind the code. No other register changes, and no memory.
pub r_op_cmp-Runs :
    (state : BackendState) (op : IlOp) (m : Machine)
    → IsRegister state.dest_reg
    → IsRegister state.op_reg
    → IsCmp op
    → Holds (r_op_cmp state op) m
    → m.pc + 16 < word_mod
    → Runs m (
        compared m state.dest_reg
          (compares op (read m state.dest_reg) (read m state.op_reg))
          (m.pc + 16))
r_op_cmp-Runs state op m d o i h fits =
    let (rop, a, b, listing, means) = cmp-Assembles state d o op i in
    cmp-Runs m rop a b state.dest_reg _ (Holds-Code m listing h) fits (means m)
