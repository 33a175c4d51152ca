-- ===== src/RiscV/Run/Jump.antt =====
-- r_op_jz and r_op_function_call: where control goes.
use rvcc.Prelude.{
  ℕ, ◌+◌, ◌<◌, ◌≡◌, refl, ap, ◌∙◌, Bool, true, false, not, some, [], ◌∷◌, arith, inl, inr,
  Bool-cases, ◌==◌, if◌then◌else◌,
}
use rvcc.Word.{IsWord, word_mod, add32, sub32}
use rvcc.Il.{IlOp}
use rvcc.Backend.Defs.{BackendState}
use rvcc.Backend.Laws.{IsJz}
use rvcc.RiscV.Opcode.{RiOp, r_zero}
use rvcc.RiscV.Backend.{r_op_jz, near_jz, far_jz, is_near}
use rvcc.RiscV.Asm.{r_nop}
use rvcc.RiscV.Isa.{i_type, b_type, j_type}
use rvcc.RiscV.Decode.Fields.{IsRegister, EncodesTo}
use rvcc.RiscV.Decode.Branch.{IsBranchOffset}
use rvcc.RiscV.Decode.Upper.{IsJumpOffset}
use rvcc.RiscV.Decode.Named.{addi-EncodesTo, jal-EncodesTo, beq-EncodesTo, bne-EncodesTo}
use rvcc.RiscV.Machine.{Machine, read, branches, exec}
use rvcc.RiscV.Machine.Code.{
  Assembles->>, Assembles-c_emit, Holds, Holds-Code, Code, Runs, here, Runs-step,
}

-- Whether the jump is taken, for the value of the register.
abbrev pub jumps : IlOp → ℕ → Bool
jumps IlOp.jz v = v == 0
jumps IlOp.jnz v = not (v == 0)
jumps _ v = false

abbrev pub at_pc : Machine → ℕ → Machine
at_pc m p = record m { pc = p }

nop-EncodesTo : EncodesTo r_nop (i_type RiOp.addi r_zero r_zero 0)
unfolding r_nop
nop-EncodesTo = addi-EncodesTo r_zero r_zero 0 (omega arith) (omega arith) (omega arith, refl)

not_not : (b : Bool) → b ≡ not (not b)
not_not true = refl
not_not false = refl

-- A nop and a branch.
near-Runs :
    (m : Machine) (rop : RiOp) (r ofs target : ℕ) (c : Bool)
    → Code m.mem m.pc (i_type RiOp.addi r_zero r_zero 0 ∷ b_type rop r r_zero ofs ∷ [])
    → m.pc + 8 < word_mod
    → branches rop (read m r) 0 ≡ c
    → add32 (m.pc + 4) ofs ≡ target
    → Runs m (at_pc m (if c then target else m.pc + 8))
unfolding exec
near-Runs m rop r ofs target c (i₀, (i₁, _)) fits e t =
    let start : Runs m m = here in
    let passed = Runs-step (i_type RiOp.addi r_zero r_zero 0) m.pc start refl i₀ refl in
    let next : add32 m.pc 4 ≡ m.pc + 4 = omega arith in
    let there : add32 (add32 m.pc 4) ofs ≡ target = ap (λ p. add32 p ofs) next ∙ t in
    let behind : add32 (add32 m.pc 4) 4 ≡ m.pc + 8 = omega arith in
    Runs-step (b_type rop r r_zero ofs) (m.pc + 4) passed next i₁
      (λ i. some (at_pc m (if e i then there i else behind i)))

-- A branch over a jump.
far-Runs :
    (m : Machine) (rop : RiOp) (r ofs target : ℕ) (c : Bool)
    → Code m.mem m.pc (b_type rop r r_zero 8 ∷ j_type RiOp.jal r_zero ofs ∷ [])
    → m.pc + 8 < word_mod
    → branches rop (read m r) 0 ≡ not c
    → add32 (m.pc + 4) ofs ≡ target
    → Runs m (at_pc m (if c then target else m.pc + 8))
unfolding exec
far-Runs m rop r ofs target false (i₀, (i₁, _)) fits e t =
    let start : Runs m m = here in
    let over : add32 m.pc 8 ≡ m.pc + 8 = omega arith in
    Runs-step (b_type rop r r_zero 8) m.pc start refl i₀
      (λ i. some (at_pc m (if e i then over i else add32 m.pc 4)))
far-Runs m rop r ofs target true (i₀, (i₁, _)) fits e t =
    let start : Runs m m = here in
    let on : add32 m.pc 4 ≡ m.pc + 4 = omega arith in
    let passed =
      Runs-step {m₂ = at_pc m (m.pc + 4)} (b_type rop r r_zero 8) m.pc start refl i₀
        (λ i. some (at_pc m (if e i then add32 m.pc 8 else on i))) in
    Runs-step (j_type RiOp.jal r_zero ofs) (m.pc + 4) passed refl i₁ (λ i. some (at_pc m (t i)))

-- A near offset fits a branch.
near-IsBranchOffset : (ofs : ℕ) → IsJumpOffset ofs → is_near ofs ≡ true → IsBranchOffset ofs
near-IsBranchOffset ofs ((w, h), even) n = ((w, ground arith), even)

module _ (state : BackendState) (d : IsRegister state.dest_reg) (ofs : ℕ)
    (range : IsJumpOffset ofs) where
  near_jz-Runs :
      (op : IlOp) (m : Machine) (target : ℕ)
      → IsJz op
      → is_near ofs ≡ true
      → Holds (near_jz state op ofs) m
      → m.pc + 8 < word_mod
      → add32 (m.pc + 4) ofs ≡ target
      → Runs m (at_pc m (if jumps op (read m state.dest_reg) then target else m.pc + 8))
  unfolding near_jz branches
  near_jz-Runs IlOp.jz m target i n h fits t =
      near-Runs m RiOp.beq state.dest_reg ofs target _
        (Holds-Code m
          (Assembles->> (Assembles-c_emit nop-EncodesTo) (
            Assembles-c_emit
              (beq-EncodesTo _ _ ofs d (omega arith) (near-IsBranchOffset ofs range n))))
          h)
        fits refl t
  near_jz-Runs IlOp.jnz m target i n h fits t =
      near-Runs m RiOp.bne state.dest_reg ofs target _
        (Holds-Code m
          (Assembles->> (Assembles-c_emit nop-EncodesTo) (
            Assembles-c_emit
              (bne-EncodesTo _ _ ofs d (omega arith) (near-IsBranchOffset ofs range n))))
          h)
        fits refl t
  near_jz-Runs _ m target i n h fits t = absurd i

  far_jz-Runs :
      (op : IlOp) (m : Machine) (target : ℕ)
      → IsJz op
      → Holds (far_jz state op ofs) m
      → m.pc + 8 < word_mod
      → add32 (m.pc + 4) ofs ≡ target
      → Runs m (at_pc m (if jumps op (read m state.dest_reg) then target else m.pc + 8))
  unfolding far_jz branches
  far_jz-Runs IlOp.jz m target i h fits t =
      far-Runs m RiOp.bne state.dest_reg ofs target _
        (Holds-Code m
          (Assembles->>
            (Assembles-c_emit (bne-EncodesTo _ _ 8 d (omega arith) ((omega arith, refl), refl)))
            (Assembles-c_emit (jal-EncodesTo _ ofs (omega arith) range)))
          h)
        fits refl t
  far_jz-Runs IlOp.jnz m target i h fits t =
      far-Runs m RiOp.beq state.dest_reg ofs target _
        (Holds-Code m
          (Assembles->>
            (Assembles-c_emit (beq-EncodesTo _ _ 8 d (omega arith) ((omega arith, refl), refl)))
            (Assembles-c_emit (jal-EncodesTo _ ofs (omega arith) range)))
          h)
        fits (not_not (read m state.dest_reg == 0)) t
  far_jz-Runs _ m target i h fits t = absurd i

-- A conditional jump of the intermediate language, with the offset that c_generate computes from
-- the place of its target: for an even offset of at most 20 bits and a sign, and where the code
-- stands in memory at the program counter, it goes to the target exactly if the register is zero
-- (jz) or not zero (jnz), by a branch or, where the target is far, by a branch over a jump.
-- Otherwise it goes on behind itself. It changes no register and no memory.
pub r_op_jz-Runs :
    (state : BackendState) (op : IlOp) (location base : ℕ) (m : Machine)
    → IsRegister state.dest_reg
    → IsJz op
    → IsWord location
    → IsWord state.pc
    → IsJumpOffset (sub32 (sub32 location state.pc) 4)
    → m.pc ≡ base + state.pc
    → Holds (r_op_jz state op (sub32 (sub32 location state.pc) 4)) m
    → m.pc + 8 < word_mod
    → Runs m (at_pc m (if jumps op (read m state.dest_reg) then add32 base location else m.pc + 8))
unfolding r_op_jz
r_op_jz-Runs state op location base m d i l p range at h fits =
    let ofs = sub32 (sub32 location state.pc) 4 in
    let there : add32 (m.pc + 4) ofs ≡ add32 base location = omega (arith, at) in
    elim (Bool-cases (is_near ofs)) [
      | inl e ↦ near_jz-Runs state d ofs range op m _ i e (rw e at h) fits there
      | inr e ↦ far_jz-Runs state d ofs range op m _ i (rw e at h) fits there
    ]
