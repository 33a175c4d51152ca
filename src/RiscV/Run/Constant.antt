-- ===== src/RiscV/Run/Constant.antt =====
-- r_op_load_numeric_constant and the loads of addresses: the emitted instructions put the value
-- that was meant into the destination register.
use mathlib.Core.Path.{fun_ext}
use rvcc.Prelude.{
  ℕ, ◌+◌, ◌*◌, ◌/◌, ◌^◌, ◌<◌, ◌≡◌, ◌≢◌, refl, ap, ◌∙◌, subst, true, some, [], ◌∷◌, arith, inl, inr,
  Bool-cases, ◌==◌, if◌then◌else◌,
}
use rvcc.Word.{IsWord, word_mod, add32, sub32}
use rvcc.Buffer.{◌>>◌, c_emit}
use rvcc.Backend.Defs.{BackendState}
use rvcc.RiscV.Opcode.{RiOp, r_zero}
use rvcc.RiscV.Encode.{r_hi, r_lo}
use rvcc.RiscV.Asm.{r_addi, r_lui, r_auipc}
use rvcc.RiscV.Backend.{
  fits_addi, r_op_load_numeric_constant, r_op_load_data_address, r_op_get_function_addr,
}
use rvcc.RiscV.Isa.{i_type, u_type}
use rvcc.RiscV.Decode.Fields.{IsRegister, InRange}
use rvcc.RiscV.Decode.Named.{addi-EncodesTo, lui-EncodesTo, auipc-EncodesTo}
use rvcc.RiscV.HiLo.{hi_lo, r_lo-small}
use rvcc.RiscV.Machine.{Machine, read, write, exec, exec_u}
use rvcc.RiscV.Machine.Code.{
  Assembles->>, Assembles-c_emit, Holds, Holds-Code, Code, Runs, here, Runs-step,
}

-- A register that is written twice holds the second value.
pub write-write : (regs : ℕ → ℕ) (r v w : ℕ) → write (write regs r v) r w ≡ write regs r w
write-write regs r v w = elim (Bool-cases (r == 0)) [
  | inl z ↦ rw z
  | inr p ↦ rw p (fun_ext λ q. ground arith)
]

-- A register other than x0 reads as it was written.
pub read-write_self :
    (m : Machine) (r v pc : ℕ) → r ≢ 0 → read (record m { reg = write m.reg r v; pc = pc }) r ≡ v
read-write_self m r v pc h = ground arith

-- A machine with one register set, further on.
abbrev pub loaded_with : Machine → ℕ → ℕ → ℕ → Machine
loaded_with m r v pc = record m { reg = write m.reg r v; pc = pc }

-- Two instructions that fill a register: its upper part, by lui or auipc, and then addi.
pair-Runs :
    (m : Machine) (op : RiOp) (r upper v low : ℕ)
    → r ≢ 0
    → Code m.mem m.pc (u_type op r upper ∷ i_type RiOp.addi r r low ∷ [])
    → exec_u op r upper m ≡ loaded_with m r v (add32 m.pc 4)
    → m.pc + 8 < word_mod
    → Runs m (loaded_with m r (add32 v low) (m.pc + 8))
unfolding exec
pair-Runs m op r upper v low h (i₀, (i₁, _)) e fits =
    let start : Runs m m = here in
    let half = Runs-step (u_type op r upper) m.pc start refl i₀ (ap some e) in
    let next : add32 m.pc 4 ≡ m.pc + 4 = omega arith in
    let pc : add32 (add32 m.pc 4) 4 ≡ m.pc + 8 = omega arith in
    let regs : write (write m.reg r v) r (add32 (read (loaded_with m r v (add32 m.pc 4)) r) low)
        ≡ write m.reg r (add32 v low) =
      ap (λ x. write (write m.reg r v) r (add32 x low)) (read-write_self m r v (add32 m.pc 4) h)
      ∙ write-write m.reg r v (add32 v low) in
    Runs-step (i_type RiOp.addi r r low) (m.pc + 4) half next i₁
      (λ i. some (record m { reg = regs i; pc = pc i }))

module _ (dest : ℕ) (d : IsRegister dest) (nonzero : dest ≢ 0) where
  -- lui and addi give the value.
  lui-Runs :
      (m : Machine) (val : ℕ)
      → IsWord val
      → Holds (c_emit (r_lui dest (r_hi val)) >> c_emit (r_addi dest dest (r_lo val))) m
      → m.pc + 8 < word_mod
      → Runs m (loaded_with m dest val (m.pc + 8))
  unfolding exec_u
  lui-Runs m val w h fits =
      let (sum, low, hi) = hi_lo val w in
      subst (λ v. Runs m (loaded_with m dest v (m.pc + 8))) sum
        (pair-Runs m RiOp.lui dest _ _ (r_lo val) nonzero
          (Holds-Code m
            (Assembles->> (Assembles-c_emit (lui-EncodesTo dest (r_hi val) d hi))
              (Assembles-c_emit (addi-EncodesTo dest dest (r_lo val) d d low)))
            h)
          refl fits)

  -- auipc and addi give a value relative to the program counter.
  auipc-Runs :
      (m : Machine) (val : ℕ)
      → IsWord val
      → Holds (c_emit (r_auipc dest (r_hi val)) >> c_emit (r_addi dest dest (r_lo val))) m
      → m.pc + 8 < word_mod
      → Runs m (loaded_with m dest (add32 m.pc val) (m.pc + 8))
  unfolding exec_u
  auipc-Runs m val w h fits =
      let (sum, low, hi) = hi_lo val w in
      let total : add32 (add32 m.pc (r_hi val / 2 ^ 12 * 2 ^ 12)) (r_lo val) ≡ add32 m.pc val =
        omega (arith, sum) in
      subst (λ v. Runs m (loaded_with m dest v (m.pc + 8))) total
        (pair-Runs m RiOp.auipc dest _ _ (r_lo val) nonzero
          (Holds-Code m
            (Assembles->> (Assembles-c_emit (auipc-EncodesTo dest (r_hi val) d hi))
              (Assembles-c_emit (addi-EncodesTo dest dest (r_lo val) d d low)))
            h)
          refl fits)

  -- addi alone gives a small value.
  addi-Runs :
      (m : Machine) (val : ℕ)
      → IsWord val
      → fits_addi val ≡ true
      → Holds (c_emit (r_addi dest r_zero (r_lo val))) m
      → m.pc + 8 < word_mod
      → Runs m (loaded_with m dest val (m.pc + 4))
  unfolding exec
  addi-Runs m val w small h fits =
      let range : InRange 2047 2048 val = (w, ground arith) in
      let start : Runs m m = here in
      let low = r_lo-small val range in
      let code =
        Holds-Code m
          (Assembles-c_emit (addi-EncodesTo dest r_zero (r_lo val) d (omega arith) (hi_lo val w).1))
          h in
      let sum : add32 0 (r_lo val) ≡ val = omega (arith, low) in
      let pc : add32 m.pc 4 ≡ m.pc + 4 = omega arith in
      Runs-step (i_type RiOp.addi dest r_zero (r_lo val)) m.pc start refl code.0
        (λ i. some (loaded_with m dest (sum i) (pc i)))

-- Where the code that loads a constant stands in memory at the program counter, it puts exactly
-- that 32-bit value into the destination register, which is not register 0, whether it takes one
-- instruction or two. It changes no other register and no memory.
pub r_op_load_numeric_constant-Runs :
    (state : BackendState) (val : ℕ) (m : Machine)
    → IsRegister state.dest_reg
    → state.dest_reg ≢ 0
    → IsWord val
    → Holds (r_op_load_numeric_constant state val) m
    → m.pc + 8 < word_mod
    → Runs m (loaded_with m state.dest_reg val (m.pc + (if fits_addi val then 4 else 8)))
unfolding r_op_load_numeric_constant
r_op_load_numeric_constant-Runs state val m d nonzero w h fits = elim (Bool-cases (fits_addi val)) [
  | inl e ↦ rw e (addi-Runs state.dest_reg d nonzero m val w e (rw e at h) fits)
  | inr e ↦ rw e (lui-Runs state.dest_reg d nonzero m val w (rw e at h) fits)
]

-- Where the code that loads an address in the data section stands in memory, at the place in the
-- code section that the state names, it puts into the destination register, which is not
-- register 0, the address at which the code section stands plus the offset asked for. It changes
-- no other register and no memory.
pub r_op_load_data_address-Runs :
    (state : BackendState) (ofs base : ℕ) (m : Machine)
    → IsRegister state.dest_reg
    → state.dest_reg ≢ 0
    → IsWord ofs
    → IsWord state.pc
    → m.pc ≡ base + state.pc
    → Holds (r_op_load_data_address state ofs) m
    → m.pc + 8 < word_mod
    → Runs m (loaded_with m state.dest_reg (add32 base ofs) (m.pc + 8))
unfolding r_op_load_data_address
r_op_load_data_address-Runs state ofs base m d nonzero w p at h fits =
    let there : add32 m.pc (sub32 ofs state.pc) ≡ add32 base ofs = omega (arith, at) in
    subst (λ v. Runs m (loaded_with m state.dest_reg v (m.pc + 8))) there
      (auipc-Runs state.dest_reg d nonzero m (sub32 ofs state.pc) (omega arith) h fits)

-- Where the code that loads the address of a function stands in memory at the program counter,
-- it puts exactly that 32-bit address into the destination register, which is not register 0. It
-- changes no other register and no memory.
pub r_op_get_function_addr-Runs :
    (state : BackendState) (ofs : ℕ) (m : Machine)
    → IsRegister state.dest_reg
    → state.dest_reg ≢ 0
    → IsWord ofs
    → Holds (r_op_get_function_addr state ofs) m
    → m.pc + 8 < word_mod
    → Runs m (loaded_with m state.dest_reg ofs (m.pc + 8))
unfolding r_op_get_function_addr
r_op_get_function_addr-Runs state ofs m d nonzero w h fits =
    lui-Runs state.dest_reg d nonzero m ofs w h fits
