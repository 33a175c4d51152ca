-- ===== src/RiscV/Length.antt =====
-- src/arch/riscv.c: r_get_code_length against the operations: each writes as many bytes as it says.
use rvcc.Prelude.{
  ℕ, ◌≡◌, refl, sym, ap, ◌∙◌, true, false, not, arith, inl, inr, Bool-cases, ◌==◌, if◌then◌else◌,
}
use rvcc.Result.{Result, ok}
use rvcc.Word.{IsWord}
use rvcc.Il.{IlOp, IlInstr}
use rvcc.Tables.{Tables}
use rvcc.Tables.Shape.{SameShape, block-SameShape}
use rvcc.Buffer.{◌>>◌, pass, c_emit}
use rvcc.Buffer.Writes.{Emits, Writes-Emits, Writes-pass, Emits->>, Emits-fail, ok_injective}
use rvcc.Backend.Defs.{BackendState}
use rvcc.Backend.Sizes.{
  exact, Emits-if, one, two, three, four, word_access-Emits, block-Emits, block_bytes-shape,
  named_entry_bytes-SameShape, entry_length_lem,
}
use rvcc.Backend.Laws.{BackendLaws, IsAlu, IsCmp, IsLog, IsBit, IsJz}
use rvcc.RiscV.Opcode.{r_a0}
use rvcc.RiscV.Backend.{
  r_backend, r_get_code_length, r_op_length, r_dest_reg, fits_addi, r_op_load_data_address,
  r_op_load_numeric_constant, r_op_get_global_addr, r_op_get_local_addr, r_op_get_function_addr,
  r_op_read_addr, r_op_write_addr, r_op_jump, r_op_return, r_op_function_call, r_op_pointer_call,
  r_op_push, r_op_pop, r_op_exit_point, r_op_alu, r_cmp_branch, r_op_cmp, r_op_log, r_op_bit,
  r_op_jz, near_jz, far_jz, is_near, r_op_block, r_op_entry_point, r_op_store_param, r_op_start,
  r_op_syscall, r_op_exit,
}

constant-Emits :
    (val n : ℕ) (state : BackendState)
    → ok (if fits_addi val then 4 else 8) ≡ ok n
    → Emits n (r_op_load_numeric_constant state val)
unfolding r_op_load_numeric_constant
constant-Emits val n state h =
    Emits-if (fits_addi val) (λ e. exact (one _) (rw e at h)) (λ e. exact (two _ _) (rw e at h))

-- The result is moved exactly where the length counts the move.
dest_reg-test : (p : ℕ) → IsWord p → (r_dest_reg p == r_a0) ≡ (p == 0)
unfolding r_dest_reg
dest_reg-test p h = ground arith

call-Emits :
    (p n : ℕ) (r s : Result ℕ) (dest : ℕ)
    → IsWord p
    → dest ≡ r_dest_reg p
    → ok (if not (p == 0) then 8 else 4) ≡ ok n
    → Emits n (c_emit r >> (if not (dest == r_a0) then c_emit s else pass))
call-Emits p n r s dest w e h = elim (Bool-cases (p == 0)) [
  | inl z ↦
      let stay : (dest == r_a0) ≡ true = ap (λ d. d == r_a0) e ∙ (dest_reg-test p w ∙ z) in
      rw stay (exact (Emits->> (one r) (Writes-Emits refl Writes-pass)) (rw z at h))
  | inr z ↦
      let move : (dest == r_a0) ≡ false = ap (λ d. d == r_a0) e ∙ (dest_reg-test p w ∙ z) in
      rw move (exact (two r s) (rw z at h))
]

alu-Emits :
    (op : IlOp) (t : Tables) (ii : IlInstr) (n : ℕ) (state : BackendState)
    → IsAlu op
    → r_op_length op t ii ≡ ok n
    → Emits n (r_op_alu state op)
unfolding r_op_alu r_op_length
alu-Emits IlOp.add t ii n state i h = exact (one _) h
alu-Emits IlOp.sub t ii n state i h = exact (one _) h
alu-Emits IlOp.mul t ii n state i h = exact (one _) h
alu-Emits IlOp.negate t ii n state i h = exact (one _) h
alu-Emits _ t ii n state i h = absurd i

branch-Emits : (op : IlOp) (state : BackendState) → Emits 4 (r_cmp_branch state op)
unfolding r_cmp_branch
branch-Emits IlOp.equals state = one _
branch-Emits IlOp.not_equals state = one _
branch-Emits IlOp.less_than state = one _
branch-Emits IlOp.less_eq_than state = one _
branch-Emits IlOp.greater_than state = one _
branch-Emits IlOp.greater_eq_than state = one _
branch-Emits _ state = Emits-fail 4 _

cmp-Emits :
    (op : IlOp) (t : Tables) (ii : IlInstr) (n : ℕ) (state : BackendState)
    → IsCmp op
    → r_op_length op t ii ≡ ok n
    → Emits n (r_op_cmp state op)
unfolding r_op_cmp r_op_length
cmp-Emits IlOp.equals t ii n state i h = exact (Emits->> (branch-Emits _ state) (three _ _ _)) h
cmp-Emits IlOp.not_equals t ii n state i h = exact (Emits->> (branch-Emits _ state) (three _ _ _)) h
cmp-Emits IlOp.less_than t ii n state i h = exact (Emits->> (branch-Emits _ state) (three _ _ _)) h
cmp-Emits IlOp.less_eq_than t ii n state i h =
    exact (Emits->> (branch-Emits _ state) (three _ _ _)) h
cmp-Emits IlOp.greater_than t ii n state i h =
    exact (Emits->> (branch-Emits _ state) (three _ _ _)) h
cmp-Emits IlOp.greater_eq_than t ii n state i h =
    exact (Emits->> (branch-Emits _ state) (three _ _ _)) h
cmp-Emits _ t ii n state i h = absurd i

log-Emits :
    (op : IlOp) (t : Tables) (ii : IlInstr) (n : ℕ) (state : BackendState)
    → IsLog op
    → r_op_length op t ii ≡ ok n
    → Emits n (r_op_log state op)
unfolding r_op_log r_op_length
log-Emits IlOp.log_and t ii n state i h = exact (one _) h
log-Emits IlOp.log_or t ii n state i h = exact (one _) h
log-Emits _ t ii n state i h = absurd i

bit-Emits :
    (op : IlOp) (t : Tables) (ii : IlInstr) (n : ℕ) (state : BackendState)
    → IsBit op
    → r_op_length op t ii ≡ ok n
    → Emits n (r_op_bit state op)
unfolding r_op_bit r_op_length
bit-Emits IlOp.bit_and t ii n state i h = exact (one _) h
bit-Emits IlOp.bit_or t ii n state i h = exact (one _) h
bit-Emits IlOp.bit_lshift t ii n state i h = exact (one _) h
bit-Emits IlOp.bit_rshift t ii n state i h = exact (one _) h
bit-Emits IlOp.not t ii n state i h = exact (one _) h
bit-Emits _ t ii n state i h = absurd i

near-Emits : (op : IlOp) (state : BackendState) (ofs : ℕ) → IsJz op → Emits 8 (near_jz state op ofs)
unfolding near_jz
near-Emits IlOp.jz state ofs i = two _ _
near-Emits IlOp.jnz state ofs i = two _ _
near-Emits _ state ofs i = absurd i

far-Emits : (op : IlOp) (state : BackendState) (ofs : ℕ) → IsJz op → Emits 8 (far_jz state op ofs)
unfolding far_jz
far-Emits IlOp.jz state ofs i = two _ _
far-Emits IlOp.jnz state ofs i = two _ _
far-Emits _ state ofs i = absurd i

jz_length : (op : IlOp) (t : Tables) (ii : IlInstr) → IsJz op → r_op_length op t ii ≡ ok 8
unfolding r_op_length
jz_length IlOp.jz t ii i = refl
jz_length IlOp.jnz t ii i = refl
jz_length _ t ii i = absurd i

-- A near and a far jump take the same room.
jz-Emits :
    (op : IlOp) (t : Tables) (ii : IlInstr) (n : ℕ) (state : BackendState) (ofs : ℕ)
    → IsJz op
    → r_op_length op t ii ≡ ok n
    → Emits n (r_op_jz state op ofs)
unfolding r_op_jz
jz-Emits op t ii n state ofs i h =
    exact
      (Emits-if {m = near_jz state op ofs} {m' = far_jz state op ofs} (is_near ofs)
        (λ _. near-Emits op state ofs i) (λ _. far-Emits op state ofs i))
      (sym (jz_length op t ii i) ∙ h)

length-SameShape :
    (op : IlOp) (t t' : Tables) (ii : IlInstr)
    → SameShape t t'
    → r_op_length op t ii ≡ r_op_length op t' ii
unfolding r_op_length
length-SameShape IlOp.entry_point t t' ii same =
    named_entry_bytes-SameShape ii.string_param1 t t' same
length-SameShape IlOp.block_start t t' ii same =
    block_bytes-shape _ _ (block-SameShape same ii.int_param1)
length-SameShape IlOp.block_end t t' ii same =
    block_bytes-shape _ _ (block-SameShape same ii.int_param1)
length-SameShape _ t t' ii same = refl

unplaced_lem :
    (op : IlOp) (t : Tables) (ii : IlInstr) (offset len : ℕ)
    → r_op_length op t (record ii { code_offset = offset; op_len = len })
      ≡ r_op_length op t (record ii { code_offset = offset })
unfolding r_op_length
unplaced_lem IlOp.entry_point t ii offset len = refl
unplaced_lem _ t ii offset len = refl

-- The RISC-V backend obeys the laws of a backend: each of its operations, where it ends well,
-- writes as many bytes as r_get_code_length says for the instruction, and that length depends on
-- no place and on no size that the passes change.
pub r_backend-BackendLaws : BackendLaws r_backend
unfolding r_op_block r_get_code_length r_op_length r_op_load_data_address r_op_get_global_addr
    r_op_get_local_addr r_op_get_function_addr r_op_read_addr r_op_write_addr r_op_jump r_op_return
    r_op_function_call r_op_pointer_call r_op_push r_op_pop r_op_exit_point r_op_entry_point
    r_op_store_param r_op_start r_op_syscall r_op_exit
r_backend-BackendLaws = record {
  stable = λ t t' ii same. length-SameShape ii.op t t' ii same;
  unplaced = λ t ii offset len. unplaced_lem ii.op t ii offset len;
  load_data_address = λ t ii n state ofs h. exact (two _ _) h;
  load_numeric_constant = λ t ii n state h. constant-Emits _ n state h;
  get_global_addr = λ t ii n state ofs h. exact (two _ _) h;
  get_local_addr = λ t ii n state ofs h. exact (two _ _) h;
  get_function_addr = λ t ii n state ofs h. exact (two _ _) h;
  read_addr = λ t ii n state len h. word_access-Emits len n _ _ h;
  write_addr = λ t ii n state len h. word_access-Emits len n _ _ h;
  jump = λ t ii n ofs h. exact (one _) h;
  return = λ t ii n ofs h. exact (one _) h;
  function_call = λ t ii n state ofs w e h. call-Emits _ n _ _ state.dest_reg w e h;
  pointer_call = λ t ii n state w e h. call-Emits _ n _ _ state.dest_reg w e h;
  push = λ t ii n state h. exact (two _ _) h;
  pop = λ t ii n state h. exact (two _ _) h;
  exit_point = λ t ii n h. exact (four _ _ _ _) h;
  alu = λ op t ii n state i h. alu-Emits op t (record ii { op = op }) n state i h;
  cmp = λ op t ii n state i h. cmp-Emits op t (record ii { op = op }) n state i h;
  log = λ op t ii n state i h. log-Emits op t (record ii { op = op }) n state i h;
  bit = λ op t ii n state i h. bit-Emits op t (record ii { op = op }) n state i h;
  jz = λ op t ii n state ofs i h. jz-Emits op t (record ii { op = op }) n state ofs i h;
  label = λ t ii n h. sym (ok_injective h);
  generic = λ t ii n h. sym (ok_injective h);
  block_start = λ t ii n bd e h. block-Emits r_op_block (λ len. one _) bd _ n e h;
  block_end = λ t ii n bd e h. block-Emits r_op_block (λ len. one _) bd _ n e h;
  fixed_part = 16;
  param_part = 4;
  fixed_part-Emits = λ size. four _ _ _ _;
  param_part-Emits = λ pn ofs. one _;
  entry_point = λ t ii n name fn e f h. entry_length_lem t ii n name fn e f h;
  start = λ t ii n h. exact (two _ _) h;
  syscall = λ t ii n h. exact (Emits->> (one _) (four _ _ _ _)) h;
  exit = λ t ii n h. exact (three _ _ _) h;
}
