-- ===== src/Arm/Length.antt =====
-- src/arch/arm.c: a_get_code_length against the operations: each writes as many bytes as it says.
use rvcc.Prelude.{
  ℕ, ◌≡◌, refl, sym, ap, ◌∙◌, true, false, not, inl, inr, Bool-cases, ◌==◌, if◌then◌else◌,
}
use rvcc.Result.{Result, ok}
use rvcc.Il.{IlOp, IlInstr}
use rvcc.Tables.{Tables}
use rvcc.Tables.Shape.{SameShape, block-SameShape}
use rvcc.Buffer.{◌>>◌, pass, c_emit}
use rvcc.Buffer.Writes.{Emits, Writes-Emits, Writes-pass, Emits->>, ok_injective}
use rvcc.Backend.Defs.{BackendState}
use rvcc.Backend.Laws.{BackendLaws, IsAlu, IsCmp, IsLog, IsBit, IsJz}
use rvcc.Backend.Sizes.{
  exact, Emits-if, one, two, three, four, word_access-Emits, block-Emits, block_bytes-shape,
  named_entry_bytes-SameShape, entry_length_lem,
}
use rvcc.Arm.Opcode.{ArCond, a_r0}
use rvcc.Arm.Backend.{
  a_backend, a_get_code_length, a_op_length, a_dest_reg, fits_mov, set_on, a_op_load_data_address,
  a_op_load_numeric_constant, a_op_get_global_addr, a_op_get_local_addr, a_op_get_function_addr,
  a_op_read_addr, a_op_write_addr, a_op_jump, a_op_return, a_op_function_call, a_op_pointer_call,
  a_op_push, a_op_pop, a_op_exit_point, a_op_alu, a_op_cmp, a_op_log, a_op_bit, a_op_jz, a_op_block,
  a_op_entry_point, a_op_store_param, a_op_start, a_op_syscall, a_op_exit,
}

constant-Emits :
    (val n : ℕ) (state : BackendState)
    → ok (if fits_mov val then 4 else 8) ≡ ok n
    → Emits n (a_op_load_numeric_constant state val)
unfolding a_op_load_numeric_constant
constant-Emits val n state h =
    Emits-if (fits_mov val) (λ e. exact (one _) (rw e at h)) (λ e. exact (two _ _) (rw e at h))

-- The result is moved exactly where the length counts the move.
call-Emits :
    (p n : ℕ) (r s : Result ℕ) (dest : ℕ)
    → dest ≡ a_dest_reg p
    → ok (if not (p == 0) then 8 else 4) ≡ ok n
    → Emits n (c_emit r >> (if not (dest == a_r0) then c_emit s else pass))
unfolding a_dest_reg
call-Emits p n r s dest e h = elim (Bool-cases (p == 0)) [
  | inl z ↦
      let stay : (dest == a_r0) ≡ true = ap (λ d. d == a_r0) e ∙ z in
      rw stay (exact (Emits->> (one r) (Writes-Emits refl Writes-pass)) (rw z at h))
  | inr z ↦
      let move : (dest == a_r0) ≡ false = ap (λ d. d == a_r0) e ∙ z in
      rw move (exact (two r s) (rw z at h))
]

alu-Emits :
    (op : IlOp) (t : Tables) (ii : IlInstr) (n : ℕ) (state : BackendState)
    → IsAlu op
    → a_op_length op t ii ≡ ok n
    → Emits n (a_op_alu state op)
unfolding a_op_alu a_op_length
alu-Emits IlOp.add t ii n state i h = exact (one _) h
alu-Emits IlOp.sub t ii n state i h = exact (one _) h
alu-Emits IlOp.mul t ii n state i h = exact (one _) h
alu-Emits IlOp.negate t ii n state i h = exact (one _) h
alu-Emits _ t ii n state i h = absurd i

set_on-Emits : (state : BackendState) (cond : ArCond) → Emits 12 (set_on state cond)
set_on-Emits state cond = three _ _ _

cmp-Emits :
    (op : IlOp) (t : Tables) (ii : IlInstr) (n : ℕ) (state : BackendState)
    → IsCmp op
    → a_op_length op t ii ≡ ok n
    → Emits n (a_op_cmp state op)
unfolding a_op_cmp a_op_length
cmp-Emits IlOp.equals t ii n state i h = exact (set_on-Emits state _) h
cmp-Emits IlOp.not_equals t ii n state i h = exact (set_on-Emits state _) h
cmp-Emits IlOp.less_than t ii n state i h = exact (set_on-Emits state _) h
cmp-Emits IlOp.less_eq_than t ii n state i h = exact (set_on-Emits state _) h
cmp-Emits IlOp.greater_than t ii n state i h = exact (set_on-Emits state _) h
cmp-Emits IlOp.greater_eq_than t ii n state i h = exact (set_on-Emits state _) h
cmp-Emits _ t ii n state i h = absurd i

log-Emits :
    (op : IlOp) (t : Tables) (ii : IlInstr) (n : ℕ) (state : BackendState)
    → IsLog op
    → a_op_length op t ii ≡ ok n
    → Emits n (a_op_log state op)
unfolding a_op_log a_op_length
log-Emits IlOp.log_and t ii n state i h = exact (one _) h
log-Emits IlOp.log_or t ii n state i h = exact (one _) h
log-Emits _ t ii n state i h = absurd i

bit-Emits :
    (op : IlOp) (t : Tables) (ii : IlInstr) (n : ℕ) (state : BackendState)
    → IsBit op
    → a_op_length op t ii ≡ ok n
    → Emits n (a_op_bit state op)
unfolding a_op_bit a_op_length
bit-Emits IlOp.bit_and t ii n state i h = exact (one _) h
bit-Emits IlOp.bit_or t ii n state i h = exact (one _) h
bit-Emits IlOp.bit_lshift t ii n state i h = exact (one _) h
bit-Emits IlOp.bit_rshift t ii n state i h = exact (one _) h
bit-Emits IlOp.not t ii n state i h = exact (one _) h
bit-Emits _ t ii n state i h = absurd i

jz-Emits :
    (op : IlOp) (t : Tables) (ii : IlInstr) (n : ℕ) (state : BackendState) (ofs : ℕ)
    → IsJz op
    → a_op_length op t ii ≡ ok n
    → Emits n (a_op_jz state op ofs)
unfolding a_op_jz a_op_length
jz-Emits IlOp.jz t ii n state ofs i h = exact (two _ _) h
jz-Emits IlOp.jnz t ii n state ofs i h = exact (two _ _) h
jz-Emits _ t ii n state ofs i h = absurd i

length-SameShape :
    (op : IlOp) (t t' : Tables) (ii : IlInstr)
    → SameShape t t'
    → a_op_length op t ii ≡ a_op_length op t' ii
unfolding a_op_length
length-SameShape IlOp.entry_point t t' ii same =
    named_entry_bytes-SameShape ii.string_param1 t t' same
length-SameShape IlOp.block_start t t' ii same =
    block_bytes-shape _ _ (block-SameShape same ii.int_param1)
length-SameShape IlOp.block_end t t' ii same =
    block_bytes-shape _ _ (block-SameShape same ii.int_param1)
length-SameShape _ t t' ii same = refl

unplaced_lem :
    (op : IlOp) (t : Tables) (ii : IlInstr) (offset len : ℕ)
    → a_op_length op t (record ii { code_offset = offset; op_len = len })
      ≡ a_op_length op t (record ii { code_offset = offset })
unfolding a_op_length
unplaced_lem IlOp.entry_point t ii offset len = refl
unplaced_lem _ t ii offset len = refl

-- The ARM backend obeys the laws of a backend: each of its operations, where it ends well,
-- writes as many bytes as a_get_code_length says for the instruction, and that length depends on
-- no place and on no size.
pub a_backend-BackendLaws : BackendLaws a_backend
unfolding a_op_block a_get_code_length a_op_length a_op_load_data_address a_op_get_global_addr
    a_op_get_local_addr a_op_get_function_addr a_op_read_addr a_op_write_addr a_op_jump a_op_return
    a_op_function_call a_op_pointer_call a_op_push a_op_pop a_op_exit_point a_op_entry_point
    a_op_store_param a_op_start a_op_syscall a_op_exit
a_backend-BackendLaws = record {
  stable = λ t t' ii same. length-SameShape ii.op t t' ii same;
  unplaced = λ t ii offset len. unplaced_lem ii.op t ii offset len;
  load_data_address = λ t ii n state ofs h. exact (two _ _) h;
  load_numeric_constant = λ t ii n state h. constant-Emits _ n state h;
  get_global_addr = λ t ii n state ofs h. exact (two _ _) h;
  get_local_addr = λ t ii n state ofs h. exact (two _ _) h;
  get_function_addr = λ t ii n state ofs h. exact (two _ _) h;
  read_addr = λ t ii n state len h. word_access-Emits len n _ _ h;
  write_addr = λ t ii n state len h. word_access-Emits len n _ _ h;
  jump = λ t ii n ofs h. exact (one _) h;
  return = λ t ii n ofs h. exact (one _) h;
  function_call = λ t ii n state ofs w e h. call-Emits _ n _ _ state.dest_reg e h;
  pointer_call = λ t ii n state w e h. call-Emits _ n _ _ state.dest_reg e h;
  push = λ t ii n state h. exact (two _ _) h;
  pop = λ t ii n state h. exact (two _ _) h;
  exit_point = λ t ii n h. exact (four _ _ _ _) h;
  alu = λ op t ii n state i h. alu-Emits op t (record ii { op = op }) n state i h;
  cmp = λ op t ii n state i h. cmp-Emits op t (record ii { op = op }) n state i h;
  log = λ op t ii n state i h. log-Emits op t (record ii { op = op }) n state i h;
  bit = λ op t ii n state i h. bit-Emits op t (record ii { op = op }) n state i h;
  jz = λ op t ii n state ofs i h. jz-Emits op t (record ii { op = op }) n state ofs i h;
  label = λ t ii n h. sym (ok_injective h);
  generic = λ t ii n h. sym (ok_injective h);
  block_start = λ t ii n bd e h. block-Emits a_op_block (λ len. one _) bd _ n e h;
  block_end = λ t ii n bd e h. block-Emits a_op_block (λ len. one _) bd _ n e h;
  fixed_part = 16;
  param_part = 4;
  fixed_part-Emits = λ size. four _ _ _ _;
  param_part-Emits = λ pn ofs. one _;
  entry_point = λ t ii n name fn e f h. entry_length_lem t ii n name fn e f h;
  start = λ t ii n h. exact (two _ _) h;
  syscall = λ t ii n h. exact (Emits->> (one _) (four _ _ _ _)) h;
  exit = λ t ii n h. exact (three _ _ _) h;
}
