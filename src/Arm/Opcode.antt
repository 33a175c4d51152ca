-- ===== src/Arm/Opcode.antt =====
-- src/arch/arm.c: ar_op, ar_cond, the registers and a_get_cond.
use rvcc.Prelude.{ℕ}
use rvcc.Result.{Result, ok, err, Error}
use rvcc.Il.{IlOp}

pub data ArOp : Type 0 where
  and eor sub rsb add adc sbc rsc tst teq cmp cmn orr mov bic mvn : ArOp

unfoldable pub ar_op : ArOp → ℕ
ar_op ArOp.and = 0
ar_op ArOp.eor = 1
ar_op ArOp.sub = 2
ar_op ArOp.rsb = 3
ar_op ArOp.add = 4
ar_op ArOp.adc = 5
ar_op ArOp.sbc = 6
ar_op ArOp.rsc = 7
ar_op ArOp.tst = 8
ar_op ArOp.teq = 9
ar_op ArOp.cmp = 10
ar_op ArOp.cmn = 11
ar_op ArOp.orr = 12
ar_op ArOp.mov = 13
ar_op ArOp.bic = 14
ar_op ArOp.mvn = 15

pub data ArCond : Type 0 where
  eq ne cs cc_ mi pl vs vc hi ls ge lt gt le al : ArCond

unfoldable pub ar_cond : ArCond → ℕ
ar_cond ArCond.eq = 0
ar_cond ArCond.ne = 1
ar_cond ArCond.cs = 2
ar_cond ArCond.cc_ = 3
ar_cond ArCond.mi = 4
ar_cond ArCond.pl = 5
ar_cond ArCond.vs = 6
ar_cond ArCond.vc = 7
ar_cond ArCond.hi = 8
ar_cond ArCond.ls = 9
ar_cond ArCond.ge = 10
ar_cond ArCond.lt = 11
ar_cond ArCond.gt = 12
ar_cond ArCond.le = 13
ar_cond ArCond.al = 14

abbrev pub a_r0 : ℕ
a_r0 = 0

abbrev pub a_r1 : ℕ
a_r1 = 1

abbrev pub a_r2 : ℕ
a_r2 = 2

abbrev pub a_r3 : ℕ
a_r3 = 3

abbrev pub a_r7 : ℕ
a_r7 = 7

abbrev pub a_r8 : ℕ
a_r8 = 8

abbrev pub a_s0 : ℕ
a_s0 = 11

abbrev pub a_sp : ℕ
a_sp = 13

abbrev pub a_lr : ℕ
a_lr = 14

abbrev pub a_pc : ℕ
a_pc = 15

unfoldable pub a_get_cond : IlOp → Result ArCond
a_get_cond IlOp.equals = ok ArCond.eq
a_get_cond IlOp.not_equals = ok ArCond.ne
a_get_cond IlOp.less_than = ok ArCond.lt
a_get_cond IlOp.greater_eq_than = ok ArCond.ge
a_get_cond IlOp.greater_than = ok ArCond.gt
a_get_cond IlOp.less_eq_than = ok ArCond.le
a_get_cond _ = err Error.unsupported_condition_il_op
