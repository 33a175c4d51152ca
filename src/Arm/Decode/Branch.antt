-- ===== src/Arm/Decode/Branch.antt =====
-- Branches: a_b, a_bl and a_blx.
use rvcc.Prelude.{
  ℕ, ◌+◌, ◌-◌, ◌*◌, ◌/◌, ◌%◌, ◌^◌, ◌≤◌, ◌<◌, ◌≡◌, refl, ap, ◌∙◌, ◌⊎◌, Bool, true, false, inl, inr,
  some, ◌==◌, arith,
}
use rvcc.Result.{ok}
use rvcc.Word.{sub32, word_mod, add32}
use rvcc.Arm.Opcode.{ArCond, ar_cond}
use rvcc.Arm.Encode.{a_encode}
use rvcc.Arm.Isa.{Instr, decode, decode_class, field, bit}
use rvcc.Arm.Decode.Words.{cond_bound, a_word, decode_at, bit_of}
use rvcc.Arm.Encode.{branch_field}
use rvcc.Arm.Asm.{a_b, a_bl}
use rvcc.Arm.Isa.{sign_extend_26}
use rvcc.Word.{sub32, word_mod}

decode_branch_class :
    (w c : ℕ) (link : Bool) (f : ℕ)
    → field w 28 4 ≡ c
    → bit w 24 ≡ link
    → field w 0 24 ≡ f
    → decode_class 5 w ≡ some (Instr.branch c link (sign_extend_26 (f * 4)))
unfolding decode_class
decode_branch_class w c link f e28 e24 e0 = rw (e28, e24, e0) refl

-- A distance that a branch can hold: a multiple of 4 within 32 MiB of the word eight bytes behind
-- the branch.
abbrev pub IsBranchDistance : ℕ → Type 0
IsBranchDistance ofs =
    (ofs % 4 ≡ 0) × ((ofs < 2 ^ 25 + 8) ⊎ ((word_mod - 2 ^ 25 + 8 ≤ ofs) × (ofs < word_mod)))

branch_field_lem :
    (ofs : ℕ) → IsBranchDistance ofs → sign_extend_26 (branch_field ofs * 4) ≡ sub32 ofs 8
unfolding branch_field
branch_field_lem ofs (four, inl near) = ground (arith, four, near)
branch_field_lem ofs (four, inr (near, word)) = ground (arith, four, near, word)

branch_field_bound : (ofs : ℕ) → branch_field ofs < 2 ^ 24
unfolding branch_field
branch_field_bound ofs = omega arith

module _ (cond : ArCond) (ofs : ℕ) (h : IsBranchDistance ofs) where
  decode-branch_word :
      (o link : ℕ)
      → o ≡ 160 + link * 16
      → link ≤ 1
      → (w : ℕ) × (ok (add32 (a_encode cond o 0 0 0) (branch_field ofs)) ≡ ok w)
        × (decode w ≡ some (Instr.branch (ar_cond cond) (link == 1) (sub32 ofs 8)))
  unfolding a_encode
  decode-branch_word o link e b =
      let c = ar_cond cond in
      let bc = cond_bound cond in
      let f = branch_field ofs in
      let bf = branch_field_bound ofs in
      let w = add32 (a_encode cond o 0 0 0) f in
      let top = o + f / 2 ^ 20 in
      let rn = f / 2 ^ 16 % 16 in
      let rd = f / 2 ^ 12 % 16 in
      let low = f % 4096 in
      let made : w ≡ a_word c top rn rd low = omega (arith, e, b, bc, bf) in
      (
        w,
        refl,
        ap decode made
            ∙ decode_at c top rn rd low bc (omega (arith, e, b, bf)) (omega arith) (omega arith)
                (omega arith) 5 (omega (arith, e, b, bf))
            ∙ decode_branch_class (a_word c top rn rd low) c (link == 1) f
                (omega (arith, bc, e, b, bf))
                (bit_of link (a_word c top rn rd low) 24 (omega (arith, bc, e, b, bf)))
                (omega (arith, bc, e, b, bf))
            ∙ ap (λ v. some (Instr.branch c (link == 1) v)) (branch_field_lem ofs h),
      )

  -- A jump to a word that lies `ofs` bytes from the instruction.
  decode-a_b :
      (w : ℕ) × (a_b cond ofs ≡ ok w)
      × (decode w ≡ some (Instr.branch (ar_cond cond) false (sub32 ofs 8)))
  unfolding a_b
  decode-a_b = decode-branch_word 160 0 (omega arith) (omega arith)

  decode-a_bl :
      (w : ℕ) × (a_bl cond ofs ≡ ok w)
      × (decode w ≡ some (Instr.branch (ar_cond cond) true (sub32 ofs 8)))
  unfolding a_bl
  decode-a_bl = decode-branch_word 176 1 (omega arith) (omega arith)

  -- For an offset that is a multiple of 4 within 32 MiB of the word eight bytes behind the
  -- branch, a_b and a_bl make words that decode to a branch, without and with a link, by the
  -- offset less those eight bytes.
  pub decode-branches :
      ((w : ℕ) × (a_b cond ofs ≡ ok w)
        × (decode w ≡ some (Instr.branch (ar_cond cond) false (sub32 ofs 8))))
      × ((w : ℕ) × (a_bl cond ofs ≡ ok w)
          × (decode w ≡ some (Instr.branch (ar_cond cond) true (sub32 ofs 8))))
  decode-branches = (decode-a_b, decode-a_bl)
