-- ===== src/Decode/Valid/Narrow.antt =====
-- decode_t16 gives well-formed instructions.
use vitarecomp.Base.{ℕ, not, ◌&&◌, none, ltb, ◌==◌, if_holds, arith}
use vitarecomp.Base.Bits.{bit_or-lt}
use vitarecomp.Decode.Insn.{Class, Op, no_op, load, Insn, blank, bits, masked}
use vitarecomp.Decode.Thumb.{
  shift_imm, add_sub, alu_imm8, alu_reg, interworking, high_regs, ldr_literal, word_byte_imm,
  half_imm, sp_imm, adr_add_sp, ldm_stm, compare_branch, cond_branch, plain_branch, ldst_reg,
  ldst_ops, push_pop, misc, by_top, memory_forms, decode_t16,
}
use vitarecomp.Decode.Valid.{FlowOk, IsInsn, always-unguarded, all-get_or}

-- The forms, from a blank instruction.
module _ (addr raw h : ℕ) where
  abbrev start : Insn
  start = record (blank addr) { raw = raw }

  shift_imm-IsInsn : IsInsn (shift_imm start h)
  unfolding shift_imm
  shift_imm-IsInsn = ground arith

  add_sub-IsInsn : IsInsn (add_sub start h)
  unfolding add_sub
  add_sub-IsInsn = ground arith

  alu_imm8-IsInsn : IsInsn (alu_imm8 start h)
  unfolding alu_imm8
  alu_imm8-IsInsn = ground arith

  alu_reg-IsInsn : IsInsn (alu_reg start h)
  unfolding alu_reg
  alu_reg-IsInsn = ground arith

  interworking-IsInsn : IsInsn (interworking start h)
  unfolding interworking
  interworking-IsInsn = ground arith

  high_regs-IsInsn : IsInsn (high_regs start h)
  unfolding high_regs
  high_regs-IsInsn = ground arith

  ldr_literal-IsInsn : IsInsn (ldr_literal start h)
  unfolding ldr_literal
  ldr_literal-IsInsn = ground arith

  word_byte_imm-IsInsn : IsInsn (word_byte_imm start h)
  unfolding word_byte_imm
  word_byte_imm-IsInsn = ground arith

  half_imm-IsInsn : IsInsn (half_imm start h)
  unfolding half_imm
  half_imm-IsInsn = ground arith

  sp_imm-IsInsn : IsInsn (sp_imm start h)
  unfolding sp_imm
  sp_imm-IsInsn = ground arith

  adr_add_sp-IsInsn : IsInsn (adr_add_sp start h)
  unfolding adr_add_sp
  adr_add_sp-IsInsn = ground arith

  ldm_stm-IsInsn : IsInsn (ldm_stm start h)
  unfolding ldm_stm
  ldm_stm-IsInsn = ground arith

  compare_branch-IsInsn : IsInsn (compare_branch start h)
  unfolding compare_branch
  compare_branch-IsInsn = ground arith

  cond_branch-IsInsn : IsInsn (cond_branch start h)
  unfolding cond_branch
  cond_branch-IsInsn = ground arith

  plain_branch-IsInsn : IsInsn (plain_branch start h)
  unfolding plain_branch
  plain_branch-IsInsn = ground arith

  ldst_reg-IsInsn : IsInsn (ldst_reg start h)
  unfolding ldst_reg
  ldst_reg-IsInsn = record {
    rd = tt;
    rn = omega arith;
    rm = omega arith;
    rt = omega arith;
    rt2 = tt;
    reglist = omega arith;
    cond = omega arith;
    unguarded = always-unguarded _;
    shift = (omega arith, omega arith);
    bitfield = omega arith;
    vfp = tt;
    flow =
        all-get_or (λ (e : Op × Class). FlowOk e.1 none) ldst_ops (bits 9 3 h) (no_op, load)
          (tt, (tt, (tt, (tt, (tt, (tt, (tt, (tt, tt)))))))) tt;
  }

  push_pop-IsInsn : IsInsn (push_pop start h)
  unfolding push_pop
  push_pop-IsInsn = ground (
    arith,
    bit_or-lt 16 (bits 0 8 h) 0x8000 (omega arith) (omega arith),
    bit_or-lt 16 (bits 0 8 h) 0x4000 (omega arith) (omega arith),
  )

  misc-IsInsn : IsInsn (misc start h)
  unfolding misc
  misc-IsInsn = if_holds IsInsn (masked h 0xff00 0xbf00) _ _ (ground arith) (
      if_holds IsInsn (masked h 0xff00 0xb000) _ _ (ground arith) (
        if_holds IsInsn (masked h 0xff00 0xb200) _ _ (ground arith) (
          if_holds IsInsn (masked h 0xff00 0xba00 && not (bits 6 2 h == 1)) _ _ (ground arith) (
            if_holds IsInsn (masked h 0xf600 0xb400) _ _ push_pop-IsInsn (
              if_holds IsInsn (masked h 0xf500 0xb100) _ _ compare_branch-IsInsn (ground arith))))))

  by_top-IsInsn : IsInsn (by_top start h)
  unfolding by_top
  by_top-IsInsn = if_holds IsInsn (ltb (bits 12 4 h) 5) _ _ (ground arith) (
      if_holds IsInsn (bits 12 4 h == 11) _ _ misc-IsInsn (
        if_holds IsInsn (bits 12 4 h == 13) _ _ cond_branch-IsInsn
          (if_holds IsInsn (bits 12 4 h == 14) _ _ plain_branch-IsInsn (ground arith))))

  memory_forms-IsInsn : IsInsn (memory_forms start h)
  unfolding memory_forms
  memory_forms-IsInsn = if_holds IsInsn _ _ _ ldr_literal-IsInsn (
      if_holds IsInsn _ _ _ ldst_reg-IsInsn (
        if_holds IsInsn _ _ _ word_byte_imm-IsInsn (
          if_holds IsInsn _ _ _ half_imm-IsInsn (
            if_holds IsInsn _ _ _ sp_imm-IsInsn (
              if_holds IsInsn _ _ _ adr_add_sp-IsInsn
                (if_holds IsInsn _ _ _ ldm_stm-IsInsn by_top-IsInsn))))))

pub decode_t16-IsInsn : (addr h : ℕ) → IsInsn (decode_t16 addr h)
unfolding decode_t16
decode_t16-IsInsn addr h = if_holds IsInsn _ _ _ (shift_imm-IsInsn addr h h) (
    if_holds IsInsn _ _ _ (add_sub-IsInsn addr h h) (
      if_holds IsInsn _ _ _ (alu_imm8-IsInsn addr h h) (
        if_holds IsInsn _ _ _ (alu_reg-IsInsn addr h h) (
          if_holds IsInsn _ _ _ (interworking-IsInsn addr h h)
            (if_holds IsInsn _ _ _ (high_regs-IsInsn addr h h) (memory_forms-IsInsn addr h h))))))
