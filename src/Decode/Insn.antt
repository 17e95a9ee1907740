-- ===== src/Decode/Insn.antt =====
-- tools/armrecomp/decode.h: classes, operations and the decoded instruction, with the access to fields.
use vitarecomp.Base.{ℕ, ◌+◌, ◌-◌, ◌/◌, ◌%◌, ◌^◌, bit_and, bit_xor, Bool, false, Option, none, ◌==◌}
use vitarecomp.Runtime.Alu.{u32_mod}

-- arm_class.
pub data Class : Type 0 where
  unknown_class : Class
  undef : Class
  alu : Class
  load : Class
  store : Class
  loadm : Class
  storem : Class
  branch : Class
  call : Class
  return_class : Class
  indirect : Class
  simd : Class
  sys : Class
  nop_class : Class

-- arm_op, without the operations of VFP.
pub data Op : Type 0 where
  no_op : Op
  mov : Op
  movt : Op
  mvn : Op
  add : Op
  adc : Op
  sub : Op
  sbc : Op
  rsb : Op
  and : Op
  orr : Op
  eor : Op
  bic : Op
  cmp : Op
  cmn : Op
  tst : Op
  lsl : Op
  lsr : Op
  asr : Op
  ror : Op
  mul : Op
  ldr : Op
  ldrb : Op
  ldrh : Op
  ldrsb : Op
  ldrsh : Op
  ldrd : Op
  str : Op
  strb : Op
  strh : Op
  strd : Op
  push_op : Op
  pop_op : Op
  b : Op
  bx : Op
  blx : Op
  adr : Op
  sxtb : Op
  sxth : Op
  uxtb : Op
  uxth : Op
  rev : Op
  it : Op
  nop : Op
  svc : Op
  cbz : Op
  cbnz : Op
  sbfx : Op
  ubfx : Op
  bfi : Op
  bfc : Op

-- The part of arm_op that is scalar VFP, and OP_NONE.
pub data VfpOp : Type 0 where
  unclaimed : VfpOp
  vldr : VfpOp
  vstr : VfpOp
  vldm : VfpOp
  vstm : VfpOp
  vadd : VfpOp
  vsub : VfpOp
  vmul : VfpOp
  vdiv : VfpOp
  vabs : VfpOp
  vneg : VfpOp
  vsqrt : VfpOp
  vmov : VfpOp
  vmov_to_core : VfpOp
  vmov_to_vfp : VfpOp
  vcmp : VfpOp
  vcvt_float_to_int : VfpOp
  vcvt_int_to_float : VfpOp
  vmrs : VfpOp
  vmla : VfpOp
  vmls : VfpOp
  vnmul : VfpOp

-- The fields of arm_insn that decode_vfp fills.
pub record VfpInsn : Type 0 where
  pub op : VfpOp
  pub double : Bool
  pub unsigned : Bool
  pub vd : Option ℕ
  pub vn : Option ℕ
  pub vm : Option ℕ
  pub rn : Option ℕ
  pub rt : Option ℕ
  pub imm : Option ℕ
  pub writeback : Bool
  pub mem_add : Bool

-- arm_insn; a register that is absent (ARM_NO_REG) is `none`, and what decode_vfp fills is `vfp`.
pub record Insn : Type 0 where
  pub addr : ℕ
  pub raw : ℕ
  pub cls : Class
  pub target : Option ℕ
  pub conditional : Bool
  pub switches_mode : Bool
  pub op : Op
  pub rd : Option ℕ
  pub rn : Option ℕ
  pub rm : Option ℕ
  pub rt : Option ℕ
  pub imm : Option ℕ
  pub sets_flags : Bool
  pub reglist : ℕ
  pub cond : ℕ
  pub writeback : Bool
  pub mem_add : Bool
  pub it_mask : ℕ
  pub rt2 : Option ℕ
  pub shift_type : ℕ
  pub shift_amt : ℕ
  pub bf_lsb : ℕ
  pub bf_width : ℕ
  pub vfp : Option VfpInsn

-- What arm_decode starts from.
abbrev pub blank : ℕ → Insn
blank addr = record {
  addr = addr;
  raw = 0;
  cls = unknown_class;
  target = none;
  conditional = false;
  switches_mode = false;
  op = no_op;
  rd = none;
  rn = none;
  rm = none;
  rt = none;
  imm = none;
  sets_flags = false;
  reglist = 0;
  cond = 14;
  writeback = false;
  mem_add = false;
  it_mask = 0;
  rt2 = none;
  shift_type = 0;
  shift_amt = 0;
  bf_lsb = 0;
  bf_width = 0;
  vfp = none;
}

-- `(h >> lo) & ((1 << n) - 1)`.
abbrev pub bits : (lo n h : ℕ) → ℕ
bits lo n h = h / 2 ^ lo % 2 ^ n

-- `h & m`, non-zero, for a mask of one bit.
abbrev pub bit : (lo h : ℕ) → Bool
bit lo h = bits lo 1 h == 1

-- `(h & mask) == v`.
abbrev pub masked : (h mask v : ℕ) → Bool
masked h mask v = bit_and h mask == v

-- `(v ^ m) - m` with the sign bit `m`.
unfoldable pub sign_extend : (v n : ℕ) → ℕ
sign_extend v n = (bit_xor v (2 ^ (n - 1)) + (u32_mod - 2 ^ (n - 1))) % u32_mod
