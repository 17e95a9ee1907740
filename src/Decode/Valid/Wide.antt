-- ===== src/Decode/Valid/Wide.antt =====
-- decode_t32 gives well-formed instructions.
use vitarecomp.Base.{true, ℕ, ◌+◌, ◌*◌, ◌^◌, ◌<◌, Bool, ◌&&◌, Option, none, some, if_holds, arith}
use vitarecomp.Decode.Insn.{
  unclaimed, simd, VfpOp, VfpInsn, vldr, vstr, vldm, vstm, vadd, vsub, vmul, vdiv, vabs, vneg,
  vsqrt, vmov, vmov_to_core, vmov_to_vfp, vcmp, vcvt_float_to_int, vcvt_int_to_float, vmrs, vmla,
  vmls, vnmul, Insn, blank, masked,
}
use vitarecomp.Decode.Wide.Branch.{
  call_wide, call_exchange, branch_wide, branch_cond_wide, branch_group,
}
use vitarecomp.Decode.Wide.Data.{
  with_operand2, data_processing, extract, insert, bitfield, plain_immediate, extend_wide,
  shift_reg_wide, multiply_wide,
}
use vitarecomp.Decode.Wide.Memory.{dual, multiple_wide, single_wide}
use vitarecomp.Decode.Wide.{vfp_class, coprocessor, wide_rest, decode_t32}
use vitarecomp.Decode.Vfp.{Claim, claimed, declined, decode_vfp}
use vitarecomp.Decode.Valid.Float.{ClaimOk, decode_vfp-ClaimOk}
use vitarecomp.Decode.Valid.{FlowOk, HasRegs, VfpOk, IsInsn, always-unguarded}

vfp_class-FlowOk : (op : VfpOp) → FlowOk (vfp_class op) none
vfp_class-FlowOk unclaimed = tt
vfp_class-FlowOk vldr = tt
vfp_class-FlowOk vstr = tt
vfp_class-FlowOk vldm = tt
vfp_class-FlowOk vstm = tt
vfp_class-FlowOk vadd = tt
vfp_class-FlowOk vsub = tt
vfp_class-FlowOk vmul = tt
vfp_class-FlowOk vdiv = tt
vfp_class-FlowOk vabs = tt
vfp_class-FlowOk vneg = tt
vfp_class-FlowOk vsqrt = tt
vfp_class-FlowOk vmov = tt
vfp_class-FlowOk vmov_to_core = tt
vfp_class-FlowOk vmov_to_vfp = tt
vfp_class-FlowOk vcmp = tt
vfp_class-FlowOk vcvt_float_to_int = tt
vfp_class-FlowOk vcvt_int_to_float = tt
vfp_class-FlowOk vmrs = tt
vfp_class-FlowOk vmla = tt
vfp_class-FlowOk vmls = tt
vfp_class-FlowOk vnmul = tt

-- What the coprocessor group makes of the outcome of decode_vfp.
with_vfp :
    (o : Insn) (r : Claim)
    → ClaimOk r
    → ((v : VfpInsn) → HasRegs v → IsInsn (record o { vfp = some v; cls = vfp_class v.op }))
    → ((left : Option VfpInsn) → VfpOk left → IsInsn (record o { vfp = left; cls = simd }))
    → IsInsn (elim r [
      | claimed v ↦ record o { vfp = some v; cls = vfp_class v.op }
      | declined left ↦ record o { vfp = left; cls = simd }
    ])
with_vfp o (claimed v) ok p q = p v ok
with_vfp o (declined left) ok p q = q left ok

module _ (addr raw h1 h2 : ℕ) where
  abbrev start : Insn
  start = record (blank addr) { raw = raw }

  call_wide-IsInsn : IsInsn (call_wide start h1 h2)
  unfolding call_wide
  call_wide-IsInsn = ground arith

  call_exchange-IsInsn : IsInsn (call_exchange start h1 h2)
  unfolding call_exchange
  call_exchange-IsInsn = ground arith

  branch_wide-IsInsn : IsInsn (branch_wide start h1 h2)
  unfolding branch_wide
  branch_wide-IsInsn = ground arith

  branch_cond_wide-IsInsn : IsInsn (branch_cond_wide start h1 h2)
  unfolding branch_cond_wide
  branch_cond_wide-IsInsn = ground arith

  branch_group-IsInsn : IsInsn (branch_group start h1 h2)
  unfolding branch_group
  branch_group-IsInsn =
      if_holds IsInsn _ _ _ (if_holds IsInsn _ _ _ call_wide-IsInsn call_exchange-IsInsn)
        (if_holds IsInsn _ _ _ branch_wide-IsInsn branch_cond_wide-IsInsn)

  dual-IsInsn : IsInsn (dual start h1 h2)
  unfolding dual
  dual-IsInsn = ground arith

  multiple_wide-IsInsn : h2 < 2 ^ 16 → IsInsn (multiple_wide start h1 h2)
  unfolding multiple_wide
  multiple_wide-IsInsn small = ground arith

  single_wide-IsInsn : IsInsn (single_wide start h1 h2)
  unfolding single_wide
  single_wide-IsInsn = ground arith

  extend_wide-IsInsn : IsInsn (extend_wide start h1 h2)
  unfolding extend_wide
  extend_wide-IsInsn = ground arith

  shift_reg_wide-IsInsn : IsInsn (shift_reg_wide start h1 h2)
  unfolding shift_reg_wide
  shift_reg_wide-IsInsn = ground arith

  multiply_wide-IsInsn : IsInsn (multiply_wide start h1 h2)
  unfolding multiply_wide
  multiply_wide-IsInsn = ground arith

  bitfield-IsInsn : IsInsn (bitfield start h1 h2)
  unfolding bitfield extract insert
  bitfield-IsInsn = ground arith

  plain_immediate-IsInsn : IsInsn (plain_immediate start h1 h2)
  unfolding plain_immediate
  plain_immediate-IsInsn = ground (arith, bitfield-IsInsn)

  data_processing-IsInsn : (is_imm : Bool) → IsInsn (data_processing start is_imm h1 h2)
  unfolding data_processing with_operand2
  data_processing-IsInsn is_imm = ground arith

  coprocessor-IsInsn : IsInsn (coprocessor start h1 h2)
  unfolding coprocessor
  coprocessor-IsInsn =
      with_vfp start (decode_vfp h1 h2) (decode_vfp-ClaimOk h1 h2)
        (λ v regs. record {
          rd = tt;
          rn = tt;
          rm = tt;
          rt = tt;
          rt2 = tt;
          reglist = omega arith;
          cond = omega arith;
          unguarded = always-unguarded _;
          shift = (omega arith, omega arith);
          bitfield = omega arith;
          vfp = regs;
          flow = vfp_class-FlowOk v.op;
        })
        (λ left regs. record {
          rd = tt;
          rn = tt;
          rm = tt;
          rt = tt;
          rt2 = tt;
          reglist = omega arith;
          cond = omega arith;
          unguarded = always-unguarded true;
          shift = (omega arith, omega arith);
          bitfield = omega arith;
          vfp = regs;
          flow = tt;
        })

  wide_rest-IsInsn : IsInsn (wide_rest start h1 h2)
  unfolding wide_rest
  wide_rest-IsInsn = if_holds IsInsn (masked h1 0xfe00 0xf800) _ _ single_wide-IsInsn (
      if_holds IsInsn _ _ _ extend_wide-IsInsn (
        if_holds IsInsn (masked h1 0xfff0 0xe8d0 && masked h2 0xffe0 0xf000) _ _ (ground arith) (
          if_holds IsInsn _ _ _ shift_reg_wide-IsInsn (
            if_holds IsInsn (masked h1 0xfff0 0xfb00 && masked h2 0x00f0 0) _ _ multiply_wide-IsInsn
              (ground arith)))))

pub decode_t32-IsInsn : (addr h1 h2 : ℕ) → h2 < 2 ^ 16 → IsInsn (decode_t32 addr h1 h2)
unfolding decode_t32
decode_t32-IsInsn addr h1 h2 small =
    let raw = h1 * 2 ^ 16 + h2 in
    if_holds IsInsn _ _ _ (coprocessor-IsInsn addr raw h1 h2) (
      if_holds IsInsn _ _ _ (branch_group-IsInsn addr raw h1 h2) (
        if_holds IsInsn _ _ _ (dual-IsInsn addr raw h1 h2) (
          if_holds IsInsn _ _ _ (multiple_wide-IsInsn addr raw h1 h2 small) (
            if_holds IsInsn _ _ _ (data_processing-IsInsn addr raw h1 h2 (masked h1 0xfa00 0xf000))
              (if_holds IsInsn _ _ _ (plain_immediate-IsInsn addr raw h1 h2)
                (wide_rest-IsInsn addr raw h1 h2))))))
