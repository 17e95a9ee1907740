-- ===== src/Decode/Wide.antt =====
-- decode_t32 of tools/armrecomp/decode.c, its groups in the order of the source.
pub mod Branch
pub mod Data
pub mod Memory
pub mod Targets
use vitarecomp.Base.{
  ℕ, ◌+◌, ◌*◌, ◌^◌, Bool, true, false, not, ◌&&◌, ◌||◌, Option, none, some, ◌==◌, if◌then◌else◌,
}
use vitarecomp.Decode.Insn.{
  Class, unknown_class, alu, load, store, loadm, storem, indirect, simd, sys, VfpOp, vldr, vstr,
  vldm, vstm, vmrs, VfpInsn, Insn, blank, bits, bit, masked,
}
use vitarecomp.Decode.Vfp.{Claim, claimed, declined, decode_vfp}
use vitarecomp.Decode.Wide.Branch.{branch_group}
use vitarecomp.Decode.Wide.Data.{
  data_processing, plain_immediate, extend_wide, shift_reg_wide, multiply_wide,
}
use vitarecomp.Decode.Wide.Memory.{dual, multiple_wide, single_wide}

-- The class that decode_vfp sets along with an operation.
abbrev pub vfp_class : VfpOp → Class
vfp_class vldr = load
vfp_class vstr = store
vfp_class vldm = loadm
vfp_class vstm = storem
vfp_class vmrs = sys
vfp_class _ = alu

unfoldable pub coprocessor : Insn → (h1 h2 : ℕ) → Insn
coprocessor o h1 h2 = elim (decode_vfp h1 h2) [
  | claimed v ↦ record o { vfp = some v; cls = vfp_class v.op }
  | declined left ↦ record o { vfp = left; cls = simd }
]

-- The groups behind the plain immediates.
unfoldable pub wide_rest : Insn → (h1 h2 : ℕ) → Insn
wide_rest o h1 h2 =
    if masked h1 0xfe00 0xf800
    then single_wide o h1 h2
    else if masked h1 0xff80 0xfa00 && (bits 0 4 h1 == 15) && masked h2 0xf080 0xf080
    then extend_wide o h1 h2
    else if masked h1 0xfff0 0xe8d0 && masked h2 0xffe0 0xf000
    then record o { rn = some (bits 0 4 h1); rm = some (bits 0 4 h2); cls = indirect }
    else if masked h1 0xff80 0xfa00 && masked h2 0xf0f0 0xf000
    then shift_reg_wide o h1 h2
    else if masked h1 0xfff0 0xfb00 && masked h2 0x00f0 0
    then multiply_wide o h1 h2
    else record o { cls = unknown_class }

unfoldable pub decode_t32 : (addr h1 h2 : ℕ) → Insn
decode_t32 addr h1 h2 =
    let o : Insn = record (blank addr) { raw = h1 * 2 ^ 16 + h2 } in
    if masked h1 0xec00 0xec00
    then coprocessor o h1 h2
    else if masked h1 0xf800 0xf000 && bit 15 h2
    then branch_group o h1 h2
    else if masked h1 0xfe40 0xe840 && not (masked h1 0x0120 0)
    then dual o h1 h2
    else if masked h1 0xfe40 0xe800
    then multiple_wide o h1 h2
    else if masked h1 0xfe00 0xea00 || masked h1 0xfa00 0xf000
    then data_processing o (masked h1 0xfa00 0xf000) h1 h2
    else if masked h1 0xfa00 0xf200 && not (bit 15 h2)
    then plain_immediate o h1 h2
    else wide_rest o h1 h2
