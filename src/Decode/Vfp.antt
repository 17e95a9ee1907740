-- ===== src/Decode/Vfp.antt =====
-- decode_vfp of tools/armrecomp/decode.c: the scalar float instructions. A register-list or
-- data-processing form that is not claimed is `none`; decode_vfp then leaves what it has filled.
use vitarecomp.Base.{
  ℕ, ◌+◌, ◌*◌, ◌/◌, ◌%◌, ◌^◌, bit_and, Bool, true, false, not, ◌&&◌, ◌||◌, Option, none, some, ltb,
  ◌==◌, if◌then◌else◌,
}
use vitarecomp.Decode.Insn.{
  unclaimed, vldr, vstr, vldm, vstm, vadd, vsub, vmul, vdiv, vabs, vneg, vsqrt, vmov, vmov_to_core,
  vmov_to_vfp, vcmp, vcvt_float_to_int, vcvt_int_to_float, vmrs, vmla, vmls, vnmul, VfpInsn, bits,
  bit, masked,
}

-- vfp_sreg and vfp_dreg for a four-bit field and one bit more.
abbrev pub sreg : (field extra : ℕ) → ℕ
sreg field extra = field * 2 + extra

abbrev pub dreg : (field extra : ℕ) → ℕ
dreg field extra = extra * 2 ^ 4 + field

abbrev pub reg : Bool → (field extra : ℕ) → ℕ
reg double field extra = if double then dreg field extra else sreg field extra

-- VLDR, VSTR, VLDM and VSTM.
unfoldable pub decode_vfp_transfer : (double : Bool) (h1 h2 : ℕ) → Option VfpInsn
decode_vfp_transfer double h1 h2 =
    let load = bit 4 h1 in
    let vd = reg double (bits 12 4 h2) (bits 6 1 h1) in
    let n = if double then bits 0 8 h2 / 2 else bits 0 8 h2 in
    if bit 5 h1
    then if n == 0 || ltb 32 n
      then none
      else some (record {
        op = if load then vldm else vstm;
        double = double;
        unsigned = false;
        vd = some vd;
        vn = none;
        vm = none;
        rn = some (bits 0 4 h1);
        rt = none;
        imm = some n;
        writeback = true;
        mem_add = bit 7 h1;
      })
    else if not (bit 8 h1)
    then none
    else some (record {
      op = if load then vldr else vstr;
      double = double;
      unsigned = false;
      vd = some vd;
      vn = none;
      vm = none;
      rn = some (bits 0 4 h1);
      rt = none;
      imm = some (bits 0 8 h2 * 4);
      writeback = false;
      mem_add = bit 7 h1;
    })

-- The group of operations on one source, `case 0xB`.
unfoldable pub decode_vfp_other : VfpInsn → (h1 h2 : ℕ) → Option VfpInsn
decode_vfp_other o h1 h2 =
    let opc2 = bits 0 4 h1 in
    let opc3 = bits 6 2 h2 in
    let odd = opc3 % 2 == 1 in
    if opc2 == 0 && (opc3 == 1)
    then some (record o { op = vmov })
    else if opc2 == 0 && (opc3 == 3)
    then some (record o { op = vabs })
    else if opc2 == 1 && (opc3 == 1)
    then some (record o { op = vneg })
    else if opc2 == 1 && (opc3 == 3)
    then some (record o { op = vsqrt })
    else if (opc2 == 4 || (opc2 == 5)) && odd
    then if opc2 == 5
      then some (record o { op = vcmp; vm = none; imm = some 0 })
      else some (record o { op = vcmp })
    else if opc2 == 8 && odd
    then some (record o { op = vcvt_int_to_float; unsigned = bits 6 1 h2 == 0 })
    else if masked opc2 0xe 0xc && odd
    then some (record o { op = vcvt_float_to_int; unsigned = opc2 % 2 == 0 })
    else none

-- The `switch` on opc1.
unfoldable pub decode_vfp_data : VfpInsn → (h1 h2 : ℕ) → Option VfpInsn
decode_vfp_data o h1 h2 =
    let opc1 = bit_and (h1 / 2 ^ 4) 0xb in
    let op = bit 6 h2 in
    if opc1 == 0
    then some (record o { op = if op then vmls else vmla })
    else if opc1 == 1
    then if op then some (record o { op = vnmul }) else none
    else if opc1 == 2
    then some (record o { op = vmul })
    else if opc1 == 3
    then some (record o { op = if op then vsub else vadd })
    else if opc1 == 8
    then some (record o { op = vdiv })
    else if opc1 == 0xb
    then decode_vfp_other o h1 h2
    else none

-- What decode_vfp returns, with the fields that it has filled.
pub data Claim : Type 0 where
  claimed : VfpInsn → Claim
  declined : Option VfpInsn → Claim

-- A form that is claimed, or what is left of the fields.
unfoldable pub settle : VfpInsn → Option VfpInsn → Claim
settle left none = declined (some left)
settle left (some v) = claimed v

-- decode_vfp.
unfoldable pub decode_vfp : (h1 h2 : ℕ) → Claim
decode_vfp h1 h2 =
    let coproc = bits 8 4 h2 in
    let double = coproc == 11 in
    let start : VfpInsn = record {
      op = unclaimed;
      double = double;
      unsigned = false;
      vd = none;
      vn = none;
      vm = none;
      rn = none;
      rt = none;
      imm = none;
      writeback = false;
      mem_add = false;
    } in
    let o : VfpInsn = record start {
      vd = some (reg double (bits 12 4 h2) (bits 6 1 h1));
      vn = some (reg double (bits 0 4 h1) (bits 7 1 h2));
      vm = some (reg double (bits 0 4 h2) (bits 5 1 h2));
    } in
    if not (coproc == 10) && not (coproc == 11)
    then declined none
    else if masked h1 0xfe00 0xec00
    then settle start (decode_vfp_transfer double h1 h2)
    else if not (masked h1 0xef00 0xee00)
    then declined (some start)
    else if masked h1 0xfff0 0xeef0 && masked h2 0x0f10 0x0a10
    then claimed (record o { op = vmrs; rt = some (bits 12 4 h2) })
    else if masked h1 0xffe0 0xee00 && masked h2 0x0f7f 0x0a10
    then claimed (record o {
      op = if bit 4 h1 then vmov_to_core else vmov_to_vfp;
      rt = some (bits 12 4 h2);
      vn = some (sreg (bits 0 4 h1) (bits 7 1 h2));
      double = false;
    })
    else settle o (decode_vfp_data o h1 h2)
