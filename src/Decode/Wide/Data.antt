-- ===== src/Decode/Wide/Data.antt =====
-- decode_t32 of tools/armrecomp/decode.c: data processing, plain immediates, bitfields, extensions,
-- shifts and multiplication.
use vitarecomp.Base.{
  ℕ, ◌+◌, ◌-◌, ◌*◌, ◌^◌, Bool, ◌&&◌, ◌||◌, none, some, List, [], ◌∷◌, leb, ◌==◌, if◌then◌else◌,
}
use vitarecomp.Decode.Insn.{
  unknown_class, alu, Op, no_op, mov, movt, mvn, add, adc, sub, sbc, rsb, and, orr, eor, bic, cmp,
  cmn, tst, lsl, lsr, asr, ror, mul, sxtb, sxth, uxtb, uxth, sbfx, ubfx, bfi, bfc, Insn, bits, bit,
  masked,
}
use vitarecomp.Decode.Immediate.{thumb_expand_imm}
use vitarecomp.Decode.Thumb.{op_at}

abbrev pub wide_dp_ops : List Op
wide_dp_ops =
    and ∷ bic ∷ orr ∷ mvn ∷ eor ∷ no_op ∷ no_op ∷ no_op ∷ add ∷ no_op ∷ adc ∷ sbc ∷ no_op ∷ sub
    ∷ rsb ∷ no_op ∷ []

abbrev pub has_no_op : ℕ → Bool
has_no_op opf = (opf == 5) || (opf == 6) || (opf == 7) || (opf == 9) || (opf == 12) || (opf == 15)

-- The 12-bit field that is spread over both halfwords.
abbrev pub imm12_of : (h1 h2 : ℕ) → ℕ
imm12_of h1 h2 = bits 10 1 h1 * 2 ^ 11 + bits 12 3 h2 * 2 ^ 8 + bits 0 8 h2

-- Operand 2, and the class.
unfoldable pub with_operand2 : Insn → (is_imm : Bool) (h1 h2 : ℕ) → Insn
with_operand2 o is_imm h1 h2 =
    if is_imm
    then record o { imm = some (thumb_expand_imm (imm12_of h1 h2)); cls = alu }
    else record o {
      rm = some (bits 0 4 h2);
      shift_type = bits 4 2 h2;
      shift_amt = bits 12 3 h2 * 4 + bits 6 2 h2;
      cls = alu;
    }

-- The two registers that change the operation when they are 15.
unfoldable pub data_processing : Insn → (is_imm : Bool) (h1 h2 : ℕ) → Insn
data_processing o is_imm h1 h2 =
    let opf = bits 5 4 h1 in
    let rn = bits 0 4 h1 in
    let rd = bits 8 4 h2 in
    let flags = bit 4 h1 in
    let op = if rn == 15 && (opf == 2) then mov else op_at wide_dp_ops opf in
    let o1 : Insn = record o {
      op = op;
      rn = if rn == 15 then none else some rn;
      rd = some rd;
      sets_flags = flags;
    } in
    if is_imm && bit 15 h2
    then record o { cls = unknown_class }
    else if has_no_op opf
    then record o { op = no_op; cls = alu }
    else if rd == 15
    then if flags && ((opf == 0) || (opf == 4) || (opf == 8) || (opf == 13))
      then with_operand2
          (record o1 { op = if opf == 8 then cmn else if opf == 13 then cmp else tst; rd = none })
          is_imm h1 h2
      else record o1 { op = no_op; cls = alu }
    else with_operand2 o1 is_imm h1 h2

-- SBFX and UBFX.
unfoldable pub extract : Insn → (bop lsb low : ℕ) → Insn
extract o bop lsb low =
    if leb (lsb + (low + 1)) 32
    then record o { op = if bop == 0x14 then sbfx else ubfx; bf_width = low + 1; cls = alu }
    else record o { cls = alu }

-- BFI and BFC.
unfoldable pub insert : Insn → (rn lsb msb : ℕ) → Insn
insert o rn lsb msb =
    if leb lsb msb
    then record o {
      op = if rn == 15 then bfc else bfi;
      rn = if rn == 15 then none else some rn;
      bf_width = msb - lsb + 1;
      cls = alu;
    }
    else record o { rn = if rn == 15 then none else some rn; cls = alu }

unfoldable pub bitfield : Insn → (h1 h2 : ℕ) → Insn
bitfield o h1 h2 =
    let bop = bits 4 5 h1 in
    let lsb = bits 12 3 h2 * 4 + bits 6 2 h2 in
    let rn = bits 0 4 h1 in
    let low = bits 0 5 h2 in
    let o1 : Insn = record o { rd = some (bits 8 4 h2); rn = some rn; bf_lsb = lsb } in
    if (bop == 0x14) || (bop == 0x1c)
    then extract o1 bop lsb low
    else if bop == 0x16
    then insert o1 rn lsb low
    else record o1 { rn = none; cls = alu }

unfoldable pub plain_immediate : Insn → (h1 h2 : ℕ) → Insn
plain_immediate o h1 h2 =
    let imm = imm12_of h1 h2 in
    let o1 : Insn = record o { rd = some (bits 8 4 h2); cls = alu } in
    if masked h1 0xfbf0 0xf240
    then record o1 { op = mov; imm = some (imm + bits 0 4 h1 * 2 ^ 12) }
    else if masked h1 0xfbf0 0xf2c0
    then record o1 { op = movt; imm = some (imm + bits 0 4 h1 * 2 ^ 12) }
    else if masked h1 0xfbf0 0xf200 || masked h1 0xfbf0 0xf2a0
    then record o1 {
      op = if masked h1 0xfbf0 0xf2a0 then sub else add;
      rn = some (bits 0 4 h1);
      imm = some imm;
    }
    else bitfield o h1 h2

unfoldable pub extend_wide : Insn → (h1 h2 : ℕ) → Insn
extend_wide o h1 h2 = record o {
  op = op_at (sxth ∷ uxth ∷ sxtb ∷ uxtb ∷ []) (bits 4 2 h1);
  rd = some (bits 8 4 h2);
  rm = some (bits 0 4 h2);
  cls = alu;
}

unfoldable pub shift_reg_wide : Insn → (h1 h2 : ℕ) → Insn
shift_reg_wide o h1 h2 = record o {
  op = op_at (lsl ∷ lsr ∷ asr ∷ ror ∷ []) (bits 5 2 h1);
  rd = some (bits 8 4 h2);
  rn = some (bits 0 4 h1);
  rm = some (bits 0 4 h2);
  sets_flags = bit 4 h1;
  cls = alu;
}

unfoldable pub multiply_wide : Insn → (h1 h2 : ℕ) → Insn
multiply_wide o h1 h2 =
    if bits 12 4 h2 == 15
    then record o {
      op = mul;
      rd = some (bits 8 4 h2);
      rn = some (bits 0 4 h1);
      rm = some (bits 0 4 h2);
      cls = alu;
    }
    else record o { cls = alu }
