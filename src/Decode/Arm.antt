-- ===== src/Decode/Arm.antt =====
-- decode_a32 of tools/armrecomp/decode.c: classes and targets of 32-bit ARM instructions.
use vitarecomp.Base.{ℕ, ◌+◌, ◌*◌, ◌%◌, true, not, ◌&&◌, ◌||◌, some, ltb, ◌==◌, if◌then◌else◌}
use vitarecomp.Runtime.Alu.{u32_mod}
use vitarecomp.Decode.Insn.{
  undef, alu, load, store, loadm, storem, branch, call, return_class, indirect, simd, sys, Insn,
  blank, bits, bit, masked, sign_extend,
}

-- `cond == 0xF`.
unfoldable pub a32_unconditional : Insn → ℕ → Insn
a32_unconditional o w =
    if masked w 0xfe000000 0xfa000000
    then record o {
      cls = call;
      switches_mode = true;
      target = some ((o.addr + 8 + sign_extend (bits 0 24 w) 24 * 4 + bits 24 1 w * 2) % u32_mod);
    }
    else if masked w 0x0f000000 0x0d000000
        || (masked w 0x0e000000 0x0c000000 || masked w 0x0f000000 0x0e000000)
    then record o { cls = simd }
    else record o { cls = sys }

-- The `switch` on the operation.
unfoldable pub a32_by_op : Insn → ℕ → Insn
a32_by_op o w =
    let op = bits 25 3 w in
    if ltb op 2
    then if bits 12 4 w == 15 && (bits 21 4 w == 13)
      then record o { cls = return_class }
      else record o { cls = alu }
    else if ltb op 4
    then if op == 3 && bit 4 w
      then record o { cls = undef }
      else if bit 20 w && (bits 12 4 w == 15)
      then record o { cls = return_class }
      else record o { cls = if bit 20 w then load else store }
    else if op == 4
    then if bit 20 w && bit 15 w
      then record o { cls = return_class }
      else record o { cls = if bit 20 w then loadm else storem }
    else if op == 5
    then record o {
      cls = if bit 24 w then call else branch;
      target = some ((o.addr + 8 + sign_extend (bits 0 24 w) 24 * 4) % u32_mod);
    }
    else if op == 6
    then record o { cls = simd }
    else if bit 24 w
    then record o { cls = sys }
    else record o { cls = simd }

unfoldable pub decode_a32 : (addr w : ℕ) → Insn
decode_a32 addr w =
    let cond = bits 28 4 w in
    let o : Insn = record (blank addr) {
      raw = w;
      conditional = not (cond == 15) && not (cond == 14);
    } in
    if cond == 15
    then a32_unconditional o w
    else if masked w 0x0ffffff0 0x012fff10
    then if bits 0 4 w == 14
      then record o { cls = return_class }
      else record o { cls = indirect; switches_mode = true }
    else if masked w 0x0ffffff0 0x012fff30
    then record o { cls = call; switches_mode = true }
    else a32_by_op o w
