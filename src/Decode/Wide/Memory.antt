-- ===== src/Decode/Wide/Memory.antt =====
-- decode_t32 of tools/armrecomp/decode.c: loads and stores.
use vitarecomp.Base.{ℕ, ◌*◌, Bool, true, false, ◌&&◌, some, ◌==◌, if◌then◌else◌}
use vitarecomp.Decode.Insn.{
  load, store, loadm, storem, return_class, Op, no_op, ldr, ldrb, ldrh, ldrsb, ldrsh, ldrd, str,
  strb, strh, strd, push_op, pop_op, Insn, bits, bit, masked,
}

unfoldable pub dual : Insn → (h1 h2 : ℕ) → Insn
dual o h1 h2 = record o {
  op = if bit 4 h1 then ldrd else strd;
  rn = some (bits 0 4 h1);
  rt = some (bits 12 4 h2);
  rt2 = some (bits 8 4 h2);
  imm = some (bits 0 8 h2 * 4);
  mem_add = bit 7 h1;
  cls = if bit 4 h1 then load else store;
}

unfoldable pub multiple_wide : Insn → (h1 h2 : ℕ) → Insn
multiple_wide o h1 h2 =
    if bit 4 h1 && bit 15 h2 then record o { cls = return_class } else record o {
      op = if bits 0 4 h1 == 13 then if bit 4 h1 then pop_op else push_op else no_op;
      rn = some (bits 0 4 h1);
      reglist = h2;
      writeback = bit 5 h1;
      cls = if bit 4 h1 then loadm else storem;
    }

abbrev pub single_op : (loads sign : Bool) (size : ℕ) → Op
single_op loads sign size =
    if loads
    then if size == 0
      then if sign then ldrsb else ldrb
      else if size == 1
      then if sign then ldrsh else ldrh
      else ldr
    else if size == 0
    then strb
    else if size == 1
    then strh
    else str

-- The four ways to name the offset.
unfoldable pub single_wide : Insn → (h1 h2 : ℕ) → Insn
single_wide o h1 h2 =
    let is_load = bit 4 h1 in
    let o1 : Insn = record o {
      rt = some (bits 12 4 h2);
      rn = some (bits 0 4 h1);
      mem_add = true;
      op = single_op is_load (bit 8 h1) (bits 5 2 h1);
      cls = if is_load then load else store;
    } in
    if is_load && (bits 12 4 h2 == 15)
    then record o { cls = return_class }
    else if bit 7 h1
    then record o1 { imm = some (bits 0 12 h2) }
    else if masked h2 0x0f00 0x0c00
    then record o1 { imm = some (bits 0 8 h2); mem_add = false }
    else if masked h2 0x0fc0 0
    then record o1 { rm = some (bits 0 4 h2); shift_amt = bits 4 2 h2 }
    else record o1 { imm = some (bits 0 8 h2) }
