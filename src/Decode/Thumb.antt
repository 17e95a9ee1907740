-- ===== src/Decode/Thumb.antt =====
-- decode_t16 of tools/armrecomp/decode.c, its forms in the order of the source.
pub mod Targets
use vitarecomp.Base.{
  ℕ, ◌+◌, ◌-◌, ◌*◌, ◌/◌, ◌%◌, ◌^◌, bit_or, Bool, true, false, not, ◌&&◌, ◌||◌, Option, none, some,
  ltb, ◌==◌, if◌then◌else◌, List, [], ◌∷◌, get_or,
}
use vitarecomp.Runtime.Alu.{u32_mod}
use vitarecomp.Decode.Insn.{
  Class, unknown_class, undef, alu, load, store, loadm, storem, branch, call, return_class,
  indirect, sys, nop_class, Op, no_op, mov, mvn, add, adc, sub, sbc, rsb, and, orr, eor, bic, cmp,
  cmn, tst, lsl, lsr, asr, ror, mul, ldr, ldrb, ldrh, ldrsb, ldrsh, str, strb, strh, push_op,
  pop_op, b, bx, blx, adr, sxtb, sxth, uxtb, uxth, rev, it, nop, svc, cbz, cbnz, Insn, blank, bits,
  bit, masked, sign_extend,
}

-- t16_dp.
abbrev pub dp_ops : List Op
dp_ops =
    and ∷ eor ∷ lsl ∷ lsr ∷ asr ∷ adc ∷ sbc ∷ ror ∷ tst ∷ rsb ∷ cmp ∷ cmn ∷ orr ∷ mul ∷ bic ∷ mvn
    ∷ []

-- t16_ldst_reg with, for each, whether it is a store.
abbrev pub ldst_ops : List (Op × Class)
ldst_ops =
    (str, store)
    ∷ (strh, store)
    ∷ (strb, store)
    ∷ (ldrsb, load)
    ∷ (ldr, load)
    ∷ (ldrh, load)
    ∷ (ldrb, load)
    ∷ (ldrsh, load)
    ∷ []

abbrev pub op_at : List Op → ℕ → Op
op_at ops i = get_or ops i no_op

unfoldable pub shift_imm : Insn → ℕ → Insn
shift_imm o h = record o {
  op = op_at (lsl ∷ lsr ∷ asr ∷ []) (bits 11 2 h);
  rd = some (bits 0 3 h);
  rm = some (bits 3 3 h);
  imm = some (bits 6 5 h);
  sets_flags = true;
  cls = alu;
}

unfoldable pub add_sub : Insn → ℕ → Insn
add_sub o h = record o {
  op = if bit 9 h then sub else add;
  rd = some (bits 0 3 h);
  rn = some (bits 3 3 h);
  imm = if bit 10 h then some (bits 6 3 h) else none;
  rm = if bit 10 h then none else some (bits 6 3 h);
  sets_flags = true;
  cls = alu;
}

unfoldable pub alu_imm8 : Insn → ℕ → Insn
alu_imm8 o h = record o {
  op = op_at (mov ∷ cmp ∷ add ∷ sub ∷ []) (bits 11 2 h);
  rd = some (bits 8 3 h);
  rn = some (bits 8 3 h);
  imm = some (bits 0 8 h);
  sets_flags = true;
  cls = alu;
}

-- The negation is the row 9 of dp_ops.
unfoldable pub alu_reg : Insn → ℕ → Insn
alu_reg o h = record o {
  op = op_at dp_ops (bits 6 4 h);
  rd = some (bits 0 3 h);
  rn = if bits 6 4 h == 9 then some (bits 3 3 h) else some (bits 0 3 h);
  rm = some (bits 3 3 h);
  imm = if bits 6 4 h == 9 then some 0 else none;
  sets_flags = true;
  cls = alu;
}

unfoldable pub interworking : Insn → ℕ → Insn
interworking o h =
    let rm = bits 3 4 h in
    if bit 7 h
    then record o { cls = call; switches_mode = true; op = blx; rm = some rm }
    else if rm == 14
    then record o { cls = return_class; op = bx; rm = some rm }
    else record o { cls = indirect; switches_mode = true; op = bx; rm = some rm }

abbrev pub high_rd : ℕ → ℕ
high_rd h = 8 * bits 7 1 h + bits 0 3 h

unfoldable pub high_regs : Insn → ℕ → Insn
high_regs o h =
    let which = bits 8 2 h in
    let rm = bits 3 4 h in
    if (high_rd h == 15) && not (which == 1)
    then if (which == 2) && (rm == 14)
      then record o { rm = some rm; op = bx; cls = return_class }
      else record o { rm = some rm; op = bx; cls = indirect }
    else record o {
      op = op_at (add ∷ cmp ∷ mov ∷ []) which;
      rd = some (high_rd h);
      rn = some (high_rd h);
      rm = some rm;
      sets_flags = which == 1;
      cls = alu;
    }

unfoldable pub ldr_literal : Insn → ℕ → Insn
ldr_literal o h = record o {
  op = ldr;
  rt = some (bits 8 3 h);
  rn = some 15;
  imm = some (bits 0 8 h * 4);
  mem_add = true;
  cls = load;
}

unfoldable pub ldst_reg : Insn → ℕ → Insn
ldst_reg o h = record o {
  op = (get_or ldst_ops (bits 9 3 h) (no_op, load)).0;
  rt = some (bits 0 3 h);
  rn = some (bits 3 3 h);
  rm = some (bits 6 3 h);
  mem_add = true;
  cls = (get_or ldst_ops (bits 9 3 h) (no_op, load)).1;
}

-- The three forms with a five-bit or eight-bit offset: operation when loading and when storing,
-- where the fields are, and the scale.
abbrev pub ldst_imm : (ld st : Op) (t n : ℕ) (offset : ℕ) → Insn → ℕ → Insn
ldst_imm ld st t n offset o h = record o {
  op = if bit 11 h then ld else st;
  rt = some t;
  rn = some n;
  imm = some offset;
  mem_add = true;
  cls = if bit 11 h then load else store;
}

unfoldable pub word_byte_imm : Insn → ℕ → Insn
word_byte_imm o h =
    ldst_imm (if bit 12 h then ldrb else ldr) (if bit 12 h then strb else str) (bits 0 3 h)
      (bits 3 3 h) (bits 6 5 h * (if bit 12 h then 1 else 4)) o h

unfoldable pub half_imm : Insn → ℕ → Insn
half_imm o h = ldst_imm ldrh strh (bits 0 3 h) (bits 3 3 h) (bits 6 5 h * 2) o h

unfoldable pub sp_imm : Insn → ℕ → Insn
sp_imm o h = ldst_imm ldr str (bits 8 3 h) 13 (bits 0 8 h * 4) o h

unfoldable pub adr_add_sp : Insn → ℕ → Insn
adr_add_sp o h = record o {
  rd = some (bits 8 3 h);
  imm = some (bits 0 8 h * 4);
  op = if bit 11 h then add else adr;
  rn = if bit 11 h then some 13 else some 15;
  cls = alu;
}

unfoldable pub ldm_stm : Insn → ℕ → Insn
ldm_stm o h = record o {
  rn = some (bits 8 3 h);
  reglist = bits 0 8 h;
  writeback = true;
  cls = if bit 11 h then loadm else storem;
}

unfoldable pub push_pop : Insn → ℕ → Insn
push_pop o h =
    if bit 11 h
    then if bit 8 h
      then record o { reglist = bit_or (bits 0 8 h) 0x8000; op = pop_op; cls = return_class }
      else record o { reglist = bits 0 8 h; op = pop_op; cls = loadm }
    else record o {
      reglist = if bit 8 h then bit_or (bits 0 8 h) 0x4000 else bits 0 8 h;
      op = push_op;
      cls = storem;
    }

unfoldable pub compare_branch : Insn → ℕ → Insn
compare_branch o h = record o {
  op = if bit 11 h then cbnz else cbz;
  rn = some (bits 0 3 h);
  conditional = true;
  target = some ((o.addr + 4 + bit_or (bits 9 1 h * 2 ^ 6) (bits 3 5 h * 2)) % u32_mod);
  cls = branch;
}

-- `case 0xB`.
unfoldable pub misc : Insn → ℕ → Insn
misc o h =
    if masked h 0xff00 0xbf00
    then if bits 0 4 h == 0
      then record o { op = nop; cls = nop_class }
      else record o { op = it; cond = bits 4 4 h; it_mask = bits 0 4 h; cls = sys }
    else if masked h 0xff00 0xb000
    then record o {
      op = if bit 7 h then sub else add;
      rd = some 13;
      rn = some 13;
      imm = some (bits 0 7 h * 4);
      cls = alu;
    }
    else if masked h 0xff00 0xb200
    then record o {
      op = op_at (sxth ∷ sxtb ∷ uxth ∷ uxtb ∷ []) (bits 6 2 h);
      rd = some (bits 0 3 h);
      rm = some (bits 3 3 h);
      cls = alu;
    }
    else if masked h 0xff00 0xba00 && not (bits 6 2 h == 1)
    then record o { op = rev; rd = some (bits 0 3 h); rm = some (bits 3 3 h); cls = alu }
    else if masked h 0xf600 0xb400
    then push_pop o h
    else if masked h 0xf500 0xb100
    then compare_branch o h
    else record o { cls = alu }

-- `case 0xD`.
unfoldable pub cond_branch : Insn → ℕ → Insn
cond_branch o h =
    let c = bits 8 4 h in
    if c == 15
    then record o { op = svc; cls = sys }
    else if c == 14
    then record o { cls = undef }
    else record o {
      op = b;
      cond = c;
      cls = branch;
      conditional = true;
      target = some ((o.addr + 4 + sign_extend (bits 0 8 h) 8 * 2) % u32_mod);
    }

-- `case 0xE`.
unfoldable pub plain_branch : Insn → ℕ → Insn
plain_branch o h = record o {
  op = b;
  cond = 14;
  cls = branch;
  target = some ((o.addr + 4 + sign_extend (bits 0 11 h) 11 * 2) % u32_mod);
}

-- The `switch` behind the operand forms; the cases that those forms leave nothing of are not
-- repeated, but for the one that 010001 with op = 3 would reach.
unfoldable pub by_top : Insn → ℕ → Insn
by_top o h =
    let top = bits 12 4 h in
    if ltb top 5
    then record o { cls = alu }
    else if top == 11
    then misc o h
    else if top == 13
    then cond_branch o h
    else if top == 14
    then plain_branch o h
    else record o { cls = unknown_class }

-- The forms that load and store, and what follows them.
unfoldable pub memory_forms : Insn → ℕ → Insn
memory_forms o h =
    if masked h 0xf800 0x4800
    then ldr_literal o h
    else if masked h 0xf000 0x5000
    then ldst_reg o h
    else if masked h 0xe000 0x6000
    then word_byte_imm o h
    else if masked h 0xf000 0x8000
    then half_imm o h
    else if masked h 0xf000 0x9000
    then sp_imm o h
    else if masked h 0xf000 0xa000
    then adr_add_sp o h
    else if masked h 0xf000 0xc000
    then ldm_stm o h
    else by_top o h

-- decode_t16 at an address.
unfoldable pub decode_t16 : (addr h : ℕ) → Insn
decode_t16 addr h =
    let o : Insn = record (blank addr) { raw = h } in
    if masked h 0xe000 0x0000 && not (masked h 0x1800 0x1800)
    then shift_imm o h
    else if masked h 0xf800 0x1800
    then add_sub o h
    else if masked h 0xe000 0x2000
    then alu_imm8 o h
    else if masked h 0xfc00 0x4000
    then alu_reg o h
    else if masked h 0xff00 0x4700
    then interworking o h
    else if masked h 0xfc00 0x4400 && ltb (bits 8 2 h) 3
    then high_regs o h
    else memory_forms o h
