-- ===== src/Decode/Wide/Branch.antt =====
-- decode_t32 of tools/armrecomp/decode.c: calls and branches. The fields of an offset stand apart, so
-- their `|` is their sum.
use vitarecomp.Base.{ℕ, ◌+◌, ◌*◌, ◌/◌, ◌%◌, ◌^◌, bit_and, true, some, ◌==◌, if◌then◌else◌}
use vitarecomp.Runtime.Alu.{u32_mod, complement}
use vitarecomp.Decode.Insn.{branch, call, sys, b, Insn, bits, bit, masked, sign_extend}

-- `!(j ^ s)` of two bits.
abbrev pub same_bit : (j s : ℕ) → ℕ
same_bit j s = if j == s then 1 else 0

-- The parts of an offset that T1, T2 and T4 share.
abbrev pub high_offset : (h1 h2 : ℕ) → ℕ
high_offset h1 h2 =
    let s = bits 10 1 h1 in
    s * 2 ^ 24
    + same_bit (bits 13 1 h2) s * 2 ^ 23
    + same_bit (bits 11 1 h2) s * 2 ^ 22
    + bits 0 10 h1 * 2 ^ 12

unfoldable pub call_wide : Insn → (h1 h2 : ℕ) → Insn
call_wide o h1 h2 = record o {
  cls = call;
  target = some ((o.addr + 4 + sign_extend (high_offset h1 h2 + bits 0 11 h2 * 2) 25) % u32_mod);
}

unfoldable pub call_exchange : Insn → (h1 h2 : ℕ) → Insn
call_exchange o h1 h2 = record o {
  cls = call;
  switches_mode = true;
  target = some (
      (bit_and ((o.addr + 4) % u32_mod) (complement 3)
        + sign_extend (high_offset h1 h2 + bits 1 10 h2 * 4) 25)
      % u32_mod);
}

unfoldable pub branch_wide : Insn → (h1 h2 : ℕ) → Insn
branch_wide o h1 h2 = record o {
  op = b;
  cond = 14;
  cls = branch;
  target = some ((o.addr + 4 + sign_extend (high_offset h1 h2 + bits 0 11 h2 * 2) 25) % u32_mod);
}

-- B<cond>.W; its J bits are not mixed with the sign.
unfoldable pub branch_cond_wide : Insn → (h1 h2 : ℕ) → Insn
branch_cond_wide o h1 h2 =
    if masked (h1 / 2 ^ 7) 0xe 0xe then record o { cls = sys } else record o {
      op = b;
      cond = bits 6 4 h1;
      cls = branch;
      conditional = true;
      target = some (
          (o.addr
            + 4
            + sign_extend
                (bits 10 1 h1 * 2 ^ 20
                  + bits 11 1 h2 * 2 ^ 19
                  + bits 13 1 h2 * 2 ^ 18
                  + bits 0 6 h1 * 2 ^ 12
                  + bits 0 11 h2 * 2)
                21)
          % u32_mod);
    }

-- The group with 11110 on top and bit 15 of the second halfword.
unfoldable pub branch_group : Insn → (h1 h2 : ℕ) → Insn
branch_group o h1 h2 =
    if bit 14 h2
    then if bit 12 h2 then call_wide o h1 h2 else call_exchange o h1 h2
    else if bit 12 h2
    then branch_wide o h1 h2
    else branch_cond_wide o h1 h2
