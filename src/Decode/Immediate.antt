-- ===== src/Decode/Immediate.antt =====
-- thumb_expand_imm of tools/armrecomp/decode.c: the 12-bit encodings of 32-bit constants.
use vitarecomp.Base.{ℕ, ◌-◌, ◌*◌, ◌/◌, ◌%◌, ◌^◌, bit_or, ◌==◌, if◌then◌else◌}
use vitarecomp.Decode.Insn.{bits, masked}

unfoldable pub thumb_expand_imm : ℕ → ℕ
thumb_expand_imm imm12 =
    let b = bits 0 8 imm12 in
    let pattern = bits 8 2 imm12 in
    let v = bit_or 0x80 (bits 0 7 imm12) in
    let r = bits 7 5 imm12 in
    if masked imm12 0xc00 0
    then if pattern == 0
      then b
      else if pattern == 1
      then bit_or (b * 2 ^ 16) b
      else if pattern == 2
      then bit_or (b * 2 ^ 24) (b * 2 ^ 8)
      else bit_or (bit_or (bit_or (b * 2 ^ 24) (b * 2 ^ 16)) (b * 2 ^ 8)) b
    else if r == 0
    then v
    else bit_or (v / 2 ^ r) (v * 2 ^ (32 - r) % 2 ^ 32)
