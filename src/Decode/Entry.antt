-- ===== src/Decode/Entry.antt =====
-- arm_decode of tools/armrecomp/decode.c.
use vitarecomp.Base.{
  ℕ, ◌+◌, ◌-◌, ◌*◌, ◌%◌, ◌^◌, Bool, ◌||◌, List, length, get_or, ltb, if◌then◌else◌,
}
use vitarecomp.Decode.Insn.{Insn, masked}
use vitarecomp.Decode.Thumb.{decode_t16}
use vitarecomp.Decode.Wide.{decode_t32}
use vitarecomp.Decode.Arm.{decode_a32}

-- arm_mode.
pub data Mode : Type 0 where
  a32 : Mode
  t32 : Mode

-- What arm_decode returns: nothing, an instruction of a width, or a read outside of the code.
pub data Decoded : Type 0 where
  nothing : Decoded
  decoded : (width : ℕ) → Insn → Decoded
  wild : Decoded

abbrev pub rd16le : List ℕ → ℕ → ℕ
rd16le code off = get_or code off 0 + get_or code (off + 1) 0 * 2 ^ 8

abbrev pub rd32le : List ℕ → ℕ → ℕ
rd32le code off = rd16le code off + rd16le code (off + 2) * 2 ^ 16

-- The rule of the top five bits.
abbrev pub is_wide : ℕ → Bool
is_wide h1 = masked h1 0xf800 0xe800 || (masked h1 0xf800 0xf000 || masked h1 0xf800 0xf800)

-- The sums are 32-bit: near the end of the range they wrap around and the test passes.
unfoldable pub arm_decode : (code : List ℕ) (code_addr addr : ℕ) → Mode → Decoded
arm_decode code code_addr addr mode =
    let off = addr - code_addr in
    let wrap4 = (off + 4) % 2 ^ 32 in
    if ltb addr code_addr then nothing else elim mode [
      | a32 ↦
          if ltb (length code) wrap4
          then nothing
          else if ltb (length code) (off + 4)
          then wild
          else decoded 4 (decode_a32 addr (rd32le code off))
      | t32 ↦
          if ltb (length code) ((off + 2) % 2 ^ 32)
          then nothing
          else if ltb (length code) (off + 2)
          then wild
          else if is_wide (rd16le code off)
          then if ltb (length code) wrap4
            then nothing
            else if ltb (length code) (off + 4)
            then wild
            else decoded 4 (decode_t32 addr (rd16le code off) (rd16le code (off + 2)))
          else decoded 2 (decode_t16 addr (rd16le code off))
    ]
