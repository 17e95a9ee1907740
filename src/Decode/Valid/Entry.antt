-- ===== src/Decode/Valid/Entry.antt =====
-- arm_decode: its instructions are well formed, and it stays within the code.
use vitarecomp.Base.{
  ℕ, zero, suc, ◌+◌, ◌-◌, ◌%◌, ◌^◌, ◌≤◌, ◌<◌, ◌≡◌, refl, Bool, List, [], ◌∷◌, ◌⊎◌, inl, inr, length,
  get_or, ltb, ◌==◌, if_holds, Bool-cases, arith, All,
}
use vitarecomp.Decode.Insn.{blank, bits, masked}
use vitarecomp.Decode.Arm.{a32_unconditional, a32_by_op, decode_a32}
use vitarecomp.Decode.Entry.{
  Mode, a32, t32, Decoded, nothing, decoded, wild, rd16le, rd32le, is_wide, arm_decode,
}
use vitarecomp.Decode.Valid.{IsInsn}
use vitarecomp.Decode.Valid.Narrow.{decode_t16-IsInsn}
use vitarecomp.Decode.Valid.Wide.{decode_t32-IsInsn}

a32_unconditional-IsInsn :
    (addr w : ℕ) (c : Bool)
    → IsInsn (a32_unconditional (record (blank addr) { raw = w; conditional = c }) w)
unfolding a32_unconditional
a32_unconditional-IsInsn addr w c = ground arith

a32_by_op-IsInsn :
    (addr w : ℕ) (c : Bool)
    → IsInsn (a32_by_op (record (blank addr) { raw = w; conditional = c }) w)
unfolding a32_by_op
a32_by_op-IsInsn addr w c = ground arith

pub decode_a32-IsInsn : (addr w : ℕ) → IsInsn (decode_a32 addr w)
unfolding decode_a32
decode_a32-IsInsn addr w =
    if_holds IsInsn (bits 28 4 w == 15) _ _ (a32_unconditional-IsInsn addr w _) (
      if_holds IsInsn (masked w 0x0ffffff0 0x012fff10) _ _ (ground arith) (
        if_holds IsInsn (masked w 0x0ffffff0 0x012fff30) _ _ (ground arith)
          (a32_by_op-IsInsn addr w _)))

halfword-lt : (code : List ℕ) (i : ℕ) → All (λ x. x < 256) code → rd16le code i < 2 ^ 16
halfword-lt code i h = omega (arith, byte code i h, byte code (i + 1) h)
  where
    byte : (code : List ℕ) (i : ℕ) → All (λ x. x < 256) code → get_or code i 0 < 256
    byte [] i h = omega arith
    byte (x ∷ xs) zero h = h.0
    byte (x ∷ xs) (suc i) h = byte xs i h.1

-- Its width is one that the mode has, and the instruction ends within the code.
abbrev pub IsWidth : Mode → ℕ → Type 0
IsWidth a32 w = w ≡ 4
IsWidth t32 w = (w ≡ 2) ⊎ (w ≡ 4)

abbrev pub Outcome : (code : List ℕ) (code_addr addr : ℕ) → Mode → Decoded → Type 0
Outcome code code_addr addr mode nothing = Unit {0}
Outcome code code_addr addr mode (decoded w o) =
    IsInsn o × IsWidth mode w × (code_addr ≤ addr) × ((addr - code_addr) + w ≤ length code)
Outcome code code_addr addr mode wild = ⊥

-- From an address whose offset from the start of the code is at least four below 2 ^ 32, arm_decode
-- reads no byte outside of the code. An instruction that it returns ends within the code and is as wide as
-- its mode allows; its registers and fields have their widths, a bitfield lies within a word, a branch has a
-- 32-bit target and nothing but branches and calls has one; and its condition is one around which emit_insn
-- writes no guard.
pub arm_decode-Outcome :
    (code : List ℕ) (code_addr addr : ℕ) (mode : Mode)
    → All (λ x. x < 256) code
    → (addr - code_addr) + 4 < 2 ^ 32
    → Outcome code code_addr addr mode (arm_decode code code_addr addr mode)
unfolding arm_decode
arm_decode-Outcome code code_addr addr a32 bytes near =
    ground (arith, decode_a32-IsInsn addr (rd32le code (addr - code_addr)))
arm_decode-Outcome code code_addr addr t32 bytes near =
    let off = addr - code_addr in
    let P = Outcome code code_addr addr t32 in
    let w2 : (off + 2) % 2 ^ 32 ≡ off + 2 = omega arith in
    let w4 : (off + 4) % 2 ^ 32 ≡ off + 4 = omega arith in
    elim (Bool-cases (ltb addr code_addr)) [
      | inl before ↦ rw (before, arm_decode) (ground arith)
      | inr from ↦ elim (Bool-cases (ltb (length code) (off + 2))) [
        | inl short ↦ rw (from, w2, short, arm_decode) (ground arith)
        | inr two ↦ elim (Bool-cases (is_wide (rd16le code off))) [
          | inr narrow ↦
              rw (from, w2, two, narrow, arm_decode)
                (
                  decode_t16-IsInsn addr (rd16le code off),
                  inl refl,
                  ground (arith, from),
                  ground (arith, two),
                )
          | inl wide ↦ elim (Bool-cases (ltb (length code) (off + 4))) [
            | inl short ↦ rw (from, w2, two, wide, w4, short, arm_decode) (ground arith)
            | inr four ↦
                rw (from, w2, two, wide, w4, four, arm_decode)
                  (
                    decode_t32-IsInsn addr (rd16le code off) (rd16le code (off + 2))
                        (halfword-lt code (off + 2) bytes),
                    inr refl,
                    ground (arith, from),
                    ground (arith, four),
                  )
          ]
        ]
      ]
    ]
