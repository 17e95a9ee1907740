-- ===== src/Decode/Thumb/Targets.antt =====
-- The branches of 16-bit Thumb, from their encodings.
use vitarecomp.Base.{
  Bool-cases, inl, inr, ltb→lt, ℕ, ◌+◌, ◌-◌, ◌*◌, ◌/◌, ◌%◌, ◌^◌, ◌≤◌, ◌<◌, ◌≡◌, ◌≢◌, refl, ap, ◌∙◌,
  bit_and, bit_xor, true, false, some, ltb, ◌==◌, arith, if◌then◌else◌,
}
use vitarecomp.Base.Bits.{bit_and_split, bit_and_mask, bit_and-zero, bit_xor_split, bit_xor-zero}
use vitarecomp.Runtime.Alu.{u32_mod}
use vitarecomp.Decode.Insn.{branch, b, Insn, blank, bits, masked, sign_extend}
use vitarecomp.Decode.Thumb.{cond_branch, plain_branch, by_top, memory_forms, decode_t16}

-- The masks of decode_t16 that take the top bits of a halfword.
mask_13 : (h : ℕ) → h < 2 ^ 16 → bit_and h 0xe000 ≡ h / 2 ^ 13 * 2 ^ 13
mask_13 h small =
    ap (λ (x : ℕ). bit_and x 0xe000) (omega arith)
    ∙ (bit_and_split 13 (h / 2 ^ 13) (h % 2 ^ 13) 0x7 0 (omega arith) (omega arith)
        ∙ omega (arith, bit_and_mask 3 (h / 2 ^ 13), bit_and-zero (h % 2 ^ 13)))

mask_12 : (h : ℕ) → h < 2 ^ 16 → bit_and h 0xf000 ≡ h / 2 ^ 12 * 2 ^ 12
mask_12 h small =
    ap (λ (x : ℕ). bit_and x 0xf000) (omega arith)
    ∙ (bit_and_split 12 (h / 2 ^ 12) (h % 2 ^ 12) 0xf 0 (omega arith) (omega arith)
        ∙ omega (arith, bit_and_mask 4 (h / 2 ^ 12), bit_and-zero (h % 2 ^ 12)))

mask_11 : (h : ℕ) → h < 2 ^ 16 → bit_and h 0xf800 ≡ h / 2 ^ 11 * 2 ^ 11
mask_11 h small =
    ap (λ (x : ℕ). bit_and x 0xf800) (omega arith)
    ∙ (bit_and_split 11 (h / 2 ^ 11) (h % 2 ^ 11) 0x1f 0 (omega arith) (omega arith)
        ∙ omega (arith, bit_and_mask 5 (h / 2 ^ 11), bit_and-zero (h % 2 ^ 11)))

mask_10 : (h : ℕ) → h < 2 ^ 16 → bit_and h 0xfc00 ≡ h / 2 ^ 10 * 2 ^ 10
mask_10 h small =
    ap (λ (x : ℕ). bit_and x 0xfc00) (omega arith)
    ∙ (bit_and_split 10 (h / 2 ^ 10) (h % 2 ^ 10) 0x3f 0 (omega arith) (omega arith)
        ∙ omega (arith, bit_and_mask 6 (h / 2 ^ 10), bit_and-zero (h % 2 ^ 10)))

mask_8 : (h : ℕ) → h < 2 ^ 16 → bit_and h 0xff00 ≡ h / 2 ^ 8 * 2 ^ 8
mask_8 h small =
    ap (λ (x : ℕ). bit_and x 0xff00) (omega arith)
    ∙ (bit_and_split 8 (h / 2 ^ 8) (h % 2 ^ 8) 0xff 0 (omega arith) (omega arith)
        ∙ omega (arith, bit_and_mask 8 (h / 2 ^ 8), bit_and-zero (h % 2 ^ 8)))

-- The two spaces of branches are reached through all the forms before them.
module _ (addr h : ℕ) where
  to_by_top :
      0xd000 ≤ h → h < 0xf000 → decode_t16 addr h ≡ by_top (record (blank addr) { raw = h }) h
  unfolding decode_t16 memory_forms
  to_by_top low high =
      let s : h < 2 ^ 16 = omega arith in
      let a = mask_13 h s in
      let f = mask_12 h s in
      let e = mask_11 h s in
      let t = mask_10 h s in
      let g = mask_8 h s in
      rw
        (
          no 0xe000 0 (omega (arith, a)),
          no 0xf800 0x1800 (omega (arith, e)),
          no 0xe000 0x2000 (omega (arith, a)),
          no 0xfc00 0x4000 (omega (arith, t)),
        )
        (rw
          (
            no 0xff00 0x4700 (omega (arith, g)),
            no 0xfc00 0x4400 (omega (arith, t)),
            no 0xf800 0x4800 (omega (arith, e)),
            no 0xf000 0x5000 (omega (arith, f)),
          )
          (rw
            (
              no 0xe000 0x6000 (omega (arith, a)),
              no 0xf000 0x8000 (omega (arith, f)),
              no 0xf000 0x9000 (omega (arith, f)),
              no 0xf000 0xa000 (omega (arith, f)),
            )
            (rw (no 0xf000 0xc000 (omega (arith, f))) refl)))
    where
      no : (mask v : ℕ) → bit_and h mask ≢ v → masked h mask v ≡ false
      no mask v ne = ground (arith, ne)

-- A signed field of 8 and of 11 bits, as a 32-bit word.
sign_extend_8 :
    (i : ℕ) → i < 2 ^ 8 → sign_extend i 8 ≡ (if ltb i 128 then i else i + (2 ^ 32 - 256))
unfolding sign_extend
sign_extend_8 i h =
    let x : bit_xor i 128 ≡ bit_xor (i / 2 ^ 7) 1 * 2 ^ 7 + i % 2 ^ 7 =
      ap (λ (y : ℕ). bit_xor y 128) (omega arith)
      ∙ (bit_xor_split 7 (i / 2 ^ 7) (i % 2 ^ 7) 1 0 (omega arith) (omega arith)
          ∙ omega (arith, bit_xor-zero (i % 2 ^ 7))) in
    elim (Bool-cases (ltb i 128)) [
      | inl low ↦
          let q : i / 2 ^ 7 ≡ 0 = ground arith in
          rw low (omega (arith, x, ap (λ (y : ℕ). bit_xor y 1) q, ltb→lt i 128 low))
      | inr high ↦
          let q : i / 2 ^ 7 ≡ 1 = ground arith in
          rw high (omega (arith, x, ap (λ (y : ℕ). bit_xor y 1) q))
    ]

sign_extend_11 :
    (i : ℕ) → i < 2 ^ 11 → sign_extend i 11 ≡ (if ltb i 1024 then i else i + (2 ^ 32 - 2048))
unfolding sign_extend
sign_extend_11 i h =
    let x : bit_xor i 1024 ≡ bit_xor (i / 2 ^ 10) 1 * 2 ^ 10 + i % 2 ^ 10 =
      ap (λ (y : ℕ). bit_xor y 1024) (omega arith)
      ∙ (bit_xor_split 10 (i / 2 ^ 10) (i % 2 ^ 10) 1 0 (omega arith) (omega arith)
          ∙ omega (arith, bit_xor-zero (i % 2 ^ 10))) in
    elim (Bool-cases (ltb i 1024)) [
      | inl low ↦
          let q : i / 2 ^ 10 ≡ 0 = ground arith in
          rw low (omega (arith, x, ap (λ (y : ℕ). bit_xor y 1) q, ltb→lt i 1024 low))
      | inr high ↦
          let q : i / 2 ^ 10 ≡ 1 = ground arith in
          rw high (omega (arith, x, ap (λ (y : ℕ). bit_xor y 1) q))
    ]

by_top-cond :
    (o : Insn) (h c i : ℕ)
    → bits 12 4 h ≡ 13
    → bits 8 4 h ≡ c
    → bits 0 8 h ≡ i
    → c < 14
    → by_top o h ≡ record o {
      op = b;
      cond = c;
      cls = branch;
      conditional = true;
      target = some ((o.addr + 4 + sign_extend i 8 * 2) % u32_mod);
    }
unfolding by_top cond_branch
by_top-cond o h c i t e f lt =
    let n15 : (c == 15) ≡ false = ground arith in
    let n14 : (c == 14) ≡ false = ground arith in
    rw (t, by_top) (rw (e, f, n15, n14, cond_branch) refl)

by_top-plain :
    (o : Insn) (h i : ℕ)
    → bits 12 4 h ≡ 14
    → bits 0 11 h ≡ i
    → by_top o h ≡ record o {
      op = b;
      cond = 14;
      cls = branch;
      target = some ((o.addr + 4 + sign_extend i 11 * 2) % u32_mod);
    }
unfolding by_top plain_branch
by_top-plain o h i t f = rw (t, by_top) (rw (f, plain_branch) refl)

-- The encoding of B<cond> with condition `c` and offset byte `i` decodes to that condition and to the
-- target that lies the signed offset, in halfwords, from 4 behind the instruction.
pub decode_t16-cond_branch :
    (addr c i : ℕ)
    → c < 14
    → i < 2 ^ 8
    → decode_t16 addr (0xd000 + c * 2 ^ 8 + i) ≡ record (blank addr) {
      raw = 0xd000 + c * 2 ^ 8 + i;
      op = b;
      cond = c;
      cls = branch;
      conditional = true;
      target = some ((addr + 4 + 2 * (if ltb i 128 then i else i + (2 ^ 32 - 256))) % u32_mod);
    }
decode_t16-cond_branch addr c i hc hi =
    let h = 0xd000 + c * 2 ^ 8 + i in
    to_by_top addr h (omega arith) (omega arith)
    ∙ (by_top-cond (record (blank addr) { raw = h }) h c i (omega arith) (omega arith) (omega arith)
          hc
        ∙ ap
            (λ (t : ℕ). record (blank addr) {
              raw = h;
              op = b;
              cond = c;
              cls = branch;
              conditional = true;
              target = some (t % u32_mod);
            })
            (omega (arith, sign_extend_8 i hi)))

-- The encoding of B with the offset field `i` decodes to the target that lies the signed offset, in
-- halfwords, from 4 behind the instruction.
pub decode_t16-plain_branch :
    (addr i : ℕ)
    → i < 2 ^ 11
    → decode_t16 addr (0xe000 + i) ≡ record (blank addr) {
      raw = 0xe000 + i;
      op = b;
      cls = branch;
      target = some ((addr + 4 + 2 * (if ltb i 1024 then i else i + (2 ^ 32 - 2048))) % u32_mod);
    }
decode_t16-plain_branch addr i hi =
    let h = 0xe000 + i in
    to_by_top addr h (omega arith) (omega arith)
    ∙ (by_top-plain (record (blank addr) { raw = h }) h i (omega arith) (omega arith)
        ∙ ap
            (λ (t : ℕ). record (blank addr) {
              raw = h;
              op = b;
              cls = branch;
              target = some (t % u32_mod);
            })
            (omega (arith, sign_extend_11 i hi)))
