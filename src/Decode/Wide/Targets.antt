-- ===== src/Decode/Wide/Targets.antt =====
-- The wide calls and branches of Thumb, from their encodings.
use vitarecomp.Base.{
  Bool-cases, inl, inr, ltb→lt, ℕ, ◌+◌, ◌-◌, ◌*◌, ◌/◌, ◌%◌, ◌^◌, ◌≤◌, ◌<◌, ◌≡◌, ◌≢◌, refl, ap, ◌∙◌,
  ◌⊎◌, bit_and, bit_xor, true, false, some, ltb, ◌==◌, arith, if◌then◌else◌,
}
use vitarecomp.Base.Bits.{bit_and-lt, bit_and_split, bit_and-zero, bit_xor_split, bit_xor-zero}
use vitarecomp.Runtime.Alu.{u32_mod}
use vitarecomp.Decode.Insn.{branch, call, b, blank, bits, bit, masked, sign_extend}
use vitarecomp.Decode.Wide.{decode_t32}
use vitarecomp.Decode.Wide.Branch.{same_bit, high_offset, call_wide, branch_wide, branch_group}

-- The exclusive nor of two bits: in the manual I1 = NOT(J1 EOR S), so J1 is the same of I1 and S.
abbrev pub nxor : (i s : ℕ) → ℕ
nxor i s = (i + s + 1) % 2

-- The halfwords of the encoding of an offset S:I1:I2:imm10:imm11: 11110 S imm10, and J1 and J2 at bits 13
-- and 11 over imm11.
abbrev pub wide_h1 : ℕ → ℕ
wide_h1 v = 0xf000 + v / 2 ^ 23 * 2 ^ 10 + v / 2 ^ 11 % 2 ^ 10

abbrev pub wide_h2 : (base v : ℕ) → ℕ
wide_h2 base v =
    base
    + nxor (v / 2 ^ 22 % 2) (v / 2 ^ 23) * 2 ^ 13
    + nxor (v / 2 ^ 21 % 2) (v / 2 ^ 23) * 2 ^ 11
    + v % 2 ^ 11

-- An offset of 24 bits in halfwords, as a 32-bit number of bytes.
abbrev pub wide_offset : ℕ → ℕ
wide_offset v = 2 * (if ltb v (2 ^ 23) then v else v + (2 ^ 31 - 2 ^ 24))

sign_extend_25 : (v : ℕ) → v < 2 ^ 24 → sign_extend (2 * v) 25 ≡ wide_offset v
unfolding sign_extend
sign_extend_25 v h =
    let i = 2 * v in
    let x : bit_xor i (2 ^ 24) ≡ bit_xor (i / 2 ^ 24) 1 * 2 ^ 24 + i % 2 ^ 24 =
      ap (λ (y : ℕ). bit_xor y (2 ^ 24)) (omega arith)
      ∙ (bit_xor_split 24 (i / 2 ^ 24) (i % 2 ^ 24) 1 0 (omega arith) (omega arith)
          ∙ omega (arith, bit_xor-zero (i % 2 ^ 24))) in
    elim (Bool-cases (ltb v (2 ^ 23))) [
      | inl low ↦
          let q : i / 2 ^ 24 ≡ 0 = omega (arith, ltb→lt v (2 ^ 23) low) in
          rw low (omega (arith, x, ap (λ (y : ℕ). bit_xor y 1) q, ltb→lt v (2 ^ 23) low))
      | inr high ↦
          let q : i / 2 ^ 24 ≡ 1 = ground arith in
          rw high (omega (arith, x, ap (λ (y : ℕ). bit_xor y 1) q))
    ]

same_bit-nxor : (i s : ℕ) → i < 2 → s < 2 → same_bit (nxor i s) s ≡ i
same_bit-nxor i s hi hs = ground arith

nxor-lt : (i s : ℕ) → nxor i s < 2
nxor-lt i s = omega arith

-- Bits 15 to 11 are 11110; the mask of the coprocessor space leaves out bit 12.
module _ (h : ℕ) (low : 0xf000 ≤ h) (high : h < 0xf800) where
  top : (m : ℕ) → m < 2 ^ 5 → bit_and h (m * 2 ^ 11) ≡ bit_and 0x1e m * 2 ^ 11
  top m lt =
      ap (λ (x : ℕ). bit_and x (m * 2 ^ 11)) (omega arith)
      ∙ (ap (λ (x : ℕ). bit_and (0x1e * 2 ^ 11 + h % 2 ^ 11) x) (omega arith)
          ∙ (bit_and_split 11 0x1e (h % 2 ^ 11) m 0 (omega arith) (omega arith)
              ∙ omega (arith, bit_and-zero (h % 2 ^ 11))))

  not_coprocessor : masked h 0xec00 0xec00 ≡ false
  not_coprocessor =
      let x : bit_and h 0xec00 ≡ bit_and (h / 2 ^ 11) 0x1d * 2 ^ 11 + bit_and (h % 2 ^ 11) 0x400 =
        ap (λ (x : ℕ). bit_and x 0xec00) (omega arith)
        ∙ bit_and_split 11 (h / 2 ^ 11) (h % 2 ^ 11) 0x1d 0x400 (omega arith) (omega arith) in
      let t : h / 2 ^ 11 ≡ 0x1e = omega arith in
      let q : bit_and (h / 2 ^ 11) 0x1d ≡ 0x1c = ap (λ (y : ℕ). bit_and y 0x1d) t in
      let r : bit_and (h % 2 ^ 11) 0x400 < 2 ^ 11 =
        bit_and-lt 11 (h % 2 ^ 11) 0x400 (omega arith) (omega arith) in
      let d : bit_and h 0xec00 ≢ 0xec00 = omega (arith, x, q, r) in ground (arith, d)

  to_group :
      (addr h2 : ℕ)
      → bits 15 1 h2 ≡ 1
      → decode_t32 addr h h2 ≡ branch_group (record (blank addr) { raw = h * 2 ^ 16 + h2 }) h h2
  unfolding decode_t32
  to_group addr h2 e =
      let f : masked h 0xf800 0xf000 ≡ true = ground (arith, top 0x1f (omega arith)) in
      let g : bit 15 h2 ≡ true = ground (arith, e) in rw (not_coprocessor, f, g) refl

-- Where the parts of the second halfword stand.
parts :
    (base j k low : ℕ)
    → (base ≡ 0xd000) ⊎ (base ≡ 0x9000)
    → j < 2
    → k < 2
    → low < 2 ^ 11
    → (bits 13 1 (base + j * 2 ^ 13 + k * 2 ^ 11 + low) ≡ j)
      × (bits 11 1 (base + j * 2 ^ 13 + k * 2 ^ 11 + low) ≡ k)
      × (bits 0 11 (base + j * 2 ^ 13 + k * 2 ^ 11 + low) ≡ low)
      × (bits 15 1 (base + j * 2 ^ 13 + k * 2 ^ 11 + low) ≡ 1)
      × (bits 14 1 (base + j * 2 ^ 13 + k * 2 ^ 11 + low) ≡ bits 14 1 base)
      × (bits 12 1 (base + j * 2 ^ 13 + k * 2 ^ 11 + low) ≡ 1)
parts base j k low (inl e) hj hk hl =
    (omega arith, omega arith, omega arith, omega arith, omega arith, omega arith)
parts base j k low (inr e) hj hk hl =
    (omega arith, omega arith, omega arith, omega arith, omega arith, omega arith)

-- The fields of an encoded offset give the offset back.
module _ (v base : ℕ) (small : v < 2 ^ 24) (is_base : (base ≡ 0xd000) ⊎ (base ≡ 0x9000)) where
  fields : high_offset (wide_h1 v) (wide_h2 base v) + bits 0 11 (wide_h2 base v) * 2 ≡ 2 * v
  fields =
      let s = v / 2 ^ 23 in
      let i = v / 2 ^ 22 % 2 in
      let k = v / 2 ^ 21 % 2 in
      let p =
        parts base (nxor i s) (nxor k s) (v % 2 ^ 11) is_base (nxor-lt i s) (nxor-lt k s)
          (omega arith) in
      let sign : bits 10 1 (wide_h1 v) ≡ s = omega arith in
      let a : same_bit (bits 13 1 (wide_h2 base v)) (bits 10 1 (wide_h1 v)) ≡ i =
        rw (p.0, sign) (same_bit-nxor i s (omega arith) (omega arith)) in
      let b : same_bit (bits 11 1 (wide_h2 base v)) (bits 10 1 (wide_h1 v)) ≡ k =
        rw (p.1, sign) (same_bit-nxor k s (omega arith) (omega arith)) in
      rw (a, b, sign, p.2) (omega arith)

  offset :
      sign_extend (high_offset (wide_h1 v) (wide_h2 base v) + bits 0 11 (wide_h2 base v) * 2) 25
      ≡ wide_offset v
  offset = ap (λ (x : ℕ). sign_extend x 25) fields ∙ sign_extend_25 v small

  reaches :
      (addr : ℕ)
      → (decode_t32 addr (wide_h1 v) (wide_h2 base v)
          ≡ branch_group
              (record (blank addr) { raw = wide_h1 v * 2 ^ 16 + wide_h2 base v })
              (wide_h1 v)
              (wide_h2 base v))
        × (bit 14 (wide_h2 base v) ≡ (bits 14 1 base == 1))
        × (bit 12 (wide_h2 base v) ≡ true)
  reaches addr =
      let s = v / 2 ^ 23 in
      let i = v / 2 ^ 22 % 2 in
      let k = v / 2 ^ 21 % 2 in
      let p =
        parts base (nxor i s) (nxor k s) (v % 2 ^ 11) is_base (nxor-lt i s) (nxor-lt k s)
          (omega arith) in
      (
        to_group (wide_h1 v) (omega arith) (omega arith) addr (wide_h2 base v) p.3,
        ap (λ (x : ℕ). x == 1) p.4,
        ap (λ (x : ℕ). x == 1) p.5,
      )

-- The encoding of BL with an offset of `v` halfwords in 24 bits decodes to a call, and that of B.W to a
-- branch, to the target that lies the signed offset from 4 behind the instruction.
pub decode_t32-call_wide :
    (addr v : ℕ)
    → v < 2 ^ 24
    → (decode_t32 addr (wide_h1 v) (wide_h2 0xd000 v) ≡ record (blank addr) {
      raw = wide_h1 v * 2 ^ 16 + wide_h2 0xd000 v;
      cls = call;
      target = some ((addr + 4 + wide_offset v) % u32_mod);
    })
      × (decode_t32 addr (wide_h1 v) (wide_h2 0x9000 v) ≡ record (blank addr) {
        raw = wide_h1 v * 2 ^ 16 + wide_h2 0x9000 v;
        op = b;
        cond = 14;
        cls = branch;
        target = some ((addr + 4 + wide_offset v) % u32_mod);
      })
unfolding branch_group call_wide branch_wide
decode_t32-call_wide addr v small =
    let l = reaches v 0xd000 small (inl refl) addr in
    let n = reaches v 0x9000 small (inr refl) addr in
    (
      l.0 ∙ rw (l.1, l.2, offset v 0xd000 small (inl refl)) refl,
      n.0 ∙ rw (n.1, n.2, offset v 0x9000 small (inr refl)) refl,
    )
