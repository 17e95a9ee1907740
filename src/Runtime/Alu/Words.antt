-- ===== src/Runtime/Alu/Words.antt =====
-- Signs and masks of 32-bit words, for the laws of recomp_rt.h.
use vitarecomp.Base.{
  ℕ, zero, suc, ◌-◌, ◌*◌, ◌/◌, ◌%◌, ◌^◌, ◌<◌, bit_and, bit_xor, ◌≡◌, refl, arith, ltb, ◌==◌,
  if◌then◌else◌,
}
use vitarecomp.Base.Bits.{bit_xor-div, bit_and-div, bit_and-zero, bit_and_split}
use vitarecomp.Base.Int.{ℤ, pos, negsuc}
use vitarecomp.Runtime.Alu.{sign_mask, u32_mod}

-- The number that a bit pattern stands for as an `int32_t`.
abbrev pub signed : ℕ → ℤ
signed w = if ltb w 0x8000_0000 then pos w else negsuc (0xffff_ffff - w)

-- The sign bit, 0 or 1.
abbrev pub sign : ℕ → ℕ
sign w = w / 0x8000_0000

-- Whether two sign bits differ.
abbrev pub unlike : ℕ → ℕ → ℕ
unlike x y = if x == y then 0 else 1

one_bit_xor : (x y : ℕ) → x < 2 → y < 2 → bit_xor x y ≡ unlike x y
one_bit_xor zero zero p q = refl
one_bit_xor zero (suc zero) p q = refl
one_bit_xor (suc zero) zero p q = refl
one_bit_xor (suc zero) (suc zero) p q = refl
one_bit_xor (suc (suc x)) y p q = absurd (omega arith)
one_bit_xor x (suc (suc y)) p q = absurd (omega arith)

one_bit_and : (x y : ℕ) → x < 2 → y < 2 → bit_and x y ≡ x * y
one_bit_and zero zero p q = refl
one_bit_and zero (suc zero) p q = refl
one_bit_and (suc zero) zero p q = refl
one_bit_and (suc zero) (suc zero) p q = refl
one_bit_and (suc (suc x)) y p q = absurd (omega arith)
one_bit_and x (suc (suc y)) p q = absurd (omega arith)

unlike-lt : (x y : ℕ) → unlike x y < 2
unlike-lt x y = ground arith

-- `((a ^ c) & (b ^ d)) >> 31`
pub overflow_bit :
    (a b c d : ℕ)
    → a < u32_mod
    → b < u32_mod
    → c < u32_mod
    → d < u32_mod
    → bit_and (bit_xor a c) (bit_xor b d) / 2 ^ 31
      ≡ unlike (sign a) (sign c) * unlike (sign b) (sign d)
overflow_bit a b c d ha hb hc hd = ground (
  arith,
  bit_and-div 31 (bit_xor a c) (bit_xor b d),
  bit_xor-div 31 a c,
  bit_xor-div 31 b d,
  one_bit_xor (sign a) (sign c) (omega arith) (omega arith),
  one_bit_xor (sign b) (sign d) (omega arith) (omega arith),
  one_bit_and (unlike (sign a) (sign c)) (unlike (sign b) (sign d)) (unlike-lt _ _) (unlike-lt _ _),
)

pub sign_mask_lem : (a : ℕ) → a < u32_mod → bit_and a sign_mask ≡ sign a * 0x8000_0000
sign_mask_lem a h = ground (
  arith,
  bit_and_split 31 (sign a) (a % 0x8000_0000) 1 0 (omega arith) (omega arith),
  one_bit_and (sign a) 1 (omega arith) (omega arith),
  bit_and-zero (a % 0x8000_0000),
)
