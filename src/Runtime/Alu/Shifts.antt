-- ===== src/Runtime/Alu/Shifts.antt =====
-- The shifts of recomp_rt.h: no count is undefined, and the signed shift is a division that rounds
-- down, whatever the C compiler shifts in.
use native.Mathlib.Nat.{
  div-lt_iff_lt-mul, div-eq_of_lt-le, div-add-mod', mod-lt, one-le-pow, pow-le-pow_right,
  div-eq_of_lt, div-le_self,
}
use vitarecomp.Base.{
  ℕ, ◌+◌, ◌-◌, ◌*◌, ◌/◌, ◌^◌, ◌<◌, ◌≤◌, ◌≡◌, sym, ap, ◌∙◌, bit_or, Bool, true, false, arith, ltb,
  leb, ◌==◌, Bool-cases, inl, inr,
}
use vitarecomp.Base.Bits.{bit_or_split, bit_or_fields', two_pow_add, bit_or_same, bit_or-zero}
use vitarecomp.Base.Int.{ℤ, pos, negsuc}
use vitarecomp.Runtime.Alu.{u32_mod, all_ones, asr, complement}
use vitarecomp.Runtime.Alu.Words.{signed, sign, sign_mask_lem}

-- Division by 2 ^ n that rounds towards minus infinity.
abbrev pub floor_shift : ℤ → ℕ → ℤ
floor_shift (pos m) n = pos (m / 2 ^ n)
floor_shift (negsuc m) n = negsuc (m / 2 ^ n)

-- 2 ^ 32 as the product of two powers, and the parts of a negative word.
module _ (a b v : ℕ) (two : 2 ≤ a) (even : 1 ≤ b) (product : a * b ≡ u32_mod)
    (small : v < u32_mod) where
  quotient-lt : v / a < b
  quotient-lt = (div-lt_iff_lt-mul {k = a} {x = v} {y = b} (omega arith)).1 (omega arith)

  complement-quotient : (all_ones - v) / a ≡ b - 1 - v / a
  complement-quotient =
      let d : ℕ = b - 1 - v / a in
      let e : b ≡ d + v / a + 1 = omega (arith, quotient-lt) in
      let e' : b * a ≡ (d + v / a + 1) * a = ap (λ (t : ℕ). t * a) e in
      div-eq_of_lt-le {k = d} a {m = all_ones - v}
        (omega (arith, e', div-add-mod' v a, mod-lt v {m = a} (omega arith)))
        (omega (arith, e', div-add-mod' v a, mod-lt v {m = a} (omega arith)))

  -- The quotient of a negative word keeps half of its range.
  quotient-ge : u32_mod ≤ 2 * v → u32_mod ≤ 2 * (u32_mod - b + v / a)
  quotient-ge neg = grind (arith, div-add-mod' v a, quotient-lt)

ones-quotient : (a b : ℕ) → 2 ≤ a → 1 ≤ b → a * b ≡ u32_mod → all_ones / a ≡ b - 1
ones-quotient a b two one product =
    let e : b * a ≡ (b - 1 + 1) * a = ap (λ (t : ℕ). t * a) {x = b} {y = b - 1 + 1} (omega arith) in
    div-eq_of_lt-le {k = b - 1} a {m = all_ones} (omega (arith, e)) (omega (arith, e))

-- The bits that the explicit sign extension sets, joined to the quotient.
module _ (n v : ℕ) (pos_n : 0 < n) (n_small : n < 32) (h : v < u32_mod) where
  product : 2 ^ n * 2 ^ (32 - n) ≡ u32_mod
  product =
      sym (two_pow_add n (32 - n)) ∙ ap (λ (t : ℕ). 2 ^ t) {x = n + (32 - n)} {y = 32} (omega arith)

  one_b : 1 ≤ 2 ^ (32 - n)
  one_b = one-le-pow (32 - n) 2 (omega arith)

  two_a : 2 ≤ 2 ^ n
  two_a = pow-le-pow_right {n = 2} (omega arith) {i = 1} {j = n} pos_n

  two_b : 2 ≤ 2 ^ (32 - n)
  two_b = pow-le-pow_right {n = 2} (omega arith) {i = 1} {j = 32 - n} (omega arith)

  mask-field : complement (all_ones / 2 ^ n) ≡ (2 ^ n - 1) * 2 ^ (32 - n)
  mask-field =
      let e : 2 ^ n ≡ 2 ^ n - 1 + 1 = omega (arith, two_a) in
      omega (
        arith,
        two_a,
        one_b,
        product,
        ap (λ (t : ℕ). t * 2 ^ (32 - n)) e,
        ones-quotient (2 ^ n) (2 ^ (32 - n)) two_a one_b product,
      )

  quotient_fits : v / 2 ^ n < 2 ^ (32 - n)
  quotient_fits = quotient-lt (2 ^ n) (2 ^ (32 - n)) v two_a one_b product h

  field_sum : (2 ^ n - 1) * 2 ^ (32 - n) ≡ u32_mod - 2 ^ (32 - n)
  field_sum =
      omega (arith, mask-field, ones-quotient (2 ^ n) (2 ^ (32 - n)) two_a one_b product, one_b)

  extend_zeros :
      bit_or (v / 2 ^ n) (complement (all_ones / 2 ^ n)) ≡ u32_mod - 2 ^ (32 - n) + v / 2 ^ n
  extend_zeros = rw mask-field (
      bit_or_fields' (32 - n) (2 ^ n - 1) (v / 2 ^ n) quotient_fits
      ∙ ap (λ (t : ℕ). t + v / 2 ^ n) field_sum)

  extend_ones :
      bit_or (v / 2 ^ n + (u32_mod - 2 ^ (32 - n))) (complement (all_ones / 2 ^ n))
      ≡ u32_mod - 2 ^ (32 - n) + v / 2 ^ n
  extend_ones = ground (
    arith,
    mask-field,
    field_sum,
    quotient_fits,
    one_b,
    bit_or_split (32 - n) (2 ^ n - 1) (v / 2 ^ n) (2 ^ n - 1) 0,
    bit_or_same (2 ^ n - 1),
    bit_or-zero (v / 2 ^ n),
  )

  asr_positive : (fill : Bool) → sign v ≡ 0 → asr fill v n ≡ v / 2 ^ n
  unfolding asr
  asr_positive true s = ground (arith, sign_mask_lem v h, bit_or-zero (v / 2 ^ n))
  asr_positive false s = ground (arith, sign_mask_lem v h, bit_or-zero (v / 2 ^ n))

  asr_negative : (fill : Bool) → sign v ≡ 1 → asr fill v n ≡ u32_mod - 2 ^ (32 - n) + v / 2 ^ n
  unfolding asr
  asr_negative true s = ground (arith, sign_mask_lem v h, extend_ones)
  asr_negative false s = ground (arith, sign_mask_lem v h, extend_zeros)

  asr_inside : (fill : Bool) → signed (asr fill v n) ≡ floor_shift (signed v) n
  asr_inside fill = elim (Bool-cases (ltb v 0x8000_0000)) [
    | inl low ↦ ground (arith, asr_positive fill (ground arith), div-le_self v (2 ^ n))
    | inr high ↦ ground (
      arith,
      asr_negative fill (ground arith),
      quotient-ge (2 ^ n) (2 ^ (32 - n)) v two_a one_b product h (ground arith),
      complement-quotient (2 ^ n) (2 ^ (32 - n)) v two_a one_b product h,
      quotient_fits,
    )
  ]

pow-ge : (n : ℕ) → 32 ≤ n → u32_mod ≤ 2 ^ n
pow-ge n h = pow-le-pow_right {n = 2} (omega arith) {i = 32} {j = n} h

-- For every count `asr` is the signed number divided by 2 ^ n and rounded down, whichever bits the
-- compiler's own `>>` shifts in.
pub signed-asr :
    (fill : Bool) (v n : ℕ) → v < u32_mod → signed (asr fill v n) ≡ floor_shift (signed v) n
unfolding asr
signed-asr fill v n h = elim (Bool-cases (leb 32 n)) [
  | inl big ↦ ground (
    arith,
    sign_mask_lem v h,
    pow-ge n,
    div-eq_of_lt {n = v} {m = 2 ^ n},
    div-eq_of_lt {n = all_ones - v} {m = 2 ^ n},
  )
  | inr under ↦ elim (Bool-cases (n == 0)) [
    | inl none ↦ ground arith
    | inr some_n ↦ asr_inside n v (ground arith) (ground arith) h fill
  ]
]
