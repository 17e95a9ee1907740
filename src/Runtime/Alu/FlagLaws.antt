-- ===== src/Runtime/Alu/FlagLaws.antt =====
-- The flag helpers of recomp_rt.h against the sums and differences of the numbers that the words
-- stand for, and the condition codes after a comparison.
use vitarecomp.Base.{ℕ, zero, suc, ◌+◌, ◌-◌, ◌*◌, ◌%◌, ◌<◌, ◌≤◌, ◌≡◌, ◌↔◌, true, arith, not}
use vitarecomp.Base.Int.{ℤ, pos, ◌+ℤ◌, ◌-ℤ◌, ◌≤ℤ◌}
use vitarecomp.Runtime.Alu.{u32_mod, Flags, flags_add, flags_adc, flags_sub, cond}
use vitarecomp.Runtime.Alu.Words.{signed, sign, overflow_bit}

-- What the four flags say of a result whose exact value is `exact`.
pub record Describes (g : Flags) (res : ℕ) (exact : ℤ) : Type 0 where
  pub negative : g.n ≡ sign res
  pub is_zero : (g.z ≡ 1) ↔ (res ≡ 0)
  pub fits : (g.v ≡ 0) ↔ (signed res ≡ exact)

module _ (f : Flags) (a b : ℕ) (ha : a < u32_mod) (hb : b < u32_mod) where
  -- After the addition of two words the flags describe the exact sum, and carry is the bit that was
  -- lost.
  pub flags_add_lem :
      let res = (a + b) % u32_mod in
      let g = flags_add f a b res in
      Describes g res (signed a +ℤ signed b) × (g.c * u32_mod + res ≡ a + b)
  unfolding flags_add ◌+ℤ◌
  flags_add_lem =
      let res : ℕ = (a + b) % u32_mod in
      let v = overflow_bit a b res res ha hb (omega arith) (omega arith) in
      (
        record { negative = ground arith; is_zero = ground arith; fits = ground (arith, v) },
        ground arith,
      )

  -- After an addition of two words and a carry of 0 or 1 the flags describe the exact sum, and carry is
  -- the bit that was lost.
  pub flags_adc_lem :
      (carry : ℕ)
      → carry < 2
      → let res = ((a + b) % u32_mod + carry) % u32_mod in
        let g = flags_adc f a b carry res in
        Describes g res (signed a +ℤ signed b +ℤ pos carry) × (g.c * u32_mod + res ≡ a + b + carry)
  unfolding flags_adc ◌+ℤ◌
  flags_adc_lem carry hc =
      let res : ℕ = ((a + b) % u32_mod + carry) % u32_mod in
      let v = overflow_bit a b res res ha hb (omega arith) (omega arith) in
      (
        record { negative = ground arith; is_zero = ground arith; fits = ground (arith, v) },
        ground arith,
      )

  -- After the subtraction of two words the flags describe the exact difference, and carry is the complement of the borrow.
  pub flags_sub_lem :
      let res = (a + u32_mod - b) % u32_mod in
      let g = flags_sub f a b res in
      Describes g res (signed a -ℤ signed b) × (g.c * u32_mod + b + res ≡ a + u32_mod)
  unfolding flags_sub ◌-ℤ◌
  flags_sub_lem =
      let res : ℕ = (a + u32_mod - b) % u32_mod in
      let v = overflow_bit a a b res ha ha hb (omega arith) in
      (
        record { negative = ground arith; is_zero = ground arith; fits = ground (arith, v) },
        ground arith,
      )

  -- After the flags of a comparison of two words, the codes EQ, CS, HI, GE and GT hold just where the
  -- first is equal, at least and above the second as unsigned numbers, and at least and above it as
  -- signed numbers.
  pub cond-compare :
      let g = flags_sub f a b ((a + u32_mod - b) % u32_mod) in
      ((cond g 0x0 ≡ true) ↔ (a ≡ b))
      × ((cond g 0x2 ≡ true) ↔ (b ≤ a))
      × ((cond g 0x8 ≡ true) ↔ (b < a))
      × ((cond g 0xa ≡ true) ↔ (signed b ≤ℤ signed a))
      × ((cond g 0xc ≡ true) ↔ (¬ (signed a ≤ℤ signed b)))
  unfolding flags_sub cond
  cond-compare =
      let res : ℕ = (a + u32_mod - b) % u32_mod in
      let v = overflow_bit a a b res ha ha hb (omega arith) in
      (
        ground (arith, v),
        ground (arith, v),
        ground (arith, v),
        ground (arith, v),
        ground (arith, v),
      )

-- The codes 2k and 2k + 1 are negations of each other, for k below 7.
pub cond-not : (f : Flags) (k : ℕ) → k < 7 → cond f (2 * k + 1) ≡ not (cond f (2 * k))
unfolding cond
cond-not f zero h = ground arith
cond-not f (suc zero) h = ground arith
cond-not f (suc (suc zero)) h = ground arith
cond-not f (suc (suc (suc zero))) h = ground arith
cond-not f (suc (suc (suc (suc zero)))) h = ground arith
cond-not f (suc (suc (suc (suc (suc zero))))) h = ground arith
cond-not f (suc (suc (suc (suc (suc (suc zero)))))) h = ground arith
cond-not f (suc (suc (suc (suc (suc (suc (suc k))))))) h = absurd (omega arith)
