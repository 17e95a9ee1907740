-- ===== src/Runtime/Tests.antt =====
-- Runs of the runtime, and the theorems applied to them.
use vitarecomp.Runtime.Float.{vfp_cmp, vfp_mrs_apsr}
use vitarecomp.Runtime.Float.Compare.{Only, cond-vfp_cmp}
use mathlib.Core.Bool.{true≢false, false≢true}
use vitarecomp.Base.{
  Bool, inl, ◌%◌, ◌^◌, none, Option, ◌&&◌, ◌||◌, ℕ, ◌+◌, ◌*◌, ◌≤◌, ◌<◌, ◌≡◌, ◌≢◌, ◌↔◌, refl, true,
  false, not, some, List, [], ◌∷◌, get_elem?, replicate, arith, ◌⊎◌, inr,
}
use vitarecomp.Base.Int.{pos, ◌+ℤ◌, ◌-ℤ◌, ◌≤ℤ◌}
use vitarecomp.Runtime.Alu.{u32_mod, Flags, flags_add, flags_adc, flags_sub, cond, asr}
use vitarecomp.Runtime.Alu.Words.{signed}
use vitarecomp.Runtime.Alu.FlagLaws.{
  Describes, flags_add_lem, flags_adc_lem, flags_sub_lem, cond-compare, cond-not,
}
use vitarecomp.Runtime.Alu.Shifts.{floor_shift, signed-asr}
use vitarecomp.Runtime.Dispatch.{Entry, goes_up, init, dispatch, run, trap_indirect, key_of}
use vitarecomp.Runtime.Dispatch.Laws.{dispatch-init, dispatch_all, dispatch-init_unsorted}
use vitarecomp.Runtime.Mem.{mem_read, mem_write, note_bad, load}
use vitarecomp.Runtime.Mem.Laws.{Backed, region, mem_read-mem_write, access_refused}
use vitarecomp.Runtime.Heap.{Heap, mallocs}
use vitarecomp.Runtime.Heap.Laws.{Apart, mallocs-Apart}
use vitarecomp.Runtime.Hle.{
  Cpu, trap, return, hle_memcpy, hle_memmove, hle_memset, hle_strlen, hle_strcpy,
}
use vitarecomp.Runtime.Hle.Backing.{machine, IsString}
use vitarecomp.Runtime.Hle.Copying.{
  Copied, hle_memmove-Copied, hle_memset-Copied, hle_memset_refused,
}
use vitarecomp.Runtime.Hle.Strings.{hle_strlen-IsString, hle_strcpy-Copied}
use vitarecomp.Runtime.Hle.Scan.{hle_strrchr}
use vitarecomp.Runtime.Hle.Scan.Last.{IsLast, hle_strrchr-IsString}

abbrev clear : Flags
clear = record { n = 0; z = 0; c = 0; v = 0 }

flags_add_lem_example :
    let res = 0x7fff_ffff + 1 in
    Describes (flags_add clear 0x7fff_ffff 1 res) res (signed 0x7fff_ffff +ℤ signed 1)
    × ((flags_add clear 0x7fff_ffff 1 res).c * u32_mod + res ≡ 0x7fff_ffff + 1)
flags_add_lem_example = flags_add_lem clear 0x7fff_ffff 1 (omega arith) (omega arith)

flags_adc_lem_example :
    let res : ℕ = 0 in
    Describes (flags_adc clear 0xffff_ffff 0 1 res) res (signed 0xffff_ffff +ℤ signed 0 +ℤ pos 1)
    × ((flags_adc clear 0xffff_ffff 0 1 res).c * u32_mod + res ≡ 0xffff_ffff + 0 + 1)
flags_adc_lem_example =
    flags_adc_lem clear 0xffff_ffff 0 (omega arith) (omega arith) 1 (omega arith)

flags_sub_lem_example :
    let res : ℕ = 0xffff_ffff in
    Describes (flags_sub clear 0 1 res) res (signed 0 -ℤ signed 1)
    × ((flags_sub clear 0 1 res).c * u32_mod + 1 + res ≡ 0 + u32_mod)
flags_sub_lem_example = flags_sub_lem clear 0 1 (omega arith) (omega arith)

cond-compare_example :
    let g = flags_sub clear 0x8000_0000 1 0x7fff_ffff in
    ((cond g 0x0 ≡ true) ↔ (◌≡◌ {A = ℕ} 0x8000_0000 1))
    × ((cond g 0x2 ≡ true) ↔ (1 ≤ 0x8000_0000))
    × ((cond g 0x8 ≡ true) ↔ (1 < 0x8000_0000))
    × ((cond g 0xa ≡ true) ↔ (signed 1 ≤ℤ signed 0x8000_0000))
    × ((cond g 0xc ≡ true) ↔ (¬ (signed 0x8000_0000 ≤ℤ signed 1)))
cond-compare_example = cond-compare clear 0x8000_0000 1 (omega arith) (omega arith)

cond-not_example : cond clear 11 ≡ not (cond clear 10)
cond-not_example = cond-not clear 5 (omega arith)

signed-asr_example : signed (asr false 0x8000_0000 4) ≡ floor_shift (signed 0x8000_0000) 4
signed-asr_example = signed-asr false 0x8000_0000 4 (omega arith)

abbrev rows : List Entry
rows = record { addr = 0x8100_0000; fn = 1 } ∷ record { addr = 0x8100_0010; fn = 2 } ∷ []

dispatch-init_example :
    ((i : ℕ) (e : Entry)
      → get_elem? rows i ≡ some e
      → e.addr ≡ key_of 0x8100_0011
      → dispatch 0x8100_0004 0x8100_0011 (init rows) ≡ (run e.fn, record (init rows) { hits = 1 }))
    × (((i : ℕ) (e : Entry) → get_elem? rows i ≡ some e → e.addr ≢ key_of 0x8100_0011)
        → dispatch 0x8100_0004 0x8100_0011 (init rows)
          ≡ (trap_indirect 0x8100_0004 0x8100_0011, record (init rows) { misses = 1 }))
unfolding goes_up
dispatch-init_example = dispatch-init rows 0x8100_0004 0x8100_0011 refl

abbrev swapped : List Entry
swapped = record { addr = 0x8100_0010; fn = 2 } ∷ record { addr = 0x8100_0000; fn = 1 } ∷ []

dispatch-init_unsorted_example :
    dispatch_all (init swapped) ((4, 0x8100_0011) ∷ (8, 0x8100_0020) ∷ []) ≡ (
      trap_indirect 4 0x8100_0011 ∷ trap_indirect 8 0x8100_0020 ∷ [],
      record (init swapped) { misses = 2 },
    )
dispatch-init_unsorted_example =
    dispatch-init_unsorted swapped 0 _ _ ((4, 0x8100_0011) ∷ (8, 0x8100_0020) ∷ []) refl refl
      (omega arith)

abbrev ten : List ℕ
ten = 104 ∷ 105 ∷ 0 ∷ 0 ∷ 0 ∷ 0 ∷ 0 ∷ 0 ∷ 0 ∷ 0 ∷ []

mem_read-mem_write_example :
    ((mem_read 4 0x1002 (mem_write 4 0x1002 0xdead_beef (region 0x1000 ten 0))).1 ≡ 0xdead_beef)
    × ((k other : ℕ)
        → Backed 0x1000 ten other k
        → (other + k ≤ 0x1002) ⊎ (0x1002 + 4 ≤ other)
        → (mem_read k other (mem_write 4 0x1002 0xdead_beef (region 0x1000 ten 0))).1
          ≡ (mem_read k other (region 0x1000 ten 0)).1)
    × ((mem_write 4 0x1002 0xdead_beef (region 0x1000 ten 0)).bad_access ≡ 0)
mem_read-mem_write_example =
    mem_read-mem_write 0x1000 ten 0 4 0x1002 0xdead_beef
      (record { above = omega arith; inside = omega arith }) (omega arith)

access_refused_example :
    (mem_read 4 0x1007 (region 0x1000 ten 0) ≡ (note_bad (region 0x1000 ten 0), 0))
    × (mem_write 4 0x1007 1 (region 0x1000 ten 0) ≡ note_bad (region 0x1000 ten 0))
access_refused_example = access_refused 0x1000 ten 0 4 0x1007 1 (inr (omega arith))

abbrev heap : Heap
heap = record { base = 0x9000; size = 100; used = 4; errno_slot = 0x9000 }

mallocs-Apart_example :
    Apart 0x9000 (0x9000 + 4) (0x9000 + 100) (mallocs (10 ∷ 0 ∷ 3 ∷ 500 ∷ []) heap)
mallocs-Apart_example =
    mallocs-Apart (10 ∷ 0 ∷ 3 ∷ 500 ∷ []) heap
      (omega arith, (omega arith, (omega arith, (omega arith, tt))))
      (record { fits = omega arith; space = omega arith; nonzero = omega arith })

abbrev regs : ℕ → ℕ → ℕ → Cpu
regs a b n = record { r0 = a; r1 = b; r2 = n; heap = heap; traps = 0 }

hle_memmove-Copied_example :
    (after : List ℕ) × (hle_memmove (machine (regs 0x1001 0x1000 3) 0x1000 ten 0)
      ≡ machine (regs 0x1001 0x1000 3) 0x1000 after 0)
    × (hle_memcpy (machine (regs 0x1001 0x1000 3) 0x1000 ten 0)
        ≡ machine (regs 0x1001 0x1000 3) 0x1000 after 0)
    × Copied 0x1000 ten 0x1001 (load 3 0 ten) after
hle_memmove-Copied_example =
    hle_memmove-Copied (regs 0x1001 0x1000 3) 0x1000 ten 0 (omega arith)
      (record { above = omega arith; inside = omega arith })
      (record { above = omega arith; inside = omega arith })

hle_memset-Copied_example :
    (after : List ℕ) × (hle_memset (machine (regs 0x1001 0x1ff 3) 0x1000 ten 0)
      ≡ machine (regs 0x1001 0x1ff 3) 0x1000 after 0)
    × Copied 0x1000 ten 0x1001 (replicate 3 0xff) after
hle_memset-Copied_example =
    hle_memset-Copied (regs 0x1001 0x1ff 3) 0x1000 ten 0 (omega arith)
      (record { above = omega arith; inside = omega arith })

hle_memset_refused_example :
    hle_memset (machine (regs 0x1001 0 10) 0x1000 ten 0)
    ≡ trap (record { cpu = regs 0x1001 0 10; mem = note_bad (region 0x1000 ten 0) })
hle_memset_refused_example =
    hle_memset_refused (regs 0x1001 0 10) 0x1000 ten 0 (omega arith) (inr (omega arith))

hi : IsString 0x1000 ten 0x1000 (104 ∷ 105 ∷ [])
unfolding load
hi = record {
  nonzero = (omega arith, (omega arith, tt));
  above = omega arith;
  inside = omega arith;
  small = omega arith;
  rest = 0 ∷ 0 ∷ 0 ∷ 0 ∷ 0 ∷ 0 ∷ 0 ∷ [];
  bytes = refl;
}

hle_strlen-IsString_example :
    hle_strlen (machine (regs 0x1000 0 0) 0x1000 ten 0)
    ≡ return 2 (machine (regs 0x1000 0 0) 0x1000 ten 0)
hle_strlen-IsString_example = hle_strlen-IsString (regs 0x1000 0 0) 0x1000 ten 0 (104 ∷ 105 ∷ []) hi

hle_strcpy-Copied_example :
    (after : List ℕ) × (hle_strcpy (machine (regs 0x1005 0x1000 0) 0x1000 ten 0)
      ≡ machine (regs 0x1005 0x1000 0) 0x1000 after 0)
    × Copied 0x1000 ten 0x1005 (104 ∷ 105 ∷ 0 ∷ []) after
hle_strcpy-Copied_example =
    hle_strcpy-Copied (regs 0x1005 0x1000 0) 0x1000 ten 0 (104 ∷ 105 ∷ []) hi
      (record { above = omega arith; inside = omega arith }) (inr (omega arith))

hle_strrchr-IsString_example :
    (r : Option ℕ) × IsLast 3 (105 % 256) (104 ∷ 105 ∷ 0 ∷ []) r
    × (hle_strrchr (machine (regs 0x1000 105 0) 0x1000 ten 0) ≡ elim r [
      | none ↦ return 0 (machine (regs 0x1000 105 0) 0x1000 ten 0)
      | some i ↦ return ((0x1000 + i) % 2 ^ 32) (machine (regs 0x1000 105 0) 0x1000 ten 0)
    ])
hle_strrchr-IsString_example =
    hle_strrchr-IsString (regs 0x1000 105 0) 0x1000 ten 0 (104 ∷ 105 ∷ []) hi

-- Floats of two numbers and a NaN.
data TwoFloats : Type 0 where
  zero_float : TwoFloats
  one_float : TwoFloats
  nan : TwoFloats

abbrev less_float : TwoFloats → TwoFloats → Bool
less_float zero_float one_float = true
less_float _ _ = false

abbrev equal_float : TwoFloats → TwoFloats → Bool
equal_float zero_float zero_float = true
equal_float one_float one_float = true
equal_float _ _ = false

two_floats_ordered :
    (a b : TwoFloats)
    → equal_float a a ≡ true
    → equal_float b b ≡ true
    → Only (less_float a b) (equal_float a b) (less_float b a)
      ⊎ (Only (equal_float a b) (less_float a b) (less_float b a)
          ⊎ Only (less_float b a) (less_float a b) (equal_float a b))
two_floats_ordered zero_float zero_float x y = inr (inl (refl, refl, refl))
two_floats_ordered zero_float one_float x y = inl (refl, refl, refl)
two_floats_ordered one_float zero_float x y = inr (inr (refl, refl, refl))
two_floats_ordered one_float one_float x y = inr (inl (refl, refl, refl))
two_floats_ordered nan b x y = absurd (false≢true x)
two_floats_ordered a nan x y = absurd (false≢true y)

two_floats_unordered :
    (a b : TwoFloats)
    → (equal_float a a && equal_float b b) ≡ false
    → (less_float a b ≡ false) × (equal_float a b ≡ false) × (less_float b a ≡ false)
two_floats_unordered zero_float zero_float x = absurd (true≢false x)
two_floats_unordered zero_float one_float x = absurd (true≢false x)
two_floats_unordered one_float zero_float x = absurd (true≢false x)
two_floats_unordered one_float one_float x = absurd (true≢false x)
two_floats_unordered zero_float nan x = (refl, refl, refl)
two_floats_unordered one_float nan x = (refl, refl, refl)
two_floats_unordered nan zero_float x = (refl, refl, refl)
two_floats_unordered nan one_float x = (refl, refl, refl)
two_floats_unordered nan nan x = (refl, refl, refl)

cond-vfp_cmp_example :
    let g = vfp_mrs_apsr clear (vfp_cmp less_float equal_float zero_float nan) in
    (cond g 0x0 ≡ false)
    × (cond g 0x4 ≡ false)
    × (cond g 0x9 ≡ (false || false))
    × (cond g 0xa ≡ (false || false))
    × (cond g 0xc ≡ false)
    × (cond g 0x6 ≡ not (true && false))
cond-vfp_cmp_example =
    cond-vfp_cmp less_float equal_float clear zero_float nan
      (record { ordered = two_floats_ordered; unordered = two_floats_unordered })
