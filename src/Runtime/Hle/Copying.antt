-- ===== src/Runtime/Hle/Copying.antt =====
-- memcpy, memmove and memset on guest memory.
use vitarecomp.Base.{
  ℕ, zero, suc, ◌+◌, ◌-◌, ◌%◌, ◌≤◌, ◌<◌, ◌≡◌, refl, ap, false, none, List, length, get_or,
  replicate, length-replicate, ◌==◌, arith, ◌⊎◌,
}
use vitarecomp.Runtime.Mem.{note_bad, load, store}
use vitarecomp.Runtime.Mem.Laws.{
  Backed, region, mem_ptr_null, load-store, store_outside, length-store,
}
use vitarecomp.Runtime.Hle.{Cpu, trap, gp, get, put, move, hle_memcpy, hle_memmove, hle_memset}
use vitarecomp.Runtime.Hle.Backing.{machine, gp-Backed}

pub length-load : (n off : ℕ) (bs : List ℕ) → length (load n off bs) ≡ n
unfolding load
length-load zero off bs = refl
length-load (suc n) off bs = ap suc (length-load n (suc off) bs)

-- The region after `xs` have been copied to `addr`.
pub record Copied (base : ℕ) (bs : List ℕ) (addr : ℕ) (xs after : List ℕ) : Type 0 where
  pub same_size : length after ≡ length bs
  pub there : load (length xs) (addr - base) after ≡ xs
  pub elsewhere :
      (i : ℕ) → (i < addr - base) ⊎ (addr - base + length xs ≤ i) → get_or after i 0 ≡ get_or bs i 0

pub store-Copied :
    (base : ℕ) (bs : List ℕ) (addr : ℕ) (xs : List ℕ)
    → addr - base + length xs ≤ length bs
    → Copied base bs addr xs (store xs (addr - base) bs)
store-Copied base bs addr xs h = record {
  same_size = length-store xs (addr - base) bs;
  there = load-store xs (addr - base) bs h;
  elsewhere = λ i o. store_outside xs (addr - base) i bs o;
}

module _ (c : Cpu) (base : ℕ) (bs : List ℕ) (bad : ℕ) where
  pub move-Backed :
      (dst src n : ℕ)
      → 0 < n
      → Backed base bs dst n
      → Backed base bs src n
      → move dst src n (machine c base bs bad)
        ≡ machine c base (store (load n (src - base) bs) (dst - base) bs) bad
  unfolding move get put
  move-Backed dst src n pos d s =
      let pd = gp-Backed c base bs bad dst n pos d in
      let ps = gp-Backed c base bs bad src n pos s in
      rw (pd, move) (rw pd (rw ps (rw pd (rw ps refl))))

  -- memcpy and memmove of a positive number of bytes between backed ranges, which may overlap: the destination then holds what the
  -- source held before, the other bytes and the registers are kept, and nothing traps.
  pub hle_memmove-Copied :
      0 < c.r2
      → Backed base bs c.r0 c.r2
      → Backed base bs c.r1 c.r2
      → (after : List ℕ) × (hle_memmove (machine c base bs bad) ≡ machine c base after bad)
        × (hle_memcpy (machine c base bs bad) ≡ machine c base after bad)
        × Copied base bs c.r0 (load c.r2 (c.r1 - base) bs) after
  unfolding hle_memmove hle_memcpy
  hle_memmove-Copied pos d s =
      let xs = load c.r2 (c.r1 - base) bs in
      let e = move-Backed c.r0 c.r1 c.r2 pos d s in
      (
        store xs (c.r0 - base) bs,
        e,
        e,
        store-Copied base bs c.r0 xs (omega (arith, d.inside, length-load c.r2 (c.r1 - base) bs)),
      )

  -- memset of a positive number of backed bytes: every one then is the low byte of the value, the other bytes
  -- and the registers are kept, and nothing traps.
  pub hle_memset-Copied :
      0 < c.r2
      → Backed base bs c.r0 c.r2
      → (after : List ℕ) × (hle_memset (machine c base bs bad) ≡ machine c base after bad)
        × Copied base bs c.r0 (replicate c.r2 (c.r1 % 256)) after
  unfolding hle_memset put
  hle_memset-Copied pos d =
      let xs = replicate c.r2 (c.r1 % 256) in
      let p = gp-Backed c base bs bad c.r0 c.r2 pos d in
      (
        store xs (c.r0 - base) bs,
        rw (p, hle_memset) (rw p refl),
        store-Copied base bs c.r0 xs (omega (arith, d.inside, length-replicate c.r2 (c.r1 % 256))),
      )

  gp_refused :
      (addr n : ℕ)
      → 0 < n
      → (addr < base) ⊎ (length bs < addr - base + n)
      → gp addr n (machine c base bs bad)
        ≡ (trap (record { cpu = c; mem = note_bad (region base bs bad) }), none)
  unfolding gp
  gp_refused addr n pos out =
      let some_bytes : (n == 0) ≡ false = ground arith in
      let p = mem_ptr_null base bs bad addr n out in rw (p, some_bytes, gp) (rw p refl)

  -- memset of a positive number of bytes of which one is not backed writes none of them, counts a bad
  -- access and traps.
  pub hle_memset_refused :
      0 < c.r2
      → (c.r0 < base) ⊎ (length bs < c.r0 - base + c.r2)
      → hle_memset (machine c base bs bad)
        ≡ trap (record { cpu = c; mem = note_bad (region base bs bad) })
  unfolding hle_memset
  hle_memset_refused pos out =
      let p = gp_refused c.r0 c.r2 pos out in rw (p, hle_memset) (rw p refl)
