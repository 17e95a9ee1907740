-- ===== src/Runtime/Mem/Laws.antt =====
-- Reads and writes of guest memory: what a write leaves, and what a refused access does.
use vitarecomp.Base.{
  ℕ, zero, suc, ◌+◌, ◌-◌, ◌/◌, ◌^◌, ◌≤◌, ◌<◌, ◌≡◌, refl, sym, ap, ◌∙◌, false, none, some, List, [],
  ◌∷◌, length, get_or, set, ltb, arith, ◌⊎◌, inl, inr, length-set, get_or-set_self, get_or-set_ne,
}
use vitarecomp.Runtime.Mem.{
  Mem, note_bad, mem_ptr, mem_read, mem_write, load, store, le_value, le_bytes,
}

length-le_bytes : (n v : ℕ) → length (le_bytes n v) ≡ n
unfolding le_bytes
length-le_bytes zero v = refl
length-le_bytes (suc n) v = ap suc (length-le_bytes n (v / 256))

le_value-le_bytes : (n v : ℕ) → v < 256 ^ n → le_value (le_bytes n v) ≡ v
unfolding le_value le_bytes
le_value-le_bytes zero v h = omega arith
le_value-le_bytes (suc n) v h = omega (arith, le_value-le_bytes n (v / 256) (omega arith))

pub length-store : (xs : List ℕ) (off : ℕ) (bs : List ℕ) → length (store xs off bs) ≡ length bs
unfolding store
length-store [] off bs = refl
length-store (x ∷ xs) off bs = length-store xs (suc off) (set bs off x) ∙ length-set bs off x

-- A byte outside the copied range is kept.
pub store_outside :
    (xs : List ℕ) (off i : ℕ) (bs : List ℕ)
    → (i < off) ⊎ (off + length xs ≤ i)
    → get_or (store xs off bs) i 0 ≡ get_or bs i 0
unfolding store
store_outside [] off i bs h = refl
store_outside (x ∷ xs) off i bs h =
    store_outside xs (suc off) i (set bs off x)
      (elim h [ inl a ↦ inl (omega arith) | inr a ↦ inr (omega arith) ])
    ∙ get_or-set_ne bs off i x 0 (elim h [ inl a ↦ omega arith | inr a ↦ omega arith ])

-- What was copied is read back.
pub load-store :
    (xs : List ℕ) (off : ℕ) (bs : List ℕ)
    → off + length xs ≤ length bs
    → load (length xs) off (store xs off bs) ≡ xs
unfolding load store
load-store [] off bs h = refl
load-store (x ∷ xs) off bs h =
    rw
      (
        store_outside xs (suc off) off (set bs off x) (inl (omega arith)),
        get_or-set_self bs off x 0 (omega arith),
      )
      (ap (λ (t : List ℕ). x ∷ t)
        (load-store xs (suc off) (set bs off x) (omega (arith, length-set bs off x))))

pub load-store_apart :
    (n : ℕ) (xs : List ℕ) (off at_ : ℕ) (bs : List ℕ)
    → (at_ + n ≤ off) ⊎ (off + length xs ≤ at_)
    → load n at_ (store xs off bs) ≡ load n at_ bs
unfolding load
load-store_apart zero xs off at_ bs h = refl
load-store_apart (suc n) xs off at_ bs h =
    rw
      (store_outside xs off at_ bs
        (elim h [ inl a ↦ inl (omega arith) | inr a ↦ inr (omega arith) ]))
      (ap (λ (t : List ℕ). get_or bs at_ 0 ∷ t)
        (load-store_apart n xs off (suc at_) bs
          (elim h [ inl a ↦ inl (omega arith) | inr a ↦ inr (omega arith) ])))

-- The `n` bytes at `addr` are backed by a region of bytes `bs` at `base`.
pub record Backed (base : ℕ) (bs : List ℕ) (addr n : ℕ) : Type 0 where
  pub above : base ≤ addr
  pub inside : addr - base + n ≤ length bs

-- A memory with a region.
abbrev pub region : ℕ → List ℕ → ℕ → Mem
region base bs bad = record { base = base; bytes = some bs; bad_access = bad }

module _ (base : ℕ) (bs : List ℕ) (bad : ℕ) where
  pub mem_ptr-Backed :
      (addr n : ℕ)
      → Backed base bs addr n
      → mem_ptr addr n (region base bs bad) ≡ (region base bs bad, some (addr - base))
  unfolding mem_ptr
  mem_ptr-Backed addr n b =
      let a : ltb addr base ≡ false = ground (arith, b.above) in
      let c : ltb (length bs) (addr - base + n) ≡ false = ground (arith, b.inside) in rw (a, c) refl

  pub mem_ptr_null :
      (addr n : ℕ)
      → (addr < base) ⊎ (length bs < addr - base + n)
      → mem_ptr addr n (region base bs bad) ≡ (note_bad (region base bs bad), none)
  unfolding mem_ptr
  mem_ptr_null addr n out = elim out [ inl low ↦ ground arith | inr high ↦ ground arith ]

  mem_read-Backed :
      (addr n : ℕ)
      → Backed base bs addr n
      → mem_read n addr (region base bs bad)
        ≡ (region base bs bad, le_value (load n (addr - base) bs))
  unfolding mem_read
  mem_read-Backed addr n b =
      rw (mem_ptr-Backed addr n b, mem_read) (rw (mem_ptr-Backed addr n b) refl)

  mem_write-Backed :
      (addr n v : ℕ)
      → Backed base bs addr n
      → mem_write n addr v (region base bs bad)
        ≡ region base (store (le_bytes n v) (addr - base) bs) bad
  unfolding mem_write
  mem_write-Backed addr n v b = rw (mem_ptr-Backed addr n b, mem_write) refl

module _ (base : ℕ) (bs : List ℕ) (bad : ℕ) where
  -- A write of `n` bytes to backed addresses is read back by a read of the same width, is not seen
  -- by a read of any width that does not overlap it, and keeps the count of bad accesses.
  pub mem_read-mem_write :
      (n addr v : ℕ)
      → Backed base bs addr n
      → v < 256 ^ n
      → ((mem_read n addr (mem_write n addr v (region base bs bad))).1 ≡ v)
        × ((k other : ℕ)
            → Backed base bs other k
            → (other + k ≤ addr) ⊎ (addr + n ≤ other)
            → (mem_read k other (mem_write n addr v (region base bs bad))).1
              ≡ (mem_read k other (region base bs bad)).1)
        × ((mem_write n addr v (region base bs bad)).bad_access ≡ bad)
  mem_read-mem_write n addr v b small =
      let off = addr - base in
      let after : List ℕ = store (le_bytes n v) off bs in
      let same : length after ≡ length bs = length-store (le_bytes n v) off bs in
      let width = length-le_bytes n v in
      let again : load n off after ≡ le_bytes n v =
        rw width at (load-store (le_bytes n v) off bs (omega (arith, b.inside))) in
      let at_after = mem_read-Backed base after bad in
      rw (mem_write-Backed base bs bad addr n v b) (
        ap (λ (r : Mem × ℕ). r.1)
              (at_after addr n (record { above = b.above; inside = omega (arith, b.inside) }))
            ∙ (ap le_value again ∙ le_value-le_bytes n v small),
        (λ k other c apart.
            ap (λ (r : Mem × ℕ). r.1)
              (at_after other k (record { above = c.above; inside = omega (arith, c.inside) }))
            ∙ (ap le_value (
                  load-store_apart k (le_bytes n v) off (other - base) bs (elim apart [
                    | inl x ↦ inl (omega (arith, c.above, b.above))
                    | inr x ↦ inr (omega (arith, c.above, b.above))
                  ]))
                ∙ sym (ap (λ (r : Mem × ℕ). r.1) (mem_read-Backed base bs bad other k c)))),
        refl,
      )

  -- An access that starts below the region, or runs past its end, even by one byte, reads as 0 and
  -- writes nothing; all that changes is the count of bad accesses.
  pub access_refused :
      (n addr v : ℕ)
      → (addr < base) ⊎ (length bs < addr - base + n)
      → (mem_read n addr (region base bs bad) ≡ (note_bad (region base bs bad), 0))
        × (mem_write n addr v (region base bs bad) ≡ note_bad (region base bs bad))
  unfolding mem_read mem_write
  access_refused n addr v out =
      let null = mem_ptr_null base bs bad addr n out in
      (rw (null, mem_read) (rw null refl), rw (null, mem_write) (rw null refl))
