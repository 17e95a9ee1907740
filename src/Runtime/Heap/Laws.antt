-- ===== src/Runtime/Heap/Laws.antt =====
-- What malloc gives out is aligned, inside the region, and disjoint from all that it gave before.
use vitarecomp.Base.{
  ℕ, ◌+◌, ◌-◌, ◌*◌, ◌/◌, ◌%◌, ◌^◌, ◌≤◌, ◌<◌, ◌≡◌, refl, ap, ◌∙◌, true, false, Bool, List, [], ◌∷◌,
  bit_and, ◌||◌, ltb, ◌==◌, arith, if◌then◌else◌, ◌⊎◌, inl, inr, Bool-cases, All,
}
use vitarecomp.Base.Bits.{bit_and_split, bit_and_mask, bit_and-zero}
use vitarecomp.Runtime.Heap.{Heap, round_up, Alloc, heap_alloc, malloc, Held, mallocs}

-- Clearing the low three bits of a 32-bit word.
clear_low : (x : ℕ) → x < 2 ^ 32 → bit_and x 0xffff_fff8 ≡ x / 8 * 8
clear_low x h =
    bit_and_eq
    ∙ (bit_and_split 3 (x / 8) (x % 8) 0x1fff_ffff 0 (omega arith) (omega arith)
        ∙ omega (arith, bit_and_mask 29 (x / 8), bit_and-zero (x % 8)))
  where
    bit_and_eq : bit_and x 0xffff_fff8 ≡ bit_and (x / 8 * 2 ^ 3 + x % 8) (0x1fff_ffff * 2 ^ 3 + 0)
    bit_and_eq = ap (λ (y : ℕ). bit_and y 0xffff_fff8) (omega arith)

-- Where the addition does not wrap, the least multiple of 8 that is not below `n`.
pub round_up_lem :
    (n : ℕ) → n < 2 ^ 32 → round_up n ≡ (if ltb (n + 7) (2 ^ 32) then (n + 7) / 8 * 8 else 0)
unfolding round_up
round_up_lem n h = ground (arith, clear_low ((n + 7) % 2 ^ 32) (omega arith))

-- The heap keeps within its region, which keeps within the address space and does not start at 0.
pub record IsHeap (h : Heap) : Type 0 where
  pub fits : h.used ≤ h.size
  pub space : h.base + h.size ≤ 2 ^ 32
  pub nonzero : 0 < h.base

-- What a block comes to.
pub record Fresh (n : ℕ) (h : Heap) (a : Alloc) : Type 0 where
  pub heap : IsHeap a.heap
  pub same_base : a.heap.base ≡ h.base
  pub same_size : a.heap.size ≡ h.size
  pub grows : h.used ≤ a.heap.used
  pub block :
      (a.ptr ≡ 0)
      ⊎ ((h.base + h.used ≤ a.ptr)
          × (a.ptr + n ≤ a.heap.base + a.heap.used)
          × ((a.ptr - h.base) % 8 ≡ 0))

refused :
    (n : ℕ) (h : Heap) (t : Bool) → IsHeap h → Fresh n h (record { heap = h; ptr = 0; trapped = t })
refused n h t w = record {
  heap = w;
  same_base = refl;
  same_size = refl;
  grows = omega arith;
  block = inl refl;
}

-- The block at an aligned cursor.
granted :
    (n at_off size : ℕ) (h : Heap)
    → 0 < n
    → IsHeap h
    → at_off % 8 ≡ 0
    → h.used ≤ at_off
    → n ≤ size
    → at_off + size ≤ h.size
    → Fresh n h (record {
      heap = record h { used = (at_off + size) % 2 ^ 32 };
      ptr = (h.base + at_off) % 2 ^ 32;
      trapped = false;
    })
granted n at_off size h pos w even above enough room = record {
  heap = record { fits = omega (arith, w.space, w.nonzero); space = w.space; nonzero = w.nonzero };
  same_base = refl;
  same_size = refl;
  grows = omega (arith, w.space, w.nonzero);
  block = inr (
    omega (arith, w.space, w.nonzero),
    omega (arith, w.space, w.nonzero),
    omega (arith, w.space, w.nonzero),
  );
}

-- A multiple of 8, and at least `n` unless the addition wraps.
round_up-even : (n : ℕ) → n < 2 ^ 32 → round_up n % 8 ≡ 0
round_up-even n h = elim (Bool-cases (ltb (n + 7) (2 ^ 32))) [
  | inl e ↦ rw (round_up_lem n h) (rw e (omega arith))
  | inr e ↦ rw (round_up_lem n h) (rw e (omega arith))
]

-- One request: the heap stays well formed, and what is returned is NULL or a block that lies above
-- everything given out before, below the new cursor, at a multiple of 8 from the base.
pub malloc-Fresh : (n : ℕ) (h : Heap) → n < 2 ^ 32 → IsHeap h → Fresh n h (malloc n h)
unfolding malloc heap_alloc
malloc-Fresh n h small w = elim (Bool-cases (n == 0)) [
  | inl z ↦ rw z (refused n h false w)
  | inr pos ↦ elim (Bool-cases (h.size == 0)) [
    | inl e ↦ rw (pos, e) (refused n h true w)
    | inr some_room ↦ elim (Bool-cases (ltb (round_up n) n || ltb (round_up h.used) h.used)) [
      | inl wrapped ↦ rw (pos, some_room, wrapped) (refused n h false w)
      | inr no_wrap ↦
          elim (Bool-cases
            (ltb h.size (round_up h.used) || ltb (h.size - round_up h.used) (round_up n))) [
              | inl full ↦ rw (pos, some_room, no_wrap, full) (refused n h true w)
              | inr room ↦
                  rw (pos, some_room, no_wrap, room)
                    (granted n (round_up h.used) (round_up n) h (ground arith) w
                      (round_up-even h.used (omega (arith, w.fits, w.space, w.nonzero)))
                      (ground arith) (ground arith) (ground arith))
            ]
    ]
  ]
]

-- The block lies within [lo, hi) and at a multiple of 8 from `base`.
pub record Within (base lo hi : ℕ) (b : Held) : Type 0 where
  pub above : lo ≤ b.start
  pub below : b.start + b.len ≤ hi
  pub even : (b.start - base) % 8 ≡ 0

-- Each block ends where the later ones may start, or before.
abbrev pub Apart : ℕ → ℕ → ℕ → List Held → Type 0
Apart base lo hi [] = Unit {0}
Apart base lo hi (b ∷ bs) = Within base lo hi b × Apart base (b.start + b.len) hi bs

weaken :
    (base lo lo' hi : ℕ) (bs : List Held) → lo ≤ lo' → Apart base lo' hi bs → Apart base lo hi bs
weaken base lo lo' hi [] h a = a
weaken base lo lo' hi (b ∷ bs) h a =
    (record { above = omega (arith, a.0.above); below = a.0.below; even = a.0.even }, a.1)

-- However many requests a program makes, of whatever 32-bit sizes, from a well-formed heap, the blocks
-- that it gets lie one above the other, from the cursor on and inside the region, and at multiples of 8
-- from its base. So no two overlap and none reaches what was given out before.
pub mallocs-Apart :
    (ns : List ℕ) (h : Heap)
    → All (λ n. n < 2 ^ 32) ns
    → IsHeap h
    → Apart h.base (h.base + h.used) (h.base + h.size) (mallocs ns h)
unfolding mallocs
mallocs-Apart [] h small w = tt
mallocs-Apart (n ∷ ns) h small w =
    let f = malloc-Fresh n h small.0 w in
    let ih = mallocs-Apart ns (malloc n h).heap small.1 f.heap in
    let b = f.same_base in
    let s = f.same_size in
    let same : Apart h.base (h.base + (malloc n h).heap.used) (h.base + h.size)
        (mallocs ns (malloc n h).heap) =
      rw (b, s) at ih in
    elim (Bool-cases ((malloc n h).ptr == 0)) [
      | inl null ↦ rw null (weaken _ _ _ _ _ (omega (arith, f.grows)) same)
      | inr given ↦ elim f.block [
        | inl null ↦ absurd (ground arith)
        | inr (above, below, even) ↦ rw given (
          record { above = above; below = omega (arith, below, f.heap.fits, b, s); even = even },
          weaken _ _ _ _ _ (omega (arith, below, b)) same,
        )
      ]
    ]
