-- ===== src/Runtime/Heap.antt =====
-- The guest heap of src/hle_libc.c: a bump allocator over one region.
pub mod Laws
use vitarecomp.Base.{
  ℕ, zero, suc, ◌+◌, ◌-◌, ◌%◌, ◌^◌, bit_and, ◌||◌, Bool, true, false, List, [], ◌∷◌, ltb, leb, ◌==◌,
  if◌then◌else◌,
}
use vitarecomp.Runtime.Alu.{complement}

-- g_heap_base, g_heap_size, g_heap_used and g_errno_slot.
pub record Heap : Type 0 where
  pub base : ℕ
  pub size : ℕ
  pub used : ℕ
  pub errno_slot : ℕ

unfoldable pub heap_init : ℕ → ℕ → Heap → Heap
heap_init base size h =
    if leb 4 size
    then record { base = base; size = size; used = 4; errno_slot = base }
    else record { base = base; size = size; used = 0; errno_slot = h.errno_slot }

-- `(n + 7u) & ~7u`.
unfoldable pub round_up : ℕ → ℕ
round_up n = bit_and ((n + 7) % 2 ^ 32) (complement 7)

-- What heap_alloc returns, and whether it called vita_trap_unimpl on the way.
pub record Alloc : Type 0 where
  pub heap : Heap
  pub ptr : ℕ
  pub trapped : Bool

unfoldable pub heap_alloc : ℕ → Heap → Alloc
heap_alloc n h =
    let at_off = round_up h.used in
    let size = round_up n in
    if h.size == 0
    then record { heap = h; ptr = 0; trapped = true }
    else if ltb size n || ltb at_off h.used
    then record { heap = h; ptr = 0; trapped = false }
    else if ltb h.size at_off || ltb (h.size - at_off) size
    then record { heap = h; ptr = 0; trapped = true }
    else record {
      heap = record h { used = (at_off + size) % 2 ^ 32 };
      ptr = (h.base + at_off) % 2 ^ 32;
      trapped = false;
    }

-- vita_hle_malloc, with the request in r0.
unfoldable pub malloc : ℕ → Heap → Alloc
malloc n h = if n == 0 then record { heap = h; ptr = 0; trapped = false } else heap_alloc n h

-- A block that a program holds.
pub record Held : Type 0 where
  pub start : ℕ
  pub len : ℕ

-- A program's requests, one after the other, and the blocks that it was given.
unfoldable pub mallocs : List ℕ → Heap → List Held
mallocs [] h = []
mallocs (n ∷ ns) h =
    let a = malloc n h in
    let later = mallocs ns a.heap in
    if a.ptr == 0 then later else (record { start = a.ptr; len = n } ∷ later)
