-- ===== src/Runtime/Hle.antt =====
-- src/hle_libc.c: the forwarded C library, on guest registers and memory. vita_trap_unimpl is modelled
-- as in a traced run, where it counts and returns; by default the first trap ends the program.
pub mod Backing
pub mod Copying
pub mod Strings
pub mod Scan
use vitarecomp.Base.{
  ℕ, zero, suc, ◌+◌, ◌-◌, ◌%◌, ◌^◌, Bool, true, false, Option, none, some, List, [], ◌∷◌, length,
  replicate, ltb, ◌==◌, if◌then◌else◌,
}
use vitarecomp.Runtime.Mem.{Mem, mem_ptr, mem_avail, mem_read, mem_write, load, store}
use vitarecomp.Runtime.Heap.{Heap, Alloc, heap_alloc}

-- The registers that the calls use, the heap, and g_hits of trap.c.
pub record Cpu : Type 0 where
  pub r0 : ℕ
  pub r1 : ℕ
  pub r2 : ℕ
  pub heap : Heap
  pub traps : ℕ

pub record Machine : Type 0 where
  pub cpu : Cpu
  pub mem : Mem

abbrev pub trap : Machine → Machine
trap m = record m { cpu = record m.cpu { traps = (m.cpu.traps + 1) % 2 ^ 32 } }

abbrev pub return : ℕ → Machine → Machine
return v m = record m { cpu = record m.cpu { r0 = v } }

-- Copies into the region at an offset that vita_mem_ptr returned.
unfoldable pub put : ℕ → List ℕ → Mem → Mem
put off xs m = elim m.bytes [ none ↦ m | some bs ↦ record m { bytes = some (store xs off bs) } ]

unfoldable pub get : ℕ → ℕ → Mem → List ℕ
get n off m = elim m.bytes [ none ↦ [] | some bs ↦ load n off bs ]

-- The index that memchr finds.
unfoldable pub index : ℕ → List ℕ → Option ℕ
index c [] = none
index c (x ∷ xs) =
    if x == c then some 0 else elim (index c xs) [ none ↦ none | some k ↦ some (suc k) ]

-- gp; the pointer as the offset into the region.
unfoldable pub gp : ℕ → ℕ → Machine → Machine × Option ℕ
gp addr len m =
    if len == 0
    then (m, none)
    else let (mem, p) = (mem_ptr addr len m.mem) in
      elim p [
        | none ↦ (trap (record m { mem = mem }), none)
        | some off ↦ (record m { mem = mem }, some off)
      ]

unfoldable pub gstrlen : ℕ → Machine → Machine × ℕ
gstrlen addr m =
    if mem_avail addr m.mem == 0
    then (trap m, 0)
    else let (mem, p) = (mem_ptr addr 1 m.mem) in
      elim p [
        | none ↦ (trap (record m { mem = mem }), 0)
        | some off ↦ elim (index 0 (get (mem_avail addr m.mem) off mem)) [
          | none ↦ (trap (record m { mem = mem }), mem_avail addr m.mem)
          | some k ↦ (record m { mem = mem }, k)
        ]
      ]

-- `if (d && s) memmove(d, s, n)` with both pointers from gp.
unfoldable pub move : (dst src n : ℕ) → Machine → Machine
move dst src n m =
    let (m1, d) = gp dst n m in
    let (m2, s) = gp src n m1 in
    elim d [
      | none ↦ m2
      | some d' ↦ elim s [
        | none ↦ m2
        | some s' ↦ record m2 { mem = put d' (get n s' m2.mem) m2.mem }
      ]
    ]

unfoldable pub cxa_atexit : Machine → Machine
cxa_atexit m = return 0 m

unfoldable pub guard_acquire : Machine → Machine
guard_acquire m =
    let (mem, v) = mem_read 1 m.cpu.r0 m.mem in
    return (if v == 0 then 1 else 0) (record m { mem = mem })

unfoldable pub guard_release : Machine → Machine
guard_release m = record m { mem = mem_write 1 m.cpu.r0 1 m.mem }

unfoldable pub errno_loc : Machine → Machine
errno_loc m = return m.cpu.heap.errno_slot m

-- heap_alloc on the machine: its traps are counted.
unfoldable pub alloc : ℕ → Machine → Machine × ℕ
alloc n m =
    let a = heap_alloc n m.cpu.heap in
    let m' : Machine = record m { cpu = record m.cpu { heap = a.heap } } in
    (if a.trapped then trap m' else m', a.ptr)

unfoldable pub hle_realloc : Machine → Machine
hle_realloc m =
    let old = m.cpu.r0 in
    let n = m.cpu.r1 in
    if n == 0
    then return 0 m
    else let (m1, at_) = (alloc n m) in
      if old == 0
      then return at_ m1
      else if at_ == 0
      then return 0 m1
      else let avail = mem_avail old m1.mem in
        return at_ (move at_ old (if ltb n avail then n else avail) m1)

unfoldable pub hle_memcpy : Machine → Machine
hle_memcpy m = move m.cpu.r0 m.cpu.r1 m.cpu.r2 m

unfoldable pub hle_memmove : Machine → Machine
hle_memmove m = move m.cpu.r0 m.cpu.r1 m.cpu.r2 m

unfoldable pub hle_memset : Machine → Machine
hle_memset m =
    let (m1, d) = (gp m.cpu.r0 m.cpu.r2 m) in
    elim d [
      | none ↦ m1
      | some off ↦ record m1 { mem = put off (replicate m.cpu.r2 (m.cpu.r1 % 256)) m1.mem }
    ]

-- memchr over `n` bytes at `base`, the pointer carried back to the guest.
unfoldable pub chr_from : (base n c : ℕ) → Machine → Machine
chr_from base n c m =
    let (m1, p) = (gp base n m) in
    elim p [
      | none ↦ return 0 m1
      | some off ↦ elim (index (c % 256) (get n off m1.mem)) [
        | none ↦ return 0 m1
        | some k ↦ return ((base + k) % 2 ^ 32) m1
      ]
    ]

unfoldable pub hle_memchr : Machine → Machine
hle_memchr m = chr_from m.cpu.r0 m.cpu.r2 m.cpu.r1 m

unfoldable pub hle_strlen : Machine → Machine
hle_strlen m = let (m1, n) = (gstrlen m.cpu.r0 m) in return n m1

unfoldable pub hle_strcpy : Machine → Machine
hle_strcpy m = let (m1, n) = (gstrlen m.cpu.r1 m) in move m.cpu.r0 m.cpu.r1 ((n + 1) % 2 ^ 32) m1

unfoldable pub hle_strncpy : Machine → Machine
hle_strncpy m =
    let n = m.cpu.r2 in
    let (m1, l) = (gstrlen m.cpu.r1 m) in
    let (m2, d) = (gp m.cpu.r0 n m1) in
    elim d [
      | none ↦ m2
      | some d' ↦
          let copy = if ltb l n then l else n in
          let (m3, s) = (gp m.cpu.r1 copy m2) in
          let m4 : Machine = elim s [
            | none ↦ m3
            | some s' ↦ record m3 { mem = put d' (get copy s' m3.mem) m3.mem }
          ] in
          if ltb copy n
          then record m4 { mem = put (d' + copy) (replicate (n - copy) 0) m4.mem }
          else m4
    ]

unfoldable pub hle_strcat : Machine → Machine
hle_strcat m =
    let (m1, ld) = (gstrlen m.cpu.r0 m) in
    let (m2, ls) = (gstrlen m.cpu.r1 m1) in
    move ((m.cpu.r0 + ld) % 2 ^ 32) m.cpu.r1 ((ls + 1) % 2 ^ 32) m2

unfoldable pub hle_strchr : Machine → Machine
hle_strchr m =
    let (m1, l) = (gstrlen m.cpu.r0 m) in chr_from m.cpu.r0 ((l + 1) % 2 ^ 32) m.cpu.r1 m1
