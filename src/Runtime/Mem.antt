-- ===== src/Runtime/Mem.antt =====
-- src/mem.c: the flat guest address space.
pub mod Laws
use vitarecomp.Base.{
  ℕ, zero, suc, ◌+◌, ◌-◌, ◌*◌, ◌/◌, ◌%◌, ◌^◌, ◌||◌, Bool, Option, none, some, List, [], ◌∷◌, length,
  get_or, set, replicate, ltb, leb, ◌==◌, if◌then◌else◌,
}

-- The static variables of mem.c. `bytes` is what g_mem points at, `none` for NULL; its length is
-- g_size.
pub record Mem : Type 0 where
  pub base : ℕ
  pub bytes : Option (List ℕ)
  pub bad_access : ℕ

-- Whether calloc succeeds is the host's choice: `granted`.
unfoldable pub mem_init : Bool → ℕ → ℕ → Mem → ℕ × Mem
mem_init granted base size m =
    if granted
    then (0, record { base = base; bytes = some (replicate size 0); bad_access = m.bad_access })
    else (1, record { base = 0; bytes = none; bad_access = m.bad_access })

unfoldable pub mem_free : Mem → Mem
mem_free m = record { base = 0; bytes = none; bad_access = m.bad_access }

abbrev pub note_bad : Mem → Mem
note_bad m = record m { bad_access = (m.bad_access + 1) % 2 ^ 32 }

-- The offset into the allocation of the pointer that is returned, `none` for NULL.
unfoldable pub mem_ptr : ℕ → ℕ → Mem → Mem × Option ℕ
mem_ptr addr len m = elim m.bytes [
  | none ↦ (note_bad m, none)
  | some bs ↦
      if ltb addr m.base
      then (note_bad m, none)
      else if ltb (length bs) (addr - m.base + len)
      then (note_bad m, none)
      else (m, some (addr - m.base))
]

unfoldable pub mem_avail : ℕ → Mem → ℕ
mem_avail addr m = elim m.bytes [
  | none ↦ 0
  | some bs ↦
      if ltb addr m.base
      then 0
      else if leb (length bs) (addr - m.base)
      then 0
      else (length bs - (addr - m.base)) % 2 ^ 32
]

-- `n` bytes from `off` on, and a copy of bytes to `off`.
unfoldable pub load : ℕ → ℕ → List ℕ → List ℕ
load zero off bs = []
load (suc n) off bs = get_or bs off 0 ∷ load n (suc off) bs

unfoldable pub store : List ℕ → ℕ → List ℕ → List ℕ
store [] off bs = bs
store (x ∷ xs) off bs = store xs (suc off) (set bs off x)

-- The host's integers are little-endian.
unfoldable pub le_value : List ℕ → ℕ
le_value [] = 0
le_value (x ∷ xs) = x + 256 * le_value xs

unfoldable pub le_bytes : ℕ → ℕ → List ℕ
le_bytes zero v = []
le_bytes (suc n) v = v % 256 ∷ le_bytes n (v / 256)

-- vita_read8, vita_read16 and vita_read32 are this with n = 1, 2 and 4.
unfoldable pub mem_read : ℕ → ℕ → Mem → Mem × ℕ
mem_read n addr m = elim (mem_ptr addr n m).1 [
  | none ↦ ((mem_ptr addr n m).0, 0)
  | some off ↦ elim m.bytes [
    | none ↦ ((mem_ptr addr n m).0, 0)
    | some bs ↦ ((mem_ptr addr n m).0, le_value (load n off bs))
  ]
]

-- vita_write8, vita_write16 and vita_write32 are this with n = 1, 2 and 4.
unfoldable pub mem_write : ℕ → ℕ → ℕ → Mem → Mem
mem_write n addr v m = elim (mem_ptr addr n m).1 [
  | none ↦ (mem_ptr addr n m).0
  | some off ↦ elim m.bytes [
    | none ↦ (mem_ptr addr n m).0
    | some bs ↦ record m { bytes = some (store (le_bytes n v) off bs) }
  ]
]
