-- ===== src/Runtime/Hle/Scan.antt =====
-- src/hle_libc.c: the comparisons and the searches from the end and for a string.
pub mod Last
use vitarecomp.Base.{
  ℕ, zero, suc, ◌+◌, ◌%◌, ◌^◌, Bool, Option, none, some, List, get_or, ltb, ◌==◌, if◌then◌else◌,
}
use vitarecomp.Runtime.Hle.{Machine, return, get, gp, gstrlen}

-- Two texts that both are there, compared by the host; the answer is the 32-bit word of its int.
unfoldable pub compare_with : (compare : List ℕ → List ℕ → ℕ) → (a la b lb : ℕ) → Machine → Machine
compare_with compare a la b lb m =
    let (m1, p) = gp a la m in
    let (m2, q) = gp b lb m1 in
    elim p [
      | none ↦ return 0 m2
      | some p' ↦ elim q [
        | none ↦ return 0 m2
        | some q' ↦ return (compare (get la p' m2.mem) (get lb q' m2.mem)) m2
      ]
    ]

-- The host's memcmp, strcmp, strncmp and strstr; strstr answers an offset.
module _ (memcmp strcmp : List ℕ → List ℕ → ℕ) (strncmp : ℕ → List ℕ → List ℕ → ℕ) where
  unfoldable pub hle_memcmp : Machine → Machine
  hle_memcmp m = compare_with memcmp m.cpu.r0 m.cpu.r2 m.cpu.r1 m.cpu.r2 m

  unfoldable pub hle_strcmp : Machine → Machine
  hle_strcmp m =
      let (m1, la) = gstrlen m.cpu.r0 m in
      let (m2, lb) = gstrlen m.cpu.r1 m1 in
      compare_with strcmp m.cpu.r0 ((la + 1) % 2 ^ 32) m.cpu.r1 ((lb + 1) % 2 ^ 32) m2

  unfoldable pub hle_strncmp : Machine → Machine
  hle_strncmp m =
      let n = m.cpu.r2 in
      let (m1, la) = gstrlen m.cpu.r0 m in
      let (m2, lb) = gstrlen m.cpu.r1 m1 in
      let ca = (la + 1) % 2 ^ 32 in
      let cb = (lb + 1) % 2 ^ 32 in
      compare_with (strncmp n) m.cpu.r0 (if ltb ca n then ca else n) m.cpu.r1
        (if ltb cb n then cb else n) m2

module _ (strstr : List ℕ → List ℕ → Option ℕ) where
  unfoldable pub hle_strstr : Machine → Machine
  hle_strstr m =
      let base = m.cpu.r0 in
      let (m1, lh) = gstrlen base m in
      let (m2, ln) = gstrlen m.cpu.r1 m1 in
      let (m3, h) = gp base ((lh + 1) % 2 ^ 32) m2 in
      let (m4, n) = gp m.cpu.r1 ((ln + 1) % 2 ^ 32) m3 in
      elim h [
        | none ↦ return 0 m4
        | some h' ↦ elim n [
          | none ↦ return 0 m4
          | some n' ↦
              elim (strstr (get ((lh + 1) % 2 ^ 32) h' m4.mem)
                (get ((ln + 1) % 2 ^ 32) n' m4.mem)) [
                  | none ↦ return 0 m4
                  | some hit ↦ return ((base + hit) % 2 ^ 32) m4
                ]
        ]
      ]

-- The loop of strrchr, from `n` down.
unfoldable pub last_index : (n c : ℕ) → List ℕ → Option ℕ
last_index zero c xs = none
last_index (suc n) c xs =
    let rest = last_index n c xs in if get_or xs n 0 == c then some n else rest

-- The rest of strrchr, for a text of `len` bytes where it is there.
unfoldable pub strrchr_in : (base c len : ℕ) → Machine × Option ℕ → Machine
strrchr_in base c len (m, none) = return 0 m
strrchr_in base c len (m, some off) = elim (last_index len c (get len off m.mem)) [
  | none ↦ return 0 m
  | some i ↦ return ((base + i) % 2 ^ 32) m
]

unfoldable pub hle_strrchr : Machine → Machine
hle_strrchr m =
    let (m1, l) = gstrlen m.cpu.r0 m in
    let len = (l + 1) % 2 ^ 32 in strrchr_in m.cpu.r0 (m.cpu.r1 % 256) len (gp m.cpu.r0 len m1)
