-- ===== src/Imports/Tests.antt =====
-- A table of two stubs.
use vitarecomp.Base.{
  some, ◌↔◌, ◌≤◌, ℕ, zero, suc, ◌+◌, ◌<◌, ◌≡◌, ◌≢◌, List, replicate, [], ◌∷◌, arith,
}
use vitarecomp.Runtime.Dispatch.{key_of}
use vitarecomp.Runtime.Search.{found, missing, Ascending}
use vitarecomp.Imports.{Stub, stub_addr, vm_find_stub, Image, vm_ptr}
use vitarecomp.Imports.Lookup.{vm_find_stub_lem, vm_ptr_lem}

abbrev two : List Stub
two =
    record { addr = 0x8100_0000; lib_nid = 1; func_nid = 2 }
    ∷ record { addr = 0x8100_0010; lib_nid = 1; func_nid = 3 }
    ∷ []

two_up : Ascending (stub_addr two) 2
unfolding stub_addr
two_up i zero a b = absurd (omega arith)
two_up zero (suc zero) a b = omega arith
two_up (suc i) (suc zero) a b = absurd (omega arith)
two_up i (suc (suc j)) a b = absurd (omega arith)

vm_find_stub_lem_example :
    ((i : ℕ)
      → i < 2
      → stub_addr two i ≡ key_of 0x8100_0011
      → vm_find_stub two 0x8100_0011 ≡ found i)
    × (((i : ℕ) → i < 2 → stub_addr two i ≢ key_of 0x8100_0011)
        → vm_find_stub two 0x8100_0011 ≡ missing)
vm_find_stub_lem_example = vm_find_stub_lem two 0x8100_0011 two_up

abbrev image : Image
image = record {
  contents = replicate 64 0;
  seg_file = 16;
  seg_len = 32;
  seg_vaddr = 0x8100_0000;
  data_segs = [];
}

vm_ptr_lem_example :
    (vm_ptr image 28 4 ≡ some 44)
    ↔ ((28 + 4 ≤ 32) × (16 + 28 + 4 ≤ 64) × (◌≡◌ {A = ℕ} 44 (16 + 28)))
vm_ptr_lem_example = vm_ptr_lem image 28 4 44
