-- ===== src/Imports/Lookup.antt =====
-- Accesses within the segment and the file, and the search for a stub.
use vitarecomp.Base.{ℕ, ◌+◌, ◌≤◌, ◌<◌, ◌≡◌, ◌≢◌, ◌↔◌, some, List, length, arith}
use vitarecomp.Runtime.Dispatch.{key_of}
use vitarecomp.Runtime.Search.{found, missing, Ascending, search-finds, search-misses}
use vitarecomp.Imports.{Image, size, vm_ptr, Stub, stub_addr, vm_find_stub}

-- vm_ptr returns the place of an access just where the access lies within the segment and within the
-- file, and that place is the offset from the start of the segment.
pub vm_ptr_lem :
    (img : Image) (off need p : ℕ)
    → (vm_ptr img off need ≡ some p) ↔ (
        (off + need ≤ img.seg_len)
        × (img.seg_file + off + need ≤ size img)
        × (p ≡ img.seg_file + off))
unfolding vm_ptr
vm_ptr_lem img off need p = ((λ e. ground arith), (λ h. ground arith))

-- In a table whose addresses go up, vm_find_stub returns the row of the address, with or without the
-- Thumb bit, and no row for an address that the table does not have.
pub vm_find_stub_lem :
    (stubs : List Stub) (addr : ℕ)
    → Ascending (stub_addr stubs) (length stubs)
    → ((i : ℕ)
        → i < length stubs
        → stub_addr stubs i ≡ key_of addr
        → vm_find_stub stubs addr ≡ found i)
      × (((i : ℕ) → i < length stubs → stub_addr stubs i ≢ key_of addr)
          → vm_find_stub stubs addr ≡ missing)
unfolding vm_find_stub
vm_find_stub_lem stubs addr up = (
  (λ i inside same.
      search-finds (stub_addr stubs) (key_of addr) (length stubs + 1) (length stubs) 0
        (length stubs) i up (omega arith) (omega arith) inside same (omega arith)),
  (λ absent.
      search-misses (stub_addr stubs) (key_of addr) (length stubs + 1) 0 (length stubs)
        (λ i a b. absent i b) (omega arith)),
)
