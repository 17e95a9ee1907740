-- ===== src/Imports.antt =====
-- tools/armrecomp/module.c: places in the image, and the stub that a branch goes to.
pub mod Lookup
pub mod Parse
mod Tests
use vitarecomp.Base.{
  ℕ, ◌+◌, ◌-◌, ◌*◌, ◌^◌, Option, none, some, List, length, get_elem?, get_or, ltb, if◌then◌else◌,
}
use vitarecomp.Runtime.Dispatch.{key_of}
use vitarecomp.Runtime.Search.{Search, found, missing, unfinished, search}

-- vm_seg.
pub record Seg : Type 0 where
  pub file : ℕ
  pub vaddr : ℕ
  pub len : ℕ

-- vm_image. The bytes are as many as its `size` says.
pub record Image : Type 0 where
  pub contents : List ℕ
  pub seg_file : ℕ
  pub seg_len : ℕ
  pub seg_vaddr : ℕ
  pub data_segs : List Seg

abbrev pub size : Image → ℕ
size img = length img.contents

-- A byte of the file, and the reads r16 and r32.
abbrev pub byte_at : Image → ℕ → ℕ
byte_at img p = get_or img.contents p 0

abbrev pub r16 : Image → ℕ → ℕ
r16 img p = byte_at img p + byte_at img (p + 1) * 2 ^ 8

abbrev pub r32 : Image → ℕ → ℕ
r32 img p = r16 img p + r16 img (p + 2) * 2 ^ 16

-- vm_ptr; the pointer as an offset into the file.
unfoldable pub vm_ptr : Image → (off need : ℕ) → Option ℕ
vm_ptr img off need =
    if ltb img.seg_len off
    then none
    else if ltb img.seg_len (off + need)
    then none
    else if ltb (size img) (img.seg_file + off + need)
    then none
    else some (img.seg_file + off)

unfoldable pub vm_va : Image → (vaddr need : ℕ) → Option ℕ
vm_va img vaddr need =
    if ltb vaddr img.seg_vaddr then none else vm_ptr img (vaddr - img.seg_vaddr) need

-- vm_stub.
pub record Stub : Type 0 where
  pub addr : ℕ
  pub lib_nid : ℕ
  pub func_nid : ℕ

unfoldable pub stub_addr : List Stub → ℕ → ℕ
stub_addr stubs i = elim (get_elem? stubs i) [ none ↦ 0 | some s ↦ s.addr ]

-- vm_find_stub on a table that is there; the pointer as the row.
unfoldable pub vm_find_stub : List Stub → ℕ → Search
vm_find_stub stubs addr = search (stub_addr stubs) (key_of addr) (length stubs + 1) 0 (length stubs)
