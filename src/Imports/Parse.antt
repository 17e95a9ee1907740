-- ===== src/Imports/Parse.antt =====
-- vm_parse of tools/armrecomp/module.c: the module info, the import table and the stubs.
pub mod Stubs
mod Tests
use vitarecomp.Base.{
  ℕ, zero, suc, ◌+◌, ◌-◌, ◌*◌, ◌/◌, ◌%◌, ◌^◌, Bool, true, false, not, ◌||◌, Option, none, some,
  List, [], ◌∷◌, ◌++◌, length, take, ltb, leb, ◌==◌, if◌then◌else◌,
}
use vitarecomp.Imports.{Image, Stub, byte_at, r16, r32, vm_ptr, vm_va}
use vitarecomp.Runtime.Dispatch.{key_of}

-- vm_module_info.
pub record ModuleInfo : Type 0 where
  pub attributes : ℕ
  pub version : ℕ
  pub name : List ℕ
  pub type_byte : ℕ
  pub gp_value : ℕ
  pub export_top : ℕ
  pub export_end : ℕ
  pub import_top : ℕ
  pub import_end : ℕ
  pub module_nid : ℕ
  pub tls_start : ℕ
  pub tls_filesz : ℕ
  pub tls_memsz : ℕ
  pub module_start : ℕ
  pub module_stop : ℕ
  pub exidx_top : ℕ
  pub exidx_end : ℕ
  pub extab_top : ℕ
  pub extab_end : ℕ

-- vm_import.
pub record Import : Type 0 where
  pub library_nid : ℕ
  pub name : List ℕ
  pub num_funcs : ℕ
  pub num_vars : ℕ
  pub func_nid_table : ℕ
  pub func_entry_table : ℕ

-- The list of imports with its flag and its sum.
pub record ImportList : Type 0 where
  pub imports : List Import
  pub truncated : Bool
  pub total : ℕ

-- vm_module.
pub record Module : Type 0 where
  pub info : ModuleInfo
  pub list : ImportList
  pub stubs : List Stub

-- The messages of fail.
pub data Refusal : Type 0 where
  not_in_segment_0 : Refusal
  outside_segment : Refusal
  unexpected_version : Refusal
  inverted_bounds : Refusal
  past_the_segment : Refusal

pub data Parsed : Type 0 where
  parsed : Module → Parsed
  refused : Refusal → Parsed

-- The bytes from `p` up to a zero, `room` at most.
unfoldable pub name_bytes : ℕ → Image → ℕ → List ℕ
name_bytes zero img p = []
name_bytes (suc room) img p =
    let rest = name_bytes room img (suc p) in
    if byte_at img p == 0 then [] else byte_at img p ∷ rest

abbrev pub at_most : ℕ → ℕ → ℕ
at_most a b = if ltb b a then b else a

-- read_name_va into a field of 64 bytes.
unfoldable pub read_name_va : Image → (vaddr : ℕ) → List ℕ
read_name_va img vaddr = if vaddr == 0 then [] else elim (vm_va img vaddr 1) [
  | none ↦ []
  | some p ↦ name_bytes (at_most 63 (img.seg_len - (vaddr - img.seg_vaddr))) img p
]

-- The fields from `mi` on. The name takes 27 bytes and ends at its first zero when it is read.
unfoldable pub info_at : Image → ℕ → ModuleInfo
info_at img mi = record {
  attributes = r16 img mi;
  version = r16 img (mi + 0x02);
  name = name_bytes 27 img (mi + 0x04);
  type_byte = byte_at img (mi + 0x1f);
  gp_value = r32 img (mi + 0x20);
  export_top = r32 img (mi + 0x24);
  export_end = r32 img (mi + 0x28);
  import_top = r32 img (mi + 0x2c);
  import_end = r32 img (mi + 0x30);
  module_nid = r32 img (mi + 0x34);
  tls_start = r32 img (mi + 0x38);
  tls_filesz = r32 img (mi + 0x3c);
  tls_memsz = r32 img (mi + 0x40);
  module_start = r32 img (mi + 0x44);
  module_stop = r32 img (mi + 0x48);
  exidx_top = r32 img (mi + 0x4c);
  exidx_end = r32 img (mi + 0x50);
  extab_top = r32 img (mi + 0x54);
  extab_end = r32 img (mi + 0x58);
}

-- An entry of the import table, in its long form and in its short one.
unfoldable pub import_at : Image → (e size : ℕ) → Import
import_at img e size =
    if leb 0x34 size
    then record {
      library_nid = r32 img (e + 0x10);
      name = read_name_va img (r32 img (e + 0x14));
      num_funcs = r16 img (e + 0x06);
      num_vars = r16 img (e + 0x08);
      func_nid_table = r32 img (e + 0x1c);
      func_entry_table = r32 img (e + 0x20);
    }
    else record {
      library_nid = r32 img (e + 0x0c);
      name = read_name_va img (r32 img (e + 0x10));
      num_funcs = r16 img (e + 0x06);
      num_vars = r16 img (e + 0x08);
      func_nid_table = r32 img (e + 0x14);
      func_entry_table = r32 img (e + 0x18);
    }

-- The entry at `p`, where the walk goes on.
unfoldable pub entry_at : Image → (import_end p : ℕ) → Option (ℕ × ℕ)
entry_at img import_end p =
    if ltb import_end ((p + 4) % 2 ^ 32) then none else elim (vm_ptr img p 4) [
      | none ↦ none
      | some e ↦
          let size = r16 img e in
          if ltb size 0x24 || ltb import_end ((p + size) % 2 ^ 32)
          then none
          else elim (vm_ptr img p size) [ none ↦ none | some e' ↦ some (e', size) ]
    ]

abbrev pub max_imports : ℕ
max_imports = 256

-- The walk of the import table. It takes 256 entries at most, and one round more to see that there are others.
unfoldable pub imports_loop : ℕ → Image → (import_end p : ℕ) → ImportList → ImportList
imports_loop zero img import_end p l = l
imports_loop (suc fuel) img import_end p l = elim (entry_at img import_end p) [
  | none ↦ l
  | some (e, size) ↦
      if leb max_imports (length l.imports)
      then record l { truncated = true }
      else let im = import_at img e size in
        imports_loop fuel img import_end ((p + size) % 2 ^ 32) (record {
          imports = l.imports ++ im ∷ [];
          truncated = l.truncated;
          total = (l.total + im.num_funcs) % 2 ^ 32;
        })
]

unfoldable pub walk_imports : Image → ModuleInfo → ImportList
walk_imports img m =
    imports_loop (max_imports + 1) img m.import_end m.import_top
      (record { imports = []; truncated = false; total = 0 })

-- The stub of row `k` of the two tables.
abbrev pub stub_of : Image → Import → (nt et k : ℕ) → Stub
stub_of img im nt et k = record {
  lib_nid = im.library_nid;
  func_nid = r32 img (nt + k * 4);
  addr = key_of (r32 img (et + k * 4));
}

-- The rows from `k` on, `left` of them.
unfoldable pub stub_rows_loop :
    (left : ℕ) → (total : ℕ) → Image → Import → (nt et k : ℕ) → List Stub → List Stub
stub_rows_loop zero total img im nt et k stubs = stubs
stub_rows_loop (suc left) total img im nt et k stubs =
    if leb total (length stubs)
    then stubs
    else stub_rows_loop left total img im nt et (suc k) (stubs ++ stub_of img im nt et k ∷ [])

-- The rows of an import whose tables lie in the segment.
unfoldable pub add_stubs : (total : ℕ) → Image → Import → List Stub → List Stub
add_stubs total img im stubs = elim (vm_va img im.func_nid_table (im.num_funcs * 4)) [
  | none ↦ stubs
  | some nt ↦ elim (vm_va img im.func_entry_table (im.num_funcs * 4)) [
    | none ↦ stubs
    | some et ↦ stub_rows_loop im.num_funcs total img im nt et 0 stubs
  ]
]

unfoldable pub stubs_loop : (total : ℕ) → Image → List Import → List Stub → List Stub
stubs_loop total img [] stubs = stubs
stubs_loop total img (im ∷ ims) stubs = stubs_loop total img ims (add_stubs total img im stubs)

-- The C library's sort by address.
module _ (qsort : List Stub → List Stub) where
  unfoldable pub vm_parse : Image → (entry : ℕ) → Parsed
  vm_parse img entry =
      if ltb 0 (entry / 2 ^ 30)
      then refused not_in_segment_0
      else elim (vm_ptr img (entry % 2 ^ 30) 0x5c) [
        | none ↦ refused outside_segment
        | some mi ↦
            let m = info_at img mi in
            let l = walk_imports img m in
            if not (m.version / 2 ^ 8 == 1)
            then refused unexpected_version
            else if ltb m.export_end m.export_top || ltb m.import_end m.import_top
            then refused inverted_bounds
            else if ltb img.seg_len m.import_end
            then refused past_the_segment
            else parsed (record {
              info = m;
              list = l;
              stubs = if l.total == 0 then [] else qsort (stubs_loop l.total img l.imports []);
            })
      ]
