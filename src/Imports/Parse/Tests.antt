-- ===== src/Imports/Parse/Tests.antt =====
-- A module that imports one function.
use vitarecomp.Base.{◌≡◌, ◌≤◌, refl, false, [], ◌∷◌, length, arith}
use vitarecomp.Imports.{Image, vm_ptr, vm_va}
use vitarecomp.Imports.Parse.{
  Module, parsed, max_imports, name_bytes, read_name_va, info_at, import_at, entry_at, imports_loop,
  walk_imports, stub_rows_loop, add_stubs, stubs_loop, vm_parse,
}
use vitarecomp.Imports.Parse.Stubs.{all_stubs, vm_parse-stubs}

-- The module info, an import entry of the short form, and its two tables.
abbrev image : Image
image = record {
  contents =
      0 ∷ 0 ∷ 1 ∷ 1 ∷ 0 ∷ 0 ∷ 0 ∷ 0 ∷ 0 ∷ 0 ∷ 0 ∷ 0 ∷ 0 ∷ 0 ∷ 0 ∷ 0 ∷ 0 ∷ 0 ∷ 0 ∷ 0 ∷ 0 ∷ 0 ∷ 0 ∷ 0
      ∷ 0 ∷ 0 ∷ 0 ∷ 0 ∷ 0 ∷ 0 ∷ 0 ∷ 0 ∷ 0 ∷ 0 ∷ 0 ∷ 0 ∷ 92 ∷ 0 ∷ 0 ∷ 0 ∷ 92 ∷ 0 ∷ 0 ∷ 0 ∷ 92 ∷ 0 ∷ 0
      ∷ 0 ∷ 128 ∷ 0 ∷ 0 ∷ 0 ∷ 0 ∷ 0 ∷ 0 ∷ 0 ∷ 0 ∷ 0 ∷ 0 ∷ 0 ∷ 0 ∷ 0 ∷ 0 ∷ 0 ∷ 0 ∷ 0 ∷ 0 ∷ 0 ∷ 255
      ∷ 255 ∷ 255 ∷ 255 ∷ 0 ∷ 0 ∷ 0 ∷ 0 ∷ 0 ∷ 0 ∷ 0 ∷ 0 ∷ 0 ∷ 0 ∷ 0 ∷ 0 ∷ 0 ∷ 0 ∷ 0 ∷ 0 ∷ 0 ∷ 0 ∷ 0
      ∷ 0 ∷ 36 ∷ 0 ∷ 0 ∷ 0 ∷ 0 ∷ 0 ∷ 1 ∷ 0 ∷ 0 ∷ 0 ∷ 0 ∷ 0 ∷ 9 ∷ 0 ∷ 0 ∷ 0 ∷ 0 ∷ 0 ∷ 0 ∷ 0 ∷ 128 ∷ 0
      ∷ 0 ∷ 129 ∷ 132 ∷ 0 ∷ 0 ∷ 129 ∷ 0 ∷ 0 ∷ 0 ∷ 0 ∷ 0 ∷ 0 ∷ 0 ∷ 0 ∷ 52 ∷ 18 ∷ 0 ∷ 0 ∷ 81 ∷ 0 ∷ 0
      ∷ 129 ∷ [];
  seg_file = 0;
  seg_len = 0x88;
  seg_vaddr = 0x8100_0000;
  data_segs = [];
}

abbrev result : Module
result = record {
  info = record {
    attributes = 0;
    version = 0x101;
    name = [];
    type_byte = 0;
    gp_value = 0;
    export_top = 0x5c;
    export_end = 0x5c;
    import_top = 0x5c;
    import_end = 0x80;
    module_nid = 0;
    tls_start = 0;
    tls_filesz = 0;
    tls_memsz = 0;
    module_start = 0xffff_ffff;
    module_stop = 0;
    exidx_top = 0;
    exidx_end = 0;
    extab_top = 0;
    extab_end = 0;
  };
  list = record {
    imports =
        record {
          library_nid = 9;
          name = [];
          num_funcs = 1;
          num_vars = 0;
          func_nid_table = 0x8100_0080;
          func_entry_table = 0x8100_0084;
        }
        ∷ [];
    truncated = false;
    total = 1;
  };
  stubs = record { addr = 0x8100_0050; lib_nid = 9; func_nid = 0x1234 } ∷ [];
}

image_parses : vm_parse (λ ss. ss) image 0 ≡ parsed result
unfolding vm_parse info_at name_bytes walk_imports imports_loop entry_at import_at read_name_va
    stubs_loop add_stubs stub_rows_loop vm_ptr vm_va
image_parses = refl

vm_parse-stubs_example :
    (length result.list.imports ≤ max_imports)
    × (result.stubs ≡ all_stubs image result.list.imports)
vm_parse-stubs_example = vm_parse-stubs (λ ss. ss) image 0 result refl (omega arith) image_parses
