-- ===== src/Analyze/Tests.antt =====
-- A segment with a call of the function behind it.
use vitarecomp.Base.{[], ◌∷◌}
use vitarecomp.Imports.{Image}
use vitarecomp.Analyze.Discover.Complete.{Complete}

-- BL to the next instruction, BX LR and a NOP.
abbrev image : Image
image = record {
  contents = 0x00 ∷ 0xf0 ∷ 0x00 ∷ 0xf8 ∷ 0x70 ∷ 0x47 ∷ 0x00 ∷ 0xbf ∷ [];
  seg_file = 0;
  seg_len = 8;
  seg_vaddr = 0x8100_0000;
  data_segs = [];
}
