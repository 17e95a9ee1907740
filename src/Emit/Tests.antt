-- ===== src/Emit/Tests.antt =====
-- A table of two functions and an import, and the body of a function.
use vitarecomp.Base.{ℕ, ◌≡◌, ◌≤◌, refl, true, none, List, [], ◌∷◌, length, All, arith}
use vitarecomp.Decode.Entry.{t32}
use vitarecomp.Imports.{Image, Stub}
use vitarecomp.Runtime.Dispatch.{init, key_of, dispatch}
use vitarecomp.Analyze.Walk.{Func}
use vitarecomp.Analyze.Walk.Rule.{Returns}
use vitarecomp.Analyze.Walk.Loops.{Fits}
use vitarecomp.Emit.Funcs.{fs_has, member, fs_has-member}
use vitarecomp.Emit.Table.{Symbol, vita_func, vita_hle, vita_hle_nid, rows, linked}
use vitarecomp.Emit.Table.Laws.{transfer, meaning, dispatch-rows}
use vitarecomp.Emit.Body.{visit_slots, collect}
use vitarecomp.Emit.Body.Flow.{IsBody}
use vitarecomp.Emit.Body.Labels.{addrs, collect-labels}

abbrev two : List ℕ
two = 0x8100_0000 ∷ 0x8100_0010 ∷ []

fs_has-member_example : fs_has two 0x8100_0010 ≡ true
unfolding member
fs_has-member_example = fs_has-member two 0x8100_0010 (omega arith)

abbrev shadow : List Stub
shadow = record { addr = 0x8100_0010; lib_nid = 1; func_nid = 2 } ∷ []

-- The functions that the symbols stand for.
abbrev link : Symbol → ℕ
link (vita_func addr) = addr
link (vita_hle name) = 1
link (vita_hle_nid nid) = 2

dispatch-rows_example :
    (dispatch 0x8100_0004 0x8100_0011 (init (linked link (rows none two shadow)))).0
    ≡ transfer link 0x8100_0004 0x8100_0011 (meaning none two shadow (key_of 0x8100_0011))
dispatch-rows_example =
    dispatch-rows link none two shadow 0x8100_0004 0x8100_0011 (omega arith) (omega arith)

-- B to itself.
abbrev image : Image
image = record {
  contents = 0xfe ∷ 0xe7 ∷ [];
  seg_file = 0;
  seg_len = 2;
  seg_vaddr = 0x8100_0000;
  data_segs = [];
}

abbrev spin : Func
spin = record {
  addr = 0x8100_0000;
  mode = t32;
  stop = 0x8100_0002;
  insns = 1;
  from_heuristic = true;
}

image-Fits : Fits image
image-Fits = record { below = omega arith; whole = refl }

collect-labels_example :
    Returns
      (λ b.
        (length b.v ≤ visit_slots)
        × IsBody image spin b.v
        × All (λ l. member (addrs b.v) l ≡ true) b.labels)
      (collect (λ v. v) image spin)
collect-labels_example = collect-labels (λ v. v) image spin (λ v. refl) (λ P v h. h) image-Fits
