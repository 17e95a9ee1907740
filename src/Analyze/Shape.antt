-- ===== src/Analyze/Shape.antt =====
-- tools/armrecomp/analyze.c: words that look like pointers to Thumb code.
use vitarecomp.Base.{
  ℕ, zero, suc, ◌+◌, ◌-◌, ◌/◌, ◌%◌, ◌^◌, Bool, true, false, not, ◌&&◌, ◌||◌, Option, none, some,
  List, [], ◌∷◌, ◌++◌, ltb, leb, ◌==◌, if◌then◌else◌,
}
use vitarecomp.Runtime.Dispatch.{key_of}
use vitarecomp.Decode.Insn.{Class, unknown_class, undef, masked}
use vitarecomp.Decode.Entry.{t32, nothing, decoded, wild, rd16le, arm_decode}
use vitarecomp.Imports.{Image, Seg, size, r32}
use vitarecomp.Analyze.Bitmap.{seen_get}
use vitarecomp.Analyze.Walk.{Seed, Found, inc, text, in_segment}

-- code_ptr_shape of the word at `p` of the file.
unfoldable pub code_ptr_shape : Image → (p : ℕ) → Option ℕ
code_ptr_shape img p =
    let w = r32 img p in
    let t = key_of w in
    if w % 2 == 0
    then none
    else if not (in_segment img t)
    then none
    else if (t - img.seg_vaddr) % 2 == 1
    then none
    else some t

abbrev pub is_some {ℓ} : {A : Type ℓ} → Option A → Bool
is_some none = false
is_some (some x) = true

-- shape_run_len of the region of `len` bytes from `scan` on. Each round takes four bytes.
unfoldable pub shape_run_len : (fuel : ℕ) → Image → (scan len off : ℕ) → ℕ
shape_run_len zero img scan len off = 0
shape_run_len (suc fuel) img scan len off =
    let rest = shape_run_len fuel img scan len (off + 4) in
    if ltb len (off + 4)
    then 0
    else if is_some (code_ptr_shape img (scan + off))
    then suc rest
    else 0

abbrev pub shape_run_min : ℕ
shape_run_min = 4

-- The first halfword of a function that saves registers or makes room on the stack.
abbrev pub is_prologue : ℕ → Bool
is_prologue h = masked h 0xfe00 0xb400 || ((h == 0xe92d) || masked h 0xff80 0xb080)

-- What shape_scan_region changes.
pub record Sweep : Type 0 where
  pub r : Found
  pub queue : List Seed
  pub run_left : ℕ
  pub count : ℕ

unfoldable pub reject : Sweep → Sweep
reject s = record s { r = record s.r { rejected_shape = inc s.r.rejected_shape } }

abbrev pub is_vague : Class → Bool
is_vague unknown_class = true
is_vague undef = true
is_vague _ = false

-- A candidate `t`, in a table of pointers or not.
unfoldable pub candidate : Image → (in_table : Bool) → (t : ℕ) → Sweep → Sweep
candidate img in_table t s =
    if seen_get s.r.seen (t - img.seg_vaddr)
    then s
    else elim (arm_decode (text img) img.seg_vaddr t t32) [
      | nothing ↦ reject s
      | wild ↦ s
      | decoded n o ↦
          if is_vague o.cls
          then reject s
          else if not (is_prologue (rd16le (text img) (t - img.seg_vaddr))) && not in_table
          then reject s
          else record s {
            r = record s.r { seeds_shape = inc s.r.seeds_shape };
            queue = s.queue ++ record { addr = t; mode = t32; heur = true } ∷ [];
            count = inc s.count;
          }
    ]

-- A round at the word `off`: the run is measured outside of a table only.
unfoldable pub sweep_word : Image → (scan len off : ℕ) → Sweep → Sweep
sweep_word img scan len off s =
    let n = shape_run_len (len / 4 + 1) img scan len off in
    let run = if s.run_left == 0 then if leb shape_run_min n then n else 0 else s.run_left in
    elim (code_ptr_shape img (scan + off)) [
      | none ↦ record s { run_left = run - 1 }
      | some t ↦ candidate img (ltb 0 run) t (record s { run_left = run - 1 })
    ]

unfoldable pub sweep_loop : (fuel : ℕ) → Image → (scan len off : ℕ) → Sweep → Sweep
sweep_loop zero img scan len off s = s
sweep_loop (suc fuel) img scan len off s =
    let rest = sweep_loop fuel img scan len (off + 4) (sweep_word img scan len off s) in
    if ltb len (off + 4) then s else rest

unfoldable pub shape_scan_region : Image → (scan len : ℕ) → Found → List Seed → Sweep
shape_scan_region img scan len r queue =
    sweep_loop (len / 4 + 1) img scan len 0
      (record { r = r; queue = queue; run_left = 0; count = 0 })

-- The data segments of shape_scan.
unfoldable pub scan_segs : Image → List Seg → Found → List Seed → Found × List Seed
scan_segs img [] r queue = (r, queue)
scan_segs img (g ∷ gs) r queue =
    let s = shape_scan_region img g.file g.len r queue in
    let r' : Found = record s.r { seeds_shape_data = (s.r.seeds_shape_data + s.count) % 2 ^ 32 } in
    elim (ltb (size img) (g.file + g.len)) [
      | true ↦ scan_segs img gs r queue
      | false ↦ scan_segs img gs r' s.queue
    ]

unfoldable pub shape_scan : Image → Found → List Seed → Found × List Seed
shape_scan img r queue =
    let s = shape_scan_region img img.seg_file img.seg_len r queue in
    scan_segs img img.data_segs s.r s.queue
