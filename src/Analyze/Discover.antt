-- ===== src/Analyze/Discover.antt =====
-- vf_discover of tools/armrecomp/analyze.c.
pub mod Calls
pub mod Entries
pub mod Seeds
pub mod Sources
pub mod Complete
use vitarecomp.Base.{
  ℕ, zero, suc, ◌+◌, ◌-◌, ◌*◌, ◌/◌, ◌%◌, ◌^◌, Bool, true, false, not, ◌&&◌, ◌||◌, Option, none,
  some, List, [], ◌∷◌, ◌++◌, length, get_elem?, replicate, ltb, leb, ◌==◌, if◌then◌else◌,
}
use vitarecomp.Runtime.Dispatch.{key_of}
use vitarecomp.Decode.Insn.{
  Class, unknown_class, undef, alu, load, store, loadm, storem, branch, call, return_class,
  indirect, simd, sys, nop_class, Insn,
}
use vitarecomp.Decode.Entry.{Mode, a32, t32, Decoded, nothing, decoded, wild, arm_decode}
use vitarecomp.Imports.{Image, Stub, r16, r32, vm_ptr, vm_va}
use vitarecomp.Imports.Parse.{ModuleInfo}
use vitarecomp.Analyze.Bitmap.{seen_get, seen_set}
use vitarecomp.Analyze.Walk.{
  Seed, Func, Found, inc, text, in_segment, arm_seed_ok, halfwords, seen_bytes, Walk, walk,
}
use vitarecomp.Analyze.Shape.{shape_scan}

abbrev pub no_result : Image → Found
no_result img = record {
  funcs = [];
  seen = replicate (seen_bytes img) 0;
  insns_total = 0;
  bytes_covered = 0;
  seeds_entry = 0;
  seeds_export = 0;
  seeds_call = 0;
  seeds_shape = 0;
  seeds_shape_data = 0;
  rejected_shape = 0;
  seeds_arm_refused = 0;
  simd_insns = 0;
  indirect_sites = 0;
}

-- 1. module_start.
unfoldable pub seed_entry : Image → ModuleInfo → Found → List Seed → Found × List Seed
seed_entry img m r queue = if m.module_start == 0xffff_ffff then (r, queue) else (
  record r { seeds_entry = inc r.seeds_entry },
  queue
      ++ record {
        addr = (img.seg_vaddr + m.module_start % 2 ^ 30) % 2 ^ 32;
        mode = t32;
        heur = false;
      }
        ∷ [],
)

-- 2. A table of `left` function pointers.
unfoldable pub export_table : (left : ℕ) → Image → (t : ℕ) → Found → List Seed → Found × List Seed
export_table zero img t r queue = (r, queue)
export_table (suc left) img t r queue =
    let v = r32 img t in
    if in_segment img v
    then export_table left img (t + 4) (record r { seeds_export = inc r.seeds_export })
        (queue
          ++ record { addr = key_of v; mode = if v % 2 == 1 then t32 else a32; heur = false } ∷ [])
    else export_table left img (t + 4) r queue

-- The entries of the export table; each is 0x20 bytes at least, and vm_ptr ends the loop behind the segment.
unfoldable pub seed_exports :
    (fuel : ℕ) → Image → (export_end p : ℕ) → Found → List Seed → Found × List Seed
seed_exports zero img export_end p r queue = (r, queue)
seed_exports (suc fuel) img export_end p r queue =
    if ltb export_end ((p + 0x20) % 2 ^ 32) then (r, queue) else elim (vm_ptr img p 0x20) [
      | none ↦ (r, queue)
      | some e ↦
          let len = r16 img e in
          let nfunc = r16 img (e + 6) in
          if ltb len 0x20 then (r, queue) else elim (vm_va img (r32 img (e + 0x1c)) (nfunc * 4)) [
            | none ↦ seed_exports fuel img export_end ((p + len) % 2 ^ 32) r queue
            | some t ↦
                let (r', queue') = export_table nfunc img t r queue in
                seed_exports fuel img export_end ((p + len) % 2 ^ 32) r' queue'
          ]
    ]

-- 3. A call at an address of the linear sweep.
abbrev pub is_call : Class → Bool
is_call call = true
is_call _ = false

unfoldable pub harvest_insn : Image → List Stub → Insn → Found → List Seed → Found × List Seed
harvest_insn img stubs o r queue = if not (is_call o.cls) then (r, queue) else elim o.target [
  | none ↦ (r, queue)
  | some t ↦
      if not (in_segment img t)
      then (r, queue)
      else if o.switches_mode && not (arm_seed_ok stubs t)
      then (record r { seeds_arm_refused = inc r.seeds_arm_refused }, queue)
      else (
        r,
        queue
            ++ record { addr = t; mode = if o.switches_mode then a32 else t32; heur = false } ∷ [],
      )
]

unfoldable pub harvest :
    (fuel : ℕ) → Image → List Stub → (off : ℕ) → Found → List Seed → Found × List Seed
harvest zero img stubs off r queue = (r, queue)
harvest (suc fuel) img stubs off r queue =
    if ltb img.seg_len (off + 4)
    then (r, queue)
    else elim (arm_decode (text img) img.seg_vaddr (img.seg_vaddr + off) t32) [
      | nothing ↦ harvest fuel img stubs (off + 2) r queue
      | wild ↦ (r, queue)
      | decoded n o ↦
          let (r', queue') = harvest_insn img stubs o r queue in
          harvest fuel img stubs (off + 2) r' queue'
    ]

-- The result, the queue and fseen, the map of function entries.
pub record Discovery : Type 0 where
  pub r : Found
  pub queue : List Seed
  pub fseen : List ℕ

-- A seed: a function where its entry is new and in the segment.
unfoldable pub enter : Image → List Stub → Seed → Discovery → Option Discovery
enter img stubs s d =
    if not (in_segment img s.addr)
    then some d
    else if seen_get d.fseen (s.addr - img.seg_vaddr)
    then some d
    else elim (walk img stubs d.r d.queue s.addr s.mode
        (record { addr = s.addr; mode = s.mode; stop = 0; insns = 0; from_heuristic = s.heur })) [
          | none ↦ none
          | some w ↦ some (record {
            r = record w.r { funcs = w.r.funcs ++ w.fn ∷ [] };
            queue = w.queue;
            fseen = seen_set d.fseen (s.addr - img.seg_vaddr);
          })
        ]

-- The loop over the queue from `head` on; `none` is the lack of fuel, or a read outside of the code.
unfoldable pub drain : (fuel : ℕ) → Image → List Stub → (head : ℕ) → Discovery → Option Discovery
drain zero img stubs head d = none
drain (suc fuel) img stubs head d = elim (get_elem? d.queue head) [
  | none ↦ some d
  | some s ↦ elim (enter img stubs s d) [
    | none ↦ none
    | some d' ↦ drain fuel img stubs (suc head) d'
  ]
]

-- The seeds of the queue and those that the instructions add are enough.
abbrev pub drain_fuel : Image → List Seed → ℕ
drain_fuel img queue = length queue + halfwords img + 1

-- The seeds of the first three sources.
unfoldable pub first_seeds : Image → Option ModuleInfo → List Stub → Found × List Seed
first_seeds img info stubs =
    let (r0, q0) : Found × List Seed = elim info [
      | none ↦ (no_result img, [])
      | some m ↦
          let (r1, q1) = seed_entry img m (no_result img) [] in
          seed_exports (img.seg_len / 0x20 + 2) img m.export_end m.export_top r1 q1
    ] in
    harvest (img.seg_len / 2 + 1) img stubs 0 r0 q0

-- vf_discover; `info` is there where have_info is set.
unfoldable pub vf_discover : Image → Option ModuleInfo → List Stub → Option Discovery
vf_discover img info stubs =
    let seeds = first_seeds img info stubs in
    elim (drain (drain_fuel img seeds.1) img stubs 0
      (record { r = seeds.0; queue = seeds.1; fseen = replicate (seen_bytes img) 0 })) [
        | none ↦ none
        | some d ↦
            let swept = shape_scan img d.r d.queue in
            drain (drain_fuel img swept.1) img stubs (length d.queue)
              (record d { r = swept.0; queue = swept.1 })
      ]
