-- ===== src/Analyze/Walk.antt =====
-- walk of tools/armrecomp/analyze.c: one function followed from its start.
pub mod Rule
pub mod Loops
pub mod Reached
use vitarecomp.Base.{
  ℕ, zero, suc, ◌+◌, ◌-◌, ◌/◌, ◌%◌, ◌^◌, Bool, true, false, ◌&&◌, not, Option, none, some, List, [],
  ◌∷◌, ◌++◌, take, drop, ltb, if◌then◌else◌,
}
use vitarecomp.Runtime.Search.{found, missing, unfinished}
use vitarecomp.Decode.Insn.{
  Class, unknown_class, undef, alu, load, store, loadm, storem, branch, call, return_class,
  indirect, simd, sys, nop_class, Insn,
}
use vitarecomp.Decode.Entry.{Mode, a32, t32, Decoded, nothing, decoded, wild, arm_decode}
use vitarecomp.Imports.{Image, Stub, vm_find_stub}
use vitarecomp.Analyze.Bitmap.{seen_get, seen_set}

-- seed.
pub record Seed : Type 0 where
  pub addr : ℕ
  pub mode : Mode
  pub heur : Bool

-- vf_func; `stop` is its `end`.
pub record Func : Type 0 where
  pub addr : ℕ
  pub mode : Mode
  pub stop : ℕ
  pub insns : ℕ
  pub from_heuristic : Bool

-- vf_result, without the capacities.
pub record Found : Type 0 where
  pub funcs : List Func
  pub seen : List ℕ
  pub insns_total : ℕ
  pub bytes_covered : ℕ
  pub seeds_entry : ℕ
  pub seeds_export : ℕ
  pub seeds_call : ℕ
  pub seeds_shape : ℕ
  pub seeds_shape_data : ℕ
  pub rejected_shape : ℕ
  pub seeds_arm_refused : ℕ
  pub simd_insns : ℕ
  pub indirect_sites : ℕ

abbrev pub inc : ℕ → ℕ
inc n = (n + 1) % 2 ^ 32

-- The executable segment, `text` with its length.
abbrev pub text : Image → List ℕ
text img = take img.seg_len (drop img.seg_file img.contents)

abbrev pub in_segment : Image → ℕ → Bool
in_segment img a = not (ltb a img.seg_vaddr) && ltb a ((img.seg_vaddr + img.seg_len) % 2 ^ 32)

unfoldable pub arm_seed_ok : List Stub → ℕ → Bool
arm_seed_ok stubs target = elim (vm_find_stub stubs target) [
  | found i ↦ true
  | missing ↦ false
  | unfinished ↦ false
]

-- What walk changes: the result, the queue of functions, the stack of blocks (its top first) and the
-- function.
pub record Walk : Type 0 where
  pub r : Found
  pub queue : List Seed
  pub blocks : List Seed
  pub fn : Func

-- The mode of a callee.
abbrev pub callee_mode : Mode → Bool → Mode
callee_mode m false = m
callee_mode t32 true = a32
callee_mode a32 true = t32

-- The call would switch from Thumb into ARM.
abbrev pub into_arm : Mode → Bool → Bool
into_arm t32 true = true
into_arm _ _ = false

-- A switching call is followed into ARM just when it goes to an import stub.
abbrev pub refused : List Stub → Mode → Insn → (target : ℕ) → Bool
refused stubs m o target = into_arm m o.switches_mode && not (arm_seed_ok stubs target)

-- The counts of a decoded instruction.
unfoldable pub note_insn : (a off n : ℕ) → Insn → Walk → Walk
note_insn a off n o w =
    let next = (a + n) % 2 ^ 32 in
    let r1 : Found = record w.r {
      seen = seen_set w.r.seen off;
      insns_total = inc w.r.insns_total;
      bytes_covered = (w.r.bytes_covered + n) % 2 ^ 32;
      simd_insns = elim o.cls [ simd ↦ inc w.r.simd_insns | _ ↦ w.r.simd_insns ];
    } in
    record w {
      r = r1;
      fn = record w.fn {
        insns = inc w.fn.insns;
        stop = if ltb w.fn.stop next then next else w.fn.stop;
      };
    }

unfoldable pub seed_call : List Stub → Mode → Insn → Walk → Walk
seed_call stubs m o w = elim o.target [
  | some t ↦
      if refused stubs m o t
      then record w { r = record w.r { seeds_arm_refused = inc w.r.seeds_arm_refused } }
      else record w {
        r = record w.r { seeds_call = inc w.r.seeds_call };
        queue =
            w.queue ++ record { addr = t; mode = callee_mode m o.switches_mode; heur = false } ∷ [];
      }
  | none ↦ record w { r = record w.r { indirect_sites = inc w.r.indirect_sites } }
]

unfoldable pub seed_block : Mode → Insn → Walk → Walk
seed_block m o w = elim o.target [
  | some t ↦ record w { blocks = record { addr = t; mode = m; heur = false } ∷ w.blocks }
  | none ↦ w
]

-- The flow goes on behind the instruction.
abbrev pub has_some {ℓ} : {A : Type ℓ} → Option A → Bool
has_some none = false
has_some (some x) = true

unfoldable pub flows_on : Insn → Bool
flows_on o = elim o.cls [
  | return_class ↦ false
  | indirect ↦ false
  | branch ↦ if has_some o.target then o.conditional else true
  | _ ↦ true
]

-- What an instruction of each class adds.
unfoldable pub take_class : Class → List Stub → Mode → Insn → Walk → Walk
take_class call stubs m o w = seed_call stubs m o w
take_class indirect stubs m o w = record w {
  r = record w.r { indirect_sites = inc w.r.indirect_sites };
}
take_class branch stubs m o w = seed_block m o w
take_class _ stubs m o w = w

abbrev pub take_insn : List Stub → Mode → Insn → Walk → Walk
take_insn stubs m o w = take_class o.cls stubs m o w

-- The inner loop; `none` is the lack of fuel, or a read outside of the code.
unfoldable pub flow : ℕ → Image → List Stub → Mode → ℕ → Walk → Option Walk
flow zero img stubs m a w = none
flow (suc fuel) img stubs m a w =
    if not (in_segment img a)
    then some w
    else if seen_get w.r.seen (a - img.seg_vaddr)
    then some w
    else elim (arm_decode (text img) img.seg_vaddr a m) [
      | nothing ↦ some w
      | wild ↦ none
      | decoded n o ↦
          let w' = take_insn stubs m o (note_insn a (a - img.seg_vaddr) n o w) in
          let rest = flow fuel img stubs m ((a + n) % 2 ^ 32) w' in
          if flows_on o then rest else some w'
    ]

-- The outer loop, with its fuel and that of the inner.
unfoldable pub blocks_loop : (fuel inner : ℕ) → Image → List Stub → Walk → Option Walk
blocks_loop zero inner img stubs w = none
blocks_loop (suc fuel) inner img stubs w = elim w.blocks [
  | [] ↦ some w
  | s ∷ rest ↦ elim (flow inner img stubs s.mode s.addr (record w { blocks = rest })) [
    | none ↦ none
    | some w' ↦ blocks_loop fuel inner img stubs w'
  ]
]

-- The bytes of the map that vf_discover makes.
abbrev pub seen_bytes : Image → ℕ
seen_bytes img = (img.seg_len / 2 + 7) / 8 + 1

-- The halfwords of the segment, which bound the instructions.
abbrev pub halfwords : Image → ℕ
halfwords img = (img.seg_len + 1) / 2

unfoldable pub walk :
    Image → List Stub → Found → List Seed → (start : ℕ) → Mode → Func → Option Walk
walk img stubs r queue start mode fn =
    blocks_loop (halfwords img + 2) (halfwords img + 1) img stubs (record {
      r = r;
      queue = queue;
      blocks = record { addr = start; mode = mode; heur = false } ∷ [];
      fn = fn;
    })
