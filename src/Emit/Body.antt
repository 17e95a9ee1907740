-- ===== src/Emit/Body.antt =====
-- collect of tools/armrecomp/emit.c: the instructions and the labels of a function.
pub mod Flow
pub mod Labels
use vitarecomp.Base.{
  ℕ, zero, suc, ◌+◌, ◌-◌, ◌%◌, ◌^◌, Bool, true, false, not, ◌&&◌, ◌||◌, Option, none, some, List,
  [], ◌∷◌, ◌++◌, length, map, replicate, ltb, leb, ◌==◌, if◌then◌else◌,
}
use vitarecomp.Runtime.Probe.{Probe, present, placed, full, probe}
use vitarecomp.Decode.Insn.{
  Class, unknown_class, undef, alu, load, store, loadm, storem, branch, call, return_class,
  indirect, simd, sys, nop_class, Insn,
}
use vitarecomp.Decode.Entry.{Mode, Decoded, nothing, decoded, wild, arm_decode}
use vitarecomp.Decode.Valid.{is_branch}
use vitarecomp.Imports.{Image}
use vitarecomp.Analyze.Walk.{Func, text, in_segment}
use vitarecomp.Emit.Funcs.{fs_has, member}

abbrev pub visit_slots : ℕ
visit_slots = 8192

abbrev pub max_insns : ℕ
max_insns = 65536

-- fbody, without the capacities.
pub record Body : Type 0 where
  pub v : List Insn
  pub labels : List ℕ

-- What collect changes: the body, the table of visited addresses and the stack of blocks, its top first.
pub record Collect : Type 0 where
  pub body : Body
  pub seen : List ℕ
  pub stack : List ℕ

-- visit_mark: a full table stops the flow.
unfoldable pub visit_mark : List ℕ → (addr : ℕ) → Option (List ℕ)
visit_mark seen addr = elim (probe visit_slots addr seen) [
  | present ↦ none
  | placed seen' ↦ some seen'
  | full ↦ none
]

unfoldable pub fb_push : Body → Insn → Body
fb_push b o = record b { v = b.v ++ o ∷ [] }

-- fb_has_label.
abbrev pub fb_has_label : Body → ℕ → Bool
fb_has_label b addr = member b.labels addr

unfoldable pub fb_label : Body → ℕ → Body
fb_label b addr = if fb_has_label b addr then b else record b { labels = b.labels ++ addr ∷ [] }

-- The bound of a function: its end, or 8192 bytes where that is too near.
abbrev pub bound_of : Func → ℕ
bound_of fn = if ltb ((fn.addr + 16) % 2 ^ 32) fn.stop then fn.stop else (fn.addr + 8192) % 2 ^ 32

abbrev pub is_return : Class → Bool
is_return return_class = true
is_return _ = false

-- The target of a branch within the function.
abbrev pub local_target : Func → Insn → Option ℕ
local_target fn o = elim o.target [
  | none ↦ none
  | some t ↦ if is_branch o.cls && (leb fn.addr t && ltb t (bound_of fn)) then some t else none
]

-- A block to follow; the stack has 512 places.
abbrev pub push_block : ℕ → List ℕ → List ℕ
push_block t stack = if ltb (length stack) 512 then t ∷ stack else stack

-- An instruction in the body, and whether the flow goes on behind it.
unfoldable pub collect_insn : Func → Insn → List ℕ → Collect → Bool × Collect
collect_insn fn o seen c =
    let body = fb_push c.body o in
    let c1 : Collect = record { body = body; seen = seen; stack = c.stack } in
    if is_return o.cls then (false, c1) else elim (local_target fn o) [
      | some t ↦ (
        o.conditional,
        record { body = fb_label body t; seen = seen; stack = push_block t c.stack },
      )
      | none ↦ (not (is_branch o.cls) || o.conditional, c1)
    ]

-- The inner loop; `none` is the lack of fuel, or a read outside of the code.
unfoldable pub follow : ℕ → Image → Func → ℕ → Collect → Option Collect
follow zero img fn a c = none
follow (suc fuel) img fn a c =
    if not (in_segment img a)
    then some c
    else if leb (bound_of fn) a
    then some c
    else elim (visit_mark c.seen a) [
      | none ↦ some c
      | some seen ↦ elim (arm_decode (text img) img.seg_vaddr a fn.mode) [
        | nothing ↦ some (record c { seen = seen })
        | wild ↦ none
        | decoded n o ↦
            let (on, c') = collect_insn fn o seen c in
            let rest = follow fuel img fn ((a + n) % 2 ^ 32) c' in if on then rest else some c'
      ]
    ]

-- The outer loop.
unfoldable pub collect_loop : (fuel : ℕ) → Image → Func → Collect → Option Collect
collect_loop zero img fn c = none
collect_loop (suc fuel) img fn c =
    if leb max_insns (length c.body.v) then some c else elim c.stack [
      | [] ↦ some c
      | a ∷ rest ↦ elim (follow (visit_slots + 1) img fn a (record c { stack = rest })) [
        | none ↦ none
        | some c' ↦ collect_loop fuel img fn c'
      ]
    ]

-- The labels of the sorted body that have an instruction; the search is the one of fs_has.
unfoldable pub prune : List Insn → List ℕ → List ℕ
prune v [] = []
prune v (l ∷ ls) =
    let rest = prune v ls in if fs_has (map (λ (o : Insn). o.addr) v) l then l ∷ rest else rest

-- collect, with the C library's sort by address.
module _ (qsort : List Insn → List Insn) where
  unfoldable pub collect : Image → Func → Option Body
  collect img fn =
      elim (collect_loop (visit_slots + 2) img fn (record {
        body = record { v = []; labels = [] };
        seen = replicate visit_slots 0;
        stack = fn.addr ∷ [];
      })) [
        | none ↦ none
        | some c ↦ let v = qsort c.body.v in some (record { v = v; labels = prune v c.body.labels })
      ]
