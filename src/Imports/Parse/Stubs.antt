-- ===== src/Imports/Parse/Stubs.antt =====
-- The stub table of a parsed module has a row for every function of every import.
use vitarecomp.Base.{
  ℕ, zero, suc, ◌+◌, ◌*◌, ◌%◌, ◌^◌, ◌≤◌, ◌<◌, ◌≡◌, refl, sym, ap, ◌∙◌, false, none, some, List, [],
  ◌∷◌, ◌++◌, length, get_or, All, length-append, leb, ltb, ◌==◌, ==_iff, if◌then◌else◌, arith,
  Bool-cases, Option-cases, option_holds, if_holds, not, ◌||◌, ◌/◌, subst, inl, inr,
}
use mathlib.Core.List.{append_assoc, append-nil}
use vitarecomp.Imports.{Image, Stub, vm_ptr, vm_va}
use vitarecomp.Imports.Parse.{
  Import, ImportList, Module, Parsed, parsed, refused, import_at, entry_at, imports_loop,
  walk_imports, info_at, stub_of, stub_rows_loop, add_stubs, stubs_loop, vm_parse, max_imports,
}

-- The rows `k`, `k + 1`, ... of two tables.
unfoldable pub stub_rows : (left : ℕ) → Image → Import → (nt et k : ℕ) → List Stub
stub_rows zero img im nt et k = []
stub_rows (suc left) img im nt et k = stub_of img im nt et k ∷ stub_rows left img im nt et (suc k)

-- The stubs of an import: none where one of its tables is not in the segment.
unfoldable pub stubs_of : Image → Import → List Stub
stubs_of img im = elim (vm_va img im.func_nid_table (im.num_funcs * 4)) [
  | none ↦ []
  | some nt ↦ elim (vm_va img im.func_entry_table (im.num_funcs * 4)) [
    | none ↦ []
    | some et ↦ stub_rows im.num_funcs img im nt et 0
  ]
]

unfoldable pub all_stubs : Image → List Import → List Stub
all_stubs img [] = []
all_stubs img (im ∷ ims) = stubs_of img im ++ all_stubs img ims

abbrev pub total_of : List Import → ℕ
total_of [] = 0
total_of (im ∷ ims) = im.num_funcs + total_of ims

stub_rows_loop_lem :
    (left total : ℕ) (img : Image) (im : Import) (nt et k : ℕ) (stubs : List Stub)
    → length stubs + left ≤ total
    → stub_rows_loop left total img im nt et k stubs ≡ stubs ++ stub_rows left img im nt et k
unfolding stub_rows_loop stub_rows
stub_rows_loop_lem zero total img im nt et k stubs h = sym (append-nil stubs)
stub_rows_loop_lem (suc left) total img im nt et k stubs h =
    let room : leb total (length stubs) ≡ false = ground arith in
    let s = stub_of img im nt et k in
    rw room (
      stub_rows_loop_lem left total img im nt et (suc k) (stubs ++ s ∷ [])
        (omega (arith, length-append {0} stubs (s ∷ [])))
      ∙ append_assoc stubs (s ∷ []) (stub_rows left img im nt et (suc k)))

length-stub_rows :
    (left : ℕ) (img : Image) (im : Import) (nt et k : ℕ)
    → length (stub_rows left img im nt et k) ≡ left
unfolding stub_rows
length-stub_rows zero img im nt et k = refl
length-stub_rows (suc left) img im nt et k = ap suc (length-stub_rows left img im nt et (suc k))

length-stubs_of : (img : Image) (im : Import) → length (stubs_of img im) ≤ im.num_funcs
unfolding stubs_of
length-stubs_of img im =
    option_holds (λ (l : List Stub). length l ≤ im.num_funcs)
      (vm_va img im.func_nid_table (im.num_funcs * 4)) _ _ (omega arith)
      (λ nt.
        option_holds (λ (l : List Stub). length l ≤ im.num_funcs)
          (vm_va img im.func_entry_table (im.num_funcs * 4)) _ _ (omega arith)
          (λ et. omega (arith, length-stub_rows im.num_funcs img im nt et 0)))

add_stubs_lem :
    (total : ℕ) (img : Image) (im : Import) (stubs : List Stub)
    → length stubs + im.num_funcs ≤ total
    → add_stubs total img im stubs ≡ stubs ++ stubs_of img im
unfolding add_stubs stubs_of
add_stubs_lem total img im stubs h =
    elim (Option-cases (vm_va img im.func_nid_table (im.num_funcs * 4))) [
      | inl e ↦ rw (e, add_stubs, stubs_of) (sym (append-nil stubs))
      | inr (nt, e) ↦ elim (Option-cases (vm_va img im.func_entry_table (im.num_funcs * 4))) [
        | inl f ↦ rw (e, f, add_stubs, stubs_of) (sym (append-nil stubs))
        | inr (et, f) ↦
            rw (e, f, add_stubs, stubs_of)
              (stub_rows_loop_lem im.num_funcs total img im nt et 0 stubs h)
      ]
    ]

stubs_loop_lem :
    (total : ℕ) (img : Image) (ims : List Import) (stubs : List Stub)
    → length stubs + total_of ims ≤ total
    → stubs_loop total img ims stubs ≡ stubs ++ all_stubs img ims
unfolding stubs_loop all_stubs
stubs_loop_lem total img [] stubs h = sym (append-nil stubs)
stubs_loop_lem total img (im ∷ ims) stubs h =
    ap (stubs_loop total img ims) (add_stubs_lem total img im stubs (omega arith))
    ∙ (stubs_loop_lem total img ims (stubs ++ stubs_of img im)
          (omega (arith, length-append {0} stubs (stubs_of img im), length-stubs_of img im))
        ∙ append_assoc stubs (stubs_of img im) (all_stubs img ims))

-- What the walk keeps: 256 imports at most, and their sum, which stays below 2 ^ 32.
abbrev IsSum : ImportList → Type 0
IsSum l =
    (length l.imports ≤ max_imports)
    × (l.total ≡ total_of l.imports)
    × (total_of l.imports ≤ length l.imports * 0xffff)

total_of-append :
    (ims : List Import) (im : Import) → total_of (ims ++ im ∷ []) ≡ total_of ims + im.num_funcs
total_of-append [] im = omega arith
total_of-append (x ∷ ims) im = omega (arith, total_of-append ims im)

byte-lt : (xs : List ℕ) (i : ℕ) → All (λ x. x < 256) xs → get_or xs i 0 < 256
byte-lt [] i h = omega arith
byte-lt (x ∷ xs) zero h = h.0
byte-lt (x ∷ xs) (suc i) h = byte-lt xs i h.1

import_at-num_funcs :
    (img : Image) (e size : ℕ)
    → All (λ x. x < 256) img.contents
    → (import_at img e size).num_funcs ≤ 0xffff
unfolding import_at
import_at-num_funcs img e size bytes =
    let a = byte-lt img.contents (e + 6) bytes in
    let b = byte-lt img.contents (e + 6 + 1) bytes in
    elim (Bool-cases (leb 0x34 size)) [
      | inl long ↦ rw long (omega (arith, a, b))
      | inr short ↦ rw short (omega (arith, a, b))
    ]

imports_loop-IsSum :
    (fuel : ℕ) (img : Image) (import_end p : ℕ) (l : ImportList)
    → All (λ x. x < 256) img.contents
    → IsSum l
    → IsSum (imports_loop fuel img import_end p l)
unfolding imports_loop
imports_loop-IsSum zero img import_end p l bytes h = h
imports_loop-IsSum (suc fuel) img import_end p l bytes h =
    option_holds IsSum (entry_at img import_end p) l _ h (λ at.
      (let e = at.0 in
        let size = at.1 in
        let im = import_at img e size in
        let next : ImportList = record {
          imports = l.imports ++ im ∷ [];
          truncated = l.truncated;
          total = (l.total + im.num_funcs) % 2 ^ 32;
        } in
        let few = import_at-num_funcs img e size bytes in
        let len = length-append {0} l.imports (im ∷ []) in
        let sum = total_of-append l.imports im in
        elim (Bool-cases (leb max_imports (length l.imports))) [
          | inl full ↦ rw full h
          | inr room ↦
              let below : length l.imports < max_imports = ground (arith, room) in
              rw room (
                imports_loop-IsSum fuel img import_end ((p + size) % 2 ^ 32) next bytes (
                  omega (arith, h.0, len, below),
                  omega (arith, h.0, h.1, h.2, few, sum),
                  omega (arith, h.2, few, sum, len),
                ))
        ]))

no_stubs : (ss : List Stub) → length ss ≡ 0 → ss ≡ []
no_stubs [] h = refl
no_stubs (s ∷ ss) h = absurd (omega arith)

no_rows : (img : Image) (ims : List Import) → total_of ims ≡ 0 → all_stubs img ims ≡ []
unfolding all_stubs
no_rows img [] e = refl
no_rows img (im ∷ ims) e =
    let few = length-stubs_of img im in
    rw (no_stubs (stubs_of img im) (omega arith)) (no_rows img ims (omega arith))

-- What is so of a module that is accepted.
abbrev Accepts : (Module → Type 0) → Parsed → Type 0
Accepts P (parsed m) = P m
Accepts P (refused r) = Unit {0}

-- A module that vm_parse accepts has at most 256 imports, and its stubs are the sorted rows of the tables of
-- all of them: the stub of each row of each pair of tables that lies in the segment, and no other; no row is
-- dropped for want of room.
pub vm_parse-stubs :
    (qsort : List Stub → List Stub) (img : Image) (entry : ℕ) (m : Module)
    → qsort [] ≡ []
    → All (λ x. x < 256) img.contents
    → vm_parse qsort img entry ≡ parsed m
    → (length m.list.imports ≤ max_imports) × (m.stubs ≡ qsort (all_stubs img m.list.imports))
unfolding vm_parse walk_imports
vm_parse-stubs qsort img entry m sorted_nil bytes h = subst (Accepts IsFull) h (
    if_holds (Accepts IsFull) (ltb 0 (entry / 2 ^ 30)) _ _ (search) (
      option_holds (Accepts IsFull) (vm_ptr img (entry % 2 ^ 30) 0x5c) _ _ (search) (λ mi.
        let m = info_at img mi in
        let l = walk_imports img m in
        if_holds (Accepts IsFull) (not (m.version / 2 ^ 8 == 1)) _ _ (search) (
          if_holds (Accepts IsFull) (ltb m.export_end m.export_top || ltb m.import_end m.import_top)
            _ _ (search)
            (if_holds (Accepts IsFull) (ltb img.seg_len m.import_end) _ _ (search) (
              let sums =
                imports_loop-IsSum (max_imports + 1) img m.import_end m.import_top
                  (record { imports = []; truncated = false; total = 0 }) bytes
                  (omega arith, omega arith, omega arith) in
              (sums.0, stubs_sorted l sums)))))))
  where
    IsFull : Module → Type 0
    IsFull m =
        (length m.list.imports ≤ max_imports) × (m.stubs ≡ qsort (all_stubs img m.list.imports))

    stubs_sorted :
        (l : ImportList)
        → IsSum l
        → (if l.total == 0 then [] else qsort (stubs_loop l.total img l.imports []))
          ≡ qsort (all_stubs img l.imports)
    stubs_sorted l h = elim (Bool-cases (l.total == 0)) [
      | inl none_there ↦
          let empty : l.total ≡ 0 = (==_iff l.total 0).0 none_there in
          rw none_there
            (sym (ap qsort (no_rows img l.imports (omega (arith, h.1, empty))) ∙ sorted_nil))
      | inr some_there ↦
          rw some_there (ap qsort (stubs_loop_lem l.total img l.imports [] (omega (arith, h.1))))
    ]
