-- ===== src/Analyze/Discover/Seeds.antt =====
-- The sources of seeds leave the map and the functions, and only add to the queue.
use vitarecomp.Base.{
  ℕ, zero, suc, ◌+◌, ◌-◌, ◌*◌, ◌/◌, ◌%◌, ◌^◌, ◌≡◌, refl, ◌∙◌, Bool, not, ◌&&◌, Option, none, some,
  List, [], ◌∷◌, ◌++◌, ltb, ◌==◌, if_holds, option_holds, bool_holds,
}
use vitarecomp.Decode.Insn.{Insn}
use vitarecomp.Decode.Entry.{t32, Decoded, nothing, decoded, wild, arm_decode, rd16le}
use vitarecomp.Imports.{Image, Seg, Stub, size, r16, r32, vm_ptr, vm_va}
use vitarecomp.Imports.Parse.{ModuleInfo}
use vitarecomp.Analyze.Bitmap.{seen_get}
use vitarecomp.Analyze.Walk.{Seed, Found, inc, text, in_segment, arm_seed_ok}
use vitarecomp.Analyze.Walk.Rule.{Keeps, get_elem?-append}
use vitarecomp.Analyze.Shape.{
  Sweep, code_ptr_shape, is_vague, is_prologue, reject, candidate, sweep_word, sweep_loop,
  shape_scan_region, scan_segs, shape_scan,
}
use vitarecomp.Analyze.Discover.{
  no_result, is_call, seed_entry, export_table, seed_exports, harvest_insn, harvest, first_seeds,
}

pub record After (r : Found) (q : List Seed) (p : Found × List Seed) : Type 0 where
  pub seen : p.0.seen ≡ r.seen
  pub funcs : p.0.funcs ≡ r.funcs
  pub keeps : Keeps q p.1

After-refl : (r : Found) (q : List Seed) → After r q (r, q)
After-refl r q = record { seen = refl; funcs = refl; keeps = λ i s h. h }

-- Another result with the same map and functions, and a seed more.
After-push :
    (r r' : Found) (q : List Seed) (s : Seed)
    → r'.seen ≡ r.seen
    → r'.funcs ≡ r.funcs
    → After r q (r', q ++ s ∷ [])
After-push r r' q s a b = record {
  seen = a;
  funcs = b;
  keeps = λ i t h. get_elem?-append q s i t h;
}

After-trans :
    (r : Found) (q : List Seed) (p p' : Found × List Seed)
    → After r q p
    → After p.0 p.1 p'
    → After r q p'
After-trans r q p p' a b = record {
  seen = b.seen ∙ a.seen;
  funcs = b.funcs ∙ a.funcs;
  keeps = λ i s h. b.keeps i s (a.keeps i s h);
}

decoded_holds :
    {B : Type 0} (P : B → Type 0) (d : Decoded) (x y : B) (f : ℕ → Insn → B)
    → P x
    → P y
    → ((n : ℕ) (o : Insn) → P (f n o))
    → P (elim d [ nothing ↦ x | wild ↦ y | decoded n o ↦ f n o ])
decoded_holds P nothing x y f p q g = p
decoded_holds P wild x y f p q g = q
decoded_holds P (decoded n o) x y f p q g = g n o

-- 1 and 2.
seed_entry-After :
    (img : Image) (m : ModuleInfo) (r : Found) (q : List Seed) → After r q (seed_entry img m r q)
unfolding seed_entry
seed_entry-After img m r q =
    if_holds (After r q) (m.module_start == 0xffff_ffff) _ _ (After-refl r q)
      (After-push r _ q _ refl refl)

export_table-After :
    (left : ℕ) (img : Image) (t : ℕ) (r : Found) (q : List Seed)
    → After r q (export_table left img t r q)
unfolding export_table
export_table-After zero img t r q = After-refl r q
export_table-After (suc left) img t r q =
    if_holds (After r q) (in_segment img (r32 img t)) _ _
      (After-trans r q _ _
        (After-push r (record r { seeds_export = inc r.seeds_export }) q _ refl refl)
        (export_table-After left img (t + 4) (record r { seeds_export = inc r.seeds_export }) _))
      (export_table-After left img (t + 4) r q)

pub seed_exports-After :
    (fuel : ℕ) (img : Image) (export_end p : ℕ) (r : Found) (q : List Seed)
    → After r q (seed_exports fuel img export_end p r q)
unfolding seed_exports
seed_exports-After zero img export_end p r q = After-refl r q
seed_exports-After (suc fuel) img export_end p r q =
    if_holds (After r q) (ltb export_end ((p + 0x20) % 2 ^ 32)) _ _ (After-refl r q) (
      option_holds (After r q) (vm_ptr img p 0x20) _ _ (After-refl r q) (λ e.
        let next = (p + r16 img e) % 2 ^ 32 in
        let nfunc = r16 img (e + 6) in
        if_holds (After r q) (ltb (r16 img e) 0x20) _ _ (After-refl r q) (
          option_holds (After r q) (vm_va img (r32 img (e + 0x1c)) (nfunc * 4)) _ _
            (seed_exports-After fuel img export_end next r q)
            (λ t.
              let p' = export_table nfunc img t r q in
              After-trans r q p' _ (export_table-After nfunc img t r q)
                (seed_exports-After fuel img export_end next p'.0 p'.1)))))

-- 3.
pub harvest_insn-After :
    (img : Image) (stubs : List Stub) (o : Insn) (r : Found) (q : List Seed)
    → After r q (harvest_insn img stubs o r q)
unfolding harvest_insn
harvest_insn-After img stubs o r q =
    if_holds (After r q) (not (is_call o.cls)) _ _ (After-refl r q) (
      option_holds (After r q) o.target _ _ (After-refl r q) (λ t.
        if_holds (After r q) (not (in_segment img t)) _ _ (After-refl r q) (
          if_holds (After r q) (o.switches_mode && not (arm_seed_ok stubs t)) _ _
            (record { seen = refl; funcs = refl; keeps = λ i s h. h })
            (After-push r r q _ refl refl))))

pub harvest-After :
    (fuel : ℕ) (img : Image) (stubs : List Stub) (off : ℕ) (r : Found) (q : List Seed)
    → After r q (harvest fuel img stubs off r q)
unfolding harvest
harvest-After zero img stubs off r q = After-refl r q
harvest-After (suc fuel) img stubs off r q =
    if_holds (After r q) (ltb img.seg_len (off + 4)) _ _ (After-refl r q) (
      decoded_holds (After r q) (arm_decode (text img) img.seg_vaddr (img.seg_vaddr + off) t32) _ _
        _ (harvest-After fuel img stubs (off + 2) r q) (After-refl r q)
        (λ n o.
          let p = harvest_insn img stubs o r q in
          After-trans r q p _ (harvest_insn-After img stubs o r q)
            (harvest-After fuel img stubs (off + 2) p.0 p.1)))

pub first_seeds-After :
    (img : Image) (info : Option ModuleInfo) (stubs : List Stub)
    → After (no_result img) [] (first_seeds img info stubs)
unfolding first_seeds
first_seeds-After img none stubs =
    harvest-After (img.seg_len / 2 + 1) img stubs 0 (no_result img) []
first_seeds-After img (some m) stubs =
    let p1 = seed_entry img m (no_result img) [] in
    let p2 = seed_exports (img.seg_len / 0x20 + 2) img m.export_end m.export_top p1.0 p1.1 in
    After-trans (no_result img) [] p2 _
      (After-trans (no_result img) [] p1 p2 (seed_entry-After img m (no_result img) [])
        (seed_exports-After (img.seg_len / 0x20 + 2) img m.export_end m.export_top p1.0 p1.1))
      (harvest-After (img.seg_len / 2 + 1) img stubs 0 p2.0 p2.1)

-- 4. The sweeps.
candidate-After :
    (img : Image) (in_table : Bool) (t : ℕ) (s : Sweep)
    → After s.r s.queue ((candidate img in_table t s).r, (candidate img in_table t s).queue)
unfolding candidate reject
candidate-After img in_table t s =
    let P : Sweep → Type 0 = λ v. After s.r s.queue (v.r, v.queue) in
    let same : (r : Found)
        → r.seen ≡ s.r.seen
        → r.funcs ≡ s.r.funcs
        → After s.r s.queue (r, s.queue) =
      λ r a b. record { seen = a; funcs = b; keeps = λ i x h. h } in
    if_holds P (seen_get s.r.seen (t - img.seg_vaddr)) _ _ (After-refl s.r s.queue) (
      decoded_holds P (arm_decode (text img) img.seg_vaddr t t32) _ _ _ (same _ refl refl)
        (After-refl s.r s.queue)
        (λ n o. if_holds P (is_vague o.cls) _ _ (same _ refl refl) (
          if_holds P (not (is_prologue (rd16le (text img) (t - img.seg_vaddr))) && not in_table) _ _
            (same _ refl refl) (After-push s.r _ s.queue _ refl refl))))

sweep_word-After :
    (img : Image) (scan len off : ℕ) (s : Sweep)
    → After s.r s.queue ((sweep_word img scan len off s).r, (sweep_word img scan len off s).queue)
unfolding sweep_word
sweep_word-After img scan len off s =
    let P : Sweep → Type 0 = λ v. After s.r s.queue (v.r, v.queue) in
    option_holds P (code_ptr_shape img (scan + off)) _ _ (After-refl s.r s.queue)
      (λ t. candidate-After img _ t (record s { run_left = _ }))

sweep_loop-After :
    (fuel : ℕ) (img : Image) (scan len off : ℕ) (s : Sweep)
    → After s.r s.queue
        ((sweep_loop fuel img scan len off s).r, (sweep_loop fuel img scan len off s).queue)
unfolding sweep_loop
sweep_loop-After zero img scan len off s = After-refl s.r s.queue
sweep_loop-After (suc fuel) img scan len off s =
    let P : Sweep → Type 0 = λ v. After s.r s.queue (v.r, v.queue) in
    let v = sweep_word img scan len off s in
    if_holds P (ltb len (off + 4)) _ _ (After-refl s.r s.queue) (
      After-trans s.r s.queue (v.r, v.queue) _ (sweep_word-After img scan len off s)
        (sweep_loop-After fuel img scan len (off + 4) v))

region-After :
    (img : Image) (scan len : ℕ) (r : Found) (q : List Seed)
    → After r q ((shape_scan_region img scan len r q).r, (shape_scan_region img scan len r q).queue)
unfolding shape_scan_region
region-After img scan len r q =
    sweep_loop-After (len / 4 + 1) img scan len 0
      (record { r = r; queue = q; run_left = 0; count = 0 })

scan_segs-After :
    (img : Image) (gs : List Seg) (r : Found) (q : List Seed) → After r q (scan_segs img gs r q)
unfolding scan_segs
scan_segs-After img [] r q = After-refl r q
scan_segs-After img (g ∷ gs) r q =
    let s = shape_scan_region img g.file g.len r q in
    let r' : Found = record s.r { seeds_shape_data = (s.r.seeds_shape_data + s.count) % 2 ^ 32 } in
    let a = region-After img g.file g.len r q in
    bool_holds (After r q) (ltb (size img) (g.file + g.len)) _ _ (scan_segs-After img gs r q) (
      After-trans r q (r', s.queue) _ (record { seen = a.seen; funcs = a.funcs; keeps = a.keeps })
        (scan_segs-After img gs r' s.queue))

pub shape_scan-After : (img : Image) (r : Found) (q : List Seed) → After r q (shape_scan img r q)
unfolding shape_scan
shape_scan-After img r q =
    let s = shape_scan_region img img.seg_file img.seg_len r q in
    After-trans r q (s.r, s.queue) _ (region-After img img.seg_file img.seg_len r q)
      (scan_segs-After img img.data_segs s.r s.queue)
