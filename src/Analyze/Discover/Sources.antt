-- ===== src/Analyze/Discover/Sources.antt =====
-- What the first sources of seeds of vf_discover (tools/armrecomp/analyze.c) put in the queue.
use vitarecomp.Base.{
  ℕ, zero, suc, ◌+◌, ◌*◌, ◌/◌, ◌%◌, ◌^◌, ◌≤◌, ◌<◌, ◌≡◌, ◌≢◌, refl, ap, ◌∙◌, true, false, ◌&&◌, not,
  Option, none, some, List, [], ◌∷◌, get_elem?, length, ltb, ◌==◌, arith, Bool-cases, inl, inr,
  if◌then◌else◌, Bool, sym, ◌++◌,
}
use vitarecomp.Decode.Insn.{Class, call, Insn}
use vitarecomp.Decode.Entry.{a32, t32, decoded, arm_decode}
use vitarecomp.Imports.{Image, Stub}
use vitarecomp.Imports.Parse.{ModuleInfo}
use vitarecomp.Analyze.Walk.{Seed, Found, text, in_segment, refused, into_arm, arm_seed_ok}
use vitarecomp.Analyze.Walk.Rule.{Keeps, get_elem?-last}
use vitarecomp.Analyze.Walk.Loops.{Fits, arm_decode-not_wild, Decoded-cases}
use vitarecomp.Analyze.Discover.{
  no_result, seed_entry, seed_exports, is_call, harvest_insn, harvest, first_seeds,
}
use vitarecomp.Analyze.Discover.Seeds.{harvest-After, seed_exports-After}

-- Some seed is for the address.
abbrev pub IsSeeded : List Seed → ℕ → Type 0
IsSeeded q t = (j : ℕ) × (s : Seed) × (get_elem? q j ≡ some s) × (s.addr ≡ t)

pub IsSeeded-Keeps : (q q' : List Seed) (t : ℕ) → Keeps q q' → IsSeeded q t → IsSeeded q' t
IsSeeded-Keeps q q' t k (j, s, e, a) = (j, s, k j s e, a)

-- A call in Thumb, which is at an address of the sweep, that is not refused.
pub record Sweeps (img : Image) (stubs : List Stub) (k t : ℕ) : Type 0 where
  pub inside : 2 * k + 4 ≤ img.seg_len
  pub n : ℕ
  pub o : Insn
  pub code : arm_decode (text img) img.seg_vaddr (img.seg_vaddr + 2 * k) t32 ≡ decoded n o
  pub is_call : o.cls ≡ call
  pub target : o.target ≡ some t
  pub followed : refused stubs t32 o t ≡ false
  pub local : in_segment img t ≡ true

harvest_insn-IsSeeded :
    (img : Image) (stubs : List Stub) (o : Insn) (t : ℕ) (r : Found) (q : List Seed)
    → o.cls ≡ call
    → o.target ≡ some t
    → refused stubs t32 o t ≡ false
    → in_segment img t ≡ true
    → IsSeeded (harvest_insn img stubs o r q).1 t
unfolding harvest_insn
harvest_insn-IsSeeded img stubs o t r q c target f inside =
    let s : Seed = record { addr = t; mode = if o.switches_mode then a32 else t32; heur = false } in
    let is : not (is_call o.cls) ≡ false = ap (λ (x : Class). not (is_call x)) c in
    let taken : (o.switches_mode && not (arm_seed_ok stubs t)) ≡ false =
      elim (Bool-cases o.switches_mode) [
        | inl on ↦
            rw on (ap (λ (x : Bool). into_arm t32 x && not (arm_seed_ok stubs t)) (sym on) ∙ f)
        | inr off ↦ rw off refl
      ] in
    let e : (harvest_insn img stubs o r q).1 ≡ q ++ s ∷ [] =
      rw (is, target, inside, taken, harvest_insn) refl in
    (length q, s, ap (λ (x : List Seed). get_elem? x (length q)) e ∙ get_elem?-last q s, refl)

module _ (img : Image) (stubs : List Stub) (fits : Fits img) (k t : ℕ)
    (sw : Sweeps img stubs k t) where
  harvest-IsSeeded :
      (left fuel off : ℕ) (r : Found) (q : List Seed)
      → off + 2 * left ≡ 2 * k
      → left < fuel
      → IsSeeded (harvest fuel img stubs off r q).1 t
  unfolding harvest
  harvest-IsSeeded left zero off r q e enough = absurd (omega arith)
  harvest-IsSeeded zero (suc fuel) off r q e enough =
      let at : off ≡ 2 * k = omega (arith, e) in
      let room : ltb img.seg_len (off + 4) ≡ false = ground (arith, at, sw.inside) in
      let code : arm_decode (text img) img.seg_vaddr (img.seg_vaddr + off) t32 ≡ decoded sw.n sw.o =
        ap (λ (x : ℕ). arm_decode (text img) img.seg_vaddr (img.seg_vaddr + x) t32) at ∙ sw.code in
      let p = harvest_insn img stubs sw.o r q in
      rw (room, code, harvest)
        (IsSeeded-Keeps p.1 _ t (harvest-After fuel img stubs (off + 2) p.0 p.1).keeps
          (harvest_insn-IsSeeded img stubs sw.o t r q sw.is_call sw.target sw.followed sw.local))
  harvest-IsSeeded (suc left) (suc fuel) off r q e enough =
      let room : ltb img.seg_len (off + 4) ≡ false = ground (arith, e, sw.inside) in
      elim (Decoded-cases (arm_decode (text img) img.seg_vaddr (img.seg_vaddr + off) t32)) [
        | inl d ↦
            rw (room, d, harvest)
              (harvest-IsSeeded left fuel (off + 2) r q (omega (arith, e)) (omega arith))
        | inr (inl d) ↦ absurd (
            arm_decode-not_wild (text img) img.seg_vaddr (img.seg_vaddr + off) t32
              (omega (arith, fits.below, e, sw.inside)) d)
        | inr (inr (n, o, d)) ↦
            let p = harvest_insn img stubs o r q in
            rw (room, d, harvest)
              (harvest-IsSeeded left fuel (off + 2) p.0 p.1 (omega (arith, e)) (omega arith))
      ]

  pub first_seeds-swept : (info : Option ModuleInfo) → IsSeeded (first_seeds img info stubs).1 t
  unfolding first_seeds
  first_seeds-swept none =
      harvest-IsSeeded k (img.seg_len / 2 + 1) 0 (no_result img) [] (omega arith)
        (omega (arith, sw.inside))
  first_seeds-swept (some m) =
      let p1 = seed_entry img m (no_result img) [] in
      let p2 = seed_exports (img.seg_len / 0x20 + 2) img m.export_end m.export_top p1.0 p1.1 in
      harvest-IsSeeded k (img.seg_len / 2 + 1) 0 p2.0 p2.1 (omega arith) (omega (arith, sw.inside))

-- The address of module_start.
abbrev pub entry_of : Image → ModuleInfo → ℕ
entry_of img m = (img.seg_vaddr + m.module_start % 2 ^ 30) % 2 ^ 32

seed_entry-IsSeeded :
    (img : Image) (m : ModuleInfo) (r : Found)
    → m.module_start ≢ 0xffff_ffff
    → IsSeeded (seed_entry img m r []).1 (entry_of img m)
unfolding seed_entry
seed_entry-IsSeeded img m r some_start =
    let there : (m.module_start == 0xffff_ffff) ≡ false = ground (arith, some_start) in
    rw (there, seed_entry)
      (0, record { addr = entry_of img m; mode = t32; heur = false }, refl, refl)

pub first_seeds-entry :
    (img : Image) (stubs : List Stub) (m : ModuleInfo)
    → m.module_start ≢ 0xffff_ffff
    → IsSeeded (first_seeds img (some m) stubs).1 (entry_of img m)
unfolding first_seeds
first_seeds-entry img stubs m some_start =
    let p1 = seed_entry img m (no_result img) [] in
    let p2 = seed_exports (img.seg_len / 0x20 + 2) img m.export_end m.export_top p1.0 p1.1 in
    IsSeeded-Keeps p2.1 _ (entry_of img m)
      (harvest-After (img.seg_len / 2 + 1) img stubs 0 p2.0 p2.1).keeps
      (IsSeeded-Keeps p1.1 p2.1 (entry_of img m)
        (seed_exports-After (img.seg_len / 0x20 + 2) img m.export_end m.export_top p1.0 p1.1).keeps
        (seed_entry-IsSeeded img m (no_result img) some_start))
