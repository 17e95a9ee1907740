-- ===== src/Emit/Body/Flow.antt =====
-- The flow of collect ends, since each instruction takes a slot of the table.
use vitarecomp.Base.{
  ℕ, zero, suc, ◌+◌, ◌*◌, ◌%◌, ◌^◌, ◌≤◌, ◌<◌, ◌≡◌, ◌≢◌, refl, sym, ap, subst, ◌∙◌, Bool, true,
  Option, none, some, List, [], ◌∷◌, ◌++◌, length, length-append, length-set, get_or, set, All, ltb,
  leb, ◌==◌, ==_iff, if◌then◌else◌, if_holds, option_holds, arith, Bool-cases, Option-cases, inl,
  inr,
}
use native.Mathlib.Nat.{mod-lt}
use vitarecomp.Runtime.Probe.{Probe, present, placed, full, slot, probe_loop, probe}
use vitarecomp.Decode.Insn.{Insn}
use vitarecomp.Decode.Entry.{decoded, arm_decode}
use vitarecomp.Imports.{Image}
use vitarecomp.Analyze.Walk.{Func, text, in_segment}
use vitarecomp.Analyze.Walk.Rule.{Returns, Returns_map}
use vitarecomp.Analyze.Walk.Loops.{Fits, in_segment-bounds, arm_decode-not_wild, Decoded-cases}
use vitarecomp.Emit.Funcs.{member}
use vitarecomp.Emit.Body.{
  visit_slots, Body, Collect, visit_mark, fb_push, fb_label, bound_of, is_return, local_target,
  push_block, collect_insn, follow,
}

-- The slots that are empty.
unfoldable pub empties : List ℕ → ℕ
empties [] = 0
empties (k ∷ ks) = (if k == 0 then 1 else 0) + empties ks

empties-set :
    (ks : List ℕ) (s key : ℕ)
    → s < length ks
    → get_or ks s 0 ≡ 0
    → key ≢ 0
    → empties (set ks s key) + 1 ≡ empties ks
unfolding empties
empties-set [] s key lt e ne = absurd (omega arith)
empties-set (k ∷ ks) zero key lt e ne = ground (arith, e, ne)
empties-set (k ∷ ks) (suc s) key lt e ne = ground (arith, empties-set ks s key (omega arith) e ne)

-- A key that is put in takes an empty slot.
abbrev Takes : List ℕ → Probe → Type 0
Takes ks (placed ks') = (empties ks' + 1 ≡ empties ks) × (length ks' ≡ length ks)
Takes ks present = Unit {0}
Takes ks full = Unit {0}

probe_loop-Takes :
    (left n key i : ℕ) (ks : List ℕ) → 0 < n → length ks ≡ n → Takes ks (probe_loop left n key i ks)
unfolding probe_loop
probe_loop-Takes zero n key i ks pos size = search
probe_loop-Takes (suc left) n key i ks pos size =
    let s = slot n key i in
    let inside : s < length ks =
      omega (arith, size, mod-lt (key * 2654435761 % 2 ^ 32 % n + i) pos) in
    elim (Bool-cases (get_or ks s 0 == key)) [
      | inl hit ↦ rw (hit, probe_loop) (search)
      | inr miss ↦ elim (Bool-cases (get_or ks s 0 == 0)) [
        | inl empty ↦
            let z = (==_iff (get_or ks s 0) 0).0 empty in
            rw (miss, empty, probe_loop)
              (
                empties-set ks s key inside z (λ e. absurd (ground (arith, z, e, miss))),
                length-set ks s key,
              )
        | inr taken ↦ rw (miss, taken, probe_loop) (probe_loop-Takes left n key (suc i) ks pos size)
      ]
    ]

abbrev Shrinks : List ℕ → Option (List ℕ) → Type 0
Shrinks ks none = Unit {0}
Shrinks ks (some ks') = (empties ks' + 1 ≡ empties ks) × (length ks' ≡ length ks)

visit_mark-Shrinks : (ks : List ℕ) (a : ℕ) → length ks ≡ visit_slots → Shrinks ks (visit_mark ks a)
unfolding visit_mark
visit_mark-Shrinks ks a size =
    go (probe visit_slots a ks) (probe_loop-Takes visit_slots visit_slots a 0 ks (omega arith) size)
  where
    go :
        (r : Probe)
        → Takes ks r
        → Shrinks ks (elim r [ present ↦ none | placed ks' ↦ some ks' | full ↦ none ])
    go present h = h
    go (placed ks') h = h
    go full h = h

-- Instructions of the function, from the segment and below the bound.
abbrev pub IsBody : Image → Func → List Insn → Type 0
IsBody img fn v =
    All
      (λ o.
        (a : ℕ) × (n : ℕ) × (in_segment img a ≡ true)
        × (a < bound_of fn)
        × (arm_decode (text img) img.seg_vaddr a fn.mode ≡ decoded n o))
      v

All-snoc : (P : Insn → Type 0) (v : List Insn) (o : Insn) → All P v → P o → All P (v ++ o ∷ [])
All-snoc P [] o h p = (p, h)
All-snoc P (x ∷ v) o h p = (h.0, All-snoc P v o h.1 p)

fb_label-v : (b : Body) (t : ℕ) → (fb_label b t).v ≡ b.v
unfolding fb_label
fb_label-v b t = if_holds (λ (x : Body). x.v ≡ b.v) (member b.labels t) _ _ refl refl

push_block-length : (t : ℕ) (stack : List ℕ) → length (push_block t stack) ≤ length stack + 1
push_block-length t stack =
    if_holds (λ (x : List ℕ). length x ≤ length stack + 1) (ltb (length stack) 512) _ _
      (omega arith) (omega arith)

-- What collect_insn adds.
abbrev Taken : Insn → List ℕ → Collect → Bool × Collect → Type 0
Taken o seen c r =
    (r.1.body.v ≡ c.body.v ++ o ∷ []) × (r.1.seen ≡ seen) × (length r.1.stack ≤ length c.stack + 1)

collect_insn-Taken :
    (fn : Func) (o : Insn) (seen : List ℕ) (c : Collect) → Taken o seen c (collect_insn fn o seen c)
unfolding collect_insn fb_push
collect_insn-Taken fn o seen c =
    if_holds (Taken o seen c) (is_return o.cls) _ _ (refl, refl, omega arith)
      (option_holds (Taken o seen c) (local_target fn o) _ _ (refl, refl, omega arith)
        (λ t. (fb_label-v _ t, refl, push_block-length t c.stack)))

module _ (img : Image) (fn : Func) (fits : Fits img) where
  pub record Good (c c' : Collect) : Type 0 where
    pub body : IsBody img fn c'.body.v
    pub size : length c'.seen ≡ visit_slots
    pub less : empties c'.seen ≤ empties c.seen
    pub blocks : empties c'.seen + length c'.stack ≤ empties c.seen + length c.stack
    pub count : length c'.body.v + empties c'.seen ≤ length c.body.v + empties c.seen

  pub Good-trans :
      (c d e : Collect)
      → empties d.seen ≤ empties c.seen
      → empties d.seen + length d.stack ≤ empties c.seen + length c.stack
      → length d.body.v + empties d.seen ≤ length c.body.v + empties c.seen
      → Good d e
      → Good c e
  Good-trans c d e l b k g = record {
    body = g.body;
    size = g.size;
    less = omega (arith, g.less);
    blocks = omega (arith, g.blocks);
    count = omega (arith, g.count);
  }

  pub here : (c : Collect) → IsBody img fn c.body.v → length c.seen ≡ visit_slots → Good c c
  here c b s = record {
    body = b;
    size = s;
    less = omega arith;
    blocks = omega arith;
    count = omega arith;
  }

  pub follow_rule :
      (fuel a : ℕ) (c : Collect)
      → IsBody img fn c.body.v
      → length c.seen ≡ visit_slots
      → empties c.seen < fuel
      → Returns (Good c) (follow fuel img fn a c)
  unfolding follow
  follow_rule zero a c b s enough = absurd (omega arith)
  follow_rule (suc fuel) a c b s enough = elim (Bool-cases (in_segment img a)) [
    | inr outside ↦ rw (outside, follow) (here c b s)
    | inl inside ↦ elim (Bool-cases (leb (bound_of fn) a)) [
      | inl past ↦ rw (inside, past, follow) (here c b s)
      | inr below ↦ elim (Option-cases (visit_mark c.seen a)) [
        | inl e ↦ rw (inside, below, e, follow) (here c b s)
        | inr (seen, e) ↦
            let m = subst (Shrinks c.seen) e (visit_mark-Shrinks c.seen a s) in
            elim (Decoded-cases (arm_decode (text img) img.seg_vaddr a fn.mode)) [
              | inl d ↦
                  let c1 : Collect = record c { seen = seen } in
                  rw (inside, below, e, d, follow)
                    (Good-trans c c1 c1 (omega (arith, m.0)) (omega (arith, m.0))
                      (omega (arith, m.0)) (here c1 b (m.1 ∙ s)))
              | inr (inl d) ↦
                  let bounds = in_segment-bounds img a fits.below inside in
                  absurd (
                    arm_decode-not_wild (text img) img.seg_vaddr a fn.mode
                      (omega (arith, bounds.0, bounds.1, fits.below)) d)
              | inr (inr (n, o, d)) ↦
                  let t = collect_insn-Taken fn o seen c in
                  let c1 = (collect_insn fn o seen c).1 in
                  let here_o : (x : ℕ) × (y : ℕ) × (in_segment img x ≡ true)
                      × (x < bound_of fn)
                      × (arm_decode (text img) img.seg_vaddr x fn.mode ≡ decoded y o) =
                    (a, n, inside, ground (arith, below), d) in
                  let b1 : IsBody img fn c1.body.v =
                    subst (IsBody img fn) (sym t.0) (All-snoc _ c.body.v o b here_o) in
                  let s1 : length c1.seen ≡ visit_slots =
                    ap (λ (x : List ℕ). length x) t.1 ∙ (m.1 ∙ s) in
                  let z : empties c1.seen + 1 ≡ empties c.seen =
                    ap (λ (x : List ℕ). empties x + 1) t.1 ∙ m.0 in
                  let v : length c1.body.v ≡ length c.body.v + 1 = omega (
                    arith,
                    ap (λ (x : List Insn). length x) t.0,
                    length-append {0} c.body.v (o ∷ []),
                  ) in
                  let on = Good-trans c c1 in
                  let rest = follow_rule fuel ((a + n) % 2 ^ 32) c1 b1 s1 (omega (arith, z)) in
                  rw (inside, below, e, d, follow)
                    (if_holds (Returns (Good c)) (collect_insn fn o seen c).0 _ _
                      (Returns_map _ _ (follow fuel img fn ((a + n) % 2 ^ 32) c1) rest (λ c' g.
                        on c' (omega (arith, z)) (omega (arith, z, t.2)) (omega (arith, z, v)) g))
                      (on c1 (omega (arith, z)) (omega (arith, z, t.2)) (omega (arith, z, v))
                        (here c1 b1 s1)))
            ]
      ]
    ]
  ]
