-- ===== src/Analyze/Walk/Loops.antt =====
-- The loops of walk end, and keep what each instruction keeps.
use vitarecomp.Base.{
  ◌/◌, ◌==◌, if◌then◌else◌, ℕ, zero, suc, ◌+◌, ◌-◌, ◌%◌, ◌^◌, ◌≤◌, ◌<◌, ◌≡◌, ◌≢◌, refl, sym, ap,
  subst, All, ◌∙◌, true, false, Option, none, some, List, [], ◌∷◌, length, arith, Bool-cases, ◌⊎◌,
  inl, inr,
}
use vitarecomp.Decode.Insn.{branch, Insn}
use vitarecomp.Decode.Entry.{Mode, a32, t32, Decoded, nothing, decoded, wild, arm_decode}
use vitarecomp.Imports.{Image, Stub}
use vitarecomp.Analyze.Bitmap.{seen_get, seen_set}
use vitarecomp.Analyze.Bitmap.Laws.{
  seen_get-seen_set, unseen, unseen-seen_set, unseen-le, length-seen_set,
}
use vitarecomp.Analyze.Walk.{
  Seed, Func, Found, text, in_segment, Walk, note_insn, flows_on, flow, blocks_loop, halfwords,
  walk, seen_bytes,
}
use vitarecomp.Analyze.Walk.Rule.{
  Returns, Returns_map, list_holds, Keeps, Grows, Grows-length, Grows-Keeps, step,
  take_class-blocks, take_class-Grows, take_class-same, note_insn-same,
}

-- The segment ends below the end of the address space, and its bytes are in the file.
pub record Fits (img : Image) : Type 0 where
  pub below : img.seg_vaddr + img.seg_len + 4 < 2 ^ 32
  pub whole : length (text img) ≡ img.seg_len

pub in_segment-bounds :
    (img : Image) (a : ℕ)
    → img.seg_vaddr + img.seg_len + 4 < 2 ^ 32
    → in_segment img a ≡ true
    → (img.seg_vaddr ≤ a) × (a < img.seg_vaddr + img.seg_len)
in_segment-bounds img a fits h = ground arith

-- Near the code there is no read outside of it.
pub arm_decode-not_wild :
    (code : List ℕ) (code_addr addr : ℕ) (m : Mode)
    → (addr - code_addr) + 4 < 2 ^ 32
    → arm_decode code code_addr addr m ≢ wild
unfolding arm_decode
arm_decode-not_wild code code_addr addr a32 near = ground arith
arm_decode-not_wild code code_addr addr t32 near = ground arith

pub Decoded-cases :
    (r : Decoded) → (r ≡ nothing) ⊎ ((r ≡ wild) ⊎ ((n : ℕ) × (o : Insn) × (r ≡ decoded n o)))
Decoded-cases nothing = inl refl
Decoded-cases wild = inr (inl refl)
Decoded-cases (decoded n o) = inr (inr (n, o, refl))

-- The halfwords of the segment with no mark.
abbrev pub left_over : Image → Found → ℕ
left_over img r = unseen r.seen (halfwords img)

module _ (img : Image) (stubs : List Stub) (fits : Fits img) where
  -- An instruction that is new takes a halfword, and adds to each list at most once.
  pub step_lem :
      (m : Mode) (a n : ℕ) (o : Insn) (w : Walk)
      → in_segment img a ≡ true
      → seen_get w.r.seen (a - img.seg_vaddr) ≡ false
      → seen_bytes img ≤ length w.r.seen
      → (left_over img (step img stubs m a n o w).r + 1 ≡ left_over img w.r)
        × (seen_bytes img ≤ length (step img stubs m a n o w).r.seen)
        × (length (step img stubs m a n o w).blocks ≤ length w.blocks + 1)
        × Grows w.queue (step img stubs m a n o w).queue
        × ((step img stubs m a n o w).r.seen ≡ seen_set w.r.seen (a - img.seg_vaddr))
  step_lem m a n o w inside new big =
      let off = a - img.seg_vaddr in
      let bounds = in_segment-bounds img a fits.below inside in
      let noted = note_insn a off n o w in
      let same = note_insn-same a off n o w in
      let kept = take_class-same o.cls stubs m o noted in
      let seen : (step img stubs m a n o w).r.seen ≡ seen_set w.r.seen off = kept.0 ∙ same.0 in
      let size : length (step img stubs m a n o w).r.seen ≡ length w.r.seen =
        ap (λ (x : List ℕ). length x) seen ∙ length-seen_set w.r.seen off in
      let marked =
        unseen-seen_set w.r.seen off (halfwords img) (omega (arith, bounds.0, bounds.1))
          (omega (arith, bounds.0, bounds.1)) new in
      (
        ap (λ (x : List ℕ). unseen x (halfwords img) + 1) seen ∙ marked,
        omega (arith, size),
        omega (arith, kept.1, ap (λ (x : List Seed). length x) same.1),
        subst (λ (q : List Seed). Grows q (step img stubs m a n o w).queue) same.2
            (take_class-Grows o.cls stubs m o noted),
        seen,
      )

  -- What a loop leaves: the invariant, the size of the map, the measures, and the queue with more behind it.
  -- A place is marked, is outside of the segment, or has no instruction.
  abbrev pub Visited : Found → Mode → ℕ → Type 0
  Visited r m a =
      (seen_get r.seen (a - img.seg_vaddr) ≡ true)
      ⊎ ((in_segment img a ≡ false) ⊎ (arm_decode (text img) img.seg_vaddr a m ≡ nothing))

  -- Marks stay.
  abbrev pub KeepsSeen : Found → Found → Type 0
  KeepsSeen r r' = (off : ℕ) → seen_get r.seen off ≡ true → seen_get r'.seen off ≡ true

  pub Visited-KeepsSeen :
      (r r' : Found) (m : Mode) (a : ℕ) → KeepsSeen r r' → Visited r m a → Visited r' m a
  Visited-KeepsSeen r r' m a k (inl h) = inl (k (a - img.seg_vaddr) h)
  Visited-KeepsSeen r r' m a k (inr h) = inr h

  step-seen :
      (m : Mode) (a n : ℕ) (o : Insn) (w : Walk)
      → in_segment img a ≡ true
      → seen_get w.r.seen (a - img.seg_vaddr) ≡ false
      → seen_bytes img ≤ length w.r.seen
      → (off : ℕ)
      → seen_get (step img stubs m a n o w).r.seen off
        ≡ (if (a - img.seg_vaddr) / 2 == off / 2 then true else seen_get w.r.seen off)
  step-seen m a n o w inside new big off =
      let bounds = in_segment-bounds img a fits.below inside in
      ap (λ (x : List ℕ). seen_get x off) (step_lem m a n o w inside new big).4
      ∙ seen_get-seen_set w.r.seen (a - img.seg_vaddr) off (omega (arith, bounds.0, bounds.1))

  -- `At m a` holds of the places that the walk comes to.
  module _ (Inv : Found → List Seed → Func → Type 0) (At : Mode → ℕ → Type 0) where
    abbrev pub AreAt : List Seed → Type 0
    AreAt = All (λ (s : Seed). At s.mode s.addr)

    pub record Done (w w' : Walk) : Type 0 where
      pub inv : Inv w'.r w'.queue w'.fn
      pub size : seen_bytes img ≤ length w'.r.seen
      pub blocks : left_over img w'.r + length w'.blocks ≤ left_over img w.r + length w.blocks
      pub queue : left_over img w'.r + length w'.queue ≤ left_over img w.r + length w.queue
      pub less : left_over img w'.r ≤ left_over img w.r
      pub keeps : Keeps w.queue w'.queue
      pub at : AreAt w'.blocks
      pub seen : KeepsSeen w.r w'.r

    Done-after :
        (w v w' : Walk)
        → (left_over img v.r ≤ left_over img w.r)
        → (left_over img v.r + length v.blocks ≤ left_over img w.r + length w.blocks)
        → (left_over img v.r + length v.queue ≤ left_over img w.r + length w.queue)
        → Keeps w.queue v.queue
        → KeepsSeen w.r v.r
        → Done v w'
        → Done w w'
    Done-after w v w' l b q k t d = record {
      inv = d.inv;
      size = d.size;
      blocks = omega (arith, d.blocks);
      queue = omega (arith, d.queue);
      less = omega (arith, d.less);
      keeps = λ i s h. d.keeps i s (k i s h);
      at = d.at;
      seen = λ off h. d.seen off (t off h);
    }

    Returns_after :
        (w v : Walk)
        → (left_over img v.r ≤ left_over img w.r)
        → (left_over img v.r + length v.blocks ≤ left_over img w.r + length w.blocks)
        → (left_over img v.r + length v.queue ≤ left_over img w.r + length w.queue)
        → Keeps w.queue v.queue
        → KeepsSeen w.r v.r
        → (o : Option Walk) → Returns (Done v) o
        → Returns (Done w) o
    Returns_after w v l b q k t none d = d
    Returns_after w v l b q k t (some w') d = Done-after w v w' l b q k t d

    -- A loop that has come to a place as well.
    abbrev pub DoneAt : (w : Walk) (m : Mode) (a : ℕ) → Walk → Type 0
    DoneAt w m a w' = Done w w' × Visited w'.r m a

    Returns_at :
        (v w : Walk) (m : Mode) (a : ℕ) (o : Option Walk)
        → Visited v.r m a
        → ((w' : Walk) → Done v w' → Done w w')
        → Returns (Done v) o
        → Returns (DoneAt w m a) o
    Returns_at v w m a none here f d = d
    Returns_at v w m a (some w') here f d = (f w' d, Visited-KeepsSeen v.r w'.r m a d.seen here)

    forget :
        (w : Walk) (m : Mode) (a : ℕ) (o : Option Walk)
        → Returns (DoneAt w m a) o
        → Returns (Done w) o
    forget w m a none d = d
    forget w m a (some w') d = d.0

    Returns_bind :
        (w v : Walk) (m : Mode) (a : ℕ) (o : Option Walk) (f : Walk → Option Walk)
        → Returns (DoneAt v m a) o
        → ((w' : Walk) → DoneAt v m a w' → Returns (DoneAt w m a) (f w'))
        → Returns (DoneAt w m a) (elim o [ none ↦ none | some w' ↦ f w' ])
    Returns_bind w v m a none f d g = d
    Returns_bind w v m a (some w') f d g = g w' d

    module _
        (preserved : (m : Mode) (a n : ℕ) (o : Insn) (w : Walk)
          → Inv w.r w.queue w.fn
          → At m a
          → in_segment img a ≡ true
          → seen_get w.r.seen (a - img.seg_vaddr) ≡ false
          → seen_bytes img ≤ length w.r.seen
          → arm_decode (text img) img.seg_vaddr a m ≡ decoded n o
          → Inv
              (step img stubs m a n o w).r
              (step img stubs m a n o w).queue
              (step img stubs m a n o w).fn)
        (goes_on : (m : Mode) (a n : ℕ) (o : Insn)
          → At m a
          → arm_decode (text img) img.seg_vaddr a m ≡ decoded n o
          → flows_on o ≡ true
          → At m ((a + n) % 2 ^ 32))
        (jumps : (m : Mode) (a n : ℕ) (o : Insn) (t : ℕ)
          → At m a
          → arm_decode (text img) img.seg_vaddr a m ≡ decoded n o
          → o.cls ≡ branch
          → o.target ≡ some t
          → At m t) where
      stay :
          (w : Walk)
          → Inv w.r w.queue w.fn
          → seen_bytes img ≤ length w.r.seen
          → AreAt w.blocks
          → Done w w
      stay w i big at = record {
        inv = i;
        size = big;
        blocks = omega arith;
        queue = omega arith;
        less = omega arith;
        keeps = λ i s h. h;
        at = at;
        seen = λ off h. h;
      }

      pub flow_rule :
          (fuel : ℕ) (m : Mode) (a : ℕ) (w : Walk)
          → Inv w.r w.queue w.fn
          → seen_bytes img ≤ length w.r.seen
          → At m a
          → AreAt w.blocks
          → left_over img w.r < fuel
          → Returns (DoneAt w m a) (flow fuel img stubs m a w)
      unfolding flow
      flow_rule zero m a w i big here at enough = absurd (omega arith)
      flow_rule (suc fuel) m a w i big here at enough = elim (Bool-cases (in_segment img a)) [
        | inr outside ↦ rw (outside, flow) (stay w i big at, inr (inl outside))
        | inl inside ↦ elim (Bool-cases (seen_get w.r.seen (a - img.seg_vaddr))) [
          | inl old ↦ rw (inside, old, flow) (stay w i big at, inl old)
          | inr new ↦ elim (Decoded-cases (arm_decode (text img) img.seg_vaddr a m)) [
            | inl e ↦ rw (inside, new, e, flow) (stay w i big at, inr (inr e))
            | inr (inl e) ↦
                let bounds = in_segment-bounds img a fits.below inside in
                absurd (
                  arm_decode-not_wild (text img) img.seg_vaddr a m
                    (omega (arith, bounds.0, bounds.1, fits.below)) e)
            | inr (inr (n, o, e)) ↦
                let v = step img stubs m a n o w in
                let s = step_lem m a n o w inside new big in
                let j = preserved m a n o w i here inside new big e in
                let less : left_over img v.r + length v.blocks
                    ≤ left_over img w.r + length w.blocks =
                  omega (arith, s.0, s.2) in
                let less_q : left_over img v.r + length v.queue
                    ≤ left_over img w.r + length w.queue =
                  omega (arith, s.0, Grows-length w.queue v.queue s.3) in
                let k = Grows-Keeps w.queue v.queue s.3 in
                let v_at : AreAt v.blocks =
                  take_class-blocks (λ (x : Seed). At x.mode x.addr) o.cls stubs m o
                    (note_insn a (a - img.seg_vaddr) n o w)
                    (subst AreAt (sym (note_insn-same a (a - img.seg_vaddr) n o w).1) at)
                    (λ t c target. jumps m a n o t here e c target) in
                let marks = step-seen m a n o w inside new big in
                let kept : KeepsSeen w.r v.r = λ off h. marks off ∙ ground (arith, h) in
                let marked : Visited v.r m a = inl (marks (a - img.seg_vaddr) ∙ ground arith) in
                let after : (w' : Walk) → Done v w' → Done w w' =
                  λ w' d. Done-after w v w' (omega (arith, s.0)) less less_q k kept d in
                elim (Bool-cases (flows_on o)) [
                  | inl on ↦
                      let rest =
                        flow_rule fuel m ((a + n) % 2 ^ 32) v j s.1 (goes_on m a n o here e on) v_at
                          (omega (arith, s.0)) in
                      rw (inside, new, e, on, flow)
                        (Returns_at v w m a _ marked after (forget v m ((a + n) % 2 ^ 32) _ rest))
                  | inr off ↦ rw (inside, new, e, off, flow) (after v (stay v j s.1 v_at), marked)
                ]
          ]
        ]
      ]

      -- The loop ends with so much fuel.
      abbrev Ends : (fuel inner : ℕ) → Type 0
      Ends fuel inner =
          (w : Walk)
          → Inv w.r w.queue w.fn
          → seen_bytes img ≤ length w.r.seen
          → AreAt w.blocks
          → left_over img w.r < inner
          → left_over img w.r + length w.blocks < fuel
          → Returns (Done w) (blocks_loop fuel inner img stubs w)

      -- With the start of the first block.
      block_rule :
          (fuel inner : ℕ) (w : Walk) (s : Seed) (rest : List Seed)
          → Ends fuel inner
          → w.blocks ≡ s ∷ rest
          → Inv w.r w.queue w.fn
          → seen_bytes img ≤ length w.r.seen
          → AreAt w.blocks
          → left_over img w.r < inner
          → left_over img w.r + length w.blocks < suc fuel
          → Returns
              (DoneAt w s.mode s.addr)
              (elim (flow inner img stubs s.mode s.addr (record w { blocks = rest })) [
                | none ↦ none
                | some w' ↦ blocks_loop fuel inner img stubs w'
              ])
      block_rule fuel inner w s rest go e i big at deep enough =
          let v : Walk = record w { blocks = rest } in
          let both : AreAt (s ∷ rest) = subst AreAt e at in
          let one = ap (λ (x : List Seed). length x) e in
          let below : left_over img v.r + length v.blocks ≤ left_over img w.r + length w.blocks =
            omega (arith, one) in
          Returns_bind w v s.mode s.addr (flow inner img stubs s.mode s.addr v)
            (blocks_loop fuel inner img stubs)
            (flow_rule inner s.mode s.addr v i big both.0 both.1 deep)
            (λ w' p.
              let d = p.0 in
              let k : Keeps w.queue w'.queue = d.keeps in
              Returns_at w' w s.mode s.addr (blocks_loop fuel inner img stubs w') p.1
                (λ x y.
                  Done-after w w' x (omega (arith, d.less)) (omega (arith, below, d.blocks))
                    (omega (arith, d.queue)) k d.seen y)
                (go w' d.inv d.size d.at (omega (arith, d.less)) (omega (arith, d.blocks, one))))

      blocks_rule : (fuel inner : ℕ) → Ends fuel inner
      unfolding blocks_loop
      blocks_rule zero inner w i big at deep enough = absurd (omega arith)
      blocks_rule (suc fuel) inner w i big at deep enough =
          list_holds (Returns (Done w)) w.blocks _ _ (λ e. stay w i big at)
            (λ s rest e.
              forget w s.mode s.addr _
                (block_rule fuel inner w s rest (blocks_rule fuel inner) e i big at deep enough))

      -- What a walk leaves.
      abbrev pub Walked : (r : Found) (queue : List Seed) (start : ℕ) (m : Mode) → Walk → Type 0
      Walked r queue start m w' =
          Inv w'.r w'.queue w'.fn
          × (seen_bytes img ≤ length w'.r.seen)
          × (left_over img w'.r + length w'.queue ≤ left_over img r + length queue)
          × Keeps queue w'.queue
          × KeepsSeen r w'.r
          × Visited w'.r m start

      -- A walk from a start ends, and has come to it.
      pub walk_rule :
          (r : Found) (queue : List Seed) (start : ℕ) (m : Mode) (fn : Func)
          → Inv r queue fn
          → seen_bytes img ≤ length r.seen
          → At m start
          → Returns (Walked r queue start m) (walk img stubs r queue start m fn)
      unfolding walk blocks_loop
      walk_rule r queue start m fn i big here =
          let w : Walk = record {
            r = r;
            queue = queue;
            blocks = record { addr = start; mode = m; heur = false } ∷ [];
            fn = fn;
          } in
          let inner = halfwords img + 1 in
          let few = unseen-le r.seen (halfwords img) in
          let fuel : suc inner ≡ halfwords img + 2 = omega arith in
          subst (λ (k : ℕ). Returns (Walked r queue start m) (blocks_loop k inner img stubs w)) fuel
            (Returns_map _ (Walked r queue start m) (blocks_loop (suc inner) inner img stubs w)
              (block_rule inner inner w _ [] (blocks_rule inner inner) refl i big (here, tt)
                (omega (arith, few)) (omega (arith, few)))
              (λ w' p. (p.0.inv, p.0.size, p.0.queue, p.0.keeps, p.0.seen, p.1)))
