-- ===== src/Analyze/Discover/Calls.antt =====
-- What walk keeps: the target of each call that it decodes is queued.
use vitarecomp.Base.{
  ℕ, ◌-◌, ◌*◌, ◌/◌, ◌≤◌, ◌≡◌, sym, ap, ◌∙◌, Bool, true, false, some, List, [], ◌∷◌, ◌++◌, length,
  get_elem?, ◌==◌, ==_iff, if◌then◌else◌, arith, Bool-cases, inl, inr,
}
use vitarecomp.Decode.Insn.{Class, call, Insn}
use vitarecomp.Decode.Entry.{Mode, decoded, arm_decode}
use vitarecomp.Imports.{Image, Stub}
use vitarecomp.Analyze.Bitmap.{seen_get}
use vitarecomp.Analyze.Bitmap.Laws.{seen_get-seen_set}
use vitarecomp.Analyze.Walk.Reached.{Reached}
use vitarecomp.Analyze.Walk.{
  Seed, Func, Found, text, in_segment, refused, callee_mode, Walk, note_insn, seed_call, seed_block,
  take_class, seen_bytes,
}
use vitarecomp.Analyze.Walk.Rule.{Keeps, Grows-Keeps, get_elem?-last, step}
use vitarecomp.Analyze.Walk.Loops.{Fits, in_segment-bounds, step_lem}

abbrev pub callee : Mode → Insn → (target : ℕ) → Seed
callee m o t = record { addr = t; mode = callee_mode m o.switches_mode; heur = false }

-- A call that is not refused has its target in the queue.
abbrev pub Queued : List Stub → Mode → Insn → List Seed → Type 0
Queued stubs m o q =
    (t : ℕ)
    → o.cls ≡ call
    → o.target ≡ some t
    → refused stubs m o t ≡ false
    → (j : ℕ) × (get_elem? q j ≡ some (callee m o t))

-- A function starts at an address in an instruction set.
abbrev pub IsRoot : List Func → ℕ → Mode → Type 0
IsRoot fs start m =
    (k : ℕ) × (f : Func) × (get_elem? fs k ≡ some f) × (f.addr ≡ start) × (f.mode ≡ m)

-- An instruction starts in halfword `i` of the segment, which the flow of control comes to from the start of a
-- function, in its instruction set.
pub record Explained (img : Image) (stubs : List Stub) (i : ℕ) (q : List Seed) (fs : List Func)
    : Type 0 where
  pub start : ℕ
  pub a : ℕ
  pub m : Mode
  pub n : ℕ
  pub o : Insn
  pub root : IsRoot fs start m
  pub path : Reached img start m a
  pub at : (a - img.seg_vaddr) / 2 ≡ i
  pub inside : in_segment img a ≡ true
  pub code : arm_decode (text img) img.seg_vaddr a m ≡ decoded n o
  pub queued : Queued stubs m o q

abbrev pub AllExplained : Image → List Stub → Found → List Seed → List Func → Type 0
AllExplained img stubs r q fs =
    (i : ℕ) → seen_get r.seen (2 * i) ≡ true → Explained img stubs i q fs

pub Explained-Keeps :
    (img : Image) (stubs : List Stub) (i : ℕ) (q q' : List Seed) (fs fs' : List Func)
    → Keeps q q'
    → ((start : ℕ) (m : Mode) → IsRoot fs start m → IsRoot fs' start m)
    → Explained img stubs i q fs
    → Explained img stubs i q' fs'
Explained-Keeps img stubs i q q' fs fs' k roots e = record {
  start = e.start;
  a = e.a;
  m = e.m;
  n = e.n;
  o = e.o;
  root = roots e.start e.m e.root;
  path = e.path;
  at = e.at;
  inside = e.inside;
  code = e.code;
  queued = λ t c h f. let (j, there) = e.queued t c h f in (j, k j (callee e.m e.o t) there);
}

seed_call-queue :
    (stubs : List Stub) (m : Mode) (o : Insn) (w : Walk) (t : ℕ)
    → o.target ≡ some t
    → refused stubs m o t ≡ false
    → (seed_call stubs m o w).queue ≡ w.queue ++ callee m o t ∷ []
unfolding seed_call
seed_call-queue stubs m o w t h f = simp (h, f, seed_call)

take_class-Queued :
    (stubs : List Stub) (m : Mode) (o : Insn) (w : Walk)
    → Queued stubs m o (take_class o.cls stubs m o w).queue
unfolding take_class
take_class-Queued stubs m o w t c h f =
    let e : (take_class o.cls stubs m o w).queue ≡ w.queue ++ callee m o t ∷ [] =
      ap (λ (k : Class). (take_class k stubs m o w).queue) c ∙ seed_call-queue stubs m o w t h f in
    (
      length w.queue,
      ap (λ (q : List Seed). get_elem? q (length w.queue)) e
          ∙ get_elem?-last w.queue (callee m o t),
    )

-- The functions so far and the address of the one that is walked stay.
take_class-funcs :
    (c : Class) (stubs : List Stub) (m : Mode) (o : Insn) (w : Walk)
    → ((take_class c stubs m o w).r.funcs ≡ w.r.funcs)
      × ((take_class c stubs m o w).fn.addr ≡ w.fn.addr)
      × ((take_class c stubs m o w).fn.mode ≡ w.fn.mode)
unfolding take_class seed_call seed_block
take_class-funcs c stubs m o w = ground arith

pub step-funcs :
    (img : Image) (stubs : List Stub) (m : Mode) (a n : ℕ) (o : Insn) (w : Walk)
    → ((step img stubs m a n o w).r.funcs ≡ w.r.funcs)
      × ((step img stubs m a n o w).fn.addr ≡ w.fn.addr)
      × ((step img stubs m a n o w).fn.mode ≡ w.fn.mode)
unfolding note_insn
step-funcs img stubs m a n o w =
    take_class-funcs o.cls stubs m o (note_insn a (a - img.seg_vaddr) n o w)

-- An instruction that is new explains its halfword, and the others stay explained.
pub step-AllExplained :
    (img : Image) (stubs : List Stub) (fits : Fits img) (fs : List Func) (start : ℕ) (m : Mode)
    (a n : ℕ) (o : Insn) (w : Walk)
    → AllExplained img stubs w.r w.queue fs
    → IsRoot fs start m
    → Reached img start m a
    → in_segment img a ≡ true
    → seen_get w.r.seen (a - img.seg_vaddr) ≡ false
    → seen_bytes img ≤ length w.r.seen
    → arm_decode (text img) img.seg_vaddr a m ≡ decoded n o
    → AllExplained img stubs (step img stubs m a n o w).r (step img stubs m a n o w).queue fs
step-AllExplained img stubs fits fs start m a n o w old root path inside new big code i marked =
    let off = a - img.seg_vaddr in
    let s = step_lem img stubs fits m a n o w inside new big in
    let bounds = in_segment-bounds img a fits.below inside in
    let seen =
      ap (λ (x : List ℕ). seen_get x (2 * i)) s.4
      ∙ seen_get-seen_set w.r.seen off (2 * i) (omega (arith, bounds.0, bounds.1)) in
    elim (Bool-cases (off / 2 == 2 * i / 2)) [
      | inl here ↦
          let same = (==_iff (off / 2) (2 * i / 2)).0 here in
          record {
            start = start;
            root = root;
            path = path;
            a = a;
            m = m;
            n = n;
            o = o;
            at = omega (arith, same);
            inside = inside;
            code = code;
            queued = take_class-Queued stubs m o (note_insn a off n o w);
          }
      | inr other ↦
          let before : seen_get w.r.seen (2 * i) ≡ true =
            sym (seen ∙ ap (λ (b : Bool). if b then true else seen_get w.r.seen (2 * i)) other)
            ∙ marked in
          Explained-Keeps img stubs i w.queue (step img stubs m a n o w).queue fs fs
            (Grows-Keeps w.queue (step img stubs m a n o w).queue s.3) (λ x y r. r) (old i before)
    ]
