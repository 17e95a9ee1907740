-- ===== src/Analyze/Discover/Entries.antt =====
-- The loop over the queue: it ends, and enters every seed in the segment.
use mathlib.Core.Bool.{false≢true}
use vitarecomp.Base.{
  ℕ, zero, suc, ◌+◌, ◌-◌, ◌*◌, ◌/◌, ◌%◌, ◌^◌, ◌≤◌, ◌<◌, ◌≡◌, ◌≢◌, refl, sym, ap, subst, ◌∙◌, Bool,
  true, false, none, some, List, [], ◌∷◌, ◌++◌, length, get_elem?, get_or, ◌==◌, ==_iff,
  if◌then◌else◌, arith, Bool-cases, Option-cases, ◌⊎◌, inl, inr, none_ne_some, some_eq,
}
use vitarecomp.Imports.{Image, Stub}
use vitarecomp.Analyze.Bitmap.{seen_get, seen_set}
use vitarecomp.Analyze.Bitmap.Laws.{seen_get-seen_set, length-seen_set}
use vitarecomp.Analyze.Walk.{Seed, Func, Found, in_segment, seen_bytes, Walk, walk}
use vitarecomp.Analyze.Walk.Rule.{Returns, Returns_map, Returns_then, Keeps}
use vitarecomp.Decode.Entry.{Mode}
use vitarecomp.Analyze.Walk.Reached.{Reached, starts, goes_on, jumps, flows_on-GoesOn}
use vitarecomp.Analyze.Walk.Loops.{
  Fits, in_segment-bounds, left_over, Visited, Visited-KeepsSeen, KeepsSeen, walk_rule,
}
use vitarecomp.Analyze.Discover.{Discovery, enter, drain}
use vitarecomp.Analyze.Discover.Calls.{
  IsRoot, AllExplained, Explained-Keeps, step-funcs, step-AllExplained,
}

-- The halfword of an address.
abbrev pub half : Image → ℕ → ℕ
half img a = (a - img.seg_vaddr) / 2

-- What holds when the seeds below `head` have been taken.
pub record Sound (img : Image) (stubs : List Stub) (fits : Fits img) (head : ℕ) (d : Discovery)
    : Type 0 where
  pub explained : AllExplained img stubs d.r d.queue d.r.funcs
  pub size : seen_bytes img ≤ length d.r.seen
  pub fsize : seen_bytes img ≤ length d.fseen
  pub taken :
      (i : ℕ) (s : Seed)
      → i < head
      → get_elem? d.queue i ≡ some s
      → in_segment img s.addr ≡ true
      → seen_get d.fseen (s.addr - img.seg_vaddr) ≡ true
  pub entered :
      (j : ℕ)
      → seen_get d.fseen (2 * j) ≡ true
      → (k : ℕ) × (f : Func) × (get_elem? d.r.funcs k ≡ some f) × (half img f.addr ≡ j)
  pub marked :
      (k : ℕ) (f : Func)
      → get_elem? d.r.funcs k ≡ some f
      → (in_segment img f.addr ≡ true) × (seen_get d.fseen (f.addr - img.seg_vaddr) ≡ true)
  pub begun :
      (k : ℕ) (f : Func) → get_elem? d.r.funcs k ≡ some f → Visited img stubs fits d.r f.mode f.addr
  pub distinct :
      (j k : ℕ) (f g : Func)
      → j < k
      → get_elem? d.r.funcs j ≡ some f
      → get_elem? d.r.funcs k ≡ some g
      → half img f.addr ≢ half img g.addr

elem_below :
    (q : List Seed) (n i : ℕ) (s : Seed)
    → get_elem? q n ≡ some s
    → i < n
    → (t : Seed) × (get_elem? q i ≡ some t)
elem_below [] n i s h lt = absurd (none_ne_some h)
elem_below (x ∷ q) zero i s h lt = absurd (omega arith)
elem_below (x ∷ q) (suc n) zero s h lt = (x, refl)
elem_below (x ∷ q) (suc n) (suc i) s h lt = elem_below q n i s h (omega arith)

at_end : (q : List Seed) (n : ℕ) → get_elem? q n ≡ none → length q ≤ n
at_end [] n h = omega arith
at_end (x ∷ q) zero h = absurd (none_ne_some (sym h))
at_end (x ∷ q) (suc n) h = omega (arith, at_end q n h)

inside_of : (q : List Seed) (n : ℕ) (s : Seed) → get_elem? q n ≡ some s → n < length q
inside_of [] n s h = absurd (none_ne_some h)
inside_of (x ∷ q) zero s h = omega arith
inside_of (x ∷ q) (suc n) s h = omega (arith, inside_of q n s h)

get_elem?-func :
    (fs : List Func) (f : Func) (k : ℕ) (g : Func)
    → get_elem? (fs ++ f ∷ []) k ≡ some g
    → ((k < length fs) × (get_elem? fs k ≡ some g)) ⊎ ((k ≡ length fs) × (g ≡ f))
get_elem?-func [] f zero g h = inr (refl, sym (some_eq h))
get_elem?-func [] f (suc k) g h = absurd (none_ne_some h)
get_elem?-func (x ∷ fs) f zero g h = inl (omega arith, h)
get_elem?-func (x ∷ fs) f (suc k) g h = elim (get_elem?-func fs f k g h) [
  | inl (lt, e) ↦ inl (omega arith, e)
  | inr (e, same) ↦ inr (ap suc e, same)
]

get_elem?-func_old :
    (fs : List Func) (f : Func) (k : ℕ) (g : Func)
    → get_elem? fs k ≡ some g
    → get_elem? (fs ++ f ∷ []) k ≡ some g
get_elem?-func_old [] f k g h = absurd (none_ne_some h)
get_elem?-func_old (x ∷ fs) f zero g h = h
get_elem?-func_old (x ∷ fs) f (suc k) g h = get_elem?-func_old fs f k g h

get_elem?-func_new : (fs : List Func) (f : Func) → get_elem? (fs ++ f ∷ []) (length fs) ≡ some f
get_elem?-func_new [] f = refl
get_elem?-func_new (x ∷ fs) f = get_elem?-func_new fs f

module _ (img : Image) (stubs : List Stub) (fits : Fits img) where
  -- The seeds left, with the instructions left, go down.
  abbrev pub Better : ℕ → Discovery → Discovery → Type 0
  Better head d d' =
      Sound img stubs fits (suc head) d'
      × Keeps d.queue d'.queue
      × (left_over img d'.r + length d'.queue ≤ left_over img d.r + length d.queue)

  -- A seed whose entry is marked, or which is not in the segment.
  skip :
      (head : ℕ) (d : Discovery) (s : Seed)
      → Sound img stubs fits head d
      → get_elem? d.queue head ≡ some s
      → (in_segment img s.addr ≡ true → seen_get d.fseen (s.addr - img.seg_vaddr) ≡ true)
      → Better head d d
  skip head d s h at was = (
    record {
      explained = h.explained;
      size = h.size;
      fsize = h.fsize;
      taken = λ i t lt e inside. elim (Bool-cases (i == head)) [
        | inl last ↦
            let same : t ≡ s =
              some_eq (sym e ∙ (ap (get_elem? d.queue) ((==_iff i head).0 last) ∙ at)) in
            subst (λ (x : Seed). seen_get d.fseen (x.addr - img.seg_vaddr) ≡ true) (sym same)
              (was (subst (λ (x : Seed). in_segment img x.addr ≡ true) same inside))
        | inr before ↦ h.taken i t (ground (arith, before, lt)) e inside
      ];
      entered = h.entered;
      marked = h.marked;
      begun = h.begun;
      distinct = h.distinct;
    },
    (λ i t e. e),
    omega arith,
  )

  -- A seed that is new: its function is walked and entered.
  module _ (head : ℕ) (d : Discovery) (s : Seed) (h : Sound img stubs fits head d)
      (at : get_elem? d.queue head ≡ some s) (inside : in_segment img s.addr ≡ true)
      (new : seen_get d.fseen (s.addr - img.seg_vaddr) ≡ false) where
    abbrev entered_as : Walk → Discovery
    entered_as w = record {
      r = record w.r { funcs = w.r.funcs ++ w.fn ∷ [] };
      queue = w.queue;
      fseen = seen_set d.fseen (s.addr - img.seg_vaddr);
    }

    in_map : (s.addr - img.seg_vaddr) / 2 / 8 < length d.fseen
    in_map =
        let bounds = in_segment-bounds img s.addr fits.below inside in
        omega (arith, bounds.0, bounds.1, h.fsize)

    mark :
        (other : ℕ)
        → seen_get (seen_set d.fseen (s.addr - img.seg_vaddr)) other
          ≡ (if (s.addr - img.seg_vaddr) / 2 == other / 2 then true else seen_get d.fseen other)
    mark other = seen_get-seen_set d.fseen (s.addr - img.seg_vaddr) other in_map

    stays :
        (other : ℕ)
        → seen_get d.fseen other ≡ true
        → seen_get (seen_set d.fseen (s.addr - img.seg_vaddr)) other ≡ true
    stays other was = mark other ∙ ground (arith, was)

    itself : seen_get (seen_set d.fseen (s.addr - img.seg_vaddr)) (s.addr - img.seg_vaddr) ≡ true
    itself = mark (s.addr - img.seg_vaddr) ∙ ground arith

    -- A marked halfword is not the new one.
    apart : (f : ℕ) → seen_get d.fseen (f - img.seg_vaddr) ≡ true → half img f ≢ half img s.addr
    unfolding seen_get
    apart f was same =
        let e : seen_get d.fseen (f - img.seg_vaddr) ≡ seen_get d.fseen (s.addr - img.seg_vaddr) =
          ap (λ (i : ℕ). get_or d.fseen (i / 8) 0 / 2 ^ (i % 8) % 2 == 1) same in
        absurd (false≢true (sym new ∙ (sym e ∙ was)))

    -- The function of the seed, as the walk starts with it.
    abbrev first : Func
    first = record { addr = s.addr; mode = s.mode; stop = 0; insns = 0; from_heuristic = s.heur }

    first-IsRoot : IsRoot (d.r.funcs ++ first ∷ []) s.addr s.mode
    first-IsRoot = (length d.r.funcs, first, get_elem?-func_new d.r.funcs first, refl, refl)

    -- The functions so far are roots still.
    old_roots :
        (start : ℕ) (m : Mode) → IsRoot d.r.funcs start m → IsRoot (d.r.funcs ++ first ∷ []) start m
    old_roots start m (k, f, e, a, b) = (k, f, get_elem?-func_old d.r.funcs first k f e, a, b)

    -- The flow of the walk.
    abbrev OnPath : Mode → ℕ → Type 0
    OnPath m a = Reached img s.addr m a × (m ≡ s.mode)

    module _ (w : Walk)
        (explained_first : AllExplained img stubs w.r w.queue (d.r.funcs ++ first ∷ []))
        (size : seen_bytes img ≤ length w.r.seen) (funcs : w.r.funcs ≡ d.r.funcs)
        (addr : w.fn.addr ≡ s.addr) (mode : w.fn.mode ≡ s.mode) (keeps : Keeps d.queue w.queue)
        (seen : KeepsSeen img stubs fits d.r w.r)
        (visited : Visited img stubs fits w.r s.mode s.addr) where
      new_roots :
          (start : ℕ) (m : Mode)
          → IsRoot (d.r.funcs ++ first ∷ []) start m
          → IsRoot (w.r.funcs ++ w.fn ∷ []) start m
      new_roots start m (k, f, e, a, b) = elim (get_elem?-func d.r.funcs first k f e) [
        | inl (lt, old) ↦ (
          k,
          f,
          get_elem?-func_old w.r.funcs w.fn k f (ap (λ (x : List Func). get_elem? x k) funcs ∙ old),
          a,
          b,
        )
        | inr (last, same) ↦ (
          length w.r.funcs,
          w.fn,
          get_elem?-func_new w.r.funcs w.fn,
          addr ∙ (ap (λ (x : Func). x.addr) (sym same) ∙ a),
          mode ∙ (ap (λ (x : Func). x.mode) (sym same) ∙ b),
        )
      ]

      explained : AllExplained img stubs w.r w.queue (w.r.funcs ++ w.fn ∷ [])
      explained i m =
          Explained-Keeps img stubs i w.queue w.queue (d.r.funcs ++ first ∷ [])
            (w.r.funcs ++ w.fn ∷ []) (λ j t e. e) new_roots (explained_first i m)

      func_at :
          (k : ℕ) (f : Func)
          → get_elem? (w.r.funcs ++ w.fn ∷ []) k ≡ some f
          → ((k < length d.r.funcs) × (get_elem? d.r.funcs k ≡ some f))
            ⊎ ((k ≡ length d.r.funcs) × (f.addr ≡ s.addr))
      func_at k f e =
          elim (get_elem?-func d.r.funcs w.fn k f
            (ap (λ (x : List Func). get_elem? (x ++ w.fn ∷ []) k) (sym funcs) ∙ e)) [
              | inl old ↦ inl old
              | inr (last, same) ↦ inr (last, ap (λ (x : Func). x.addr) same ∙ addr)
            ]

      entered_as-Sound : Sound img stubs fits (suc head) (entered_as w)
      entered_as-Sound = record {
        explained = explained;
        size = size;
        fsize = omega (arith, h.fsize, length-seen_set d.fseen (s.addr - img.seg_vaddr));
        taken = λ i t lt e t_inside. elim (Bool-cases (i == head)) [
          | inl last ↦
              let same : t ≡ s =
                some_eq
                  (sym e ∙ (ap (get_elem? w.queue) ((==_iff i head).0 last) ∙ keeps head s at)) in
              subst
                (λ (x : Seed).
                  seen_get (seen_set d.fseen (s.addr - img.seg_vaddr)) (x.addr - img.seg_vaddr)
                  ≡ true)
                (sym same) itself
          | inr before ↦
              let below : i < head = ground (arith, before, lt) in
              let (u, there) = elem_below d.queue head i s at below in
              let same : u ≡ t = some_eq (sym (keeps i u there) ∙ e) in
              let was =
                h.taken i t below (subst (λ (x : Seed). get_elem? d.queue i ≡ some x) same there)
                  t_inside in
              stays (t.addr - img.seg_vaddr) was
        ];
        entered = λ j m. elim (Bool-cases ((s.addr - img.seg_vaddr) / 2 == 2 * j / 2)) [
          | inl here ↦
              let there : get_elem? (w.r.funcs ++ w.fn ∷ []) (length w.r.funcs) ≡ some w.fn =
                get_elem?-func_new w.r.funcs w.fn in
              let same = (==_iff ((s.addr - img.seg_vaddr) / 2) (2 * j / 2)).0 here in
              let at_j : half img w.fn.addr ≡ j = ap (half img) addr ∙ omega (arith, same) in
              (length w.r.funcs, w.fn, there, at_j)
          | inr other ↦
              let before : seen_get d.fseen (2 * j) ≡ true =
                sym (
                  mark (2 * j)
                  ∙ ap (λ (b : Bool). if b then true else seen_get d.fseen (2 * j)) other)
                ∙ m in
              let (k, f, there, at_j) = h.entered j before in
              (
                k,
                f,
                get_elem?-func_old w.r.funcs w.fn k f
                    (ap (λ (x : List Func). get_elem? x k) funcs ∙ there),
                at_j,
              )
        ];
        marked = λ k f e. elim (func_at k f e) [
          | inl (lt, old) ↦
              let was = h.marked k f old in (was.0, stays (f.addr - img.seg_vaddr) was.1)
          | inr (last, same) ↦ (
            subst (λ (x : ℕ). in_segment img x ≡ true) (sym same) inside,
            subst
                (λ (x : ℕ).
                  seen_get (seen_set d.fseen (s.addr - img.seg_vaddr)) (x - img.seg_vaddr) ≡ true)
                (sym same) itself,
          )
        ];
        begun = λ k f e.
            elim (get_elem?-func d.r.funcs w.fn k f
              (ap (λ (x : List Func). get_elem? (x ++ w.fn ∷ []) k) (sym funcs) ∙ e)) [
                | inl (lt, old) ↦
                    Visited-KeepsSeen img stubs fits d.r w.r f.mode f.addr seen (h.begun k f old)
                | inr (last, same) ↦
                    let a : f.addr ≡ s.addr = ap (λ (x : Func). x.addr) same ∙ addr in
                    let m : f.mode ≡ s.mode = ap (λ (x : Func). x.mode) same ∙ mode in
                    subst (λ (x : ℕ). Visited img stubs fits w.r f.mode x) (sym a)
                      (subst (λ (x : Mode). Visited img stubs fits w.r x s.addr) (sym m) visited)
              ];
        distinct = λ j k f g lt e1 e2. elim (func_at k g e2) [
          | inl (k_lt, g_old) ↦ elim (func_at j f e1) [
            | inl (j_lt, f_old) ↦ h.distinct j k f g lt f_old g_old
            | inr (last, same) ↦ absurd (omega arith)
          ]
          | inr (k_last, g_new) ↦ elim (func_at j f e1) [
            | inl (j_lt, f_old) ↦
                subst (λ (x : ℕ). half img f.addr ≢ half img x) (sym g_new)
                  (apart f.addr (h.marked j f f_old).1)
            | inr (last, same) ↦ absurd (omega arith)
          ]
        ];
      }

  enter_rule :
      (head : ℕ) (d : Discovery) (s : Seed)
      → Sound img stubs fits head d
      → get_elem? d.queue head ≡ some s
      → Returns (Better head d) (enter img stubs s d)
  unfolding enter
  enter_rule head d s h at = elim (Bool-cases (in_segment img s.addr)) [
    | inr outside ↦
        rw (outside, enter) (skip head d s h at (λ e. absurd (false≢true (sym outside ∙ e))))
    | inl inside ↦ elim (Bool-cases (seen_get d.fseen (s.addr - img.seg_vaddr))) [
      | inl old ↦ rw (inside, old, enter) (skip head d s h at (λ e. old))
      | inr new ↦
          let fn = first head d s h at inside new in
          let fs = d.r.funcs ++ fn ∷ [] in
          let Inv : Found → List Seed → Func → Type 0 = λ r q f.
            AllExplained img stubs r q fs
            × (r.funcs ≡ d.r.funcs)
            × (f.addr ≡ s.addr)
            × (f.mode ≡ s.mode) in
          let walked =
            walk_rule img stubs fits Inv (OnPath head d s h at inside new)
              (λ m a n o w i here w_inside w_new big code.
                let k = step-funcs img stubs m a n o w in
                let root : IsRoot fs s.addr m =
                  subst (λ (x : Mode). IsRoot fs s.addr x) (sym here.1)
                    (first-IsRoot head d s h at inside new) in
                (
                  step-AllExplained img stubs fits fs s.addr m a n o w i.0 root here.0 w_inside
                      w_new big code,
                  k.0 ∙ i.1,
                  k.1 ∙ i.2,
                  k.2 ∙ i.3,
                ))
              (λ m a n o here code on. (goes_on here.0 code (flows_on-GoesOn o on), here.1))
              (λ m a n o t here code c target. (jumps here.0 code c target, here.1)) d.r d.queue
              s.addr s.mode fn
              (
                (λ i marked.
                    Explained-Keeps img stubs i d.queue d.queue d.r.funcs fs (λ j t e. e)
                      (old_roots head d s h at inside new) (h.explained i marked)),
                refl,
                refl,
                refl,
              )
              h.size (starts, refl) in
          rw (inside, new, enter)
            (Returns_then _ (Better head d) (walk img stubs d.r d.queue s.addr s.mode fn) _ walked
              (λ w i. (
                entered_as-Sound head d s h at inside new w i.0.0 i.1 i.0.1 i.0.2 i.0.3 i.3 i.4 i.5,
                i.3,
                i.2,
              )))
    ]
  ]

  -- The loop ends with every seed taken.
  pub drain_rule :
      (fuel head : ℕ) (d : Discovery)
      → Sound img stubs fits head d
      → head ≤ length d.queue
      → (length d.queue - head) + left_over img d.r < fuel
      → Returns
          (λ d'. Sound img stubs fits (length d'.queue) d' × Keeps d.queue d'.queue)
          (drain fuel img stubs head d)
  unfolding drain
  drain_rule zero head d h le enough = absurd (omega arith)
  drain_rule (suc fuel) head d h le enough = elim (Option-cases (get_elem? d.queue head)) [
    | inl e ↦
        let all : head ≡ length d.queue = omega (arith, le, at_end d.queue head e) in
        rw (e, drain) (subst (λ (n : ℕ). Sound img stubs fits n d) all h, (λ i s there. there))
    | inr (s, e) ↦
        let within = inside_of d.queue head s e in
        rw (e, drain)
          (Returns_then (Better head d) _ (enter img stubs s d) (drain fuel img stubs (suc head))
            (enter_rule head d s h e)
            (λ v b.
              let still = inside_of v.queue head s (b.1 head s e) in
              Returns_map _ _ (drain fuel img stubs (suc head) v)
                (drain_rule fuel (suc head) v b.0 (omega (arith, still))
                  (omega (arith, still, within, b.2, enough)))
                (λ d' r. (r.0, (λ i t there. r.1 i t (b.1 i t there))))))
  ]
