-- ===== src/Analyze/Walk/Rule.antt =====
-- The rule of the loops of walk: they end, and keep what each instruction keeps.
use vitarecomp.Base.{
  ℕ, zero, suc, ◌+◌, ◌-◌, ◌≤◌, ◌≡◌, refl, ap, ◌∙◌, Option, none, some, List, [], ◌∷◌, ◌++◌, length,
  length-append, get_elem?, arith, ◌⊎◌, inl, inr, none_ne_some, option_holds, if_holds,
  Option-cases, All, false,
}
use vitarecomp.Decode.Insn.{
  Class, unknown_class, undef, alu, load, store, loadm, storem, branch, call, return_class,
  indirect, simd, sys, nop_class, Insn,
}
use vitarecomp.Decode.Entry.{Mode}
use vitarecomp.Imports.{Image, Stub}
use vitarecomp.Analyze.Bitmap.{seen_set}
use vitarecomp.Analyze.Walk.{
  Seed, refused, Walk, note_insn, seed_call, seed_block, take_class, take_insn,
}

-- What holds of a result that is there.
abbrev pub Returns : {A : Type 0} → (A → Type 0) → Option A → Type 0
Returns P none = ⊥
Returns P (some x) = P x

pub Returns_map :
    {A : Type 0} (P Q : A → Type 0) (o : Option A)
    → Returns P o
    → ((x : A) → P x → Q x)
    → Returns Q o
Returns_map P Q none h f = h
Returns_map P Q (some x) h f = f x h

pub Returns_then :
    {A B : Type 0} (P : A → Type 0) (Q : B → Type 0) (o : Option A) (f : A → Option B)
    → Returns P o
    → ((x : A) → P x → Returns Q (f x))
    → Returns Q (elim o [ none ↦ none | some x ↦ f x ])
Returns_then P Q none f h g = h
Returns_then P Q (some x) f h g = g x h

-- What holds of both cases of a list holds of the whole.
pub list_holds :
    {A B : Type 0} (P : B → Type 0) (xs : List A) (x : B) (f : A → List A → B)
    → (xs ≡ [] → P x)
    → ((y : A) (ys : List A) → xs ≡ y ∷ ys → P (f y ys))
    → P (elim xs [ [] ↦ x | y ∷ ys ↦ f y ys ])
list_holds P [] x f p q = p refl
list_holds P (y ∷ ys) x f p q = q y ys refl

-- The entries of a queue stand where they stood.
abbrev pub Keeps : List Seed → List Seed → Type 0
Keeps q q' = (i : ℕ) (s : Seed) → get_elem? q i ≡ some s → get_elem? q' i ≡ some s

pub get_elem?-append :
    (q : List Seed) (t : Seed) (i : ℕ) (s : Seed)
    → get_elem? q i ≡ some s
    → get_elem? (q ++ t ∷ []) i ≡ some s
get_elem?-append [] t i s h = absurd (none_ne_some h)
get_elem?-append (x ∷ q) t zero s h = h
get_elem?-append (x ∷ q) t (suc i) s h = get_elem?-append q t i s h

pub get_elem?-last : (q : List Seed) (t : Seed) → get_elem? (q ++ t ∷ []) (length q) ≡ some t
get_elem?-last [] t = refl
get_elem?-last (x ∷ q) t = get_elem?-last q t

-- A queue that is as it was, or has a seed more.
abbrev pub Grows : List Seed → List Seed → Type 0
Grows q q' = (q' ≡ q) ⊎ ((s : Seed) × (q' ≡ q ++ s ∷ []))

pub Grows-length : (q q' : List Seed) → Grows q q' → length q' ≤ length q + 1
Grows-length q q' (inl e) = omega (arith, ap (λ (x : List Seed). length x) e)
Grows-length q q' (inr (s, e)) =
    omega (arith, ap (λ (x : List Seed). length x) e, length-append {0} q (s ∷ []))

pub Grows-Keeps : (q q' : List Seed) → Grows q q' → Keeps q q'
Grows-Keeps q q' (inl e) i s h = ap (λ (x : List Seed). get_elem? x i) e ∙ h
Grows-Keeps q q' (inr (t, e)) i s h =
    ap (λ (x : List Seed). get_elem? x i) e ∙ get_elem?-append q t i s h

-- What an instruction adds.
abbrev pub step : Image → List Stub → Mode → (a n : ℕ) → Insn → Walk → Walk
step img stubs m a n o w = take_insn stubs m o (note_insn a (a - img.seg_vaddr) n o w)

seed_call-Grows :
    (stubs : List Stub) (m : Mode) (o : Insn) (w : Walk)
    → Grows w.queue (seed_call stubs m o w).queue
unfolding seed_call
seed_call-Grows stubs m o w =
    option_holds (λ (v : Walk). Grows w.queue v.queue) o.target _ _ (inl refl)
      (λ t.
        if_holds (λ (v : Walk). Grows w.queue v.queue) (refused stubs m o t) _ _ (inl refl)
          (inr (_, refl)))

seed_block-queue : (m : Mode) (o : Insn) (w : Walk) → (seed_block m o w).queue ≡ w.queue
unfolding seed_block
seed_block-queue m o w =
    option_holds (λ (v : Walk). v.queue ≡ w.queue) o.target _ _ refl (λ t. refl)

pub take_class-Grows :
    (c : Class) (stubs : List Stub) (m : Mode) (o : Insn) (w : Walk)
    → Grows w.queue (take_class c stubs m o w).queue
unfolding take_class
take_class-Grows call stubs m o w = seed_call-Grows stubs m o w
take_class-Grows branch stubs m o w = inl (seed_block-queue m o w)
take_class-Grows indirect stubs m o w = inl refl
take_class-Grows unknown_class stubs m o w = inl refl
take_class-Grows undef stubs m o w = inl refl
take_class-Grows alu stubs m o w = inl refl
take_class-Grows load stubs m o w = inl refl
take_class-Grows store stubs m o w = inl refl
take_class-Grows loadm stubs m o w = inl refl
take_class-Grows storem stubs m o w = inl refl
take_class-Grows return_class stubs m o w = inl refl
take_class-Grows simd stubs m o w = inl refl
take_class-Grows sys stubs m o w = inl refl
take_class-Grows nop_class stubs m o w = inl refl

-- The map is as it was, and there is at most one block more.
pub take_class-same :
    (c : Class) (stubs : List Stub) (m : Mode) (o : Insn) (w : Walk)
    → ((take_class c stubs m o w).r.seen ≡ w.r.seen)
      × (length (take_class c stubs m o w).blocks ≤ length w.blocks + 1)
unfolding take_class seed_call seed_block
take_class-same c stubs m o w = ground arith

-- What holds of the blocks and of the target of a branch holds of the blocks that are left.
pub take_class-blocks :
    (P : Seed → Type 0) (c : Class) (stubs : List Stub) (m : Mode) (o : Insn) (w : Walk)
    → All P w.blocks
    → ((t : ℕ) → c ≡ branch → o.target ≡ some t → P (record { addr = t; mode = m; heur = false }))
    → All P (take_class c stubs m o w).blocks
unfolding take_class seed_call seed_block
take_class-blocks P branch stubs m o w h jump = elim (Option-cases o.target) [
  | inl e ↦ rw e h
  | inr (t, e) ↦ rw e (jump t refl e, h)
]
take_class-blocks P call stubs m o w h jump =
    option_holds (λ (v : Walk). All P v.blocks) o.target _ _ h
      (λ t. if_holds (λ (v : Walk). All P v.blocks) (refused stubs m o t) _ _ h h)
take_class-blocks P indirect stubs m o w h jump = h
take_class-blocks P unknown_class stubs m o w h jump = h
take_class-blocks P undef stubs m o w h jump = h
take_class-blocks P alu stubs m o w h jump = h
take_class-blocks P load stubs m o w h jump = h
take_class-blocks P store stubs m o w h jump = h
take_class-blocks P loadm stubs m o w h jump = h
take_class-blocks P storem stubs m o w h jump = h
take_class-blocks P return_class stubs m o w h jump = h
take_class-blocks P simd stubs m o w h jump = h
take_class-blocks P sys stubs m o w h jump = h
take_class-blocks P nop_class stubs m o w h jump = h

pub note_insn-same :
    (a off n : ℕ) (o : Insn) (w : Walk)
    → ((note_insn a off n o w).r.seen ≡ seen_set w.r.seen off)
      × ((note_insn a off n o w).blocks ≡ w.blocks)
      × ((note_insn a off n o w).queue ≡ w.queue)
unfolding note_insn
note_insn-same a off n o w = (refl, refl, refl)
