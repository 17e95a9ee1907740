-- ===== src/Analyze/Walk/Reached.antt =====
-- The places that the flow of control comes to from a start, in one instruction set: the description of
-- what walk of tools/armrecomp/analyze.c follows.
use mathlib.Core.Bool.{false≢true}
use vitarecomp.Base.{ℕ, ◌+◌, ◌%◌, ◌^◌, ◌≡◌, ◌≢◌, sym, ◌∙◌, true, false, some}
use vitarecomp.Decode.Insn.{branch, return_class, indirect, Insn}
use vitarecomp.Decode.Entry.{Mode, decoded, arm_decode}
use vitarecomp.Imports.{Image}
use vitarecomp.Analyze.Walk.{text, flows_on}

-- The next instruction may run: this one is no return, no indirect branch, and no branch without a
-- condition to a known target.
abbrev pub GoesOn : Insn → Type 0
GoesOn o =
    (o.cls ≢ return_class)
    × (o.cls ≢ indirect)
    × ((t : ℕ) → o.cls ≡ branch → o.target ≡ some t → o.conditional ≡ true)

pub data Reached (img : Image) (start : ℕ) (m : Mode) : ℕ → Type 0 where
  starts : Reached img start m start
  goes_on :
      {a n : ℕ} {o : Insn}
      → Reached img start m a
      → arm_decode (text img) img.seg_vaddr a m ≡ decoded n o
      → GoesOn o
      → Reached img start m ((a + n) % 2 ^ 32)
  jumps :
      {a n t : ℕ} {o : Insn}
      → Reached img start m a
      → arm_decode (text img) img.seg_vaddr a m ≡ decoded n o
      → o.cls ≡ branch
      → o.target ≡ some t
      → Reached img start m t

pub flows_on-GoesOn : (o : Insn) → flows_on o ≡ true → GoesOn o
unfolding flows_on
flows_on-GoesOn o h = (
  (λ e. let q : flows_on o ≡ false = simp (e, flows_on) in false≢true (sym q ∙ h)),
  (λ e. let q : flows_on o ≡ false = simp (e, flows_on) in false≢true (sym q ∙ h)),
  (λ t e x. let q : flows_on o ≡ o.conditional = simp (e, x, flows_on) in sym q ∙ h),
)
