-- ===== src/Runtime/Hle/Strings.antt =====
-- strlen and strcpy on strings in guest memory.
use mathlib.Core.List.{append_assoc}
use vitarecomp.Base.{
  ℕ, zero, suc, ◌+◌, ◌-◌, ◌%◌, ◌^◌, ◌≤◌, ◌<◌, ◌≡◌, refl, sym, ap, ◌∙◌, List, [], ◌∷◌, ◌++◌, length,
  get_or, drop, length-append, arith, ◌⊎◌,
}
use vitarecomp.Runtime.Mem.{load, store}
use vitarecomp.Runtime.Mem.Laws.{Backed}
use vitarecomp.Runtime.Hle.{Cpu, return, hle_strlen, hle_strcpy}
use vitarecomp.Runtime.Hle.Backing.{machine, IsString, gstrlen-IsString}
use vitarecomp.Runtime.Hle.Copying.{Copied, store-Copied, move-Backed}

-- The string with its terminator.
pub load_string :
    (xs ys : List ℕ) (n off : ℕ) (bs : List ℕ)
    → length xs ≤ n
    → load n off bs ≡ xs ++ ys
    → load (length xs) off bs ≡ xs
unfolding load
load_string [] ys n off bs h e = refl
load_string (x ∷ xs) ys zero off bs h e = absurd (omega arith)
load_string (x ∷ xs) ys (suc n) off bs h e =
    let head = ap (λ (l : List ℕ). get_or l 0 0) e in
    let tail = ap (λ (l : List ℕ). drop 1 l) e in
    ap (λ (b : ℕ). b ∷ load (length xs) (suc off) bs) head
    ∙ ap (λ (t : List ℕ). x ∷ t) (load_string xs ys n (suc off) bs (omega arith) tail)

module _ (c : Cpu) (base : ℕ) (bs : List ℕ) (bad : ℕ) where
  -- strlen of a guest string leaves its length in r0 and touches nothing else.
  pub hle_strlen-IsString :
      (s : List ℕ)
      → IsString base bs c.r0 s
      → hle_strlen (machine c base bs bad) ≡ return (length s) (machine c base bs bad)
  unfolding hle_strlen
  hle_strlen-IsString s h =
      let p = gstrlen-IsString c base bs bad c.r0 s h in rw (p, hle_strlen) refl

  -- strcpy of a guest string to a backed range that does not overlap it: the range then holds the
  -- string and its terminator, the other bytes and the registers are kept, and nothing traps.
  pub hle_strcpy-Copied :
      (s : List ℕ)
      → IsString base bs c.r1 s
      → Backed base bs c.r0 (length s + 1)
      → (c.r0 + length s < c.r1) ⊎ (c.r1 + length s < c.r0)
      → (after : List ℕ) × (hle_strcpy (machine c base bs bad) ≡ machine c base after bad)
        × Copied base bs c.r0 (s ++ (0 ∷ [])) after
  unfolding hle_strcpy
  hle_strcpy-Copied s h d apart =
      let p = gstrlen-IsString c base bs bad c.r1 s h in
      let xs = s ++ (0 ∷ []) in
      let size : length xs ≡ length s + 1 = length-append s (0 ∷ []) in
      let fits : (length s + 1) % 2 ^ 32 ≡ length s + 1 = omega (arith, h.inside, h.small) in
      let text : load (length s + 1) (c.r1 - base) bs ≡ xs = rw size at (
        load_string xs h.rest (length bs - (c.r1 - base)) (c.r1 - base) bs
          (omega (arith, size, h.inside)) (h.bytes ∙ sym (append_assoc s (0 ∷ []) h.rest))) in
      let moved =
        move-Backed c base bs bad c.r0 c.r1 (length s + 1) (omega arith) d
          (record { above = h.above; inside = omega (arith, h.inside) }) in
      (
        store xs (c.r0 - base) bs,
        rw (p, hle_strcpy)
            (rw fits
              (moved ∙ ap (λ (l : List ℕ). machine c base (store l (c.r0 - base) bs) bad) text)),
        store-Copied base bs c.r0 xs (omega (arith, size, d.inside)),
      )
