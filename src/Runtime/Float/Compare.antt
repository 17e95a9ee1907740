-- ===== src/Runtime/Float/Compare.antt =====
-- The condition codes after a float comparison of src/vfp.c has been moved to the core flags.
use vitarecomp.Base.{◌≡◌, refl, Bool, true, false, not, ◌&&◌, ◌||◌, ◌⊎◌, inl, inr}
use vitarecomp.Runtime.Alu.{Flags, cond}
use vitarecomp.Runtime.Float.{set_flags, vfp_cmp, vfp_mrs_apsr}

-- Of three answers the first is yes and the others are no.
abbrev pub Only : Bool → Bool → Bool → Type 0
Only x y z = (x ≡ true) × (y ≡ false) × (z ≡ false)

-- What IEEE 754 says of the host's `<` and `==`: a NaN is not equal to itself, and neither less than nor
-- equal to anything; of two other floats just one of less, equal and greater holds.
pub record IsIeee {F : Type 0} (less equal : F → F → Bool) : Type 0 where
  pub ordered :
      (a b : F)
      → equal a a ≡ true
      → equal b b ≡ true
      → Only (less a b) (equal a b) (less b a)
        ⊎ (Only (equal a b) (less a b) (less b a) ⊎ Only (less b a) (less a b) (equal a b))
  pub unordered :
      (a b : F)
      → (equal a a && equal b b) ≡ false
      → (less a b ≡ false) × (equal a b ≡ false) × (less b a ≡ false)

-- The flags in the terms of the comparison: the codes that ask for equal, less, less or equal, greater or
-- equal, greater and unordered.
Asks : Flags → (lt eq gt ordered : Bool) → Type 0
Asks g lt eq gt ordered =
    (cond g 0x0 ≡ eq)
    × (cond g 0x4 ≡ lt)
    × (cond g 0x9 ≡ (lt || eq))
    × (cond g 0xa ≡ (gt || eq))
    × (cond g 0xc ≡ gt)
    × (cond g 0x6 ≡ not ordered)

set_flags_lem :
    (core : Flags) (lt eq gt l r : Bool)
    → ((l ≡ true) → (r ≡ true) → Only lt eq gt ⊎ (Only eq lt gt ⊎ Only gt lt eq))
    → ((l && r) ≡ false → (lt ≡ false) × (eq ≡ false) × (gt ≡ false))
    → Asks (vfp_mrs_apsr core (set_flags lt eq (not l || not r))) lt eq gt (l && r)
unfolding Asks set_flags vfp_mrs_apsr cond
set_flags_lem core lt eq gt true true h u = elim (h refl refl) [
  | inl (a, b, c) ↦ rw a (rw b (rw c (refl, refl, refl, refl, refl, refl)))
  | inr (inl (a, b, c)) ↦ rw a (rw b (rw c (refl, refl, refl, refl, refl, refl)))
  | inr (inr (a, b, c)) ↦ rw a (rw b (rw c (refl, refl, refl, refl, refl, refl)))
]
set_flags_lem core lt eq gt true false h u =
    let (a, b, c) = u refl in rw a (rw b (rw c (refl, refl, refl, refl, refl, refl)))
set_flags_lem core lt eq gt false true h u =
    let (a, b, c) = u refl in rw a (rw b (rw c (refl, refl, refl, refl, refl, refl)))
set_flags_lem core lt eq gt false false h u =
    let (a, b, c) = u refl in rw a (rw b (rw c (refl, refl, refl, refl, refl, refl)))

-- Where the host compares as IEEE 754 says, after vfp_cmp of `a` and `b` and vfp_mrs_apsr EQ asks whether they
-- are equal, MI whether `a` is less, LS whether it is less or equal, GE whether it is greater or equal
-- and GT whether it is greater, and VS whether one of them is a NaN.
pub cond-vfp_cmp :
    {F : Type 0} (less equal : F → F → Bool) (core : Flags) (a b : F)
    → IsIeee less equal
    → let g = vfp_mrs_apsr core (vfp_cmp less equal a b) in
      (cond g 0x0 ≡ equal a b)
      × (cond g 0x4 ≡ less a b)
      × (cond g 0x9 ≡ (less a b || equal a b))
      × (cond g 0xa ≡ (less b a || equal a b))
      × (cond g 0xc ≡ less b a)
      × (cond g 0x6 ≡ not (equal a a && equal b b))
unfolding vfp_cmp Asks
cond-vfp_cmp less equal core a b h =
    set_flags_lem core (less a b) (equal a b) (less b a) (equal a a) (equal b b) (h.ordered a b)
      (h.unordered a b)
