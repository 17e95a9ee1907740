-- ===== src/Runtime/Float.antt =====
-- src/vfp.c: the flags of a float comparison. What the host says of two floats is an argument.
pub mod Compare
use vitarecomp.Base.{ℕ, Bool, true, false, not, ◌||◌, if◌then◌else◌}
use vitarecomp.Runtime.Alu.{Flags}

-- set_flags; the record holds fpscr_n to fpscr_v.
unfoldable pub set_flags : (lt eq unordered : Bool) → Flags
set_flags lt eq unordered =
    if unordered
    then record { n = 0; z = 0; c = 1; v = 1 }
    else if eq
    then record { n = 0; z = 1; c = 1; v = 0 }
    else if lt
    then record { n = 1; z = 0; c = 0; v = 0 }
    else record { n = 0; z = 0; c = 1; v = 0 }

-- vfp_cmp_f32 and vfp_cmp_f64 on a type of floats with its `<` and `==`.
unfoldable pub vfp_cmp : {F : Type 0} → (F → F → Bool) → (F → F → Bool) → F → F → Flags
vfp_cmp less equal a b = set_flags (less a b) (equal a b) (not (equal a a) || not (equal b b))

-- vfp_mrs_apsr: the core flags become the float flags.
unfoldable pub vfp_mrs_apsr : (core fpscr : Flags) → Flags
vfp_mrs_apsr core fpscr = fpscr
