-- ===== src/Decode/Valid.antt =====
-- The well-formedness of decoded instructions.
pub mod Narrow
pub mod Float
pub mod Wide
pub mod Entry
use vitarecomp.Base.{
  ℕ, ◌+◌, ◌-◌, ◌*◌, ◌/◌, ◌%◌, ◌^◌, ◌≤◌, ◌<◌, Bool, true, false, not, ◌&&◌, ◌==◌, ◌≡◌, Option, none,
  some, List, [], ◌∷◌, get_or, All, zero, suc, arith,
}
use vitarecomp.Decode.Insn.{
  Class, unknown_class, undef, alu, load, store, loadm, storem, branch, call, return_class,
  indirect, simd, sys, nop_class, Op, it, VfpInsn, Insn, blank,
}

-- A number that is named is below `n`.
abbrev pub IsBelow : ℕ → Option ℕ → Type 0
IsBelow n none = Unit {0}
IsBelow n (some r) = r < n

-- A branch has a target, a 32-bit word; a call may have one, and nothing else has.
abbrev pub FlowOk : Class → Option ℕ → Type 0
FlowOk branch none = ⊥
FlowOk branch (some t) = t < 2 ^ 32
FlowOk call none = Unit {0}
FlowOk call (some t) = t < 2 ^ 32
FlowOk _ none = Unit {0}
FlowOk _ (some t) = ⊥

-- Float registers are below 32 and core registers below 16.
pub record HasRegs (v : VfpInsn) : Type 0 where
  pub vd : IsBelow 32 v.vd
  pub vn : IsBelow 32 v.vn
  pub vm : IsBelow 32 v.vm
  pub rn : IsBelow 16 v.rn
  pub rt : IsBelow 16 v.rt

abbrev pub VfpOk : Option VfpInsn → Type 0
VfpOk none = Unit {0}
VfpOk (some v) = HasRegs v

-- A condition other than "always" is one of a branch or of an IT instruction.
abbrev pub is_branch : Class → Bool
is_branch branch = true
is_branch _ = false

abbrev pub is_it : Op → Bool
is_it it = true
is_it _ = false

-- The guard that emit_insn of tools/armrecomp/emit.c writes around an instruction.
abbrev pub guarded : Insn → Bool
guarded o = not (is_branch o.cls) && (not (o.cond == 14) && not (is_it o.op))

-- Without a condition there is no guard.
pub always-unguarded : (c : Bool) → c && false ≡ false
always-unguarded c = ground arith

-- The registers are registers, the other fields have their widths, a bitfield lies within a word, and
-- there is a target where the class wants one; emit_insn writes no guard.
pub record IsInsn (o : Insn) : Type 0 where
  pub rd : IsBelow 16 o.rd
  pub rn : IsBelow 16 o.rn
  pub rm : IsBelow 16 o.rm
  pub rt : IsBelow 16 o.rt
  pub rt2 : IsBelow 16 o.rt2
  pub reglist : o.reglist < 2 ^ 16
  pub cond : o.cond < 16
  pub unguarded : guarded o ≡ false
  pub shift : (o.shift_type < 4) × (o.shift_amt < 32)
  pub bitfield : o.bf_lsb + o.bf_width ≤ 32
  pub vfp : VfpOk o.vfp
  pub flow : FlowOk o.cls o.target

pub all-get_or {ℓ κ} :
    {A : Type ℓ} (P : A → Type κ) (xs : List A) (i : ℕ) (d : A) → All P xs → P d → P (get_or xs i d)
all-get_or P [] i d h p = p
all-get_or P (x ∷ xs) zero d h p = h.0
all-get_or P (x ∷ xs) (suc i) d h p = all-get_or P xs i d h.1 p
