-- ===== src/Analyze/Discover/Complete.antt =====
-- vf_discover ends with every function that is called.
use vitarecomp.Base.{◌⊎◌, ℕ, ◌-◌, ◌*◌, ◌<◌, ◌≡◌, ◌≢◌, true, false, Option, some, List, get_elem?}
use vitarecomp.Decode.Insn.{call, Insn}
use vitarecomp.Decode.Entry.{Mode, nothing, decoded, arm_decode}
use vitarecomp.Imports.{Image, Stub}
use vitarecomp.Imports.Parse.{ModuleInfo}
use vitarecomp.Analyze.Bitmap.{seen_get}
use vitarecomp.Analyze.Walk.{Seed, Func, text, in_segment, refused}
use vitarecomp.Analyze.Discover.{Discovery}
use vitarecomp.Analyze.Discover.Calls.{IsRoot}
use vitarecomp.Analyze.Walk.Reached.{Reached}
use vitarecomp.Analyze.Discover.Sources.{Sweeps, entry_of}
use vitarecomp.Analyze.Discover.Entries.{half}

-- Some function starts in the halfword of `t`.
abbrev pub IsFunction : Image → List Func → (t : ℕ) → Type 0
IsFunction img fs t =
    (k : ℕ) × (f : Func) × (get_elem? fs k ≡ some f) × (half img f.addr ≡ half img t)

-- What a discovery promises.
pub record Complete (img : Image) (info : Option ModuleInfo) (stubs : List Stub) (d : Discovery)
    : Type 0 where
  -- Each mark stands for an instruction that the flow of control comes to from the start of a function, in
  -- its instruction set; and the target of a call among these that is not refused is a function.
  pub calls :
      (i : ℕ)
      → seen_get d.r.seen (2 * i) ≡ true
      → (start a : ℕ) × (m : Mode) × (n : ℕ) × (o : Insn) × IsRoot d.r.funcs start m
        × Reached img start m a
        × (half img a ≡ i)
        × (arm_decode (text img) img.seg_vaddr a m ≡ decoded n o)
        × ((t : ℕ)
            → o.cls ≡ call
            → o.target ≡ some t
            → refused stubs m o t ≡ false
            → in_segment img t ≡ true
            → IsFunction img d.r.funcs t)
  -- So is module_start, and the target of each call of the sweep.
  pub entry :
      (i : ModuleInfo)
      → info ≡ some i
      → i.module_start ≢ 0xffff_ffff
      → in_segment img (entry_of img i) ≡ true
      → IsFunction img d.r.funcs (entry_of img i)
  pub swept : (k t : ℕ) → Sweeps img stubs k t → IsFunction img d.r.funcs t
  -- Each seed in the segment is a function.
  pub seeds :
      (i : ℕ) (s : Seed)
      → get_elem? d.queue i ≡ some s
      → in_segment img s.addr ≡ true
      → IsFunction img d.r.funcs s.addr
  -- No two functions start in one halfword, and all start in the segment.
  pub distinct :
      (j k : ℕ) (f g : Func)
      → j < k
      → get_elem? d.r.funcs j ≡ some f
      → get_elem? d.r.funcs k ≡ some g
      → half img f.addr ≢ half img g.addr
  -- The first instruction of each function is marked, unless there is none.
  pub begun :
      (k : ℕ) (f : Func)
      → get_elem? d.r.funcs k ≡ some f
      → (seen_get d.r.seen (f.addr - img.seg_vaddr) ≡ true)
        ⊎ (arm_decode (text img) img.seg_vaddr f.addr f.mode ≡ nothing)
  pub inside : (k : ℕ) (f : Func) → get_elem? d.r.funcs k ≡ some f → in_segment img f.addr ≡ true
