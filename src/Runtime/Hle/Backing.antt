-- ===== src/Runtime/Hle/Backing.antt =====
-- gp and gstrlen on a machine with backed guest memory.
use vitarecomp.Base.{
  ℕ, ◌+◌, ◌-◌, ◌^◌, ◌≤◌, ◌<◌, ◌≡◌, refl, false, some, List, [], ◌∷◌, ◌++◌, length, leb, ltb, ◌==◌,
  arith, All,
}
use vitarecomp.Runtime.Mem.{mem_avail, load}
use vitarecomp.Runtime.Mem.Laws.{Backed, region, mem_ptr-Backed}
use vitarecomp.Runtime.Hle.{Cpu, Machine, index, gp, get, gstrlen}

module _ (c : Cpu) (base : ℕ) (bs : List ℕ) (bad : ℕ) where
  abbrev pub machine : Machine
  machine = record { cpu = c; mem = region base bs bad }

  -- A pointer to backed addresses is passed on, without a trap.
  pub gp-Backed :
      (addr n : ℕ)
      → 0 < n
      → Backed base bs addr n
      → gp addr n machine ≡ (machine, some (addr - base))
  unfolding gp
  gp-Backed addr n pos b =
      let some_bytes : (n == 0) ≡ false = ground arith in
      let p = mem_ptr-Backed base bs bad addr n b in rw (p, some_bytes, gp) (rw p refl)

-- The index of the terminator.
index_zero : (s rest : List ℕ) → All (λ x. 0 < x) s → index 0 (s ++ (0 ∷ rest)) ≡ some (length s)
unfolding index
index_zero [] rest h = refl
index_zero (x ∷ s) rest h =
    let ne : (x == 0) ≡ false = ground (arith, h.0) in rw (ne, index_zero s rest h.1) refl

-- Guest memory holds the bytes `s` at `addr`, none of them NUL, and a NUL behind them.
pub record IsString (base : ℕ) (bs : List ℕ) (addr : ℕ) (s : List ℕ) : Type 0 where
  pub nonzero : All (λ x. 0 < x) s
  pub above : base ≤ addr
  pub inside : addr - base + length s < length bs
  pub small : length bs < 2 ^ 32
  pub rest : List ℕ
  pub bytes : load (length bs - (addr - base)) (addr - base) bs ≡ s ++ (0 ∷ rest)

module _ (c : Cpu) (base : ℕ) (bs : List ℕ) (bad : ℕ) where
  avail-IsString :
      (addr : ℕ) (s : List ℕ)
      → IsString base bs addr s
      → mem_avail addr (region base bs bad) ≡ length bs - (addr - base)
  unfolding mem_avail
  avail-IsString addr s h =
      let a : ltb addr base ≡ false = ground (arith, h.above) in
      let b : leb (length bs) (addr - base) ≡ false = ground (arith, h.inside) in
      rw (a, b) (omega (arith, h.small))

  -- The length of a string is measured without a trap.
  pub gstrlen-IsString :
      (addr : ℕ) (s : List ℕ)
      → IsString base bs addr s
      → gstrlen addr (machine c base bs bad) ≡ (machine c base bs bad, length s)
  unfolding gstrlen get
  gstrlen-IsString addr s h =
      let a = avail-IsString addr s h in
      let some_left : (length bs - (addr - base) == 0) ≡ false = ground (arith, h.inside) in
      let p =
        mem_ptr-Backed base bs bad addr 1
          (record { above = h.above; inside = omega (arith, h.inside) }) in
      rw (a, some_left, p, gstrlen) (rw (p, a, h.bytes, index_zero s h.rest h.nonzero) (rw p refl))
