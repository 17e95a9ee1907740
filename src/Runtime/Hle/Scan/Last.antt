-- ===== src/Runtime/Hle/Scan/Last.antt =====
-- vita_hle_strrchr of src/hle_libc.c, on strings in guest memory.
use mathlib.Core.List.{append_assoc}
use vitarecomp.Base.{
  subst, ℕ, zero, suc, ◌+◌, ◌-◌, ◌%◌, ◌^◌, ◌<◌, ◌≡◌, ◌≢◌, refl, sym, ap, ◌∙◌, Option, none, some,
  List, [], ◌∷◌, ◌++◌, length, get_or, ◌==◌, ==_iff, length-append, arith, Bool-cases, inl, inr,
}
use vitarecomp.Runtime.Mem.{load}
use vitarecomp.Runtime.Hle.{Cpu, Machine, return, get, gp}
use vitarecomp.Runtime.Hle.Backing.{machine, IsString, gp-Backed, gstrlen-IsString}
use vitarecomp.Runtime.Hle.Strings.{load_string}
use vitarecomp.Runtime.Hle.Scan.{last_index, strrchr_in, hle_strrchr}

-- The last of the first `n` places of a list that holds `x`, or that none does.
unfoldable pub IsLast : (n x : ℕ) (xs : List ℕ) → Option ℕ → Type 0
IsLast n x xs none = (j : ℕ) → j < n → get_or xs j 0 ≢ x
IsLast n x xs (some i) =
    (i < n) × (get_or xs i 0 ≡ x) × ((j : ℕ) → i < j → j < n → get_or xs j 0 ≢ x)

IsLast-suc :
    (n x : ℕ) (xs : List ℕ) (r : Option ℕ)
    → get_or xs n 0 ≢ x
    → IsLast n x xs r
    → IsLast (suc n) x xs r
unfolding IsLast
IsLast-suc n x xs none ne h = λ j lt. elim (Bool-cases (j == n)) [
  | inl e ↦ subst (λ (k : ℕ). get_or xs k 0 ≢ x) (sym ((==_iff j n).0 e)) ne
  | inr less ↦ h j (ground (arith, less, lt))
]
IsLast-suc n x xs (some i) ne (lt, at, last) = (
  omega arith,
  at,
  λ j above below. elim (Bool-cases (j == n)) [
    | inl e ↦ subst (λ (k : ℕ). get_or xs k 0 ≢ x) (sym ((==_iff j n).0 e)) ne
    | inr less ↦ last j above (ground (arith, less, below))
  ],
)

last_index-IsLast : (n x : ℕ) (xs : List ℕ) → IsLast n x xs (last_index n x xs)
unfolding last_index IsLast
last_index-IsLast zero x xs = λ j lt. absurd (omega arith)
last_index-IsLast (suc n) x xs = elim (Bool-cases (get_or xs n 0 == x)) [
  | inl here ↦
      rw (here, last_index)
        (omega arith, (==_iff _ x).0 here, λ j above below. absurd (omega arith))
  | inr miss ↦
      rw (miss, last_index)
        (IsLast-suc n x xs (last_index n x xs) (ground (arith, miss)) (last_index-IsLast n x xs))
]

module _ (c : Cpu) (base : ℕ) (bs : List ℕ) (bad : ℕ) where
  reads :
      (s : List ℕ) (r : Option ℕ)
      → IsString base bs c.r0 s
      → last_index (length s + 1) (c.r1 % 256) (s ++ (0 ∷ [])) ≡ r
      → hle_strrchr (machine c base bs bad) ≡ elim r [
        | none ↦ return 0 (machine c base bs bad)
        | some i ↦ return ((c.r0 + i) % 2 ^ 32) (machine c base bs bad)
      ]
  unfolding hle_strrchr strrchr_in get
  reads s r h e =
      let xs = s ++ (0 ∷ []) in
      let size : length xs ≡ length s + 1 = length-append s (0 ∷ []) in
      let fits : (length s + 1) % 2 ^ 32 ≡ length s + 1 = omega (arith, h.inside, h.small) in
      let text : load (length s + 1) (c.r0 - base) bs ≡ xs = rw size at (
        load_string xs h.rest (length bs - (c.r0 - base)) (c.r0 - base) bs
          (omega (arith, size, h.inside)) (h.bytes ∙ sym (append_assoc s (0 ∷ []) h.rest))) in
      let p = gstrlen-IsString c base bs bad c.r0 s h in
      let q =
        gp-Backed c base bs bad c.r0 (length s + 1) (omega arith)
          (record { above = h.above; inside = omega (arith, h.inside) }) in
      let c' = c.r1 % 256 in
      ap
        (λ (w : Machine × ℕ).
          strrchr_in c.r0 c' ((w.1 + 1) % 2 ^ 32) (gp c.r0 ((w.1 + 1) % 2 ^ 32) w.0))
        p
      ∙ ap (λ (k : ℕ). strrchr_in c.r0 c' k (gp c.r0 k (machine c base bs bad))) fits
      ∙ ap (strrchr_in c.r0 c' (length s + 1)) q
      ∙ rw (text, strrchr_in) (rw e refl)

  -- strrchr of a guest string, with its terminator, returns the address of the last byte that is the low byte of r1,
  -- and 0 where no byte is; nothing else changes and nothing traps.
  pub hle_strrchr-IsString :
      (s : List ℕ)
      → IsString base bs c.r0 s
      → (r : Option ℕ) × IsLast (length s + 1) (c.r1 % 256) (s ++ (0 ∷ [])) r
        × (hle_strrchr (machine c base bs bad) ≡ elim r [
          | none ↦ return 0 (machine c base bs bad)
          | some i ↦ return ((c.r0 + i) % 2 ^ 32) (machine c base bs bad)
        ])
  hle_strrchr-IsString s h =
      let r = last_index (length s + 1) (c.r1 % 256) (s ++ (0 ∷ [])) in
      (r, last_index-IsLast (length s + 1) (c.r1 % 256) (s ++ (0 ∷ [])), reads s r h refl)
