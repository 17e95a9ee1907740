-- ===== src/Container/Reads.antt =====
-- What one read of the container parser gives, for every offset that a file can name.
use vitarecomp.Base.{
  ℕ, zero, suc, ◌+◌, ◌-◌, ◌*◌, ◌%◌, ◌^◌, bit_or, ◌≤◌, ◌<◌, ◌≡◌, false, List, [], ◌∷◌, length,
  get_or, ltb, ◌==◌, arith, All, Bool-cases, inl, inr,
}
use vitarecomp.Base.Bits.{bit_or-lt}
use vitarecomp.Runtime.Mem.{load, le_value}
use vitarecomp.Container.{Fetch, value, refused, wild, fetch, rd, rd64, both, field}

-- rd16 and rd32 (`n` is 2 or 4) at any 64-bit offset: within the buffer they give the bytes, beyond
-- it they refuse, but where `off + n` wraps around and the sum is within the buffer, they read
-- outside of it.
pub rd_lem :
    (n off : ℕ) (b : List ℕ)
    → off < 2 ^ 64
    → length b < 2 ^ 63
    → n ≤ 8
    → ((off + n ≤ length b) → rd n b off ≡ value (le_value (load n off b)))
      × ((length b < off + n) → (off + n < 2 ^ 64) → rd n b off ≡ refused)
      × ((2 ^ 64 ≤ off + n) → (off + n - 2 ^ 64 ≤ length b) → rd n b off ≡ wild)
unfolding rd fetch
rd_lem n off b o l h = ((λ a. ground arith), (λ a c. ground arith), (λ a c. ground arith))

-- Not outside of the buffer, and no more than the width holds.
abbrev pub FetchOk : ℕ → Fetch → Type 0
FetchOk n (value x) = x < 256 ^ n
FetchOk n refused = Unit {0}
FetchOk n wild = ⊥

get_or-byte : (b : List ℕ) (i : ℕ) → All (λ x. x < 256) b → get_or b i 0 < 256
get_or-byte [] i h = omega arith
get_or-byte (x ∷ b) zero h = h.0
get_or-byte (x ∷ b) (suc i) h = get_or-byte b i h.1

le_value-lt : (n off : ℕ) (b : List ℕ) → All (λ x. x < 256) b → le_value (load n off b) < 256 ^ n
unfolding le_value load
le_value-lt zero off b h = omega arith
le_value-lt (suc n) off b h = omega (arith, get_or-byte b off h, le_value-lt n (suc off) b h)

rd-Ok : (n off : ℕ) (b : List ℕ) → All (λ x. x < 256) b → off + n < 2 ^ 64 → FetchOk n (rd n b off)
unfolding rd fetch
rd-Ok n off b bytes h = elim (Bool-cases (ltb (length b) ((off + n) % 2 ^ 64))) [
  | inl e ↦ rw e tt
  | inr e ↦
      let there : ltb (length b) (off + n) ≡ false = ground arith in
      rw (e, there) (le_value-lt n off b bytes)
]

both-Ok :
    (x y : Fetch)
    → FetchOk 4 x
    → FetchOk 4 y
    → FetchOk 8 (both (λ lo hi. bit_or lo (hi * 2 ^ 32)) x y)
unfolding both
both-Ok wild y p q = p
both-Ok refused wild p q = q
both-Ok refused refused p q = tt
both-Ok refused (value b) p q = tt
both-Ok (value a) wild p q = q
both-Ok (value a) refused p q = tt
both-Ok (value a) (value b) p q = bit_or-lt 64 a (b * 2 ^ 32) (omega arith) (omega arith)

-- A field whose place does not wrap around is not read outside of the buffer.
pub field-Ok :
    (n off : ℕ) (b : List ℕ)
    → All (λ x. x < 256) b
    → n ≤ 8
    → off + 8 < 2 ^ 64
    → FetchOk n (field b (n, off))
unfolding field rd64
field-Ok n off b bytes small h =
    let low : off % 2 ^ 64 ≡ off = omega arith in
    let high : (off + 4) % 2 ^ 64 ≡ off + 4 = omega arith in
    elim (Bool-cases (n == 8)) [
      | inl e ↦
          let eight : n ≡ 8 = ground arith in
          rw (e, low, eight)
            (elim (Bool-cases (ltb (length b) ((off + 8) % 2 ^ 64))) [
              | inl past ↦ rw past tt
              | inr inside ↦
                  rw (inside, high)
                    (both-Ok (rd 4 b off) (rd 4 b (off + 4)) (rd-Ok 4 off b bytes (omega arith))
                      (rd-Ok 4 (off + 4) b bytes (omega arith)))
            ])
      | inr e ↦ rw (e, low) (rd-Ok n off b bytes (omega arith))
    ]
