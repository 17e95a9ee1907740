-- ===== src/Inflate/Huff/Code.antt =====
-- Canonical codes: what the check for an over-subscribed code gives, and the bits of a code.
use native.Mathlib.Nat.{pow-suc}
use vitarecomp.Base.{
  ℕ, zero, suc, ◌+◌, ◌-◌, ◌*◌, ◌/◌, ◌%◌, ◌^◌, ◌≤◌, ◌<◌, ◌≡◌, refl, ap, inl, inr, true, List, [],
  ◌∷◌, ◌++◌, get_or, ltb, arith, Bool-cases,
}
use vitarecomp.Base.Bits.{pow-add-one}
use vitarecomp.Inflate.Huff.{fits}
use vitarecomp.Inflate.Huff.Counts.{count, bl_count, next_code, offset, count-append}

pub next_code-add-one :
    (ls : List ℕ) (l : ℕ) → next_code ls (l + 1) ≡ (next_code ls l + bl_count ls l) * 2
unfolding next_code
next_code-add-one ls l = let e : l + 1 ≡ suc l = omega arith in rw e refl

pub offset-add-one : (ls : List ℕ) (l : ℕ) → offset ls (l + 1) ≡ offset ls l + bl_count ls l
unfolding offset
offset-add-one ls l = let e : l + 1 ≡ suc l = omega arith in rw e refl

-- `counts` holds the number of symbols of each length.
abbrev pub Counted : List ℕ → List ℕ → Type 0
Counted ls counts = (l : ℕ) → l < 16 → get_or counts l 0 ≡ bl_count ls l

-- A table that passes the check leaves room for every code.
pub fits_room :
    (ls counts : List ℕ) (k len left l : ℕ)
    → Counted ls counts
    → len + k ≤ 16
    → left * 2 + next_code ls len ≡ 2 ^ len
    → fits k len left counts ≡ true
    → len ≤ l
    → l < len + k
    → next_code ls l + bl_count ls l ≤ 2 ^ l
unfolding fits
fits_room ls counts zero len left l c small inv ok lo hi = absurd (omega arith)
fits_room ls counts (suc k) len left l c small inv ok lo hi =
    let here : get_or counts len 0 ≡ bl_count ls len = c len (omega arith) in
    elim (Bool-cases (ltb (left * 2) (get_or counts len 0))) [
      | inl over ↦ cc (ok, over)
      | inr room ↦ elim (Bool-cases (ltb len l)) [
        | inl later ↦
            fits_room ls counts k (len + 1) (left * 2 - get_or counts len 0) l c (omega arith)
              (ground (arith, here, next_code-add-one ls len, pow-add-one len)) (ground arith)
              (ground arith) (omega arith)
        | inr same ↦ let e : l ≡ len = ground arith in rw e (ground (arith, here))
      ]
    ]

-- Codes of a length start above all shorter codes.
pub next_code_floor :
    (ls : List ℕ) (d k l : ℕ)
    → l ≡ k + suc d
    → (next_code ls k + bl_count ls k) * 2 ^ suc d ≤ next_code ls l
next_code_floor ls zero k l e =
    let e' : l ≡ k + 1 = omega (arith, e) in rw (e', next_code-add-one ls k) (omega arith)
next_code_floor ls (suc d) k l e =
    let e' : l ≡ k + suc d + 1 = omega (arith, e) in
    rw (e', next_code-add-one ls (k + suc d))
      (omega (
        arith,
        next_code_floor ls d k (k + suc d) refl,
        ap (λ (t : ℕ). (next_code ls k + bl_count ls k) * t) (pow-suc 2 (suc d)),
      ))

pub offset_mono : (ls : List ℕ) (d k l : ℕ) → l ≡ k + d → offset ls k ≤ offset ls l
offset_mono ls zero k l e = let e' : l ≡ k = omega (arith, e) in rw e' (omega arith)
offset_mono ls (suc d) k l e =
    let e' : l ≡ k + d + 1 = omega (arith, e) in
    rw (e', offset-add-one ls (k + d)) (omega (arith, offset_mono ls d k (k + d) refl))

-- The `n` low bits of a code, the highest first.
abbrev pub high_bits : ℕ → ℕ → List ℕ
high_bits zero c = []
high_bits (suc n) c = c / 2 ^ n % 2 ∷ high_bits n c

-- The code of the symbol that follows `pre`, for code length `l`.
abbrev pub code_of : List ℕ → List ℕ → ℕ → ℕ
code_of ls pre l = next_code ls l + count l pre

-- The rank of a symbol among those of its length is below their number.
pub rank-lt :
    (ls pre post : List ℕ) (l : ℕ) → 0 < l → ls ≡ pre ++ l ∷ post → count l pre < bl_count ls l
rank-lt ls pre post zero pos e = absurd (omega arith)
rank-lt ls pre post (suc l) pos e =
    rw e (rw (count-append (suc l) pre (suc l ∷ post)) (ground arith))
