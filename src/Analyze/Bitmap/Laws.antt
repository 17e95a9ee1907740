-- ===== src/Analyze/Bitmap/Laws.antt =====
-- A mark is read back, and leaves every other halfword as it was.
use vitarecomp.Base.{
  ℕ, zero, suc, ◌+◌, ◌*◌, ◌/◌, ◌%◌, ◌^◌, ◌≤◌, ◌<◌, ◌≡◌, ◌≢◌, refl, sym, ap, ◌∙◌, bit_or, Bool, true,
  false, ◌&&◌, List, length, get_or, set, ◌==◌, ==_iff, arith, if◌then◌else◌, Bool-cases, inl, inr,
  length-set, get_or-set_self, get_or-set_ne,
}
use vitarecomp.Base.Bits.{bit_or-div, bit_or-mod}
use vitarecomp.Analyze.Bitmap.{seen_get, seen_set}

-- A test that holds below `n`.
all_below : (ℕ → Bool) → ℕ → Bool
all_below f zero = true
all_below f (suc n) = f n && all_below f n

below_all : (f : ℕ → Bool) (n k : ℕ) → all_below f n ≡ true → k < n → f k ≡ true
unfolding all_below
below_all f zero k h lt = absurd (omega arith)
below_all f (suc n) k h lt = elim (Bool-cases (k == n)) [
  | inl last ↦ let e : k ≡ n = ground (arith, last) in ap f e ∙ ground (arith, h)
  | inr other ↦ below_all f n k (ground (arith, h)) (ground (arith, other))
]

is_bit : ℕ → ℕ → Bool
is_bit k j = 2 ^ k / 2 ^ j % 2 == (if k == j then 1 else 0)

-- A bit of a power of two, of the eight of a byte.
pow_bit : (k j : ℕ) → k < 8 → j < 8 → 2 ^ k / 2 ^ j % 2 ≡ (if k == j then 1 else 0)
unfolding is_bit all_below
pow_bit k j hk hj =
    let row = below_all (λ x. all_below (is_bit x) 8) 8 k refl hk in
    (==_iff _ _).0 (below_all (is_bit k) 8 j row hj)

or_one : (b : ℕ) (t : Bool) → b < 2 → bit_or b (if t then 1 else 0) ≡ (if t then 1 else b)
or_one zero true h = refl
or_one zero false h = refl
or_one (suc zero) true h = refl
or_one (suc zero) false h = refl
or_one (suc (suc b)) t h = absurd (omega arith)

or_bit :
    (x k j : ℕ)
    → k < 8
    → j < 8
    → bit_or x (2 ^ k) / 2 ^ j % 2 ≡ (if k == j then 1 else x / 2 ^ j % 2)
or_bit x k j hk hj =
    ap (λ (y : ℕ). y % 2) (bit_or-div j x (2 ^ k))
    ∙ (bit_or-mod 1 (x / 2 ^ j) (2 ^ k / 2 ^ j)
        ∙ (ap (λ (y : ℕ). bit_or (x / 2 ^ j % 2) y) (pow_bit k j hk hj)
            ∙ or_one (x / 2 ^ j % 2) (k == j) (omega arith)))

-- Behind seen_set of a halfword within the map, seen_get finds a mark at that halfword, and at every
-- other what it found before.
pub seen_get-seen_set :
    (seen : List ℕ) (off other : ℕ)
    → off / 2 / 8 < length seen
    → seen_get (seen_set seen off) other
      ≡ (if off / 2 == other / 2 then true else seen_get seen other)
unfolding seen_get seen_set
seen_get-seen_set seen off other inside =
    let i = off / 2 in
    let j = other / 2 in
    let v = bit_or (get_or seen (i / 8) 0) (2 ^ (i % 8)) in
    elim (Bool-cases (i / 8 == j / 8)) [
      | inl same_byte ↦
          let e : i / 8 ≡ j / 8 = ground arith in
          let now : get_or (set seen (i / 8) v) (j / 8) 0 ≡ v =
            ap (λ (b : ℕ). get_or (set seen (i / 8) v) b 0) (sym e)
            ∙ get_or-set_self seen (i / 8) v 0 inside in
          let bit = or_bit (get_or seen (i / 8) 0) (i % 8) (j % 8) (omega arith) (omega arith) in
          let old : get_or seen (i / 8) 0 / 2 ^ (j % 8) % 2
              ≡ get_or seen (j / 8) 0 / 2 ^ (j % 8) % 2 =
            ap (λ (b : ℕ). get_or seen b 0 / 2 ^ (j % 8) % 2) e in
          ap (λ (b : ℕ). b / 2 ^ (j % 8) % 2 == 1) now
          ∙ (ap (λ (b : ℕ). b == 1) bit ∙ elim (Bool-cases (i % 8 == j % 8)) [
            | inl same_bit ↦
                let both : i ≡ j = omega (arith, e, (==_iff (i % 8) (j % 8)).0 same_bit) in
                let here : (i == j) ≡ true = (==_iff i j).1 both in rw (same_bit, here) refl
            | inr other_bit ↦
                let away : (i == j) ≡ false = ground (arith, other_bit) in
                rw (other_bit, away) (ap (λ (b : ℕ). b == 1) old)
          ])
      | inr other_byte ↦
          let ne : i / 8 ≢ j / 8 = ground arith in
          let far : (i == j) ≡ false = ground arith in
          rw (get_or-set_ne seen (i / 8) (j / 8) v 0 ne, far) refl
    ]

-- The halfwords below `n` that have no mark.
unfoldable pub unseen : List ℕ → ℕ → ℕ
unseen seen zero = 0
unseen seen (suc n) = (if seen_get seen (2 * n) then 0 else 1) + unseen seen n

pub length-seen_set : (seen : List ℕ) (off : ℕ) → length (seen_set seen off) ≡ length seen
unfolding seen_set
length-seen_set seen off =
    let i = off / 2 in length-set seen (i / 8) (bit_or (get_or seen (i / 8) 0) (2 ^ (i % 8)))

seen_get-half : (seen : List ℕ) (off : ℕ) → seen_get seen (2 * (off / 2)) ≡ seen_get seen off
unfolding seen_get
seen_get-half seen off =
    ap (λ (i : ℕ). get_or seen (i / 8) 0 / 2 ^ (i % 8) % 2 == 1) {x = 2 * (off / 2) / 2}
      {y = off / 2} (omega arith)

-- A mark leaves the halfwords below it as they are, and takes one from those up to it.
unseen-below :
    (seen : List ℕ) (off n : ℕ)
    → off / 2 / 8 < length seen
    → n ≤ off / 2
    → unseen (seen_set seen off) n ≡ unseen seen n
unfolding unseen
unseen-below seen off zero inside le = refl
unseen-below seen off (suc n) inside le =
    let ih = unseen-below seen off n inside (omega arith) in
    let away : (off / 2 == 2 * n / 2) ≡ false = ground arith in
    rw (seen_get-seen_set seen off (2 * n) inside, away) (omega (arith, ih))

pub unseen-seen_set :
    (seen : List ℕ) (off n : ℕ)
    → off / 2 / 8 < length seen
    → off / 2 < n
    → seen_get seen off ≡ false
    → unseen (seen_set seen off) n + 1 ≡ unseen seen n
unfolding unseen
unseen-seen_set seen off zero inside lt new = absurd (omega arith)
unseen-seen_set seen off (suc n) inside lt new = elim (Bool-cases (off / 2 == n)) [
  | inl here ↦
      let at : off / 2 ≡ n = ground (arith, here) in
      let ih = unseen-below seen off n inside (omega arith) in
      let hit : (off / 2 == 2 * n / 2) ≡ true = ground (arith, at) in
      let old : seen_get seen (2 * n) ≡ false =
        ap (λ (i : ℕ). seen_get seen (2 * i)) (sym at) ∙ (seen_get-half seen off ∙ new) in
      rw (seen_get-seen_set seen off (2 * n) inside, hit, old) (omega (arith, ih))
  | inr below ↦
      let ih = unseen-seen_set seen off n inside (ground (arith, below)) new in
      let away : (off / 2 == 2 * n / 2) ≡ false = ground (arith, below) in
      rw (seen_get-seen_set seen off (2 * n) inside, away) (omega (arith, ih))
]

pub unseen-le : (seen : List ℕ) (n : ℕ) → unseen seen n ≤ n
unfolding unseen
unseen-le seen zero = omega arith
unseen-le seen (suc n) =
    let ih = unseen-le seen n in
    elim (Bool-cases (seen_get seen (2 * n))) [
      | inl e ↦ rw e (omega (arith, ih))
      | inr e ↦ rw e (omega (arith, ih))
    ]
