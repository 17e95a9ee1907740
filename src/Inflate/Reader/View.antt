-- ===== src/Inflate/Reader/View.antt =====
-- The bit reader hands out the bits of the bytes in order, the lowest bit of a byte first.
use native.Mathlib.Nat.{pow-le-pow_right, mod-eq_of_lt}
use vitarecomp.Base.{
  ℕ, zero, suc, ◌+◌, ◌*◌, ◌/◌, ◌%◌, ◌^◌, ◌≤◌, ◌<◌, ◌≡◌, refl, ap, ◌∙◌, bit_or, List, [], ◌∷◌, ◌++◌,
  Bool-cases, inl, inr, length, get_or, drop, leb, arith,
}
use vitarecomp.Base.Bits.{bit_and_mask, bit_or_fields', mod-pow-suc, pow-add-one}
use vitarecomp.Inflate.Reader.{BitReader, getbit, getbits_loop, getbits}

-- The `n` low bits of a number, lowest first.
abbrev pub low_bits : ℕ → ℕ → List ℕ
low_bits zero x = []
low_bits (suc n) x = x % 2 ∷ low_bits n (x / 2)

abbrev pub bits_of : List ℕ → List ℕ
bits_of [] = []
bits_of (x ∷ xs) = low_bits 8 x ++ bits_of xs

-- The bits that are still to be read.
abbrev pub view : BitReader → List ℕ
view br = low_bits br.cnt br.buf ++ bits_of (drop br.pos br.src)

-- `to` is `from` with the bits before `rest` read.
pub record Reads (from to : BitReader) (rest : List ℕ) : Type 0 where
  pub left : view to ≡ rest
  pub same_overrun : to.overrun ≡ from.overrun
  pub same_src : to.src ≡ from.src

drop-past : (xs : List ℕ) (i : ℕ) → length xs ≤ i → drop i xs ≡ []
drop-past [] zero h = refl
drop-past [] (suc i) h = refl
drop-past (x ∷ xs) zero h = absurd (omega arith)
drop-past (x ∷ xs) (suc i) h = drop-past xs i (omega arith)

drop-get : (xs : List ℕ) (i : ℕ) → i < length xs → drop i xs ≡ get_or xs i 0 ∷ drop (i + 1) xs
drop-get [] i h = absurd (omega arith)
drop-get (x ∷ xs) zero h = refl
drop-get (x ∷ xs) (suc i) h =
    let e : suc i + 1 ≡ suc (i + 1) = omega arith in rw e (drop-get xs i (omega arith))

abbrev at : List ℕ → ℕ → ℕ → ℕ → ℕ → BitReader
at src pos buf cnt overrun = record {
  src = src;
  pos = pos;
  buf = buf;
  cnt = cnt;
  overrun = overrun;
}

-- A bit that is left is the one that is read.
getbit_cases :
    (src : List ℕ) (pos buf cnt overrun b : ℕ) (rest : List ℕ)
    → let br = at src pos buf cnt overrun in
      view br ≡ b ∷ rest → ((getbit br).1 ≡ b) × Reads br (getbit br).0 rest
unfolding getbit
getbit_cases src pos buf zero overrun b rest h = elim (Bool-cases (leb (length src) pos)) [
  | inl past ↦ absurd (cc (drop-past src pos (ground arith)))
  | inr inside ↦ ground (arith, drop-get src pos (ground arith), bit_and_mask 1 (get_or src pos 0))
]
getbit_cases src pos buf (suc cnt) overrun b rest h = ground (arith, bit_and_mask 1 buf)

pub getbit-Reads :
    (br : BitReader) (b : ℕ) (rest : List ℕ)
    → view br ≡ b ∷ rest
    → ((getbit br).1 ≡ b) × Reads br (getbit br).0 rest
getbit-Reads br = getbit_cases br.src br.pos br.buf br.cnt br.overrun

overrun_cases :
    (src : List ℕ) (pos buf cnt overrun : ℕ)
    → let br = at src pos buf cnt overrun in view br ≡ [] → (getbit br).0.overrun ≡ 1
unfolding getbit
overrun_cases src pos buf zero overrun h = elim (Bool-cases (leb (length src) pos)) [
  | inl past ↦ ground arith
  | inr inside ↦ cc (h, drop-get src pos (ground arith))
]
overrun_cases src pos buf (suc cnt) overrun h = cc

-- With no bit left the overrun is noted.
pub getbit_overrun : (br : BitReader) → view br ≡ [] → (getbit br).0.overrun ≡ 1
getbit_overrun br = overrun_cases br.src br.pos br.buf br.cnt br.overrun

join-lt : (b v i : ℕ) → b < 2 → v < 2 ^ i → b * 2 ^ i + v < 2 ^ (i + 1)
join-lt zero v i hb hv = omega (arith, pow-add-one i)
join-lt (suc zero) v i hb hv = omega (arith, pow-add-one i)
join-lt (suc (suc b)) v i hb hv = absurd (omega arith)

join_value :
    (x n i v : ℕ) → x % 2 * 2 ^ i + v + x / 2 % 2 ^ n * 2 ^ (i + 1) ≡ v + x % 2 ^ suc n * 2 ^ i
join_value x n i v = omega (
  arith,
  ap (λ (t : ℕ). t * 2 ^ i) (mod-pow-suc x n),
  ap (λ (t : ℕ). x / 2 % 2 ^ n * t) (pow-add-one i),
)

-- `n` bits that are left are read as a number, the lowest first.
getbits_loop-Reads :
    (n i v x : ℕ) (br : BitReader) (rest : List ℕ)
    → i + n ≤ 32
    → v < 2 ^ i
    → view br ≡ low_bits n x ++ rest
    → ((getbits_loop n i v br).1 ≡ v + x % 2 ^ n * 2 ^ i) × Reads br (getbits_loop n i v br).0 rest
unfolding getbits_loop
getbits_loop-Reads zero i v x br rest fit small h =
    (none, record { left = h; same_overrun = refl; same_src = refl })
  where
    none : v ≡ v + x % 2 ^ 0 * 2 ^ i
    none = omega (arith, ap (λ (t : ℕ). t * 2 ^ i) {x = x % 2 ^ 0} {y = 0} (omega arith))
getbits_loop-Reads (suc n) i v x br rest fit small h =
    let (e, r) = getbit-Reads br (x % 2) (low_bits n (x / 2) ++ rest) h in
    let half : 2 ^ i ≤ 2 ^ 31 =
      pow-le-pow_right {n = 2} (omega arith) {i = i} {j = 31} (omega arith) in
    let bit : x % 2 * 2 ^ i % 2 ^ 32 ≡ x % 2 * 2 ^ i =
      mod-eq_of_lt {n = x % 2 * 2 ^ i} {m = 2 ^ 32} (grind (arith, half)) in
    let v' : bit_or v ((getbit br).1 * 2 ^ i % 2 ^ 32) ≡ x % 2 * 2 ^ i + v =
      rw (e, bit) (bit_or_fields' i (x % 2) v small) in
    let (value, next) =
      getbits_loop-Reads n (i + 1) (bit_or v ((getbit br).1 * 2 ^ i % 2 ^ 32)) (x / 2) (getbit br).0
        rest (omega arith) (rw v' (join-lt (x % 2) v i (omega arith) small)) r.left in
    (
      value ∙ ap (λ (t : ℕ). t + x / 2 % 2 ^ n * 2 ^ (i + 1)) v' ∙ join_value x n i v,
      record {
        left = next.left;
        same_overrun = next.same_overrun ∙ r.same_overrun;
        same_src = next.same_src ∙ r.same_src;
      },
    )

-- `n` bits that are left are read as the number that they stand for.
pub getbits-Reads :
    (br : BitReader) (n x : ℕ) (rest : List ℕ)
    → n ≤ 32
    → x < 2 ^ n
    → view br ≡ low_bits n x ++ rest
    → ((getbits br n).1 ≡ x) × Reads br (getbits br n).0 rest
unfolding getbits
getbits-Reads br n x rest fit small h =
    let (value, reads) = getbits_loop-Reads n 0 0 x br rest (omega arith) (omega arith) h in
    (omega (arith, value, mod-eq_of_lt small), reads)
