-- ===== src/Inflate/Huff/Decode.antt =====
-- huff_decode reads the canonical code of a symbol back.
use native.Mathlib.Nat.{pow-suc, div-div-eq-div-mul, le-div_iff_mul-le, one-le-pow, div-eq_of_lt}
use vitarecomp.Base.{
  ℕ, zero, suc, ◌+◌, ◌-◌, ◌*◌, ◌/◌, ◌%◌, ◌^◌, ◌≤◌, ◌<◌, ◌≡◌, refl, sym, ap, ◌∙◌, bit_or, true,
  false, some, List, ◌∷◌, ◌++◌, length, get_or, ltb, arith, lt→ltb, All, Bool-cases, inl, inr,
  subst, replicate, some_eq, none_ne_some,
}
use vitarecomp.Base.Bits.{bit_or_fields}
use vitarecomp.Inflate.Reader.{BitReader, getbit}
use vitarecomp.Inflate.Reader.View.{view, Reads, getbit-Reads}
use vitarecomp.Inflate.Huff.{
  Huff, huff_build, build_counts, build_offs, place, fits, decode_loop, huff_decode,
}
use vitarecomp.Inflate.Huff.Counts.{count, bl_count, next_code, offset, build_counts_lem}
use vitarecomp.Inflate.Huff.Code.{
  Counted, high_bits, code_of, next_code-add-one, offset-add-one, next_code_floor, fits_room,
  rank-lt,
}
use vitarecomp.Inflate.Huff.Symbols.{IsShort, place_lem}

-- What a read of `a` from `br` is, with `rest` left.
pub record Yields {A : Type 0} (br : BitReader) (a : A) (rest : List ℕ) (r : BitReader × A)
    : Type 0 where
  pub result : r.1 ≡ a
  pub reads : Reads br r.0 rest

pub Reads-trans : {a b c : BitReader} {r s : List ℕ} → Reads a b r → Reads b c s → Reads a c s
Reads-trans p q = record {
  left = q.left;
  same_overrun = q.same_overrun ∙ p.same_overrun;
  same_src = q.same_src ∙ p.same_src;
}

next_bit : (c m : ℕ) → bit_or (c / 2 ^ suc m * 2) (c / 2 ^ m % 2) ≡ c / 2 ^ m
next_bit c m =
    let half : c / 2 ^ suc m ≡ c / 2 ^ m / 2 =
      ap (λ (t : ℕ). c / t) (pow-suc 2 m) ∙ sym (div-div-eq-div-mul c (2 ^ m) 2) in
    omega (arith, half, bit_or_fields 1 (c / 2 ^ suc m) (c / 2 ^ m % 2) (omega arith))

not_below : {a b : ℕ} → b ≤ a → ltb a b ≡ false
not_below h = ground arith

-- A code `c` of length `l` among the codes counted in `h`.
module _ (h : Huff) (ls : List ℕ) (counted : Counted ls h.counts) (l c : ℕ) (small : l < 16) where
  -- At the round for length `len`, with `m` bits to come after its own.
  pub decode_loop-Yields :
      (m k len : ℕ) (br : BitReader) (rest : List ℕ)
      → next_code ls l ≤ c
      → c < next_code ls l + bl_count ls l
      → len + m ≡ l
      → m < k
      → view br ≡ high_bits (suc m) c ++ rest
      → Yields br
          (some (get_or h.symbols (offset ls l + (c - next_code ls l)) 0))
          rest
          (decode_loop k len (c / 2 ^ suc m * 2) (next_code ls len) (offset ls len) h br)
  unfolding decode_loop
  decode_loop-Yields m zero len br rest lo hi e fuel v = absurd (omega arith)
  decode_loop-Yields zero (suc k) len br rest lo hi e fuel v =
      let (bit, r) = getbit-Reads br (c / 2 ^ 0 % 2) rest v in
      let code : bit_or (c / 2 ^ 1 * 2) (getbit br).1 ≡ c = rw bit (next_bit c 0 ∙ omega arith) in
      let same : len ≡ l = omega (arith, e) in
      rw (code, same, counted l small, lt→ltb c _ hi) (record { result = refl; reads = r })
  decode_loop-Yields (suc m) (suc k) len br rest lo hi e fuel v =
      let (bit, r) = getbit-Reads br (c / 2 ^ suc m % 2) (high_bits (suc m) c ++ rest) v in
      let code : bit_or (c / 2 ^ suc (suc m) * 2) (getbit br).1 ≡ c / 2 ^ suc m =
        rw bit (next_bit c (suc m)) in
      let above : next_code ls len + bl_count ls len ≤ c / 2 ^ suc m =
        (le-div_iff_mul-le (one-le-pow (suc m) 2 (omega arith))).1
          (omega (arith, next_code_floor ls m len l (sym e))) in
      let ih =
        decode_loop-Yields m k (len + 1) (getbit br).0 rest lo hi (omega (arith, e)) (omega arith)
          r.left in
      let ih' = rw (next_code-add-one ls len, offset-add-one ls len) at ih in
      rw (code, counted len (omega (arith, e)), not_below above)
        (record { result = ih'.result; reads = Reads-trans r ih'.reads })

-- What huff_build makes of the code lengths of an alphabet.
pub record IsTable (h : Huff) (ls : List ℕ) : Type 0 where
  pub counted : Counted ls h.counts
  pub room : (l : ℕ) → 1 ≤ l → l < 16 → next_code ls l + bl_count ls l ≤ 2 ^ l
  pub slots :
      (pre post : List ℕ) (l : ℕ)
      → 0 < l
      → ls ≡ pre ++ l ∷ post
      → get_or h.symbols (offset ls l + count l pre) 0 ≡ length pre

first_code : (ls : List ℕ) → 1 * 2 + next_code ls 1 ≡ 2 ^ 1
unfolding next_code
first_code ls = refl

pub huff_build-IsTable :
    (fresh h : Huff) (ls : List ℕ)
    → All IsShort ls
    → length ls ≤ length fresh.symbols
    → huff_build fresh ls ≡ some h
    → IsTable h ls
unfolding huff_build
huff_build-IsTable fresh h ls short room e = elim (Bool-cases (fits 15 1 1 (build_counts ls))) [
  | inl ok ↦ subst (λ t. IsTable t ls) (some_eq (rw ok at e)) (built ok)
  | inr over ↦ absurd (none_ne_some (rw over at e))
]
  where
    counted : Counted ls (build_counts ls)
    counted = build_counts_lem ls

    built :
        fits 15 1 1 (build_counts ls) ≡ true
        → IsTable
            (record {
              counts = build_counts ls;
              symbols = place 0 ls (build_offs (build_counts ls) (replicate 17 0)) fresh.symbols;
            })
            ls
    built ok = record {
      counted = counted;
      room = λ l lo hi.
          fits_room ls (build_counts ls) 15 1 1 l counted (omega arith) (first_code ls) ok lo hi;
      slots = λ pre post l pos x.
          place_lem ls (build_counts ls) pre post fresh.symbols l counted pos x short room;
    }

start_code : (ls : List ℕ) → next_code ls 1 ≡ 0
unfolding next_code
start_code ls = refl

start_offset : (ls : List ℕ) → offset ls 1 ≡ 0
unfolding offset
start_offset ls = refl

-- A table of the code lengths `ls` reads the code of a symbol back as the symbol.
pub decodes-IsTable :
    (h : Huff) (ls pre post : List ℕ) (l : ℕ) (br : BitReader) (rest : List ℕ)
    → IsTable h ls
    → 0 < l
    → l < 16
    → ls ≡ pre ++ l ∷ post
    → view br ≡ high_bits l (code_of ls pre l) ++ rest
    → Yields br (some (length pre)) rest (huff_decode br h)
decodes-IsTable h ls pre post zero br rest t pos small e v = absurd (omega arith)
decodes-IsTable h ls pre post (suc m) br rest t pos small e v =
    let c : ℕ = code_of ls pre (suc m) in
    let rank = rank-lt ls pre post (suc m) pos e in
    let found =
      decode_loop-Yields h ls t.counted (suc m) c small m 15 1 br rest (omega arith)
        (omega (arith, rank)) (omega arith) (omega arith) v in
    let none_before : c / 2 ^ suc m * 2 ≡ 0 =
      ap (λ (t : ℕ). t * 2) (div-eq_of_lt (omega (arith, rank, t.room (suc m) pos small))) in
    let slot : offset ls (suc m) + (c - next_code ls (suc m))
        ≡ offset ls (suc m) + count (suc m) pre =
      omega arith in
    rw huff_decode_lem (
      rw (none_before, start_code ls, start_offset ls, slot, t.slots pre post (suc m) pos e) at
        found)
  where
    huff_decode_lem : huff_decode br h ≡ decode_loop 15 1 0 0 0 h br
    huff_decode_lem = unfold huff_decode in refl

-- Let huff_build accept the code lengths `ls`, each below 16 and no more than the table has room for, and let the
-- symbol behind `pre` have a length other than zero. Where the bits to be read start with the canonical
-- code that RFC 1951 gives it, huff_decode on the table that huff_build filled yields that symbol and reads exactly those bits.
pub huff_decode-huff_build :
    (fresh h : Huff) (ls pre post : List ℕ) (l : ℕ) (br : BitReader) (rest : List ℕ)
    → All IsShort ls
    → length ls ≤ length fresh.symbols
    → huff_build fresh ls ≡ some h
    → 0 < l
    → l < 16
    → ls ≡ pre ++ l ∷ post
    → view br ≡ high_bits l (code_of ls pre l) ++ rest
    → Yields br (some (length pre)) rest (huff_decode br h)
huff_decode-huff_build fresh h ls pre post l br rest short room built pos small e v =
    decodes-IsTable h ls pre post l br rest (huff_build-IsTable fresh h ls short room built) pos
      small e v
