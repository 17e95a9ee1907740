-- ===== src/Inflate/Block/Total.antt =====
-- Every block decoder returns on every input, given more fuel than there are bits left.
use vitarecomp.Base.{
  ℕ, zero, suc, ◌+◌, ◌*◌, ◌^◌, ◌<◌, ◌≡◌, refl, sym, Option, some, List, [], ◌∷◌, ◌++◌, length,
  get_or, leb, ltb, ◌==◌, not, ◌||◌, arith, take, drop, replicate, Bool-cases, if_holds,
  option_holds, bool_holds, inl, inr, length-append, length-take, length-drop, bit_or,
}
use vitarecomp.Inflate.Status.{Status, ok_holds, ok, err_input, err_format}
use vitarecomp.Inflate.Reader.{BitReader, getbits}
use vitarecomp.Inflate.Reader.Later.{
  bits_left, Later, Taken, Later-refl, Later-trans, getbits-Later,
}
use vitarecomp.Inflate.Huff.{Huff, huff_build, huff_decode}
use vitarecomp.Inflate.Huff.Later.{huff_decode-Taken}
use vitarecomp.Inflate.Tables.{clen_order}
use vitarecomp.Inflate.Block.{
  OutBuf, Step, step, symbol_step, block_huffman, block_stored, read_clens, run_of, Lengths,
  lengths_at, read_lengths, decode_with, block_dynamic,
}
use vitarecomp.Inflate.Block.Bounds.{Grows-refl, Grows-trans, Progress, symbol-Round}

-- A decoder that returned, with what it did to the reader and the output.
pub record Returns (br : BitReader) (o : OutBuf) (r : Option Step) : Type 0 where
  pub last : Step
  pub result : r ≡ some last
  pub progress : Progress br o last

pub Progress-trans :
    {br : BitReader} {o : OutBuf} {s t : Step}
    → Progress br o s
    → Progress s.br s.out t
    → Progress br o t
Progress-trans p q = record {
  later = Later-trans p.later q.later;
  grows = Grows-trans p.grows q.grows;
}

pub block_huffman-Returns :
    (fuel : ℕ) (br : BitReader) (o : OutBuf) (lit dist : Huff)
    → bits_left br < fuel
    → Returns br o (block_huffman fuel br o lit dist)
unfolding block_huffman
block_huffman-Returns zero br o lit dist h = absurd (omega arith)
block_huffman-Returns (suc fuel) br o lit dist h =
    let r = symbol-Round br o lit dist in
    let s = (symbol_step br o lit dist).1 in
    elim (Bool-cases (symbol_step br o lit dist).0) [
      | inl more ↦
          let ih = block_huffman-Returns fuel s.br s.out lit dist (omega (arith, r.takes more)) in
          rw more (record {
            last = ih.last;
            result = ih.result;
            progress = Progress-trans r.progress ih.progress;
          })
      | inr done ↦ rw done (record { last = s; result = refl; progress = r.progress })
    ]

pub block_stored-Progress : (br : BitReader) (o : OutBuf) → Progress br o (block_stored br o)
unfolding block_stored
block_stored-Progress br o =
    let n : ℕ = bit_or (get_or br.src br.pos 0) (get_or br.src (br.pos + 1) 0 * 2 ^ 8) in
    let read : List ℕ = take n (drop (br.pos + 4) br.src) in
    ground (
      arith,
      length-append o.dst read,
      length-take n (drop (br.pos + 4) br.src),
      length-drop (br.pos + 4) br.src,
    )

read_clens-Later :
    (order : List ℕ) (k : ℕ) (br : BitReader) (lens : List ℕ)
    → Later br (read_clens order k br lens).0
unfolding read_clens
read_clens-Later order zero br lens = Later-refl br
read_clens-Later [] (suc k) br lens = Later-refl br
read_clens-Later (at ∷ order) (suc k) br lens =
    Later-trans (getbits-Later br 3) (read_clens-Later order k (getbits br 3).0 _)

run_of-Later : (br : BitReader) (ls : List ℕ) (total sym : ℕ) → Later br (run_of br ls total sym).0
unfolding run_of
run_of-Later br ls total sym =
    let P : BitReader × Option (List ℕ) → Type 0 = λ r. Later br r.0 in
    if_holds P (ltb sym 16) _ _ (Later-refl br) (
      if_holds P (sym == 16) _ _
        (if_holds P (length ls == 0) _ _ (Later-refl br) (getbits-Later br 2))
        (if_holds P (sym == 17) _ _ (getbits-Later br 3) (getbits-Later br 7)))

-- The loop over code lengths returns.
record Reads-lengths (br : BitReader) (r : Option Lengths) : Type 0 where
  last : Lengths
  result : r ≡ some last
  later : Later br last.br

read_lengths-Returns :
    (fuel : ℕ) (br : BitReader) (clen : Huff) (total : ℕ) (ls : List ℕ)
    → bits_left br < fuel
    → Reads-lengths br (read_lengths fuel br clen total ls)
unfolding read_lengths
read_lengths-Returns zero br clen total ls h = absurd (omega arith)
read_lengths-Returns (suc fuel) br clen total ls h =
    bool_holds P (leb total (length ls)) _ _ (at_end ok (Later-refl br))
      (elim (Bool-cases (not (d.0.overrun == 0))) [
        | inl over ↦ rw over (at_end err_input taken.later)
        | inr clean ↦ rw clean (
            option_holds P d.1 _ _ (at_end err_format taken.later) (λ sym.
              let later = Later-trans taken.later (run_of-Later d.0 ls total sym) in
              option_holds P (run_of d.0 ls total sym).1 _ _ (at_end err_format later) (λ xs.
                from later (
                  read_lengths-Returns fuel (run_of d.0 ls total sym).0 clen total (ls ++ xs) (
                    omega (
                      arith,
                      taken.strict (ground arith),
                      (run_of-Later d.0 ls total sym).fewer,
                    ))))))
      ])
  where
    d : BitReader × Option ℕ
    d = huff_decode br clen

    taken : Taken br d.0
    taken = huff_decode-Taken br clen

    P : Option Lengths → Type 0
    P = Reads-lengths br

    at_end : {br' : BitReader} (s : Status) → Later br br' → P (some (lengths_at s br' ls))
    at_end s l = record { last = lengths_at s _ ls; result = refl; later = l }

    from : {br' : BitReader} {r : Option Lengths} → Later br br' → Reads-lengths br' r → P r
    from l r = record { last = r.last; result = r.result; later = Later-trans l r.later }

stop :
    {br br' : BitReader} (s : Status) (o : OutBuf)
    → Later br br'
    → Returns br o (some (step s br' o))
stop s o l = record {
  last = step s _ o;
  result = refl;
  progress = record { later = l; grows = Grows-refl o };
}

after :
    {br br' : BitReader} {o : OutBuf} {r : Option Step}
    → Later br br'
    → Returns br' o r
    → Returns br o r
after l r = record {
  last = r.last;
  result = r.result;
  progress = record { later = Later-trans l r.progress.later; grows = r.progress.grows };
}

decode_with-Returns :
    (fuel : ℕ) (fresh : Huff) (r : Lengths) (o : OutBuf) (hlit : ℕ)
    → bits_left r.br < fuel
    → Returns r.br o (decode_with fuel fresh r o hlit)
unfolding decode_with
decode_with-Returns fuel fresh r o hlit h =
    let P : Option Step → Type 0 = Returns r.br o in
    let bad : P (some (step err_format r.br o)) = stop err_format o (Later-refl r.br) in
    ok_holds P r.status _ _
      (if_holds P (get_or r.lens 256 0 == 0) _ _ bad (
        option_holds P (huff_build fresh (take hlit r.lens)) _ _ bad (λ lit.
          option_holds P (huff_build fresh (drop hlit r.lens)) _ _ bad
            (λ dist. block_huffman-Returns fuel r.br o lit dist h))))
      (stop r.status o (Later-refl r.br))

pub block_dynamic-Returns :
    (fuel : ℕ) (fresh : Huff) (br : BitReader) (o : OutBuf)
    → bits_left br < fuel
    → Returns br o (block_dynamic fuel fresh br o)
unfolding block_dynamic
block_dynamic-Returns fuel fresh br o h =
    let b1 = getbits br 5 in
    let b2 = getbits b1.0 5 in
    let b3 = getbits b2.0 4 in
    let r4 = read_clens clen_order (b3.1 + 4) b3.0 (replicate 19 0) in
    let l3 =
      Later-trans (getbits-Later br 5)
        (Later-trans (getbits-Later b1.0 5) (getbits-Later b2.0 4)) in
    let l4 = Later-trans l3 (read_clens-Later clen_order (b3.1 + 4) b3.0 (replicate 19 0)) in
    let P : Option Step → Type 0 = Returns br o in
    if_holds P (ltb 286 (b1.1 + 257) || ltb 30 (b2.1 + 1)) _ _ (stop err_format o l3) (
      if_holds P (not (r4.0.overrun == 0)) _ _ (stop err_input o l4) (
        option_holds P (huff_build fresh r4.1) _ _ (stop err_format o l4) (λ clen.
          let total = b1.1 + 257 + (b2.1 + 1) in
          let r = read_lengths-Returns fuel r4.0 clen total [] (omega (arith, l4.fewer)) in
          rw r.result (
            after (Later-trans l4 r.later) (
              decode_with-Returns fuel fresh r.last o (b1.1 + 257)
                (omega (arith, l4.fewer, r.later.fewer)))))))
