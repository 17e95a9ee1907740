-- ===== src/Inflate/Block/RoundTrip.antt =====
-- block_huffman decodes what an encoder makes of tokens, under any pair of canonical codes.
use mathlib.Core.List.{append_assoc}
use vitarecomp.Base.{
  ℕ, zero, suc, ◌+◌, ◌-◌, ◌%◌, ◌≤◌, ◌<◌, ◌≡◌, refl, ◌∙◌, true, false, Bool, Option, some, List, [],
  ◌∷◌, ◌++◌, length, get_or, leb, ltb, ◌==◌, arith, get_or-le,
}
use vitarecomp.Inflate.Status.{ok}
use vitarecomp.Inflate.Reader.{BitReader, getbits}
use vitarecomp.Inflate.Reader.View.{view, low_bits, Reads, getbits-Reads}
use vitarecomp.Inflate.Huff.{Huff, huff_decode}
use vitarecomp.Inflate.Huff.Decode.{IsTable, Reads-trans}
use vitarecomp.Inflate.Tables.{len_extra, dist_base, dist_extra}
use vitarecomp.Inflate.Block.{OutBuf, Step, match_step, symbol_step, block_huffman}
use vitarecomp.Inflate.Block.Tokens.{
  Token, lit, back, symbol_bits, token_bits, block_bits, symbol-Yields, expand, expand_all,
  CanFollow, AreTokens, HasCode, emit_room, copy-repeat_back, back_bits, length_of, distance_of,
}

-- No symbol has more than 13 extra bits.
len_extra_le : (s : ℕ) → get_or len_extra s 0 ≤ 32
len_extra_le s = get_or-le len_extra 32 s (omega arith)

dist_extra_le : (d : ℕ) → get_or dist_extra d 0 ≤ 32
dist_extra_le d = get_or-le dist_extra 32 d (omega arith)

length_symbol :
    (s : ℕ) → (ltb (257 + s) 256 ≡ false) × ((257 + s == 256) ≡ false) × (257 + s - 257 ≡ s)
length_symbol s = (ground arith, ground arith, omega arith)

-- A round that decodes a token.
record Advances (br : BitReader) (o : OutBuf) (out : List ℕ) (rest : List ℕ) (r : Bool × Step)
    : Type 0 where
  more : r.0 ≡ true
  reads : Reads br r.1.br rest
  written : r.1.out ≡ record o { dst = out }

-- What match_step does with a copy, from the bits behind the length symbol on.
record Copies (br : BitReader) (o : OutBuf) (out : List ℕ) (rest : List ℕ) (s : Step) : Type 0 where
  fine : s.status ≡ ok
  reads : Reads br s.br rest
  written : s.out ≡ record o { dst = out }

-- A run that ends well: what is left to read, and the output.
pub record Ends (br : BitReader) (rest : List ℕ) (o : OutBuf) (r : Option Step) : Type 0 where
  pub last : Step
  pub result : r ≡ some last
  pub fine : last.status ≡ ok
  pub reads : Reads br last.br rest
  pub written : last.out ≡ o

-- The round that reads the end of the block.
record Stops (br : BitReader) (o : OutBuf) (rest : List ℕ) (r : Bool × Step) : Type 0 where
  stop : r.0 ≡ false
  fine : r.1.status ≡ ok
  reads : Reads br r.1.br rest
  unchanged : r.1.out ≡ o

module _ (lit_table dist_table : Huff) (lits dists : List ℕ) (lt : IsTable lit_table lits)
    (dt : IsTable dist_table dists) where
  lit-Advances :
      (b : ℕ) (br : BitReader) (o : OutBuf) (rest : List ℕ)
      → br.overrun ≡ 0
      → CanFollow lits dists o.cap o.dst (lit b)
      → view br ≡ symbol_bits lits b ++ rest
      → Advances br o (o.dst ++ (b ∷ [])) rest (symbol_step br o lit_table dist_table)
  unfolding symbol_step
  lit-Advances b br o rest clean can v =
      let y = symbol-Yields lit_table lits b br rest lt can.1 v in
      let clean' : (huff_decode br lit_table).0.overrun ≡ 0 = y.reads.same_overrun ∙ clean in
      let byte : b % 256 ≡ b = omega (arith, can.0) in
      let small : ltb b 256 ≡ true = ground (arith, can.0) in
      rw (clean', y.result, small, byte, emit_room o b can.2)
        (record { more = refl; reads = y.reads; written = refl })

  match-Copies :
      (s x d y : ℕ) (br : BitReader) (o : OutBuf) (rest : List ℕ)
      → br.overrun ≡ 0
      → CanFollow lits dists o.cap o.dst (back s x d y)
      → view br
        ≡ low_bits (get_or len_extra s 0) x
          ++ (symbol_bits dists d ++ (low_bits (get_or dist_extra d 0) y ++ rest))
      → Copies br o (expand (back s x d y) o.dst) rest (match_step br o dist_table s)
  unfolding match_step expand
  match-Copies s x d y br o rest clean (s_lt, s_code, x_lt, d_lt, d_code, y_lt, reach, room) v =
      let (xe, r1) = getbits-Reads br (get_or len_extra s 0) x _ (len_extra_le s) x_lt v in
      let br1 = (getbits br (get_or len_extra s 0)).0 in
      let yd = symbol-Yields dist_table dists d br1 _ dt d_code r1.left in
      let br2 = (huff_decode br1 dist_table).0 in
      let (ye, r3) =
        getbits-Reads br2 (get_or dist_extra d 0) y rest (dist_extra_le d) y_lt yd.reads.left in
      let clean' : br2.overrun ≡ 0 = yd.reads.same_overrun ∙ (r1.same_overrun ∙ clean) in
      let sym_ok : leb 29 s ≡ false = ground arith in
      let dsym_ok : leb 30 d ≡ false = ground arith in
      let near : ltb (length o.dst) (get_or dist_base d 0 + y) ≡ false = ground arith in
      rw
        (
          sym_ok,
          clean',
          yd.result,
          dsym_ok,
          ye,
          xe,
          near,
          copy-repeat_back (length_of s x) (distance_of d y) o room,
        )
        (record { fine = refl; reads = Reads-trans r1 (Reads-trans yd.reads r3); written = refl })

  back-Advances :
      (s x d y : ℕ) (br : BitReader) (o : OutBuf) (rest : List ℕ)
      → br.overrun ≡ 0
      → CanFollow lits dists o.cap o.dst (back s x d y)
      → view br ≡ token_bits lits dists (back s x d y) ++ rest
      → Advances br o (expand (back s x d y) o.dst) rest (symbol_step br o lit_table dist_table)
  unfolding symbol_step
  back-Advances s x d y br o rest clean can v =
      let z =
        symbol-Yields lit_table lits (257 + s) br _ lt can.1
          (v ∙ back_bits lits dists s x d y rest) in
      let br' = (huff_decode br lit_table).0 in
      let clean' : br'.overrun ≡ 0 = z.reads.same_overrun ∙ clean in
      let m = match-Copies s x d y br' o rest clean' can z.reads.left in
      let (large, no_end, index) = length_symbol s in
      rw (clean', z.result, large, no_end, index, m.fine)
        (record { more = refl; reads = Reads-trans z.reads m.reads; written = m.written })

  token-Advances :
      (t : Token) (br : BitReader) (o : OutBuf) (rest : List ℕ)
      → br.overrun ≡ 0
      → CanFollow lits dists o.cap o.dst t
      → view br ≡ token_bits lits dists t ++ rest
      → Advances br o (expand t o.dst) rest (symbol_step br o lit_table dist_table)
  unfolding expand
  token-Advances (lit b) br o rest clean can v = lit-Advances b br o rest clean can v
  token-Advances (back s x d y) br o rest clean can v =
      unfold expand in back-Advances s x d y br o rest clean can v

  end-Stops :
      (br : BitReader) (o : OutBuf) (rest : List ℕ)
      → br.overrun ≡ 0
      → HasCode lits 256
      → view br ≡ symbol_bits lits 256 ++ rest
      → Stops br o rest (symbol_step br o lit_table dist_table)
  unfolding symbol_step
  end-Stops br o rest clean code v =
      let y = symbol-Yields lit_table lits 256 br rest lt code v in
      let clean' : (huff_decode br lit_table).0.overrun ≡ 0 = y.reads.same_overrun ∙ clean in
      rw (clean', y.result) (record { stop = refl; fine = refl; reads = y.reads; unchanged = refl })

  -- block_huffman decodes the tokens of a block, writes what they stand for, and stops behind the
  -- end-of-block code.
  pub block_huffman-Ends :
      (ts : List Token) (fuel : ℕ) (br : BitReader) (o : OutBuf) (rest : List ℕ)
      → br.overrun ≡ 0
      → length ts < fuel
      → AreTokens lits dists o.cap o.dst ts
      → view br ≡ block_bits lits dists ts ++ rest
      → Ends br rest
          (record o { dst = expand_all ts o.dst })
          (block_huffman fuel br o lit_table dist_table)
  unfolding block_huffman expand_all
  block_huffman-Ends ts zero br o rest clean enough are v = absurd (omega arith)
  block_huffman-Ends [] (suc fuel) br o rest clean enough are v =
      let e = end-Stops br o rest clean are v in
      rw e.stop (record {
        last = (symbol_step br o lit_table dist_table).1;
        result = refl;
        fine = e.fine;
        reads = e.reads;
        written = e.unchanged;
      })
  block_huffman-Ends (t ∷ ts) (suc fuel) br o rest clean enough are v =
      let a =
        token-Advances t br o (block_bits lits dists ts ++ rest) clean are.0
          (v ∙ append_assoc (token_bits lits dists t) (block_bits lits dists ts) rest) in
      let s = (symbol_step br o lit_table dist_table).1 in
      let ih =
        block_huffman-Ends ts fuel s.br (record o { dst = expand t o.dst }) rest
          (a.reads.same_overrun ∙ clean) (omega arith) are.1 a.reads.left in
      rw (a.more, a.written)
        (record {
          last = ih.last;
          result = ih.result;
          fine = ih.fine;
          reads = Reads-trans a.reads ih.reads;
          written = ih.written;
        })
