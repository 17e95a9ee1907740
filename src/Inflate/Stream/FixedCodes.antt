-- ===== src/Inflate/Stream/FixedCodes.antt =====
-- A stream of one block with the fixed codes, decoded to what its tokens stand for.
use vitarecomp.Base.{
  ℕ, zero, suc, ◌+◌, ◌*◌, ◌<◌, ◌≡◌, refl, sym, ap, ◌∙◌, false, some, List, [], ◌∷◌, ◌++◌, length,
  get_or, ◌==◌, not, arith, length-append,
}
use vitarecomp.Inflate.Status.{Status, ok}
use vitarecomp.Inflate.Reader.{BitReader, getbit, getbits}
use vitarecomp.Inflate.Reader.View.{view, bits_of, getbit-Reads, getbits-Reads}
use vitarecomp.Inflate.Huff.{Huff}
use vitarecomp.Inflate.Huff.Code.{high_bits}
use vitarecomp.Inflate.Huff.Decode.{IsTable, Reads-trans, huff_build-IsTable}
use vitarecomp.Inflate.Tables.{
  fixed_lit_lengths, fixed_dist_lengths, build_fixed_lit, build_fixed_dist,
}
use vitarecomp.Inflate.Block.{OutBuf, Step, step}
use vitarecomp.Inflate.Block.Tokens.{
  Token, lit, back, symbol_bits, token_bits, block_bits, AreTokens, CanFollow, expand, expand_all,
}
use vitarecomp.Inflate.Block.RoundTrip.{Ends, block_huffman-Ends}
use vitarecomp.Inflate.Stream.{Fixed, block, blocks, reader, empty_out, inflate}
use vitarecomp.Inflate.Stream.Ends.{fixed_tables, inflate_lem}

length-high_bits : (n c : ℕ) → length (high_bits n c) ≡ n
length-high_bits zero c = refl
length-high_bits (suc n) c = ap suc (length-high_bits n c)

length-bits_of : (xs : List ℕ) → length (bits_of xs) ≡ 8 * length xs
length-bits_of [] = omega arith
length-bits_of (x ∷ xs) = omega (arith, length-bits_of xs)

module _ (lits dists : List ℕ) (room : ℕ) where
  token_bits-pos :
      (out : List ℕ) (t : Token)
      → CanFollow lits dists room out t
      → 0 < length (token_bits lits dists t)
  token_bits-pos out (lit b) h = omega (arith, length-high_bits (get_or lits b 0) _, h.1.used)
  token_bits-pos out (back s x d y) h = omega (
    arith,
    length-append (symbol_bits lits (257 + s)) _,
    length-high_bits (get_or lits (257 + s) 0) _,
    h.1.used,
  )

  -- Every token takes a bit, and so does the end of the block.
  pub length-lt-block_bits :
      (out : List ℕ) (ts : List Token)
      → AreTokens lits dists room out ts
      → length ts < length (block_bits lits dists ts)
  length-lt-block_bits out [] h = omega (arith, length-high_bits (get_or lits 256 0) _, h.used)
  length-lt-block_bits out (t ∷ ts) h = omega (
    arith,
    length-append (token_bits lits dists t) (block_bits lits dists ts),
    token_bits-pos out t h.0,
    length-lt-block_bits (expand t out) ts h.1,
  )

-- The tables that build_fixed fills read the fixed codes back.
fixed_lit-IsTable :
    (fresh h : Huff)
    → length fresh.symbols ≡ 288
    → build_fixed_lit fresh ≡ some h
    → IsTable h fixed_lit_lengths
unfolding build_fixed_lit fixed_lit_lengths
fixed_lit-IsTable fresh h size e =
    huff_build-IsTable fresh h fixed_lit_lengths (omega arith) (omega (arith, size)) e

fixed_dist-IsTable :
    (fresh h : Huff)
    → length fresh.symbols ≡ 288
    → build_fixed_dist fresh ≡ some h
    → IsTable h fixed_dist_lengths
unfolding build_fixed_dist fixed_dist_lengths
fixed_dist-IsTable fresh h size e =
    huff_build-IsTable fresh h fixed_dist_lengths (omega arith) (omega (arith, size)) e

-- A round that reads a final block and stops.
last_block :
    (fx : Fixed) (fuel inner type : ℕ) (br b1 b2 b3 : BitReader) (o o3 : OutBuf)
    → getbit br ≡ (b1, 1)
    → getbits b1 2 ≡ (b2, type)
    → not (b2.overrun == 0) ≡ false
    → block inner fx type b2 o ≡ some (step ok b3 o3)
    → not (b3.overrun == 0) ≡ false
    → blocks (suc fuel) inner fx br o ≡ some (step ok b3 o3)
unfolding blocks
last_block fx fuel inner type br b1 b2 b3 o o3 e1 e2 clean e end =
    rw (e1, e2, clean, e, end, ap (λ (p : BitReader × ℕ). p.1) e1) refl

-- How a test for no overrun comes out.
test_clean : (br : BitReader) → br.overrun ≡ 0 → not (br.overrun == 0) ≡ false
test_clean br e = ap (λ (n : ℕ). not (n == 0)) e

-- The run of the loop over blocks on one final block with the fixed codes.
one_block :
    (fx : Fixed) (ts : List Token) (fuel inner : ℕ) (br : BitReader) (o : OutBuf) (rest : List ℕ)
    → IsTable fx.lit fixed_lit_lengths
    → IsTable fx.dist fixed_dist_lengths
    → br.overrun ≡ 0
    → length ts < inner
    → AreTokens fixed_lit_lengths fixed_dist_lengths o.cap o.dst ts
    → view br ≡ 1 ∷ 1 ∷ 0 ∷ block_bits fixed_lit_lengths fixed_dist_lengths ts ++ rest
    → Ends br rest (record o { dst = expand_all ts o.dst }) (blocks (suc fuel) inner fx br o)
unfolding block
one_block fx ts fuel inner br o rest lt dt clean enough are v =
    let (fe, fr) = getbit-Reads br 1 _ v in
    let b1 = (getbit br).0 in
    let (te, tr) = getbits-Reads b1 2 1 _ (omega arith) (omega arith) fr.left in
    let b2 = (getbits b1 2).0 in
    let clean2 : b2.overrun ≡ 0 = tr.same_overrun ∙ (fr.same_overrun ∙ clean) in
    let e =
      block_huffman-Ends fx.lit fx.dist fixed_lit_lengths fixed_dist_lengths lt dt ts inner b2 o
        rest clean2 enough are tr.left in
    let last : some e.last ≡ some (step ok e.last.br e.last.out) =
      ap (λ (x : Status). some (step x e.last.br e.last.out)) e.fine in
    record {
      last = e.last;
      result =
          last_block fx fuel inner 1 br b1 b2 e.last.br o e.last.out (ap (λ (n : ℕ). (b1, n)) fe)
            (ap (λ (n : ℕ). (b2, n)) te) (test_clean b2 clean2) (e.result ∙ last)
            (test_clean e.last.br (e.reads.same_overrun ∙ clean2))
          ∙ sym last;
      fine = e.fine;
      reads = Reads-trans fr (Reads-trans tr e.reads);
      written = e.written;
    }

-- Take any sequence of literals and copies that the format and the capacity admit. Where the bits of
-- the input start with a final block that holds their fixed codes, inf_inflate returns INF_OK and the
-- output is what the sequence stands for.
pub inflate-fixed :
    (fresh : Huff) (src : List ℕ) (room : ℕ) (ts : List Token) (padding : List ℕ)
    → length fresh.symbols ≡ 288
    → AreTokens fixed_lit_lengths fixed_dist_lengths room [] ts
    → bits_of src ≡ 1 ∷ 1 ∷ 0 ∷ block_bits fixed_lit_lengths fixed_dist_lengths ts ++ padding
    → (s : Step) × (inflate fresh src room ≡ some s)
      × (s.status ≡ ok)
      × (s.out.dst ≡ expand_all ts [])
inflate-fixed fresh src room ts padding size are v =
    let (l, d, el, ed) = fixed_tables fresh in
    let fx : Fixed = record { lit = l; dist = d; fresh = fresh } in
    let e =
      one_block fx ts (8 * length src) (8 * length src + 1) (reader src) (empty_out room) padding
        (fixed_lit-IsTable fresh l size el) (fixed_dist-IsTable fresh d size ed) refl enough are
        v in
    (
      e.last,
      inflate_lem fresh l d src room el ed
          ∙ (ap (λ (n : ℕ). blocks n (8 * length src + 1) fx (reader src) (empty_out room))
                (omega arith)
              ∙ e.result),
      e.fine,
      ap (λ (o : OutBuf). o.dst) e.written,
    )
  where
    enough : length ts < 8 * length src + 1
    enough = omega (
      arith,
      length-bits_of src,
      ap (λ (t : List ℕ). length t) v,
      length-append (block_bits fixed_lit_lengths fixed_dist_lengths ts) padding,
      length-lt-block_bits fixed_lit_lengths fixed_dist_lengths room [] ts are,
    )
