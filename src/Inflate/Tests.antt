-- ===== src/Inflate/Tests.antt =====
-- The decoders on concrete streams, and the theorems applied to them.
use vitarecomp.Base.{ℕ, ◌≤◌, ◌≡◌, refl, List, [], ◌∷◌, ◌++◌, length, some, replicate, arith}
use vitarecomp.Inflate.Status.{ok}
use vitarecomp.Inflate.Reader.{BitReader}
use vitarecomp.Inflate.Reader.View.{view, bits_of}
use vitarecomp.Inflate.Huff.{
  Huff, huff_build, huff_decode, fits, place, build_counts, build_offs, fill_offs, count_lengths,
}
use vitarecomp.Inflate.Huff.Counts.{next_code}
use vitarecomp.Inflate.Huff.Code.{high_bits, code_of}
use vitarecomp.Inflate.Huff.Decode.{Yields, huff_decode-huff_build}
use vitarecomp.Inflate.Tables.{fixed_lit_lengths, fixed_dist_lengths}
use vitarecomp.Inflate.Block.{Step}
use vitarecomp.Inflate.Block.Tokens.{lit, AreTokens, block_bits, expand_all}
use vitarecomp.Inflate.Stream.{inflate}
use vitarecomp.Inflate.Stream.Ends.{inflate-total}
use vitarecomp.Inflate.Stream.FixedCodes.{inflate-fixed}

-- Whatever the tables held before.
abbrev fresh : Huff
fresh = record { counts = replicate 16 7; symbols = replicate 288 7 }

inflate-total_example :
    (s : Step) × (inflate fresh (1 ∷ 2 ∷ []) 10 ≡ some s) × (length s.out.dst ≤ 10)
inflate-total_example = inflate-total fresh (1 ∷ 2 ∷ []) 10

-- zlib.compress(b"hello hello hello")
abbrev hello : List ℕ
hello = 120 ∷ 218 ∷ 203 ∷ 72 ∷ 205 ∷ 201 ∷ 201 ∷ 87 ∷ 200 ∷ 64 ∷ 39 ∷ 1 ∷ 104 ∷ 3 ∷ 8 ∷ 177 ∷ []

-- Two symbols of one bit.
abbrev pair_lengths : List ℕ
pair_lengths = 1 ∷ 1 ∷ []

abbrev pair_table : Huff
pair_table = record {
  counts = 0 ∷ 2 ∷ 0 ∷ 0 ∷ 0 ∷ 0 ∷ 0 ∷ 0 ∷ 0 ∷ 0 ∷ 0 ∷ 0 ∷ 0 ∷ 0 ∷ 0 ∷ 0 ∷ [];
  symbols = 0 ∷ 1 ∷ replicate 286 7;
}

pair_built : huff_build fresh pair_lengths ≡ some pair_table
unfolding huff_build fits place build_counts build_offs fill_offs count_lengths
pair_built = refl

abbrev one_bit : BitReader
one_bit = record { src = 1 ∷ []; pos = 0; buf = 0; cnt = 0; overrun = 0 }

pair_view :
    view one_bit ≡ high_bits 1 (code_of pair_lengths (1 ∷ []) 1) ++ (0 ∷ 0 ∷ 0 ∷ 0 ∷ 0 ∷ 0 ∷ 0 ∷ [])
unfolding next_code
pair_view = refl

huff_decode-huff_build_example :
    Yields one_bit (some 1) (0 ∷ 0 ∷ 0 ∷ 0 ∷ 0 ∷ 0 ∷ 0 ∷ []) (huff_decode one_bit pair_table)
huff_decode-huff_build_example =
    huff_decode-huff_build fresh pair_table pair_lengths (1 ∷ []) [] 1 one_bit
      (0 ∷ 0 ∷ 0 ∷ 0 ∷ 0 ∷ 0 ∷ 0 ∷ []) (omega arith, (omega arith, tt)) (omega arith) pair_built
      (omega arith) (omega arith) refl pair_view

-- The deflate stream of b"a".
abbrev letter_a : List ℕ
letter_a = 0x4b ∷ 0x04 ∷ 0 ∷ []

letter_a_tokens : AreTokens fixed_lit_lengths fixed_dist_lengths 10 [] (lit 97 ∷ [])
unfolding fixed_lit_lengths
letter_a_tokens = (
  (
    omega arith,
    record { inside = omega arith; used = omega arith; short = omega arith },
    omega arith,
  ),
  record { inside = omega arith; used = omega arith; short = omega arith },
)

letter_a_bits :
    bits_of letter_a
    ≡ 1 ∷ 1 ∷ 0 ∷ block_bits fixed_lit_lengths fixed_dist_lengths (lit 97 ∷ [])
      ++ (0 ∷ 0 ∷ 0 ∷ 0 ∷ 0 ∷ 0 ∷ [])
unfolding fixed_lit_lengths next_code
letter_a_bits = refl

inflate-fixed_example :
    (s : Step) × (inflate fresh letter_a 10 ≡ some s)
    × (s.status ≡ ok)
    × (s.out.dst ≡ expand_all (lit 97 ∷ []) [])
inflate-fixed_example =
    inflate-fixed fresh letter_a 10 (lit 97 ∷ []) (0 ∷ 0 ∷ 0 ∷ 0 ∷ 0 ∷ 0 ∷ []) refl letter_a_tokens
      letter_a_bits
