-- ===== src/Inflate/Huff.antt =====
-- Canonical Huffman codes as tools/armrecomp/inflate.c builds and reads them.
pub mod Counts
pub mod Code
pub mod Symbols
pub mod Decode
pub mod Later
use vitarecomp.Base.{
  ℕ, zero, suc, ◌+◌, ◌-◌, ◌*◌, bit_or, Bool, true, false, Option, none, some, List, [], ◌∷◌, length,
  get_or, set, replicate, ltb, ◌==◌, if◌then◌else◌,
}
use vitarecomp.Inflate.Reader.{BitReader, getbit}

abbrev pub max_bits : ℕ
max_bits = 15

-- `counts` has 16 entries and `symbols` 288.
pub record Huff : Type 0 where
  pub counts : List ℕ
  pub symbols : List ℕ

-- for (i...) h->counts[lengths[i]]++;
unfoldable pub count_lengths : List ℕ → List ℕ → List ℕ
count_lengths [] counts = counts
count_lengths (l ∷ ls) counts = count_lengths ls (set counts l (get_or counts l 0 + 1))

-- The check for an over-subscribed code at length `len`, with `k` lengths left.
unfoldable pub fits : ℕ → ℕ → ℕ → List ℕ → Bool
fits zero len left counts = true
fits (suc k) len left counts =
    let rest = fits k (len + 1) (left * 2 - get_or counts len 0) counts in
    if ltb (left * 2) (get_or counts len 0) then false else rest

-- offs[len + 1] = offs[len] + counts[len], from `len` on, with `k` lengths left.
unfoldable pub fill_offs : ℕ → ℕ → List ℕ → List ℕ → List ℕ
fill_offs zero len counts offs = offs
fill_offs (suc k) len counts offs =
    fill_offs k (len + 1) counts (set offs (len + 1) (get_or offs len 0 + get_or counts len 0))

-- if (lengths[i]) h->symbols[offs[lengths[i]]++] = i;
unfoldable pub place : ℕ → List ℕ → List ℕ → List ℕ → List ℕ
place i [] offs symbols = symbols
place i (l ∷ ls) offs symbols =
    place (i + 1) ls (if l == 0 then offs else set offs l (get_or offs l 0 + 1))
      (if l == 0 then symbols else set symbols (get_or offs l 0) i)

unfoldable pub build_counts : List ℕ → List ℕ
build_counts lengths = set (count_lengths lengths (replicate 16 0)) 0 0

-- offs is an uninitialised local of 17 entries, of which the code reads 1 to 15 after writing them.
unfoldable pub build_offs : List ℕ → List ℕ → List ℕ
build_offs counts offs = fill_offs max_bits 1 counts (set offs 1 0)

-- `h` is what the table held before. `none` is the result -1.
unfoldable pub huff_build : Huff → List ℕ → Option Huff
huff_build h lengths =
    let counts = build_counts lengths in
    if fits max_bits 1 1 counts
    then some (record {
      counts = counts;
      symbols = place 0 lengths (build_offs counts (replicate 17 0)) h.symbols;
    })
    else none

-- The loop at length `len`, with `k` lengths left. `code - first < count` is written without the
-- difference, and `first` is never above `code`.
unfoldable pub decode_loop : ℕ → ℕ → ℕ → ℕ → ℕ → Huff → BitReader → BitReader × Option ℕ
decode_loop zero len code first index h br = (br, none)
decode_loop (suc k) len code first index h br =
    let (br', b) = getbit br in
    let code' = bit_or code b in
    let count = get_or h.counts len 0 in
    let rest = decode_loop k (len + 1) (code' * 2) ((first + count) * 2) (index + count) h br' in
    if ltb code' (first + count)
    then (br', some (get_or h.symbols (index + (code' - first)) 0))
    else rest

unfoldable pub huff_decode : BitReader → Huff → BitReader × Option ℕ
huff_decode br h = decode_loop max_bits 1 0 0 0 h br
