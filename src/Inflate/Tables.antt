-- ===== src/Inflate/Tables.antt =====
-- The length and distance tables of tools/armrecomp/inflate.c, and its fixed codes.
use vitarecomp.Base.{ℕ, List, [], ◌∷◌, ◌++◌, Option, replicate}
use vitarecomp.Inflate.Huff.{Huff, huff_build}

abbrev pub len_base : List ℕ
len_base =
    3 ∷ 4 ∷ 5 ∷ 6 ∷ 7 ∷ 8 ∷ 9 ∷ 10 ∷ 11 ∷ 13 ∷ 15 ∷ 17 ∷ 19 ∷ 23 ∷ 27 ∷ 31 ∷ 35 ∷ 43 ∷ 51 ∷ 59 ∷ 67
    ∷ 83 ∷ 99 ∷ 115 ∷ 131 ∷ 163 ∷ 195 ∷ 227 ∷ 258 ∷ []

abbrev pub len_extra : List ℕ
len_extra =
    0 ∷ 0 ∷ 0 ∷ 0 ∷ 0 ∷ 0 ∷ 0 ∷ 0 ∷ 1 ∷ 1 ∷ 1 ∷ 1 ∷ 2 ∷ 2 ∷ 2 ∷ 2 ∷ 3 ∷ 3 ∷ 3 ∷ 3 ∷ 4 ∷ 4 ∷ 4 ∷ 4
    ∷ 5 ∷ 5 ∷ 5 ∷ 5 ∷ 0 ∷ []

abbrev pub dist_base : List ℕ
dist_base =
    1 ∷ 2 ∷ 3 ∷ 4 ∷ 5 ∷ 7 ∷ 9 ∷ 13 ∷ 17 ∷ 25 ∷ 33 ∷ 49 ∷ 65 ∷ 97 ∷ 129 ∷ 193 ∷ 257 ∷ 385 ∷ 513 ∷ 769
    ∷ 1025 ∷ 1537 ∷ 2049 ∷ 3073 ∷ 4097 ∷ 6145 ∷ 8193 ∷ 12289 ∷ 16385 ∷ 24577 ∷ []

abbrev pub dist_extra : List ℕ
dist_extra =
    0 ∷ 0 ∷ 0 ∷ 0 ∷ 1 ∷ 1 ∷ 2 ∷ 2 ∷ 3 ∷ 3 ∷ 4 ∷ 4 ∷ 5 ∷ 5 ∷ 6 ∷ 6 ∷ 7 ∷ 7 ∷ 8 ∷ 8 ∷ 9 ∷ 9 ∷ 10 ∷ 10
    ∷ 11 ∷ 11 ∷ 12 ∷ 12 ∷ 13 ∷ 13 ∷ []

abbrev pub clen_order : List ℕ
clen_order = 16 ∷ 17 ∷ 18 ∷ 0 ∷ 8 ∷ 7 ∷ 9 ∷ 6 ∷ 10 ∷ 5 ∷ 11 ∷ 4 ∷ 12 ∷ 3 ∷ 13 ∷ 2 ∷ 14 ∷ 1 ∷ 15 ∷ []

-- The code lengths that build_fixed writes, by the rule of RFC 1951 3.2.6.
unfoldable pub fixed_lit_lengths : List ℕ
fixed_lit_lengths = replicate 144 8 ++ (replicate 112 9 ++ (replicate 24 7 ++ replicate 8 8))

unfoldable pub fixed_dist_lengths : List ℕ
fixed_dist_lengths = replicate 30 5

-- The two tables; `fresh` is what the uninitialised locals held.
unfoldable pub build_fixed_lit : Huff → Option Huff
build_fixed_lit fresh = huff_build fresh fixed_lit_lengths

unfoldable pub build_fixed_dist : Huff → Option Huff
build_fixed_dist fresh = huff_build fresh fixed_dist_lengths
