-- ===== src/Analyze/Bitmap.antt =====
-- The map of decoded instructions of tools/armrecomp/analyze.c: a bit for each halfword.
pub mod Laws
use vitarecomp.Base.{ℕ, ◌/◌, ◌%◌, ◌^◌, bit_or, Bool, List, get_or, set, ◌==◌}

-- seen_get.
unfoldable pub seen_get : List ℕ → (off : ℕ) → Bool
seen_get seen off = let i = off / 2 in get_or seen (i / 8) 0 / 2 ^ (i % 8) % 2 == 1

-- seen_set.
unfoldable pub seen_set : List ℕ → (off : ℕ) → List ℕ
seen_set seen off =
    let i = off / 2 in set seen (i / 8) (bit_or (get_or seen (i / 8) 0) (2 ^ (i % 8)))
