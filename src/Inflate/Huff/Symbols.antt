-- ===== src/Inflate/Huff/Symbols.antt =====
-- The symbol table of huff_build: the symbols by code length, and by number within a length.
use vitarecomp.Base.{
  ℕ, zero, suc, ◌+◌, ◌-◌, ◌≤◌, ◌<◌, ◌≡◌, ◌≢◌, refl, sym, ◌∙◌, ◌⊎◌, inl, inr, List, [], ◌∷◌, ◌++◌,
  length, get_or, set, replicate, ◌==◌, arith, if◌then◌else◌, get_or-set_self, get_or-set_ne,
  length-set, Bool-cases, All, ltb, subst,
}
use vitarecomp.Inflate.Huff.{fill_offs, build_offs, place}
use vitarecomp.Inflate.Huff.Counts.{count, bl_count, offset, get_or-increment}
use vitarecomp.Inflate.Huff.Code.{Counted, offset-add-one, offset_mono, rank-lt}

-- The slots that `place` may still write do not hold `s`.
abbrev Spares : ℕ → List ℕ → List ℕ → Type 0
Spares s ls offs =
    (l : ℕ) → 0 < l → l < 16 → (s < get_or offs l 0) ⊎ (get_or offs l 0 + count l ls ≤ s)

fill_offs-get :
    (ls counts offs : List ℕ) (k len l : ℕ)
    → Counted ls counts
    → len + k ≤ 16
    → length offs ≡ 17
    → 1 ≤ len
    → ((j : ℕ) → 1 ≤ j → j ≤ len → get_or offs j 0 ≡ offset ls j)
    → 1 ≤ l
    → l ≤ len + k
    → get_or (fill_offs k len counts offs) l 0 ≡ offset ls l
unfolding fill_offs
fill_offs-get ls counts offs zero len l c small size pos here lo hi = here l lo (omega arith)
fill_offs-get ls counts offs (suc k) len l c small size pos here lo hi =
    fill_offs-get ls counts (set offs (len + 1) value) k (len + 1) l c (omega arith)
      (length-set offs (len + 1) value ∙ size) (omega arith) here' lo (omega arith)
  where
    value : ℕ
    value = get_or offs len 0 + get_or counts len 0

    here' : (j : ℕ) → 1 ≤ j → j ≤ len + 1 → get_or (set offs (len + 1) value) j 0 ≡ offset ls j
    here' j a b = elim (Bool-cases (len + 1 == j)) [
      | inl same ↦ ground (
        arith,
        get_or-set_self offs (len + 1) value 0 (omega (arith, size)),
        here len pos (omega arith),
        c len (omega arith),
        offset-add-one ls len,
      )
      | inr other ↦ get_or-set_ne offs (len + 1) j value 0 (ground arith) ∙ here j a (ground arith)
    ]

length-fill_offs :
    (k len : ℕ) (counts offs : List ℕ) → length (fill_offs k len counts offs) ≡ length offs
unfolding fill_offs
length-fill_offs zero len counts offs = refl
length-fill_offs (suc k) len counts offs =
    length-fill_offs k (len + 1) counts
      (set offs (len + 1) (get_or offs len 0 + get_or counts len 0))
    ∙ length-set offs (len + 1) _

build_offs_lem :
    (ls counts : List ℕ) (l : ℕ)
    → Counted ls counts
    → 1 ≤ l
    → l ≤ 16
    → get_or (build_offs counts (replicate 17 0)) l 0 ≡ offset ls l
unfolding build_offs
build_offs_lem ls counts l c lo hi =
    fill_offs-get ls counts (set (replicate 17 0) 1 0) 15 1 l c (omega arith) refl (omega arith)
      start lo (omega arith)
  where
    start : (j : ℕ) → 1 ≤ j → j ≤ 1 → get_or (set (replicate 17 0) 1 0) j 0 ≡ offset ls j
    start zero a b = absurd (omega arith)
    start (suc zero) a b = unfold offset in refl
    start (suc (suc j)) a b = absurd (omega arith)

length-build_offs : (counts : List ℕ) → length (build_offs counts (replicate 17 0)) ≡ 17
unfolding build_offs
length-build_offs counts = length-fill_offs 15 1 counts (set (replicate 17 0) 1 0)

abbrev pub IsShort : ℕ → Type 0
IsShort x = x < 16

-- `offs` and `symbols` after one symbol.
abbrev next_offs : ℕ → List ℕ → List ℕ
next_offs x offs = if x == 0 then offs else set offs x (get_or offs x 0 + 1)

abbrev next_symbols : ℕ → ℕ → List ℕ → List ℕ → List ℕ
next_symbols i x offs symbols = if x == 0 then symbols else set symbols (get_or offs x 0) i

length-next_offs : (x : ℕ) (offs : List ℕ) → length (next_offs x offs) ≡ length offs
length-next_offs x offs = ground (arith, length-set offs x (get_or offs x 0 + 1))

length-next_symbols :
    (i x : ℕ) (offs symbols : List ℕ) → length (next_symbols i x offs symbols) ≡ length symbols
length-next_symbols i x offs symbols = ground (arith, length-set symbols (get_or offs x 0) i)

next_offs-get :
    (x l : ℕ) (offs : List ℕ)
    → length offs ≡ 17
    → 0 < l
    → l < 16
    → get_or (next_offs x offs) l 0 ≡ get_or offs l 0 + (if x == l then 1 else 0)
next_offs-get x l offs size pos h = ground (arith, get_or-increment offs x l (omega (arith, size)))

-- `place` leaves a slot alone that lies in no remaining range.
place-Spares :
    (i s : ℕ) (ls offs symbols : List ℕ)
    → length offs ≡ 17
    → All IsShort ls
    → Spares s ls offs
    → get_or (place i ls offs symbols) s 0 ≡ get_or symbols s 0
unfolding place
place-Spares i s [] offs symbols size short sp = refl
place-Spares i s (x ∷ ls) offs symbols size short sp =
    place-Spares (i + 1) s ls (next_offs x offs) (next_symbols i x offs symbols)
      (length-next_offs x offs ∙ size) short.1 later
    ∙ kept
  where
    later : Spares s ls (next_offs x offs)
    later l a b = ground (arith, sp l a b, next_offs-get x l offs size a b)

    kept : get_or (next_symbols i x offs symbols) s 0 ≡ get_or symbols s 0
    kept = elim (Bool-cases (x == 0)) [
      | inl unused ↦ rw unused
      | inr used ↦ rw used (
          get_or-set_ne symbols (get_or offs x 0) s i 0
            (ground (arith, sp x (ground arith) short.0)))
    ]

-- The slots still to be written for length `l` and for any other length do not meet.
abbrev Apart : ℕ → List ℕ → List ℕ → Type 0
Apart l ls offs =
    (j : ℕ)
    → 0 < j
    → j < 16
    → j ≢ l
    → (get_or offs l 0 + count l ls ≤ get_or offs j 0)
      ⊎ (get_or offs j 0 + count j ls ≤ get_or offs l 0)

Apart-next :
    (l x : ℕ) (ls offs : List ℕ)
    → length offs ≡ 17
    → 0 < l
    → l < 16
    → Apart l (x ∷ ls) offs
    → Apart l ls (next_offs x offs)
Apart-next l x ls offs size pos small apart j a b ne =
    ground (
      arith,
      apart j a b ne,
      next_offs-get x l offs size pos small,
      next_offs-get x j offs size a b,
    )

place_first :
    (i l : ℕ) (post offs symbols : List ℕ)
    → length offs ≡ 17
    → 0 < l
    → l < 16
    → All IsShort post
    → Apart l (l ∷ post) offs
    → get_or offs l 0 < length symbols
    → get_or (place i (l ∷ post) offs symbols) (get_or offs l 0) 0 ≡ i
unfolding place
place_first i l post offs symbols size pos small short apart room =
    place-Spares (i + 1) (get_or offs l 0) post (next_offs l offs) (next_symbols i l offs symbols)
      (length-next_offs l offs ∙ size) short spared
    ∙ written
  where
    spared : Spares (get_or offs l 0) post (next_offs l offs)
    spared j a b = elim (Bool-cases (j == l)) [
      | inl same ↦ ground (arith, next_offs-get l j offs size a b)
      | inr other ↦ ground (arith, apart j a b (ground arith), next_offs-get l j offs size a b)
    ]

    written : get_or (next_symbols i l offs symbols) (get_or offs l 0) 0 ≡ i
    written = ground (arith, get_or-set_self symbols (get_or offs l 0) i 0 room)

place_finds :
    (i l : ℕ) (pre post offs symbols : List ℕ)
    → length offs ≡ 17
    → 0 < l
    → l < 16
    → All IsShort (pre ++ l ∷ post)
    → Apart l (pre ++ l ∷ post) offs
    → get_or offs l 0 + count l pre < length symbols
    → get_or (place i (pre ++ l ∷ post) offs symbols) (get_or offs l 0 + count l pre) 0
      ≡ i + length pre
unfolding place
place_finds i l [] post offs symbols size pos small short apart room =
    let e : get_or offs l 0 + 0 ≡ get_or offs l 0 = omega arith in
    rw e
      (place_first i l post offs symbols size pos small short.1 apart (omega arith) ∙ omega arith)
place_finds i l (x ∷ pre) post offs symbols size pos small short apart room =
    let slot : get_or offs l 0 + count l (x ∷ pre) ≡ get_or (next_offs x offs) l 0 + count l pre =
      ground (arith, next_offs-get x l offs size pos small) in
    rw slot (
      place_finds (i + 1) l pre post (next_offs x offs) (next_symbols i x offs symbols)
        (length-next_offs x offs ∙ size) pos small short.1
        (Apart-next l x (pre ++ l ∷ post) offs size pos small apart)
        (omega (arith, slot, length-next_symbols i x offs symbols))
      ∙ omega arith)

bl_count_pos : (ls : List ℕ) (l : ℕ) → 0 < l → bl_count ls l ≡ count l ls
bl_count_pos ls zero pos = absurd (omega arith)
bl_count_pos ls (suc l) pos = refl

offset_above : (ls : List ℕ) (l j : ℕ) → 0 < l → l < j → offset ls l + count l ls ≤ offset ls j
offset_above ls l j pos h = omega (
  arith,
  offset_mono ls (j - (l + 1)) (l + 1) j (omega arith),
  offset-add-one ls l,
  bl_count_pos ls l pos,
)

-- How many symbols have a code shorter than `n`.
shorter : ℕ → List ℕ → ℕ
shorter n [] = 0
shorter n (x ∷ xs) =
    if x == 0 then shorter n xs else if ltb x n then suc (shorter n xs) else shorter n xs

shorter-zero : (xs : List ℕ) → shorter 0 xs ≡ 0
unfolding shorter
shorter-zero [] = refl
shorter-zero (x ∷ xs) = ground (arith, shorter-zero xs)

shorter-suc : (n : ℕ) (xs : List ℕ) → shorter (suc n) xs ≡ shorter n xs + bl_count xs n
unfolding shorter
shorter-suc zero [] = omega arith
shorter-suc (suc n) [] = omega arith
shorter-suc zero (x ∷ xs) = ground (arith, shorter-suc zero xs)
shorter-suc (suc n) (x ∷ xs) = ground (arith, shorter-suc (suc n) xs)

shorter-le : (n : ℕ) (xs : List ℕ) → shorter n xs ≤ length xs
unfolding shorter
shorter-le n [] = omega arith
shorter-le n (x ∷ xs) = ground (arith, shorter-le n xs)

offset-shorter : (ls : List ℕ) (n : ℕ) → offset ls n ≡ shorter n ls
unfolding offset
offset-shorter ls zero = sym (shorter-zero ls)
offset-shorter ls (suc n) = omega (arith, offset-shorter ls n, shorter-suc n ls)

-- In an array that huff_build fills, the symbols of different lengths stand apart.
offs-Apart :
    (ls counts : List ℕ) (l : ℕ)
    → Counted ls counts
    → 0 < l
    → l < 16
    → Apart l ls (build_offs counts (replicate 17 0))
offs-Apart ls counts l c pos small j a b ne = ground (
  arith,
  build_offs_lem ls counts l c pos (omega arith),
  build_offs_lem ls counts j c a (omega arith),
  offset_above ls l j pos,
  offset_above ls j l a,
)

All-middle : (pre post : List ℕ) {l : ℕ} → All IsShort (pre ++ l ∷ post) → IsShort l
All-middle [] post h = h.0
All-middle (x ∷ pre) post h = All-middle pre post h.1

-- After huff_build the symbol with `pre` before it stands at the offset of its code length and its
-- rank within that length.
pub place_lem :
    (ls counts pre post symbols : List ℕ) (l : ℕ)
    → Counted ls counts
    → 0 < l
    → ls ≡ pre ++ l ∷ post
    → All IsShort ls
    → length ls ≤ length symbols
    → get_or (place 0 ls (build_offs counts (replicate 17 0)) symbols) (offset ls l + count l pre) 0
      ≡ length pre
place_lem ls counts pre post symbols l c pos e short room = rw (← start) (
    subst (λ xs. get_or (place 0 xs offs symbols) (get_or offs l 0 + count l pre) 0 ≡ length pre)
      (sym e)
      (place_finds 0 l pre post offs symbols (length-build_offs counts) pos small
          (subst (All IsShort) e short)
          (subst (λ xs. Apart l xs offs) e (offs-Apart ls counts l c pos small))
          (omega (
            arith,
            start,
            room,
            offset_above ls l 16 pos small,
            offset-shorter ls 16,
            shorter-le 16 ls,
            rank-lt ls pre post l pos e,
            bl_count_pos ls l pos,
          ))
        ∙ omega arith))
  where
    offs : List ℕ
    offs = build_offs counts (replicate 17 0)

    small : l < 16
    small = All-middle pre post (subst (All IsShort) e short)

    start : get_or offs l 0 ≡ offset ls l
    start = build_offs_lem ls counts l c pos (omega (arith, small))
