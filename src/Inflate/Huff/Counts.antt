-- ===== src/Inflate/Huff/Counts.antt =====
-- The canonical code of RFC 1951 3.2.2 for a list of code lengths, and the counts that huff_build
-- computes.
use vitarecomp.Base.{
  ℕ, zero, suc, ◌+◌, ◌*◌, ◌<◌, ◌≡◌, refl, ap, ◌∙◌, List, [], ◌∷◌, ◌++◌, length, get_or, set,
  replicate, ◌==◌, arith, if◌then◌else◌, get_or-set_self, get_or-set_ne, get_or-replicate,
  length-set,
}
use vitarecomp.Inflate.Huff.{count_lengths, build_counts}

-- How many symbols have code length `l`.
abbrev pub count : ℕ → List ℕ → ℕ
count l [] = 0
count l (x ∷ xs) = if x == l then suc (count l xs) else count l xs

-- bl_count of the RFC: length 0 means that the symbol is unused.
abbrev pub bl_count : List ℕ → ℕ → ℕ
bl_count ls zero = 0
bl_count ls (suc l) = count (suc l) ls

-- next_code of the RFC, before any symbol of length `l` has its code.
unfoldable pub next_code : List ℕ → ℕ → ℕ
next_code ls zero = 0
next_code ls (suc l) = (next_code ls l + bl_count ls l) * 2

-- How many symbols have a shorter code.
unfoldable pub offset : List ℕ → ℕ → ℕ
offset ls zero = 0
offset ls (suc l) = offset ls l + bl_count ls l

pub count-append : (l : ℕ) (xs ys : List ℕ) → count l (xs ++ ys) ≡ count l xs + count l ys
count-append l [] ys = omega arith
count-append l (x ∷ xs) ys = ground (arith, count-append l xs ys)

-- `xs[i]++`
pub get_or-increment :
    (xs : List ℕ) (i j : ℕ)
    → j < length xs
    → get_or (set xs i (get_or xs i 0 + 1)) j 0 ≡ get_or xs j 0 + (if i == j then 1 else 0)
get_or-increment [] i j h = absurd (omega arith)
get_or-increment (x ∷ xs) zero zero h = refl
get_or-increment (x ∷ xs) zero (suc j) h = ground arith
get_or-increment (x ∷ xs) (suc i) zero h = ground arith
get_or-increment (x ∷ xs) (suc i) (suc j) h = ground (arith, get_or-increment xs i j (omega arith))

count_lengths-get :
    (ls counts : List ℕ) (l : ℕ)
    → l < length counts
    → get_or (count_lengths ls counts) l 0 ≡ get_or counts l 0 + count l ls
unfolding count_lengths
count_lengths-get [] counts l h = omega arith
count_lengths-get (x ∷ ls) counts l h =
    let counts' : List ℕ = set counts x (get_or counts x 0 + 1) in
    ground (
      arith,
      count_lengths-get ls counts' l (rw (length-set counts x (get_or counts x 0 + 1)) h),
      get_or-increment counts x l h,
    )

length-count_lengths : (ls counts : List ℕ) → length (count_lengths ls counts) ≡ length counts
unfolding count_lengths
length-count_lengths [] counts = refl
length-count_lengths (x ∷ ls) counts =
    length-count_lengths ls (set counts x (get_or counts x 0 + 1)) ∙ length-set counts x _

-- huff_build counts the used symbols of each length.
pub build_counts_lem : (ls : List ℕ) (l : ℕ) → l < 16 → get_or (build_counts ls) l 0 ≡ bl_count ls l
unfolding build_counts
build_counts_lem ls zero h =
    get_or-set_self (count_lengths ls (replicate 16 0)) 0 0 0
      (rw (length-count_lengths ls (replicate 16 0)) (omega arith))
build_counts_lem ls (suc l) h =
    get_or-set_ne (count_lengths ls (replicate 16 0)) 0 (suc l) 0 0 (λ e. absurd (omega arith))
    ∙ count_lengths-get ls (replicate 16 0) (suc l) h
    ∙ ap (λ (t : ℕ). t + count (suc l) ls) (get_or-replicate 16 (suc l) 0 0 h)
    ∙ omega arith
