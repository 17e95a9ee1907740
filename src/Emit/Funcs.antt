-- ===== src/Emit/Funcs.antt =====
-- The set of the addresses of functions, funcset of tools/armrecomp/emit.c.
use vitarecomp.Base.{
  ℕ, zero, suc, ◌+◌, ◌<◌, ◌≡◌, ◌≢◌, refl, Bool, true, false, List, [], ◌∷◌, length, get_or, ◌==◌,
  Bool-cases, inl, inr, if◌then◌else◌, arith,
}
use vitarecomp.Runtime.Search.{
  found, missing, unfinished, search, Ascending, search-finds, search-misses,
}

-- fs_has: the loop is the one of vita_dispatch, and an answer of 1 or 0 stands for the row.
unfoldable pub fs_has : List ℕ → (addr : ℕ) → Bool
fs_has fs addr = elim (search (λ i. get_or fs i 0) addr (length fs + 1) 0 (length fs)) [
  | found i ↦ true
  | missing ↦ false
  | unfinished ↦ false
]

-- `addr` is an element.
unfoldable pub member : List ℕ → ℕ → Bool
member [] addr = false
member (x ∷ xs) addr = if x == addr then true else member xs addr

-- Each element is below the next.
abbrev pub Increasing : List ℕ → Type 0
Increasing [] = Unit {0}
Increasing (x ∷ []) = Unit {0}
Increasing (x ∷ y ∷ xs) = (x < y) × Increasing (y ∷ xs)

pub Increasing-tail : (x : ℕ) (xs : List ℕ) → Increasing (x ∷ xs) → Increasing xs
Increasing-tail x [] h = h
Increasing-tail x (y ∷ xs) h = h.1

-- An element further on is above the head.
above-head : (x : ℕ) (xs : List ℕ) (j : ℕ) → Increasing (x ∷ xs) → j < length xs → x < get_or xs j 0
above-head x [] j h inside = absurd (omega arith)
above-head x (y ∷ xs) zero h inside = h.0
above-head x (y ∷ xs) (suc j) h inside = omega (arith, h.0, above-head y xs j h.1 (omega arith))

Increasing-Ascending : (xs : List ℕ) → Increasing xs → Ascending (λ i. get_or xs i 0) (length xs)
Increasing-Ascending [] h i j lt inside = absurd (omega arith)
Increasing-Ascending (x ∷ xs) h i zero lt inside = absurd (omega arith)
Increasing-Ascending (x ∷ xs) h zero (suc j) lt inside = above-head x xs j h (omega arith)
Increasing-Ascending (x ∷ xs) h (suc i) (suc j) lt inside =
    Increasing-Ascending xs (Increasing-tail x xs h) i j (omega arith) (omega arith)

-- Where an element stands.
index_of :
    (xs : List ℕ) (addr : ℕ)
    → member xs addr ≡ true
    → (i : ℕ) × (i < length xs) × (get_or xs i 0 ≡ addr)
unfolding member
index_of [] addr h = absurd (ground (arith, h))
index_of (x ∷ xs) addr h = elim (Bool-cases (x == addr)) [
  | inl here ↦ (0, omega arith, ground (arith, here))
  | inr past ↦
      let (i, inside, same) = index_of xs addr (ground (arith, past)) in (suc i, omega arith, same)
]

not_member :
    (xs : List ℕ) (addr i : ℕ) → member xs addr ≡ false → i < length xs → get_or xs i 0 ≢ addr
unfolding member
not_member [] addr i h inside = absurd (omega arith)
not_member (x ∷ xs) addr zero h inside = ground arith
not_member (x ∷ xs) addr (suc i) h inside = not_member xs addr i (ground arith) (omega arith)

-- On a set whose elements go up, fs_has answers whether the address is an element.
pub fs_has-member : (fs : List ℕ) (addr : ℕ) → Increasing fs → fs_has fs addr ≡ member fs addr
unfolding fs_has
fs_has-member fs addr up =
    let n = length fs in
    let at : ℕ → ℕ = λ i. get_or fs i 0 in
    elim (Bool-cases (member fs addr)) [
      | inl is_in ↦
          let (i, inside, same) = index_of fs addr is_in in
          let hit : search at addr (n + 1) 0 n ≡ found i =
            search-finds at addr (n + 1) n 0 n i (Increasing-Ascending fs up) (omega arith)
              (omega arith) inside same (omega arith) in
          rw (hit, is_in, fs_has) refl
      | inr out ↦
          let miss : search at addr (n + 1) 0 n ≡ missing =
            search-misses at addr (n + 1) 0 n (λ i a b. not_member fs addr i out b) (omega arith) in
          rw (miss, out, fs_has) refl
    ]
