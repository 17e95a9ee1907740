-- ===== src/Runtime/Search.antt =====
-- The binary search that vita_dispatch (src/dispatch.c) and vm_find_stub
-- (tools/armrecomp/module.c) share, over a table of addresses.
use vitarecomp.Base.{
  ℕ, zero, suc, ◌+◌, ◌-◌, ◌/◌, ◌≤◌, ◌<◌, ◌≡◌, ◌≢◌, refl, ap, true, false, ltb, ◌==◌, arith,
  if◌then◌else◌, if_holds, Bool-cases, inl, inr,
}

-- The hit, a miss, or the lack of fuel.
pub data Search : Type 0 where
  found : ℕ → Search
  missing : Search
  unfinished : Search

-- The loop between `lo` and `hi` on the addresses `addr_at`.
unfoldable pub search : (ℕ → ℕ) → ℕ → ℕ → ℕ → ℕ → Search
search addr_at key zero lo hi = unfinished
search addr_at key (suc fuel) lo hi =
    let mid = lo + (hi - lo) / 2 in
    let above = search addr_at key fuel (suc mid) hi in
    let below = search addr_at key fuel lo mid in
    if ltb lo hi
    then if addr_at mid == key then found mid else if ltb (addr_at mid) key then above else below
    else missing

-- The addresses below `n` go up.
abbrev pub Ascending : (ℕ → ℕ) → ℕ → Type 0
Ascending addr_at n = (i j : ℕ) → i < j → j < n → addr_at i < addr_at j

module _ (addr_at : ℕ → ℕ) (key : ℕ) where
  pub search-finds :
      (fuel n lo hi i : ℕ)
      → Ascending addr_at n
      → hi ≤ n
      → lo ≤ i
      → i < hi
      → addr_at i ≡ key
      → hi - lo < fuel
      → search addr_at key fuel lo hi ≡ found i
  unfolding search
  search-finds zero n lo hi i up in_n above below e enough = absurd (omega arith)
  search-finds (suc fuel) n lo hi i up in_n above below e enough =
      let mid = lo + (hi - lo) / 2 in
      let some_left : ltb lo hi ≡ true = ground arith in
      let goes_on : (l h : ℕ)
          → l ≤ i
          → i < h
          → h ≤ n
          → h - l < fuel
          → search addr_at key fuel l h ≡ found i =
        λ l h a b c d. search-finds fuel n l h i up c a b e d in
      elim (Bool-cases (ltb i mid)) [
        | inl left ↦
            let less : addr_at i < addr_at mid = up i mid (ground arith) (omega arith) in
            let ne : (addr_at mid == key) ≡ false = ground arith in
            let nl : ltb (addr_at mid) key ≡ false = ground arith in
            rw (some_left, ne, nl) (goes_on lo mid above (ground arith) (omega arith) (omega arith))
        | inr not_left ↦ elim (Bool-cases (ltb mid i)) [
          | inl right ↦
              let less : addr_at mid < addr_at i = up mid i (ground arith) (omega arith) in
              let ne : (addr_at mid == key) ≡ false = ground arith in
              let nl : ltb (addr_at mid) key ≡ true = ground arith in
              rw (some_left, ne, nl) (goes_on (suc mid) hi (ground arith) below in_n (omega arith))
          | inr neither ↦
              let same : mid ≡ i = ground arith in
              let hit : (addr_at mid == key) ≡ true = rw same (rw e (ground arith)) in
              rw (some_left, hit) (ap found same)
        ]
      ]

  -- Without an entry for the key the search says so.
  pub search-misses :
      (fuel lo hi : ℕ)
      → ((i : ℕ) → lo ≤ i → i < hi → addr_at i ≢ key)
      → hi - lo < fuel
      → search addr_at key fuel lo hi ≡ missing
  unfolding search
  search-misses zero lo hi absent enough = absurd (omega arith)
  search-misses (suc fuel) lo hi absent enough = elim (Bool-cases (ltb lo hi)) [
    | inl some_left ↦
        let mid = lo + (hi - lo) / 2 in
        let within : lo < hi = ground arith in
        let off : addr_at mid ≢ key = absent mid (omega arith) (omega arith) in
        let ne : (addr_at mid == key) ≡ false = ground (arith, off) in
        rw (some_left, ne)
          (if_holds (λ r. r ≡ missing) (ltb (addr_at mid) key) _ _
            (search-misses fuel (suc mid) hi (λ i a b. absent i (omega arith) b) (omega arith))
            (search-misses fuel lo mid (λ i a b. absent i a (omega arith)) (omega arith)))
    | inr none_left ↦ rw none_left refl
  ]
