-- ===== src/Runtime/Dispatch/Laws.antt =====
-- vita_dispatch reaches exactly the functions of the table, and refuses a table out of order.
use mathlib.Core.Bool.{false≢true}
use vitarecomp.Base.{
  none_ne_some, some_eq, ap, ◌≤◌, Bool, if_holds, List, ℕ, zero, suc, ◌+◌, ◌%◌, ◌^◌, ◌<◌, ◌≡◌, ◌≢◌,
  refl, sym, ◌∙◌, true, false, some, [], ◌∷◌, length, get_elem?, ltb, arith, Bool-cases, inl, inr,
}
use vitarecomp.Runtime.Search.{found, missing, search, Ascending, search-finds, search-misses}
use vitarecomp.Runtime.Dispatch.{
  Entry, Dispatcher, goes_up, init, Transfer, addr_at, run, trap_indirect, key_of, dispatch,
}

goes_up-head :
    (x y : Entry) (es : List Entry)
    → goes_up (x ∷ y ∷ es) ≡ true
    → (x.addr < y.addr) × (goes_up (y ∷ es) ≡ true)
unfolding goes_up
goes_up-head x y es h = elim (Bool-cases (ltb x.addr y.addr)) [
  | inl less ↦ (ground arith, rw less at h)
  | inr more ↦ absurd (false≢true (rw more at h))
]

-- The first row is below every other.
first_below :
    (x : Entry) (es : List Entry) (j : ℕ)
    → goes_up (x ∷ es) ≡ true
    → j < length es
    → x.addr < addr_at es j
unfolding addr_at
first_below x [] j h in_n = absurd (omega arith)
first_below x (y ∷ es) zero h in_n = (goes_up-head x y es h).0
first_below x (y ∷ es) (suc j) h in_n =
    let (less, more) = goes_up-head x y es h in
    omega (arith, less, first_below y es j more (omega arith))

goes_up-tail : (x : Entry) (es : List Entry) → goes_up (x ∷ es) ≡ true → goes_up es ≡ true
unfolding goes_up
goes_up-tail x [] h = refl
goes_up-tail x (y ∷ es) h = (goes_up-head x y es h).1

-- Neighbours in order put all rows in order.
goes_up-Ascending :
    (table : List Entry) → goes_up table ≡ true → Ascending (addr_at table) (length table)
unfolding addr_at
goes_up-Ascending [] h i j lt in_n = absurd (omega arith)
goes_up-Ascending (x ∷ es) h i zero lt in_n = absurd (omega arith)
goes_up-Ascending (x ∷ es) h zero (suc j) lt in_n = first_below x es j h (omega arith)
goes_up-Ascending (x ∷ es) h (suc i) (suc j) lt in_n =
    goes_up-Ascending es (goes_up-tail x es h) i j (omega arith) (omega arith)

addr_at-some :
    (table : List Entry) (i : ℕ) (e : Entry) → get_elem? table i ≡ some e → addr_at table i ≡ e.addr
unfolding addr_at
addr_at-some table i e h = rw (h, addr_at) refl

row_inside :
    (table : List Entry) (i : ℕ) (e : Entry) → get_elem? table i ≡ some e → i < length table
row_inside [] i e h = absurd (none_ne_some h)
row_inside (x ∷ es) zero e h = omega arith
row_inside (x ∷ es) (suc i) e h = omega (arith, row_inside es i e h)

row_some :
    (table : List Entry) (i : ℕ) → i < length table → (e : Entry) × (get_elem? table i ≡ some e)
row_some [] i h = absurd (omega arith)
row_some (x ∷ es) zero h = (x, refl)
row_some (x ∷ es) (suc i) h = row_some es i (omega arith)

init_sorted : (table : List Entry) → goes_up table ≡ true → (init table).count ≡ length table
unfolding init
init_sorted table h = rw h refl

dispatch_hit :
    (from addr : ℕ) (d : Dispatcher) (i : ℕ) (e : Entry)
    → search (addr_at d.table) (key_of addr) (d.count + 1) 0 d.count ≡ found i
    → get_elem? d.table i ≡ some e
    → dispatch from addr d ≡ (run e.fn, record d { hits = (d.hits + 1) % 2 ^ 32 })
unfolding dispatch
dispatch_hit from addr d i e hit row = rw (hit, row, dispatch) refl

dispatch_miss :
    (from addr : ℕ) (d : Dispatcher)
    → search (addr_at d.table) (key_of addr) (d.count + 1) 0 d.count ≡ missing
    → dispatch from addr d
      ≡ (trap_indirect from addr, record d { misses = (d.misses + 1) % 2 ^ 32 })
unfolding dispatch
dispatch_miss from addr d miss = rw (miss, dispatch) refl

-- After vita_dispatch_init with a table in order, a transfer to the address of a row, with or
-- without the Thumb bit, runs the function of that row and counts a hit, and a transfer to an address
-- that no row has goes to vita_trap_indirect with the source and the destination and counts a miss.
pub dispatch-init :
    (table : List Entry) (from addr : ℕ)
    → goes_up table ≡ true
    → ((i : ℕ) (e : Entry)
        → get_elem? table i ≡ some e
        → e.addr ≡ key_of addr
        → dispatch from addr (init table) ≡ (run e.fn, record (init table) { hits = 1 }))
      × (((i : ℕ) (e : Entry) → get_elem? table i ≡ some e → e.addr ≢ key_of addr)
          → dispatch from addr (init table)
            ≡ (trap_indirect from addr, record (init table) { misses = 1 }))
unfolding init
dispatch-init table from addr h =
    let n = init_sorted table h in
    let d = init table in
    (
      (λ i e row same.
          let inside = row_inside table i e row in
          dispatch_hit from addr d i e
            (search-finds (addr_at table) (key_of addr) (d.count + 1) (length table) 0 d.count i
              (goes_up-Ascending table h) (omega (arith, n)) (omega arith) (omega (arith, n))
              (addr_at-some table i e row ∙ same) (omega arith))
            row),
      (λ absent. dispatch_miss from addr d (
          search-misses (addr_at table) (key_of addr) (d.count + 1) 0 d.count
            (λ i a b eq.
              let (e, row) = row_some table i (omega (arith, n)) in
              absent i e row (sym (addr_at-some table i e row) ∙ eq))
            (omega arith))),
    )

-- Transfers, each a source and a destination, one behind the other.
unfoldable pub dispatch_all : Dispatcher → List (ℕ × ℕ) → List Transfer × Dispatcher
dispatch_all d [] = ([], d)
dispatch_all d ((from, addr) ∷ ts) =
    let (t, d') = dispatch from addr d in let (rest, last) = dispatch_all d' ts in (t ∷ rest, last)

-- Each transfer traps.
abbrev pub trap_each : List (ℕ × ℕ) → List Transfer
trap_each [] = []
trap_each ((from, addr) ∷ ts) = trap_indirect from addr ∷ trap_each ts

goes_up-broken :
    (table : List Entry) (i : ℕ) (e f : Entry)
    → get_elem? table i ≡ some e
    → get_elem? table (suc i) ≡ some f
    → f.addr ≤ e.addr
    → goes_up table ≡ false
unfolding goes_up
goes_up-broken [] i e f x y down = absurd (none_ne_some x)
goes_up-broken (a ∷ []) i e f x y down = absurd (none_ne_some y)
goes_up-broken (a ∷ b ∷ es) zero e f x y down =
    let p = ap (λ (z : Entry). z.addr) (some_eq x) in
    let q = ap (λ (z : Entry). z.addr) (some_eq y) in ground (arith, p, q, down)
goes_up-broken (a ∷ b ∷ es) (suc i) e f x y down =
    let ih = goes_up-broken (b ∷ es) i e f x y down in
    if_holds (λ (z : Bool). z ≡ false) (ltb a.addr b.addr) _ _ ih refl

dispatch_none :
    (from addr : ℕ) (d : Dispatcher)
    → d.count ≡ 0
    → dispatch from addr d
      ≡ (trap_indirect from addr, record d { misses = (d.misses + 1) % 2 ^ 32 })
dispatch_none from addr d n = dispatch_miss from addr d (
    search-misses (addr_at d.table) (key_of addr) (d.count + 1) 0 d.count
      (λ i a b e. omega (arith, n)) (omega arith))

dispatch_all_none :
    (ts : List (ℕ × ℕ)) (d : Dispatcher)
    → d.count ≡ 0
    → d.misses < 2 ^ 32
    → dispatch_all d ts ≡ (trap_each ts, record d { misses = (d.misses + length ts) % 2 ^ 32 })
unfolding dispatch_all
dispatch_all_none [] d n small = ap (λ (k : ℕ). ([], record d { misses = k })) (omega arith)
dispatch_all_none ((from, addr) ∷ ts) d n small =
    let d' : Dispatcher = record d { misses = (d.misses + 1) % 2 ^ 32 } in
    let ih = dispatch_all_none ts d' n (omega arith) in
    let later : ((d.misses + 1) % 2 ^ 32 + length ts) % 2 ^ 32
        ≡ (d.misses + suc (length ts)) % 2 ^ 32 =
      omega arith in
    ap (λ (p : Transfer × Dispatcher). (p.0 ∷ (dispatch_all p.1 ts).0, (dispatch_all p.1 ts).1))
      (dispatch_none from addr d n)
    ∙ (ap (λ (p : List Transfer × Dispatcher). (trap_indirect from addr ∷ p.0, p.1)) ih
        ∙ ap (λ (k : ℕ). (trap_indirect from addr ∷ trap_each ts, record d { misses = k })) later)

-- After vita_dispatch_init with a table that has a row whose address is not below that of the next row, each of
-- any sequence of transfers goes to vita_trap_indirect with its source and destination, and they are counted
-- as misses, modulo 2 ^ 32; the rest of the state stays.
pub dispatch-init_unsorted :
    (table : List Entry) (i : ℕ) (e f : Entry) (ts : List (ℕ × ℕ))
    → get_elem? table i ≡ some e
    → get_elem? table (suc i) ≡ some f
    → f.addr ≤ e.addr
    → dispatch_all (init table) ts
      ≡ (trap_each ts, record (init table) { misses = length ts % 2 ^ 32 })
unfolding init
dispatch-init_unsorted table i e f ts x y down =
    let broken = goes_up-broken table i e f x y down in
    let from_zero : (0 + length ts) % 2 ^ 32 ≡ length ts % 2 ^ 32 = omega arith in
    dispatch_all_none ts (init table) (rw broken refl) (omega arith)
    ∙ ap (λ (k : ℕ). (trap_each ts, record (init table) { misses = k })) from_zero
