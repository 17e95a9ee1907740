-- ===== src/Emit/Table/Laws.antt =====
-- The merged table serves every function and every import.
use vitarecomp.Base.{
  ℕ, zero, suc, ◌+◌, ◌≤◌, ◌<◌, ◌≡◌, ◌≢◌, refl, sym, ap, subst, ◌∙◌, true, Option, none, some, List,
  [], ◌∷◌, length, map, get_elem?, ltb, ◌==◌, Bool-cases, inl, inr, ltb→lt, lt→ltb, none_ne_some,
  some_eq, Option-cases, if◌then◌else◌, arith,
}
use vitarecomp.Nids.{NidDb}
use vitarecomp.Imports.{Stub}
use vitarecomp.Runtime.Dispatch.{
  Entry, Dispatcher, goes_up, init, Transfer, run, trap_indirect, key_of, dispatch,
}
use vitarecomp.Runtime.Dispatch.Laws.{dispatch-init}
use vitarecomp.Emit.Funcs.{member, Increasing, Increasing-tail}
use vitarecomp.Emit.Table.{Symbol, vita_func, hle_symbol, Row, next_row, rows_loop, rows, linked}

abbrev pub stub_addrs : List Stub → List ℕ
stub_addrs ss = map (λ (s : Stub). s.addr) ss

-- The symbol of the import at an address.
unfoldable pub import_at : Option NidDb → List Stub → ℕ → Option Symbol
import_at db [] key = none
import_at db (s ∷ ss) key = if s.addr == key then some (hle_symbol db s) else import_at db ss key

-- What an address means: an import, else a function, else nothing.
unfoldable pub meaning : Option NidDb → List ℕ → List Stub → ℕ → Option Symbol
meaning db fs ss key = elim (import_at db ss key) [
  | some sym ↦ some sym
  | none ↦ if member fs key then some (vita_func key) else none
]

-- The first row of an address.
row_at : List Row → ℕ → Option Symbol
row_at [] key = none
row_at (r ∷ rs) key = if r.addr == key then some r.symbol else row_at rs key

-- No import stands below the first.
import_at-below :
    (db : Option NidDb) (s : Stub) (ss : List Stub) (key : ℕ)
    → Increasing (stub_addrs (s ∷ ss))
    → key < s.addr
    → import_at db (s ∷ ss) key ≡ none
unfolding import_at
import_at-below db s [] key up lt = ground (arith, lt)
import_at-below db s (t ∷ ss) key up lt =
    let rest = import_at-below db t ss key up.1 (omega (arith, lt, up.0)) in
    ground (arith, lt, rest)

-- The rows give each address its meaning.
row_at-rows_loop :
    (fuel : ℕ) (db : Option NidDb) (fs : List ℕ) (ss : List Stub) (key : ℕ)
    → length fs + length ss ≤ fuel
    → Increasing fs
    → Increasing (stub_addrs ss)
    → row_at (rows_loop fuel db fs ss) key ≡ meaning db fs ss key
unfolding rows_loop next_row row_at meaning import_at member
row_at-rows_loop zero db [] [] key enough up_f up_s = refl
row_at-rows_loop zero db [] (s ∷ ss) key enough up_f up_s = absurd (omega arith)
row_at-rows_loop zero db (f ∷ fs) ss key enough up_f up_s = absurd (omega arith)
row_at-rows_loop (suc fuel) db [] [] key enough up_f up_s = refl
row_at-rows_loop (suc fuel) db [] (s ∷ ss) key enough up_f up_s =
    let ih =
      row_at-rows_loop fuel db [] ss key (omega arith) up_f
        (Increasing-tail s.addr (stub_addrs ss) up_s) in
    ground (arith, ih)
row_at-rows_loop (suc fuel) db (f ∷ fs) [] key enough up_f up_s =
    let ih = row_at-rows_loop fuel db fs [] key (omega arith) (Increasing-tail f fs up_f) up_s in
    ground (arith, ih)
row_at-rows_loop (suc fuel) db (f ∷ fs) (s ∷ ss) key enough up_f up_s =
    let tail_f = Increasing-tail f fs up_f in
    let tail_s = Increasing-tail s.addr (stub_addrs ss) up_s in
    elim (Bool-cases (ltb s.addr f)) [
      | inl stub_first ↦
          let ih = row_at-rows_loop fuel db (f ∷ fs) ss key (omega arith) up_f tail_s in
          ground (arith, ih, stub_first)
      | inr not_stub ↦ elim (Bool-cases (ltb f s.addr)) [
        | inl func_first ↦
            let ih = row_at-rows_loop fuel db fs (s ∷ ss) key (omega arith) tail_f up_s in
            ground (
              arith,
              ih,
              not_stub,
              func_first,
              import_at-below db s ss f up_s (ltb→lt f s.addr func_first),
            )
        | inr same ↦
            let ih = row_at-rows_loop fuel db fs ss key (omega arith) tail_f tail_s in
            ground (arith, ih, not_stub, same)
      ]
    ]

-- The first row is above `n`.
abbrev HeadAbove : ℕ → List Row → Type 0
HeadAbove n [] = Unit {0}
HeadAbove n (r ∷ rs) = n < r.addr

abbrev FirstAbove : ℕ → List ℕ → Type 0
FirstAbove n [] = Unit {0}
FirstAbove n (x ∷ xs) = n < x

rows_loop-HeadAbove :
    (n fuel : ℕ) (db : Option NidDb) (fs : List ℕ) (ss : List Stub)
    → FirstAbove n fs
    → FirstAbove n (stub_addrs ss)
    → HeadAbove n (rows_loop fuel db fs ss)
unfolding rows_loop next_row
rows_loop-HeadAbove n zero db fs ss a b = search
rows_loop-HeadAbove n (suc fuel) db [] [] a b = search
rows_loop-HeadAbove n (suc fuel) db [] (s ∷ ss) a b = b
rows_loop-HeadAbove n (suc fuel) db (f ∷ fs) [] a b = a
rows_loop-HeadAbove n (suc fuel) db (f ∷ fs) (s ∷ ss) a b = ground arith

linked-goes_up :
    (link : Symbol → ℕ) (r : Row) (rs : List Row)
    → HeadAbove r.addr rs
    → goes_up (linked link rs) ≡ true
    → goes_up (linked link (r ∷ rs)) ≡ true
unfolding goes_up
linked-goes_up link r [] a h = refl
linked-goes_up link r (q ∷ rs) a h = rw (lt→ltb r.addr q.addr a) h

tail-FirstAbove : (x : ℕ) (xs : List ℕ) → Increasing (x ∷ xs) → FirstAbove x xs
tail-FirstAbove x [] h = h
tail-FirstAbove x (y ∷ xs) h = h.0

rows_loop-goes_up :
    (link : Symbol → ℕ) (fuel : ℕ) (db : Option NidDb) (fs : List ℕ) (ss : List Stub)
    → Increasing fs
    → Increasing (stub_addrs ss)
    → goes_up (linked link (rows_loop fuel db fs ss)) ≡ true
unfolding rows_loop next_row
rows_loop-goes_up link zero db fs ss up_f up_s = unfold goes_up in refl
rows_loop-goes_up link (suc fuel) db [] [] up_f up_s = unfold goes_up in refl
rows_loop-goes_up link (suc fuel) db [] (s ∷ ss) up_f up_s =
    linked-goes_up link _ (rows_loop fuel db [] ss)
      (rows_loop-HeadAbove s.addr fuel db [] ss up_f (tail-FirstAbove s.addr (stub_addrs ss) up_s))
      (rows_loop-goes_up link fuel db [] ss up_f (Increasing-tail s.addr (stub_addrs ss) up_s))
rows_loop-goes_up link (suc fuel) db (f ∷ fs) [] up_f up_s =
    linked-goes_up link _ (rows_loop fuel db fs [])
      (rows_loop-HeadAbove f fuel db fs [] (tail-FirstAbove f fs up_f) up_s)
      (rows_loop-goes_up link fuel db fs [] (Increasing-tail f fs up_f) up_s)
rows_loop-goes_up link (suc fuel) db (f ∷ fs) (s ∷ ss) up_f up_s =
    let tail_f = Increasing-tail f fs up_f in
    let tail_s = Increasing-tail s.addr (stub_addrs ss) up_s in
    let first_f = tail-FirstAbove f fs up_f in
    let first_s = tail-FirstAbove s.addr (stub_addrs ss) up_s in
    elim (Bool-cases (ltb s.addr f)) [
      | inl stub_first ↦
          rw (stub_first, rows_loop, next_row)
            (linked-goes_up link _ (rows_loop fuel db (f ∷ fs) ss)
              (rows_loop-HeadAbove s.addr fuel db (f ∷ fs) ss (ltb→lt s.addr f stub_first) first_s)
              (rows_loop-goes_up link fuel db (f ∷ fs) ss up_f tail_s))
      | inr not_stub ↦ elim (Bool-cases (ltb f s.addr)) [
        | inl func_first ↦
            rw (not_stub, func_first, rows_loop, next_row)
              (linked-goes_up link _ (rows_loop fuel db fs (s ∷ ss))
                (rows_loop-HeadAbove f fuel db fs (s ∷ ss) first_f (ltb→lt f s.addr func_first))
                (rows_loop-goes_up link fuel db fs (s ∷ ss) tail_f up_s))
        | inr neither ↦
            let same : s.addr ≡ f = ground arith in
            rw (not_stub, neither, rows_loop, next_row)
              (linked-goes_up link _ (rows_loop fuel db fs ss)
                (rows_loop-HeadAbove s.addr fuel db fs ss
                  (subst (λ x. FirstAbove x fs) (sym same) first_f) first_s)
                (rows_loop-goes_up link fuel db fs ss tail_f tail_s))
      ]
    ]

-- A row that the scan finds stands in the linked table, and one that it does not find, does not.
row_at-some :
    (link : Symbol → ℕ) (rs : List Row) (key : ℕ) (sym : Symbol)
    → row_at rs key ≡ some sym
    → (i : ℕ) × (e : Entry) × (get_elem? (linked link rs) i ≡ some e)
      × (e.addr ≡ key)
      × (e.fn ≡ link sym)
unfolding row_at
row_at-some link [] key sy h = absurd (none_ne_some h)
row_at-some link (r ∷ rs) key sy h = elim (Bool-cases (r.addr == key)) [
  | inl here ↦ (
    0,
    record { addr = r.addr; fn = link r.symbol },
    refl,
    ground arith,
    ap link (some_eq (rw here at h)),
  )
  | inr past ↦
      let (i, e, row, same, fn) = row_at-some link rs key sy (rw past at h) in
      (suc i, e, row, same, fn)
]

row_at-none :
    (link : Symbol → ℕ) (rs : List Row) (key i : ℕ) (e : Entry)
    → row_at rs key ≡ none
    → get_elem? (linked link rs) i ≡ some e
    → e.addr ≢ key
unfolding row_at
row_at-none link [] key i e h row = absurd (none_ne_some row)
row_at-none link (r ∷ rs) key zero e h row =
    ground (arith, ap (λ (x : Entry). x.addr) (some_eq row))
row_at-none link (r ∷ rs) key (suc i) e h row = row_at-none link rs key i e (ground arith) row

-- What a transfer to a meaning comes to.
unfoldable pub transfer : (Symbol → ℕ) → (from addr : ℕ) → Option Symbol → Transfer
transfer link from addr none = trap_indirect from addr
transfer link from addr (some sym) = run (link sym)

-- Where the addresses of the functions and those of the import stubs go up, a transfer in the generated
-- program, with its table registered, runs the import at the address, with or without the Thumb bit; else the
-- function at it, and it traps where there is neither.
pub dispatch-rows :
    (link : Symbol → ℕ) (db : Option NidDb) (fs : List ℕ) (ss : List Stub) (from addr : ℕ)
    → Increasing fs
    → Increasing (stub_addrs ss)
    → (dispatch from addr (init (linked link (rows db fs ss)))).0
      ≡ transfer link from addr (meaning db fs ss (key_of addr))
unfolding rows transfer
dispatch-rows link db fs ss from addr up_f up_s =
    let n = length fs + length ss in
    let rs = rows_loop n db fs ss in
    let table = linked link rs in
    let key = key_of addr in
    let same = row_at-rows_loop n db fs ss key (omega arith) up_f up_s in
    let d = dispatch-init table from addr (rows_loop-goes_up link n db fs ss up_f up_s) in
    elim (Option-cases (meaning db fs ss key)) [
      | inl nothing_there ↦ rw nothing_there (
          ap (λ (r : Transfer × Dispatcher). r.0)
            (d.1 (λ i e row. row_at-none link rs key i e (same ∙ nothing_there) row)))
      | inr (sy, there) ↦
          let (i, e, row, at, fn) = row_at-some link rs key sy (same ∙ there) in
          rw there (ap (λ (r : Transfer × Dispatcher). r.0) (d.0 i e row at) ∙ ap run fn)
    ]
