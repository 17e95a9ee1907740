-- ===== src/Emit/Body/Labels.antt =====
-- collect ends, and its labels have instructions.
use mathlib.Core.Bool.{false≢true}
use vitarecomp.Base.{
  ℕ, zero, suc, ◌+◌, ◌-◌, ◌/◌, ◌≤◌, ◌<◌, ◌≡◌, refl, ap, true, false, List, [], ◌∷◌, length,
  length-replicate, map, replicate, get_or, All, ltb, leb, ◌==◌, ==_iff, ltb→lt, if_holds, arith,
  Bool-cases, inl, inr,
}
use vitarecomp.Runtime.Search.{Search, found, missing, unfinished, search}
use vitarecomp.Decode.Insn.{Insn}
use vitarecomp.Imports.{Image}
use vitarecomp.Analyze.Walk.{Func}
use vitarecomp.Analyze.Walk.Rule.{Returns, Returns_then, Returns_map, list_holds}
use vitarecomp.Analyze.Walk.Loops.{Fits}
use vitarecomp.Emit.Funcs.{fs_has, member}
use vitarecomp.Emit.Body.{visit_slots, max_insns, Collect, follow, collect_loop, prune, collect}
use vitarecomp.Emit.Body.Flow.{empties, IsBody, Good, Good-trans, here, follow_rule}

module _ (img : Image) (fn : Func) (fits : Fits img) where
  collect_rule :
      (fuel : ℕ) (c : Collect)
      → IsBody img fn c.body.v
      → length c.seen ≡ visit_slots
      → empties c.seen ≤ visit_slots
      → empties c.seen + length c.stack < fuel
      → Returns (Good img fn fits c) (collect_loop fuel img fn c)
  unfolding collect_loop
  collect_rule zero c b s few enough = absurd (omega arith)
  collect_rule (suc fuel) c b s few enough =
      if_holds (Returns (Good img fn fits c)) (leb max_insns (length c.body.v)) _ _
        (here img fn fits c b s)
        (list_holds (Returns (Good img fn fits c)) c.stack _ _ (λ e. here img fn fits c b s)
          (λ a rest e.
            let d : Collect = record c { stack = rest } in
            let one = ap (λ (x : List ℕ). length x) e in
            Returns_then (Good img fn fits d) (Good img fn fits c)
              (follow (visit_slots + 1) img fn a d) (collect_loop fuel img fn)
              (follow_rule img fn fits (visit_slots + 1) a d b s (omega (arith, few)))
              (λ c' g.
                Returns_map _ _ (collect_loop fuel img fn c')
                  (collect_rule fuel c' g.body g.size (omega (arith, g.less, few))
                    (omega (arith, g.blocks, one, enough)))
                  (λ x y.
                    Good-trans img fn fits c c' x g.less (omega (arith, g.blocks, one)) g.count
                      y))))

empties-zeros : (n : ℕ) → empties (replicate n 0) ≡ n
unfolding empties
empties-zeros zero = refl
empties-zeros (suc n) = ground (arith, empties-zeros n)

abbrev pub addrs : List Insn → List ℕ
addrs v = map (λ (o : Insn). o.addr) v

-- A search that hits has hit the key.
abbrev HitsIn : (ℕ → ℕ) → (key n : ℕ) → Search → Type 0
HitsIn at key n (found i) = (at i ≡ key) × (i < n)
HitsIn at key n missing = Unit {0}
HitsIn at key n unfinished = Unit {0}

search-HitsIn :
    (at : ℕ → ℕ) (key n fuel lo hi : ℕ) → hi ≤ n → HitsIn at key n (search at key fuel lo hi)
unfolding search
search-HitsIn at key n zero lo hi le = ground arith
search-HitsIn at key n (suc fuel) lo hi le =
    let mid = lo + (hi - lo) / 2 in
    let above = search-HitsIn at key n fuel (suc mid) hi le in
    let below : ltb lo hi ≡ true → HitsIn at key n (search at key fuel lo mid) =
      λ e. search-HitsIn at key n fuel lo mid (ground (arith, e)) in
    elim (Bool-cases (ltb lo hi)) [
      | inr none_left ↦ rw (none_left, search) (ground arith)
      | inl some_left ↦
          let lt : lo < hi = ltb→lt lo hi some_left in
          elim (Bool-cases (at mid == key)) [
            | inl hit ↦
                rw (some_left, hit, search) ((==_iff (at mid) key).0 hit, omega (arith, le, lt))
            | inr miss ↦
                rw (some_left, miss, search)
                  (if_holds (HitsIn at key n) (ltb (at mid) key) _ _ above (below some_left))
          ]
    ]

member-get_or :
    (xs : List ℕ) (i key : ℕ) → i < length xs → get_or xs i 0 ≡ key → member xs key ≡ true
unfolding member
member-get_or [] i key lt e = absurd (omega arith)
member-get_or (x ∷ xs) zero key lt e = ground (arith, e)
member-get_or (x ∷ xs) (suc i) key lt e = ground (arith, member-get_or xs i key (omega arith) e)

fs_has-true : (fs : List ℕ) (key : ℕ) → fs_has fs key ≡ true → member fs key ≡ true
unfolding fs_has
fs_has-true fs key h =
    go (search (λ i. get_or fs i 0) key (length fs + 1) 0 (length fs))
      (search-HitsIn (λ i. get_or fs i 0) key (length fs) (length fs + 1) 0 (length fs)
        (omega arith))
      h
  where
    go :
        (r : Search)
        → HitsIn (λ i. get_or fs i 0) key (length fs) r
        → elim r [ found i ↦ true | missing ↦ false | unfinished ↦ false ] ≡ true
        → member fs key ≡ true
    go (found i) hit e = member-get_or fs i key hit.1 hit.0
    go missing hit e = absurd (false≢true e)
    go unfinished hit e = absurd (false≢true e)

abbrev HasInsn : List Insn → ℕ → Type 0
HasInsn v l = member (addrs v) l ≡ true

prune-HasInsn : (v : List Insn) (ls : List ℕ) → All (HasInsn v) (prune v ls)
unfolding prune
prune-HasInsn v [] = ground arith
prune-HasInsn v (l ∷ ls) = elim (Bool-cases (fs_has (addrs v) l)) [
  | inl there ↦ rw there (fs_has-true (addrs v) l there, prune-HasInsn v ls)
  | inr not_there ↦ rw not_there (prune-HasInsn v ls)
]

-- With a sort that returns a list of the same length whose instructions are those of the list that it is given, collect ends on
-- a function of a segment whose bytes are in the file and which ends four bytes below the end of the address
-- space; the body has 8192 instructions at most, each decoded from the segment below the bound of the function, and each
-- label that is left is the address of one of them.
pub collect-labels :
    (qsort : List Insn → List Insn) (img : Image) (fn : Func)
    → ((v : List Insn) → length (qsort v) ≡ length v)
    → ((P : Insn → Type 0) (v : List Insn) → All P v → All P (qsort v))
    → Fits img
    → Returns
        (λ b.
          (length b.v ≤ visit_slots)
          × IsBody img fn b.v
          × All (λ l. member (addrs b.v) l ≡ true) b.labels)
        (collect qsort img fn)
unfolding collect
collect-labels qsort img fn same_length same_insns fits =
    let c : Collect = record {
      body = record { v = []; labels = [] };
      seen = replicate visit_slots 0;
      stack = fn.addr ∷ [];
    } in
    let size : length (replicate {A = ℕ} visit_slots 0) ≡ visit_slots =
      length-replicate {0} {A = ℕ} visit_slots 0 in
    let z = empties-zeros visit_slots in
    Returns_then (Good img fn fits c) _ (collect_loop (visit_slots + 2) img fn c) _
      (collect_rule img fn fits (visit_slots + 2) c (ground arith) size (omega (arith, z))
        (omega (arith, z)))
      (λ c' g. (
        omega (arith, g.count, z, same_length c'.body.v),
        same_insns _ c'.body.v g.body,
        prune-HasInsn (qsort c'.body.v) c'.body.labels,
      ))
