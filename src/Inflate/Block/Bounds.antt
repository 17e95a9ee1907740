-- ===== src/Inflate/Block/Bounds.antt =====
-- A block decoder never writes past the capacity, only adds behind what it had written, and reads on.
use vitarecomp.Base.{
  ℕ, zero, suc, ◌+◌, ◌-◌, ◌%◌, ◌≤◌, ◌<◌, ◌≡◌, refl, sym, ◌∙◌, true, false, Bool, Option, none, some,
  [], ◌∷◌, length, get_or, leb, ltb, ◌==◌, not, arith, Bool-cases, Option-cases, if_holds,
  option_holds, inl, inr, length-append,
}
use vitarecomp.Inflate.Status.{Status, ok, err_input, err_output, err_format, err_distance}
use vitarecomp.Inflate.Reader.{BitReader, getbits}
use vitarecomp.Inflate.Reader.Later.{
  bits_left, Later, Taken, Later-refl, Later-trans, getbits-Later,
}
use vitarecomp.Inflate.Huff.{Huff, huff_decode}
use vitarecomp.Inflate.Huff.Later.{huff_decode-Taken}
use vitarecomp.Inflate.Tables.{len_extra, dist_base, dist_extra}
use vitarecomp.Inflate.Block.{OutBuf, Step, step, emit, copy, match_step, symbol_step}

-- The output grew within its capacity.
pub record Grows (o o' : OutBuf) : Type 0 where
  pub same_cap : o'.cap ≡ o.cap
  pub longer : length o.dst ≤ length o'.dst
  pub within : length o.dst ≤ o.cap → length o'.dst ≤ o.cap

pub Grows-refl : (o : OutBuf) → Grows o o
Grows-refl o = record { same_cap = refl; longer = omega arith; within = λ h. h }

pub Grows-trans : {o p q : OutBuf} → Grows o p → Grows p q → Grows o q
Grows-trans a b = record {
  same_cap = b.same_cap ∙ a.same_cap;
  longer = omega arith;
  within =
      λ h. omega (arith, a.within h, b.within (omega (arith, a.within h, a.same_cap)), a.same_cap);
}

emit-Grows : (o o' : OutBuf) (b : ℕ) → emit o b ≡ some o' → Grows o o'
unfolding emit
emit-Grows o o' b h = ground (arith, length-append o.dst (b ∷ []))

copy-Grows : (k distance : ℕ) (o : OutBuf) → Grows o (copy k distance o).1
unfolding copy
copy-Grows zero distance o = Grows-refl o
copy-Grows (suc k) distance o =
    elim (Option-cases (emit o (get_or o.dst (length o.dst - distance) 0))) [
      | inl full ↦ rw (full, copy) (Grows-refl o)
      | inr (o', e) ↦ rw (e, copy) (Grows-trans (emit-Grows o o' _ e) (copy-Grows k distance o'))
    ]

-- What every round and every block does.
pub record Progress (br : BitReader) (o : OutBuf) (s : Step) : Type 0 where
  pub later : Later br s.br
  pub grows : Grows o s.out

stay : {br br' : BitReader} (s : Status) (o : OutBuf) → Later br br' → Progress br o (step s br' o)
stay s o l = record { later = l; grows = Grows-refl o }

match-Progress :
    (br : BitReader) (o : OutBuf) (dist : Huff) (sym : ℕ) → Progress br o (match_step br o dist sym)
unfolding match_step
match-Progress br o dist sym =
    let br1 = (getbits br (get_or len_extra sym 0)).0 in
    let d = huff_decode br1 dist in
    let l2 : Later br d.0 =
      Later-trans (getbits-Later br (get_or len_extra sym 0)) (huff_decode-Taken br1 dist).later in
    let P : Step → Type 0 = Progress br o in
    if_holds P (leb 29 sym) _ _ (stay err_format o (Later-refl br)) (
      if_holds P (not (d.0.overrun == 0)) _ _ (stay err_input o l2) (
        option_holds P d.1 _ _ (stay err_format o l2) (λ dsym.
          let e = getbits d.0 (get_or dist_extra dsym 0) in
          let l3 = Later-trans l2 (getbits-Later d.0 (get_or dist_extra dsym 0)) in
          if_holds P (leb 30 dsym) _ _ (stay err_format o l2) (
            if_holds P (ltb (length o.dst) (get_or dist_base dsym 0 + e.1)) _ _
              (stay err_distance o l3)
              (record { later = l3; grows = copy-Grows _ (get_or dist_base dsym 0 + e.1) o })))))

-- A round, which ends the block or takes a bit.
pub record Round (br : BitReader) (o : OutBuf) (r : Bool × Step) : Type 0 where
  pub progress : Progress br o r.1
  pub takes : r.0 ≡ true → bits_left r.1.br < bits_left br

pub symbol-Round :
    (br : BitReader) (o : OutBuf) (lit dist : Huff) → Round br o (symbol_step br o lit dist)
unfolding symbol_step
symbol-Round br o lit dist = elim (Bool-cases (not (d.0.overrun == 0))) [
  | inl over ↦ rw over (stop _ (stay err_input o taken.later))
  | inr clean ↦ rw clean (
      option_holds P d.1 _ _ (stop _ (stay err_format o taken.later)) (λ sym.
        if_holds P (ltb sym 256) _ _ (write clean (sym % 256)) (
          if_holds P (sym == 256) _ _ (stop _ (stay ok o taken.later)) (record {
            progress = far (match-Progress d.0 o dist (sym - 257));
            takes =
                λ e. omega (arith, took clean, (match-Progress d.0 o dist (sym - 257)).later.fewer);
          }))))
]
  where
    d : BitReader × Option ℕ
    d = huff_decode br lit

    taken : Taken br d.0
    taken = huff_decode-Taken br lit

    P : Bool × Step → Type 0
    P = Round br o

    stop : (s : Step) → Progress br o s → Round br o (false, s)
    stop s p = record { progress = p; takes = λ e. cc }

    took : not (d.0.overrun == 0) ≡ false → bits_left d.0 < bits_left br
    took clean = taken.strict (ground arith)

    far : {s : Step} → Progress d.0 o s → Progress br o s
    far p = record { later = Later-trans taken.later p.later; grows = p.grows }

    write :
        not (d.0.overrun == 0) ≡ false
        → (b : ℕ)
        → P (elim (emit o b) [
          | none ↦ (false, step err_output d.0 o)
          | some o' ↦ (true, step ok d.0 o')
        ])
    write clean b = elim (Option-cases (emit o b)) [
      | inl full ↦ rw full (stop _ (stay err_output o taken.later))
      | inr (o', e) ↦ rw e (record {
        progress = record { later = taken.later; grows = emit-Grows o o' b e };
        takes = λ _. took clean;
      })
    ]
