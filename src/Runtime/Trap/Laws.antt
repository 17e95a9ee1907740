-- ===== src/Runtime/Trap/Laws.antt =====
-- A trace reports each key the first time, and nothing is lost.
use mathlib.Core.Bool.{false≢true}
use vitarecomp.Base.{
  ◌∙◌, sym, Bool-cases, ℕ, ◌+◌, ◌%◌, ◌^◌, ◌≡◌, ◌≢◌, refl, subst, true, false, not, List, ◌∷◌, arith,
  if◌then◌else◌, ◌⊎◌, inl, inr,
}
use vitarecomp.Runtime.Probe.{Probe, present, placed, full, probe}
use vitarecomp.Runtime.Probe.Laws.{one_of, Represents, IsFull, HasRoom, Answers, probe-Answers}
use vitarecomp.Runtime.Trap.{seen_slots, Traps, Report, line, silent, abort_with, first_time, trap}

-- What the table `seen` becomes with `key`: it stays where the key is one of `xs`, or where no slot is
-- empty; else it stands for the key and `xs`.
pub record Remembers (seen xs : List ℕ) (key : ℕ) (seen' : List ℕ) : Type 0 where
  pub known : one_of xs key ≡ true → seen' ≡ seen
  pub stored :
      one_of xs key ≡ false → HasRoom seen_slots seen → Represents seen_slots seen' (key ∷ xs)
  pub over : one_of xs key ≡ false → IsFull seen_slots seen → seen' ≡ seen

Probe-cases : (r : Probe) → (r ≡ present) ⊎ (((ks : List ℕ) × (r ≡ placed ks)) ⊎ (r ≡ full))
Probe-cases present = inl refl
Probe-cases (placed ks) = inr (inl (ks, refl))
Probe-cases full = inr (inr refl)

first_time_lem :
    (key : ℕ) (seen xs : List ℕ)
    → key ≢ 0
    → Represents seen_slots seen xs
    → ((first_time key seen).0 ≡ not (one_of xs key))
      × Remembers seen xs key (first_time key seen).1
unfolding first_time one_of
first_time_lem key seen xs nonzero h =
    let a = probe-Answers seen_slots key seen xs (omega arith) nonzero h in
    elim (Probe-cases (probe seen_slots key seen)) [
      | inl e ↦
          let known : one_of xs key ≡ true = subst (Answers seen_slots seen xs key) e a in
          rw (e, first_time)
            (
              rw known refl,
              record {
                known = λ k. refl;
                stored = λ new room. absurd (false≢true (sym new ∙ known));
                over = λ new f. refl;
              },
            )
      | inr (inl (ks, e)) ↦
          let b = subst (Answers seen_slots seen xs key) e a in
          rw (e, first_time)
            (
              rw b.0 refl,
              record {
                known = λ k. absurd (false≢true (sym b.0 ∙ k));
                stored = λ new room. b.1;
                over = λ new f. let (s, lt, empty) = b.2 in absurd (f s lt empty);
              },
            )
      | inr (inr e) ↦
          let b = subst (Answers seen_slots seen xs key) e a in
          rw (e, first_time)
            (
              rw b.0 refl,
              record {
                known = λ k. refl;
                stored = λ new room. let (s, lt, empty) = room in absurd (b.1 s lt empty);
                over = λ new f. refl;
              },
            )
    ]

-- With the trace on and a table that stands for the keys `xs`, a trap with a key other than zero writes its line
-- just where the key is not one of them, and counts a hit. A key that is not one of them is stored, so that
-- the next trap with it is silent, unless no slot is empty; the table does not change otherwise. With
-- the trace off each trap stops the program with its message.
pub trap-reports :
    (key : ℕ) (what : Report) (t : Traps) (xs : List ℕ)
    → key ≢ 0
    → Represents seen_slots t.seen xs
    → ((trap true key what t).0 ≡ (if one_of xs key then silent else line what))
      × Remembers t.seen xs key (trap true key what t).1.seen
      × (HasRoom seen_slots t.seen
          → (again : Report) → (trap true key again (trap true key what t).1).0 ≡ silent)
      × ((trap true key what t).1.hits ≡ (t.hits + 1) % 2 ^ 32)
      × (trap false key what t
          ≡ (abort_with what, record { seen = t.seen; hits = (t.hits + 1) % 2 ^ 32 }))
unfolding trap one_of
trap-reports key what t xs nonzero h =
    let f = first_time_lem key t.seen xs nonzero h in
    (
      ground (arith, f.0),
      f.1,
      (λ room again. elim (Bool-cases (one_of xs key)) [
        | inl known ↦
            let same = f.1.known known in
            let g =
              first_time_lem key (first_time key t.seen).1 xs nonzero
                (subst (λ (ks : List ℕ). Represents seen_slots ks xs) (sym same) h) in
            ground (arith, g.0, known)
        | inr new ↦
            let g =
              first_time_lem key (first_time key t.seen).1 (key ∷ xs) nonzero
                (f.1.stored new room) in
            ground (arith, g.0)
      ]),
      refl,
      refl,
    )
