-- ===== src/Runtime/Probe/Laws.antt =====
-- A table of slots is a set of keys.
use mathlib.Core.Bool.{false≢true}
use vitarecomp.Base.{
  ltb, ◌-◌, ℕ, zero, suc, ◌+◌, ◌*◌, ◌%◌, ◌^◌, ◌≤◌, ◌<◌, ◌≡◌, ◌≢◌, refl, sym, ap, subst, ◌∙◌,
  if_holds, Bool, true, false, List, [], ◌∷◌, length, get_or, set, ◌==◌, ==_iff, if◌then◌else◌,
  arith, Bool-cases, inl, inr, length-set, length-replicate, replicate, get_or-set_self,
  get_or-set_ne,
}
use native.Mathlib.Nat.{mod-lt, mod-eq_of_lt, mod-eq-sub-mod}
use vitarecomp.Runtime.Probe.{Probe, present, placed, full, slot, probe_loop, probe}

-- `key` stands in its slot `i`, with no empty slot before.
pub record Holds (n : ℕ) (ks : List ℕ) (key : ℕ) : Type 0 where
  pub i : ℕ
  pub inside : i < n
  pub at : get_or ks (slot n key i) 0 ≡ key
  pub before : (j : ℕ) → j < i → get_or ks (slot n key j) 0 ≢ 0

-- `key` is one of `xs`.
unfoldable pub one_of : List ℕ → ℕ → Bool
one_of [] key = false
one_of (x ∷ xs) key = if x == key then true else one_of xs key

-- The slots stand for the keys `xs`.
pub record Represents (n : ℕ) (ks xs : List ℕ) : Type 0 where
  pub slots : length ks ≡ n
  pub no_zero : one_of xs 0 ≡ false
  pub holds : (key : ℕ) → one_of xs key ≡ true → Holds n ks key
  pub only : (s : ℕ) → get_or ks s 0 ≢ 0 → one_of xs (get_or ks s 0) ≡ true

-- No slot is empty.
abbrev pub IsFull : (n : ℕ) → List ℕ → Type 0
IsFull n ks = (s : ℕ) → s < n → get_or ks s 0 ≢ 0

-- Some slot is empty.
abbrev pub HasRoom : (n : ℕ) → List ℕ → Type 0
HasRoom n ks = (s : ℕ) × (s < n) × (get_or ks s 0 ≡ 0)

-- What a round of the set answers for a key that is not zero.
abbrev pub Answers : (n : ℕ) (ks xs : List ℕ) (key : ℕ) → Probe → Type 0
Answers n ks xs key present = one_of xs key ≡ true
Answers n ks xs key (placed ks') =
    (one_of xs key ≡ false) × Represents n ks' (key ∷ xs) × HasRoom n ks
Answers n ks xs key full = (one_of xs key ≡ false) × IsFull n ks

-- The rounds of a key come to every slot.
slot-reaches : (n key s : ℕ) → s < n → (i : ℕ) × (i < n) × (slot n key i ≡ s)
slot-reaches n key s lt =
    let h = key * 2654435761 % 2 ^ 32 % n in
    let small : h < n = mod-lt (key * 2654435761 % 2 ^ 32) (omega arith) in
    elim (Bool-cases (ltb s h)) [
      | inl below ↦
          let less : s < h = ground (arith, below) in
          let e : h + (s + n - h) ≡ n + s = omega arith in
          (
            s + n - h,
            omega arith,
            ap (λ (x : ℕ). x % n) e
                ∙ (mod-eq-sub-mod (omega arith)
                    ∙ (ap (λ (x : ℕ). x % n) (omega arith) ∙ mod-eq_of_lt lt)),
          )
      | inr above ↦
          let le : h ≤ s = ground (arith, above) in
          let e : h + (s - h) ≡ s = omega arith in
          (s - h, omega arith, ap (λ (x : ℕ). x % n) e ∙ mod-eq_of_lt lt)
    ]

module _ (n : ℕ) (pos : 0 < n) (key : ℕ) (nonzero : key ≢ 0) (ks : List ℕ) where
  slot-lt : (k i : ℕ) → slot n k i < n
  slot-lt k i = mod-lt (k * 2654435761 % 2 ^ 32 % n + i) pos

  -- Before its slot the loop sees no empty one.
  finds :
      (left i : ℕ) (h : Holds n ks key)
      → i ≤ h.i
      → n ≤ left + i
      → probe_loop left n key i ks ≡ present
  unfolding probe_loop
  finds zero i h le enough = absurd (omega (arith, h.inside))
  finds (suc left) i h le enough = elim (Bool-cases (get_or ks (slot n key i) 0 == key)) [
    | inl hit ↦ rw (hit, probe_loop) refl
    | inr miss ↦ elim (Bool-cases (i == h.i)) [
      | inl here ↦
          let there : get_or ks (slot n key i) 0 ≡ key =
            ap (λ (j : ℕ). get_or ks (slot n key j) 0) ((==_iff i h.i).0 here) ∙ h.at in
          absurd (ground (arith, there, miss))
      | inr ahead ↦
          let lt : i < h.i = ground (arith, ahead, le) in
          let taken : (get_or ks (slot n key i) 0 == 0) ≡ false = ground (arith, h.before i lt) in
          rw (miss, taken, probe_loop) (finds left (suc i) h (omega arith) (omega arith))
    ]
  ]

  module _ (xs : List ℕ) (h : Represents n ks xs) (new : one_of xs key ≡ false) where
    -- The empty slot `s` takes the key, and every other key stays where it is.
    place :
        (i : ℕ)
        → i < n
        → get_or ks (slot n key i) 0 ≡ 0
        → ((j : ℕ) → j < i → get_or ks (slot n key j) 0 ≢ 0)
        → Represents n (set ks (slot n key i) key) (key ∷ xs)
    unfolding one_of
    place i lt empty before =
        let s = slot n key i in
        let ks' = set ks s key in
        let within : s < length ks = omega (arith, slot-lt key i, h.slots) in
        let hit : get_or ks' s 0 ≡ key = get_or-set_self ks s key 0 within in
        let stays : (t : ℕ) → get_or ks t 0 ≢ 0 → get_or ks' t 0 ≡ get_or ks t 0 = λ t ne.
          get_or-set_ne ks s t key 0 (λ e. ne (ap (λ (x : ℕ). get_or ks x 0) (sym e) ∙ empty)) in
        let never : (t : ℕ) → get_or ks t 0 ≢ 0 → get_or ks' t 0 ≢ 0 =
          λ t ne e. ne (sym (stays t ne) ∙ e) in
        record {
          slots = length-set ks s key ∙ h.slots;
          no_zero = ground (arith, nonzero, h.no_zero);
          holds = λ y is_in. elim (Bool-cases (key == y)) [
            | inl same ↦ subst (Holds n ks') ((==_iff key y).0 same) (record {
              i = i;
              inside = lt;
              at = hit;
              before = λ j less. never (slot n key j) (before j less);
            })
            | inr other ↦
                let old = h.holds y (ground (arith, is_in, other)) in
                let is_old : one_of xs y ≡ true = ground (arith, is_in, other) in
                let there : get_or ks (slot n y old.i) 0 ≢ 0 = λ z.
                  false≢true (sym h.no_zero ∙ (ap (one_of xs) (sym (sym old.at ∙ z)) ∙ is_old)) in
                record {
                  i = old.i;
                  inside = old.inside;
                  at = stays (slot n y old.i) there ∙ old.at;
                  before = λ j less. never (slot n y j) (old.before j less);
                }
          ];
          only = λ t ne. elim (Bool-cases (s == t)) [
            | inl same ↦
                let e : get_or ks' t 0 ≡ key =
                  ap (λ (x : ℕ). get_or ks' x 0) (sym ((==_iff s t).0 same)) ∙ hit in
                rw e (ground arith)
            | inr other ↦
                let e : get_or ks' t 0 ≡ get_or ks t 0 =
                  get_or-set_ne ks s t key 0 (ground (arith, other)) in
                let was = h.only t (λ z. ne (e ∙ z)) in
                rw e (if_holds (λ (b : Bool). b ≡ true) (key == get_or ks t 0) _ _ refl was)
          ];
        }

    misses :
        (left i : ℕ)
        → left + i ≡ n
        → ((j : ℕ) → j < i → get_or ks (slot n key j) 0 ≢ 0)
        → Answers n ks xs key (probe_loop left n key i ks)
    unfolding probe_loop
    misses zero i e before = (
      new,
      λ s lt.
          let (j, inside, at) = slot-reaches n key s lt in
          subst (λ (t : ℕ). get_or ks t 0 ≢ 0) at (before j (omega (arith, e))),
    )
    misses (suc left) i e before = elim (Bool-cases (get_or ks (slot n key i) 0 == key)) [
      | inl hit ↦
          let at : get_or ks (slot n key i) 0 ≡ key = (==_iff _ key).0 hit in
          let is_in = h.only (slot n key i) (λ z. nonzero (sym at ∙ z)) in
          absurd (false≢true (sym new ∙ (ap (one_of xs) (sym at) ∙ is_in)))
      | inr miss ↦ elim (Bool-cases (get_or ks (slot n key i) 0 == 0)) [
        | inl empty ↦
            rw (miss, empty, probe_loop)
              (
                new,
                place i (omega arith) ((==_iff _ 0).0 empty) before,
                (slot n key i, slot-lt key i, (==_iff _ 0).0 empty),
              )
        | inr taken ↦
            rw (miss, taken, probe_loop)
              (misses left (suc i) (omega arith) (λ j lt. elim (Bool-cases (j == i)) [
                | inl here ↦ λ z. false≢true (
                    sym taken
                    ∙ (==_iff _ 0).1 (
                        ap (λ (x : ℕ). get_or ks (slot n key x) 0) (sym ((==_iff j i).0 here)) ∙ z))
                | inr ahead ↦ before j (ground (arith, ahead, lt))
              ]))
      ]
    ]

-- In a table of `n` slots that stands for the keys `xs`, a key other than zero is found just where it is one of
-- them; else it is put in, and the table stands for it and them, or no slot is empty.
pub probe-Answers :
    (n key : ℕ) (ks xs : List ℕ)
    → 0 < n
    → key ≢ 0
    → Represents n ks xs
    → Answers n ks xs key (probe n key ks)
probe-Answers n key ks xs pos nonzero h = elim (Bool-cases (one_of xs key)) [
  | inl is_in ↦
      subst (Answers n ks xs key)
        (sym (finds n pos key nonzero ks n 0 (h.holds key is_in) (omega arith) (omega arith))) is_in
  | inr new ↦ misses n pos key nonzero ks xs h new n 0 (omega arith) (λ j lt. absurd (omega arith))
]

get_or-zeros : (n i : ℕ) → ◌≡◌ {A = ℕ} (get_or (replicate n 0) i 0) 0
get_or-zeros zero i = refl
get_or-zeros (suc n) zero = refl
get_or-zeros (suc n) (suc i) = get_or-zeros n i

pub zeros-Represents : (n : ℕ) → Represents n (replicate n 0) []
unfolding one_of
zeros-Represents n = record {
  slots = length-replicate {0} {A = ℕ} n 0;
  no_zero = refl;
  holds = λ key e. absurd (false≢true e);
  only = λ s ne. absurd (ne (get_or-zeros n s));
}
