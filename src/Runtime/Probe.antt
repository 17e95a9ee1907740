-- ===== src/Runtime/Probe.antt =====
-- The hash set that first_time (src/trap.c) and visit_mark (tools/armrecomp/emit.c) share: open slots, zero
-- for an empty one.
pub mod Laws
use vitarecomp.Base.{ℕ, zero, suc, ◌+◌, ◌*◌, ◌%◌, ◌^◌, Bool, List, get_or, set, ◌==◌, if◌then◌else◌}

-- The key is there, has been put in, or finds no slot.
pub data Probe : Type 0 where
  present : Probe
  placed : List ℕ → Probe
  full : Probe

-- Slot `i` of a key among `n`, a power of two, whose mask takes the remainder.
abbrev pub slot : (n key i : ℕ) → ℕ
slot n key i = (key * 2654435761 % 2 ^ 32 % n + i) % n

-- The rounds from `i` on, `left` of them.
unfoldable pub probe_loop : (left n key i : ℕ) → List ℕ → Probe
probe_loop zero n key i ks = full
probe_loop (suc left) n key i ks =
    let rest = probe_loop left n key (suc i) ks in
    if get_or ks (slot n key i) 0 == key
    then present
    else if get_or ks (slot n key i) 0 == 0
    then placed (set ks (slot n key i) key)
    else rest

abbrev pub probe : (n key : ℕ) → List ℕ → Probe
probe n key ks = probe_loop n n key 0 ks
