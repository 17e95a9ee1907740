-- ===== src/Runtime/Trap.antt =====
-- src/trap.c: the traps that untranslated code comes to.
pub mod Laws
mod Tests
use vitarecomp.Base.{ℕ, ◌+◌, ◌%◌, ◌^◌, Bool, true, false, Option, List, ◌==◌, if◌then◌else◌}
use vitarecomp.Runtime.Probe.{Probe, present, placed, full, probe}

abbrev pub seen_slots : ℕ
seen_slots = 4096

-- g_seen and g_hits.
pub record Traps : Type 0 where
  pub seen : List ℕ
  pub hits : ℕ

-- What a trap says; a text is its bytes.
pub data Report : Type 0 where
  unimpl : (addr raw : ℕ) → List ℕ → Report
  unresolved : (addr target : ℕ) → Report
  missing_import : (addr nid : ℕ) → Option (List ℕ) → Report

-- A line of the trace, nothing, or a message and abort.
pub data Event : Type 0 where
  line : Report → Event
  silent : Event
  abort_with : Report → Event

-- first_time. A full table reports rather than loses.
unfoldable pub first_time : ℕ → List ℕ → Bool × List ℕ
first_time key seen = elim (probe seen_slots key seen) [
  | present ↦ (false, seen)
  | placed seen' ↦ (true, seen')
  | full ↦ (true, seen)
]

-- The body that the traps share, for their key and their report; `trace` is what trace_on answers.
unfoldable pub trap : (trace : Bool) → (key : ℕ) → Report → Traps → Event × Traps
trap trace key what t =
    let hits = (t.hits + 1) % 2 ^ 32 in
    let (new, seen) = first_time key t.seen in
    if trace
    then (if new then line what else silent, record { seen = seen; hits = hits })
    else (abort_with what, record { seen = t.seen; hits = hits })

abbrev pub trap_unimpl : Bool → (addr raw : ℕ) → List ℕ → Traps → Event × Traps
trap_unimpl trace addr raw what = trap trace addr (unimpl addr raw what)

abbrev pub trap_indirect : Bool → (addr target : ℕ) → Traps → Event × Traps
trap_indirect trace addr target = trap trace addr (unresolved addr target)

-- Keyed on the NID where there is one.
abbrev pub trap_import : Bool → (addr nid : ℕ) → Option (List ℕ) → Traps → Event × Traps
trap_import trace addr nid name =
    trap trace (if nid == 0 then addr else nid) (missing_import addr nid name)
