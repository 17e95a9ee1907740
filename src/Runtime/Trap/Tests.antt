-- ===== src/Runtime/Trap/Tests.antt =====
-- The first trap of a run.
use vitarecomp.Base.{◌≡◌, [], replicate, true, false, arith}
use vitarecomp.Runtime.Probe.Laws.{HasRoom, one_of, zeros-Represents}
use vitarecomp.Runtime.Trap.{seen_slots, Traps, Report, silent, unresolved, line, abort_with, trap}
use vitarecomp.Runtime.Trap.Laws.{Remembers, trap-reports}

abbrev start : Traps
start = record { seen = replicate seen_slots 0; hits = 0 }

trap-reports_example :
    ((trap true 0x8100_0004 (unresolved 0x8100_0004 16) start).0 ≡ line (unresolved 0x8100_0004 16))
    × Remembers start.seen [] 0x8100_0004
        (trap true 0x8100_0004 (unresolved 0x8100_0004 16) start).1.seen
    × (HasRoom seen_slots start.seen
        → (again : Report)
        → (trap true 0x8100_0004 again
            (trap true 0x8100_0004 (unresolved 0x8100_0004 16) start).1).0
          ≡ silent)
    × ((trap true 0x8100_0004 (unresolved 0x8100_0004 16) start).1.hits ≡ 1)
    × (trap false 0x8100_0004 (unresolved 0x8100_0004 16) start ≡ (
      abort_with (unresolved 0x8100_0004 16),
      record { seen = replicate seen_slots 0; hits = 1 },
    ))
unfolding one_of
trap-reports_example =
    trap-reports 0x8100_0004 (unresolved 0x8100_0004 16) start [] (omega arith)
      (zeros-Represents seen_slots)
