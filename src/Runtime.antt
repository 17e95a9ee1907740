-- ===== src/Runtime.antt =====
-- The runtime that generated C links against (src/, include/vitarecomp/).
pub mod Alu
pub mod Search
pub mod Probe
pub mod Trap
pub mod Dispatch
pub mod Mem
pub mod Heap
pub mod Hle
pub mod Float
mod Tests
