-- ===== src/Decode.antt =====
-- tools/armrecomp/decode.c: 16-bit Thumb, scalar VFP and the constants of 32-bit Thumb.
pub mod Insn
pub mod Thumb
pub mod Vfp
pub mod Immediate
pub mod Wide
pub mod Arm
pub mod Entry
pub mod Valid
mod Tests
