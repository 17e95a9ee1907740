-- ===== src/Emit.antt =====
-- tools/armrecomp/emit.c: the generated program.
pub mod Funcs
pub mod Table
pub mod Body
mod Tests
