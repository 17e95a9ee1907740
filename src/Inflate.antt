-- ===== src/Inflate.antt =====
-- tools/armrecomp/inflate.c: DEFLATE and zlib, from the bit reader up.
pub mod Status
pub mod Reader
pub mod Huff
pub mod Tables
pub mod Block
pub mod Stream
pub mod Zlib
mod Tests
