-- ===== src/Analyze.antt =====
-- tools/armrecomp/analyze.c: the discovery of functions.
pub mod Bitmap
pub mod Walk
pub mod Shape
pub mod Discover
mod Tests
