-- ===== src/Base.antt =====
-- What the components share: library names, Boolean tests, lists and bits over the native numbers.
mod Names
mod Tests
mod Lists
pub mod Order
pub mod Bits
pub mod Int
pub use Names.*
pub use Tests.*
pub use Lists.*
