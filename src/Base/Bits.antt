-- ===== src/Base/Bits.antt =====
-- The bit operations at variables, as arithmetic.
mod Step
mod Fields
mod Masks
mod Words
mod Xor
pub use Step.*
pub use Fields.*
pub use Masks.*
pub use Words.*
pub use Xor.*
