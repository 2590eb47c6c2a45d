-- ===== src/Base/Bits.antt =====
-- `&`, `|` and `^` on unsigned words as arithmetic, at every width.
mod Digits
mod Xor
mod Fields
pub use Xor.*
pub use Fields.*
