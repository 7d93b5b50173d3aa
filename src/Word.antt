-- ===== src/Word.antt =====
-- Machine words as native numbers: the macros of include/macro.h and the arithmetic of `word_t`.
mod Bits
mod Fields
mod Defs
unfoldable pub use Defs.*
pub use Fields.*
pub use Bits.*
