-- ===== src/Decode.antt =====
-- include/cpu/decode.h: the bit patterns by which `INSTPAT` chooses an instruction. A pattern is
-- the list of its characters; `none` stands for the failed `Assert` and the `panic`.
pub mod Pattern
pub mod Fits
