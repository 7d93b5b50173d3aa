-- ===== src/Isa.antt =====
-- src/isa/mips32 and src/isa/loongarch32r.
pub mod Core
pub mod CoreLaws
pub mod Mips32
pub mod Mips32Laws
pub mod Loongarch32r
pub mod Loongarch32rLaws
pub mod Returns
pub mod Start
