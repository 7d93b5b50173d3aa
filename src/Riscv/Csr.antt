-- ===== src/Riscv/Csr.antt =====
-- src/isa/riscv32/local-include/csr.h, reg.h, cpu_bits.h: the numbers of the control registers, the
-- search of their place in `cpu.csr`, and the fields of a register.
use gs_emu.Base.{ℕ, ◌+◌, ◌*◌, ◌/◌, bit_and, bit_or, true, false, List, [], ◌∷◌, ◌==◌, if◌then◌else◌}
use gs_emu.Word.{u32, not32}

abbrev pub csr_mstatus : ℕ
csr_mstatus = 0x300

abbrev pub csr_mip : ℕ
csr_mip = 0x344

abbrev pub csr_mie : ℕ
csr_mie = 0x304

abbrev pub csr_mcause : ℕ
csr_mcause = 0x342

abbrev pub csr_mtvec : ℕ
csr_mtvec = 0x305

abbrev pub csr_mtval : ℕ
csr_mtval = 0x343

abbrev pub csr_mepc : ℕ
csr_mepc = 0x341

abbrev pub csr_misa : ℕ
csr_misa = 0x301

abbrev pub csr_mhartid : ℕ
csr_mhartid = 0xf14

abbrev pub csr_marchid : ℕ
csr_marchid = 0xf12

abbrev pub csr_pmpaddr0 : ℕ
csr_pmpaddr0 = 0x3b0

abbrev pub csr_pmpcfg0 : ℕ
csr_pmpcfg0 = 0x3a0

abbrev pub csr_tdata1 : ℕ
csr_tdata1 = 0x7a1

abbrev pub csr_tinfo : ℕ
csr_tinfo = 0x7a4

abbrev pub csr_dcsr : ℕ
csr_dcsr = 0x7b0

abbrev pub csr_medeleg : ℕ
csr_medeleg = 0x302

abbrev pub csr_mideleg : ℕ
csr_mideleg = 0x303

abbrev pub csr_sstatus : ℕ
csr_sstatus = 0x100

abbrev pub csr_sie : ℕ
csr_sie = 0x104

abbrev pub csr_stvec : ℕ
csr_stvec = 0x105

abbrev pub csr_sepc : ℕ
csr_sepc = 0x141

abbrev pub csr_scause : ℕ
csr_scause = 0x142

abbrev pub csr_stval : ℕ
csr_stval = 0x143

abbrev pub csr_sip : ℕ
csr_sip = 0x144

-- `csr_idx_map`, the list `CSR_IDX_MAP_DEFINE_LIST` with the registers of the S mode.
abbrev pub csr_idx_map : List ℕ
csr_idx_map =
    0xf11 ∷ 0xf14 ∷ 0x300 ∷ 0x344 ∷ 0x304 ∷ 0x342 ∷ 0x305 ∷ 0x343 ∷ 0x341 ∷ 0x340 ∷ 0x301 ∷ 0xf12
    ∷ 0xf13 ∷ 0x3b0 ∷ 0x3b1 ∷ 0x3a0 ∷ 0x7a0 ∷ 0x7a1 ∷ 0x7a2 ∷ 0x7a3 ∷ 0x7a4 ∷ 0x7b0 ∷ 0x7b1 ∷ 0x7b2
    ∷ 0x302 ∷ 0x303 ∷ 0x306 ∷ 0x100 ∷ 0x104 ∷ 0x105 ∷ 0x106 ∷ 0x10a ∷ 0x140 ∷ 0x141 ∷ 0x142 ∷ 0x143
    ∷ 0x144 ∷ 0x180 ∷ []

abbrev pub zero_csr : ℕ
zero_csr = 63

-- `NR_CSR`, which is `ERROR_CSR_IDX` too.
abbrev pub nr_csr : ℕ
nr_csr = 38

-- `for (i = 0; i < NR_CSR; i++) if (idx == csr_idx_map[i]) return i;`
unfoldable pub search_csr : List ℕ → ℕ → ℕ → ℕ
search_csr [] i idx = nr_csr
search_csr (c ∷ cs) i idx = elim (idx == c) [ true ↦ i | false ↦ search_csr cs (i + 1) idx ]

unfoldable pub check_csr_idx : ℕ → ℕ
unfolding search_csr
check_csr_idx idx = if idx == zero_csr then zero_csr else search_csr csr_idx_map 0 idx

-- Masks.
abbrev pub status_sie : ℕ
status_sie = 0x2

abbrev pub status_mie : ℕ
status_mie = 0x8

abbrev pub status_spie : ℕ
status_spie = 0x20

abbrev pub status_mpie : ℕ
status_mpie = 0x80

abbrev pub status_spp : ℕ
status_spp = 0x100

abbrev pub status_mpp : ℕ
status_mpp = 0x1800

abbrev pub mip_mtip : ℕ
mip_mtip = 0x80

abbrev pub mip_ssip : ℕ
mip_ssip = 0x2

-- The lowest digit of a mask, `mask & ~(mask << 1)`.
abbrev pub low_of : ℕ → ℕ
low_of mask = bit_and mask (not32 (u32 (mask * 2)))

unfoldable pub get_field : ℕ → ℕ → ℕ
get_field reg mask = bit_and reg mask / low_of mask

unfoldable pub set_field : ℕ → ℕ → ℕ → ℕ
set_field reg mask val = bit_or (bit_and reg (not32 mask)) (bit_and (val * low_of mask) mask)
