-- ===== src/Riscv/SupervisorStatus.antt =====
-- The fields of sstatus and of mstatus that belong to the mode S, as numbers: what the entry of a
-- delegated trap and `sret` do to them.
use gs_emu.Base.{ℕ, ◌+◌, ◌*◌, ◌/◌, ◌%◌, ◌^◌, ◌<◌, ◌≡◌, bit_and, bit_or, ap, ◌∙◌, arith}
use gs_emu.Word.{u32, not32, bit_and_field, clear_field, fill_field, bit_or_sum}
use gs_emu.Riscv.Csr.{get_field, set_field, status_sie, status_spie, status_spp}

-- The word with `spp`, `spie` and `sie` in place of its own.
abbrev pub with_supervisor : ℕ → ℕ → ℕ → ℕ → ℕ
with_supervisor t spp spie sie =
    t / 2 ^ 9 * 2 ^ 9
    + spp * 2 ^ 8
    + t / 2 ^ 6 % 2 ^ 2 * 2 ^ 6
    + spie * 2 ^ 5
    + t / 2 ^ 2 % 2 ^ 3 * 2 ^ 2
    + sie * 2
    + t % 2

abbrev pub sie_of : ℕ → ℕ
sie_of t = t / 2 % 2

abbrev pub spie_of : ℕ → ℕ
spie_of t = t / 2 ^ 5 % 2

abbrev pub spp_of : ℕ → ℕ
spp_of t = t / 2 ^ 8 % 2

set_field-sie :
    (t v : ℕ)
    → t < 2 ^ 32
    → v < 2
    → set_field t status_sie v ≡ with_supervisor t (spp_of t) (spie_of t) v
unfolding set_field
set_field-sie t v ht hv =
    let cleared : bit_and t (not32 status_sie) ≡ t / 2 ^ 2 * 2 ^ 1 * 2 ^ 1 + t % 2 ^ 1 =
      omega (arith, clear_field 1 1 t ht (omega arith)) in
    let value : bit_and (v * 2) status_sie ≡ v * 2 ^ 1 = omega (arith, bit_and_field 1 1 (v * 2)) in
    rw (cleared, value, fill_field 1 1 (t / 2 ^ 2) v (t % 2 ^ 1) hv (omega arith)) (omega arith)

set_field-spie :
    (t v : ℕ)
    → t < 2 ^ 32
    → v < 2
    → set_field t status_spie v ≡ with_supervisor t (spp_of t) v (sie_of t)
unfolding set_field
set_field-spie t v ht hv =
    let cleared : bit_and t (not32 status_spie) ≡ t / 2 ^ 6 * 2 ^ 1 * 2 ^ 5 + t % 2 ^ 5 =
      omega (arith, clear_field 1 5 t ht (omega arith)) in
    let value : bit_and (v * 32) status_spie ≡ v * 2 ^ 5 =
      omega (arith, bit_and_field 1 5 (v * 32)) in
    rw (cleared, value, fill_field 1 5 (t / 2 ^ 6) v (t % 2 ^ 5) hv (omega arith)) (omega arith)

set_field-spp :
    (t v : ℕ)
    → t < 2 ^ 32
    → v < 2
    → set_field t status_spp v ≡ with_supervisor t v (spie_of t) (sie_of t)
unfolding set_field
set_field-spp t v ht hv =
    let cleared : bit_and t (not32 status_spp) ≡ t / 2 ^ 9 * 2 ^ 1 * 2 ^ 8 + t % 2 ^ 8 =
      omega (arith, clear_field 1 8 t ht (omega arith)) in
    let value : bit_and (v * 256) status_spp ≡ v * 2 ^ 8 =
      omega (arith, bit_and_field 1 8 (v * 256)) in
    rw (cleared, value, fill_field 1 8 (t / 2 ^ 9) v (t % 2 ^ 8) hv (omega arith)) (omega arith)

get_field-sie : (t : ℕ) → get_field t status_sie ≡ sie_of t
unfolding get_field
get_field-sie t = omega (arith, bit_and_field 1 1 t)

get_field-spie : (t : ℕ) → get_field t status_spie ≡ spie_of t
unfolding get_field
get_field-spie t = omega (arith, bit_and_field 1 5 t)

get_field-spp : (t : ℕ) → get_field t status_spp ≡ spp_of t
unfolding get_field
get_field-spp t = omega (arith, bit_and_field 1 8 t)

-- sstatus after the entry of a delegated trap from the mode `p`, as the row computes it.
abbrev pub trap_sstatus : ℕ → ℕ → ℕ
trap_sstatus p t =
    let a = u32 (set_field t status_spie (get_field t status_sie)) in
    let b = u32 (set_field a status_sie 0) in u32 (set_field b status_spp p)

pub trap_sstatus-with_supervisor :
    (p t : ℕ) → p < 2 → t < 2 ^ 32 → trap_sstatus p t ≡ with_supervisor t p (sie_of t) 0
trap_sstatus-with_supervisor p t hp ht =
    let a = with_supervisor t (spp_of t) (sie_of t) (sie_of t) in
    let b = with_supervisor t (spp_of t) (sie_of t) 0 in
    let e1 : u32 (set_field t status_spie (sie_of t)) ≡ a =
      omega (arith, set_field-spie t (sie_of t) ht (omega arith)) in
    let e2 : u32 (set_field a status_sie 0) ≡ b =
      omega (arith, set_field-sie a 0 (omega arith) (omega arith)) in
    let e3 : u32 (set_field b status_spp p) ≡ with_supervisor t p (sie_of t) 0 =
      omega (arith, set_field-spp b p (omega arith) hp) in
    rw (get_field-sie t, e1, e2) e3

-- mstatus after it.
abbrev pub delegated_mstatus : ℕ → ℕ
delegated_mstatus t =
    let a = u32 (set_field t status_spie (get_field t status_sie)) in u32 (set_field a status_spp 1)

pub delegated_mstatus-with_supervisor :
    (t : ℕ) → t < 2 ^ 32 → delegated_mstatus t ≡ with_supervisor t 1 (sie_of t) (sie_of t)
delegated_mstatus-with_supervisor t ht =
    let a = with_supervisor t (spp_of t) (sie_of t) (sie_of t) in
    let e1 : u32 (set_field t status_spie (sie_of t)) ≡ a =
      omega (arith, set_field-spie t (sie_of t) ht (omega arith)) in
    rw (get_field-sie t, e1) (omega (arith, set_field-spp a 1 (omega arith) (omega arith)))

-- SPP cleared and SPIE set, as `sret` does it to both registers.
abbrev pub left : ℕ → ℕ
left t = u32 (bit_or (bit_and t (not32 status_spp)) status_spie)

pub left-with_supervisor : (t : ℕ) → t < 2 ^ 32 → left t ≡ with_supervisor t 0 1 (sie_of t)
left-with_supervisor t ht =
    let c = with_supervisor t 0 (spie_of t) (sie_of t) in
    let cleared : bit_and t (not32 status_spp) ≡ c =
      omega (arith, clear_field 1 8 t ht (omega arith)) in
    rw cleared (omega (arith, bit_or_sum c (2 ^ 5), bit_and_field 1 5 c))

-- sstatus between the steps of `sret`: SPIE put on SIE.
abbrev pub enabled : ℕ → ℕ
enabled t = u32 (bit_or t (get_field t status_spie * 2))

pub enabled-with_supervisor :
    (t : ℕ)
    → t < 2 ^ 32
    → sie_of t ≡ 0
    → enabled t ≡ with_supervisor t (spp_of t) (spie_of t) (spie_of t)
enabled-with_supervisor t ht off =
    let split : t ≡ t / 2 ^ 2 * 2 ^ 1 * 2 ^ 1 + t % 2 ^ 1 = omega arith in
    let filled = fill_field 1 1 (t / 2 ^ 2) (spie_of t) (t % 2 ^ 1) (omega arith) (omega arith) in
    rw (get_field-spie t)
      (ap (λ x. u32 (bit_or x (spie_of t * 2 ^ 1))) split ∙ omega (arith, filled))

-- The mode after `sret`.
abbrev pub sret_mode : ℕ → ℕ
sret_mode t = u32 (get_field (enabled t) status_spp)

pub sret_mode-spp_of : (t : ℕ) → t < 2 ^ 32 → sie_of t ≡ 0 → sret_mode t ≡ spp_of t
sret_mode-spp_of t ht off =
    rw (enabled-with_supervisor t ht off)
      (omega (arith, get_field-spp (with_supervisor t (spp_of t) (spie_of t) (spie_of t))))
