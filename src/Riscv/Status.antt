-- ===== src/Riscv/Status.antt =====
-- mstatus as numbers: what `get_field`, `set_field` and the entry of a trap do to its fields.
use gs_emu.Base.{ℕ, ◌+◌, ◌*◌, ◌/◌, ◌%◌, ◌^◌, ◌<◌, ◌≡◌, bit_and, bit_or, ap, ◌∙◌, arith}
use gs_emu.Word.{u32, not32, bit_and_field, clear_field, fill_field, bit_or_comm}
use gs_emu.Riscv.Csr.{get_field, set_field, status_mie, status_mpie, status_mpp}

-- The word with `mpp`, `mpie` and `mie` in place of its own.
abbrev pub with_status : ℕ → ℕ → ℕ → ℕ → ℕ
with_status t mpp mpie mie =
    t / 2 ^ 13 * 2 ^ 13
    + mpp * 2 ^ 11
    + t / 2 ^ 8 % 2 ^ 3 * 2 ^ 8
    + mpie * 2 ^ 7
    + t / 2 ^ 4 % 2 ^ 3 * 2 ^ 4
    + mie * 2 ^ 3
    + t % 2 ^ 3

abbrev pub mie_of : ℕ → ℕ
mie_of t = t / 2 ^ 3 % 2

abbrev pub mpie_of : ℕ → ℕ
mpie_of t = t / 2 ^ 7 % 2

abbrev pub mpp_of : ℕ → ℕ
mpp_of t = t / 2 ^ 11 % 2 ^ 2

-- mstatus after the entry of a trap, from the mode and mstatus before.
abbrev pub trap_mstatus : ℕ → ℕ → ℕ
trap_mstatus p t =
    let a = u32 (bit_or (bit_and t (not32 status_mpp)) (u32 (p * 2 ^ 11))) in
    let b = u32 (bit_and a (not32 0x80)) in
    let c = u32 (bit_or (bit_and b 0x8 * 2 ^ 4) b) in u32 (bit_and c (not32 0x8))

put_mpp :
    (p t : ℕ)
    → p < 4
    → t < 2 ^ 32
    → bit_or (bit_and t (not32 status_mpp)) (u32 (p * 2 ^ 11))
      ≡ with_status t p (mpie_of t) (mie_of t)
put_mpp p t hp ht =
    let cleared : bit_and t (not32 status_mpp) ≡ t / 2 ^ 13 * 2 ^ 2 * 2 ^ 11 + t % 2 ^ 11 =
      omega (arith, clear_field 2 11 t ht (omega arith)) in
    let small : u32 (p * 2 ^ 11) ≡ p * 2 ^ 11 = omega arith in
    rw (cleared, small, fill_field 2 11 (t / 2 ^ 13) p (t % 2 ^ 11) hp (omega arith)) (omega arith)

clear_mpie : (t : ℕ) → t < 2 ^ 32 → bit_and t (not32 0x80) ≡ with_status t (mpp_of t) 0 (mie_of t)
clear_mpie t ht = omega (arith, clear_field 1 7 t ht (omega arith))

clear_mie : (t : ℕ) → t < 2 ^ 32 → bit_and t (not32 0x8) ≡ with_status t (mpp_of t) (mpie_of t) 0
clear_mie t ht = omega (arith, clear_field 1 3 t ht (omega arith))

copy_mie :
    (t : ℕ)
    → t < 2 ^ 32
    → mpie_of t ≡ 0
    → bit_or (bit_and t 0x8 * 2 ^ 4) t ≡ with_status t (mpp_of t) (mie_of t) (mie_of t)
copy_mie t ht h =
    let field : bit_and t 0x8 * 2 ^ 4 ≡ mie_of t * 2 ^ 7 = omega (arith, bit_and_field 1 3 t) in
    let split : t ≡ t / 2 ^ 8 * 2 ^ 1 * 2 ^ 7 + t % 2 ^ 7 = omega arith in
    let filled = fill_field 1 7 (t / 2 ^ 8) (mie_of t) (t % 2 ^ 7) (omega arith) (omega arith) in
    rw (field, bit_or_comm (mie_of t * 2 ^ 7) t)
      (ap (λ x. bit_or x (mie_of t * 2 ^ 7)) split ∙ filled ∙ omega arith)

-- The entry of a trap keeps the mode in MPP and the interrupt enable in MPIE, and clears MIE.
pub trap_mstatus-with_status :
    (p t : ℕ) → p < 4 → t < 2 ^ 32 → trap_mstatus p t ≡ with_status t p (mie_of t) 0
trap_mstatus-with_status p t hp ht =
    let e1 : u32 (bit_or (bit_and t (not32 status_mpp)) (u32 (p * 2 ^ 11)))
        ≡ with_status t p (mpie_of t) (mie_of t) =
      omega (arith, put_mpp p t hp ht) in
    let e2 : u32 (bit_and (with_status t p (mpie_of t) (mie_of t)) (not32 0x80))
        ≡ with_status t p 0 (mie_of t) =
      omega (arith, clear_mpie (with_status t p (mpie_of t) (mie_of t)) (omega arith)) in
    let e3 : u32 (
          bit_or (bit_and (with_status t p 0 (mie_of t)) 0x8 * 2 ^ 4)
            (with_status t p 0 (mie_of t)))
        ≡ with_status t p (mie_of t) (mie_of t) =
      omega (arith, copy_mie (with_status t p 0 (mie_of t)) (omega arith) (omega arith)) in
    let e4 : u32 (bit_and (with_status t p (mie_of t) (mie_of t)) (not32 0x8))
        ≡ with_status t p (mie_of t) 0 =
      omega (arith, clear_mie (with_status t p (mie_of t) (mie_of t)) (omega arith)) in
    rw (e1, e2, e3) e4

-- `set_field` on one digit and on MPP.
set_field-mie :
    (t v : ℕ)
    → t < 2 ^ 32
    → v < 2
    → set_field t status_mie v ≡ with_status t (mpp_of t) (mpie_of t) v
unfolding set_field
set_field-mie t v ht hv =
    let cleared : bit_and t (not32 status_mie) ≡ t / 2 ^ 4 * 2 ^ 1 * 2 ^ 3 + t % 2 ^ 3 =
      omega (arith, clear_field 1 3 t ht (omega arith)) in
    let value : bit_and (v * 8) status_mie ≡ v * 2 ^ 3 = omega (arith, bit_and_field 1 3 (v * 8)) in
    rw (cleared, value, fill_field 1 3 (t / 2 ^ 4) v (t % 2 ^ 3) hv (omega arith)) (omega arith)

set_field-mpie :
    (t v : ℕ)
    → t < 2 ^ 32
    → v < 2
    → set_field t status_mpie v ≡ with_status t (mpp_of t) v (mie_of t)
unfolding set_field
set_field-mpie t v ht hv =
    let cleared : bit_and t (not32 status_mpie) ≡ t / 2 ^ 8 * 2 ^ 1 * 2 ^ 7 + t % 2 ^ 7 =
      omega (arith, clear_field 1 7 t ht (omega arith)) in
    let value : bit_and (v * 128) status_mpie ≡ v * 2 ^ 7 =
      omega (arith, bit_and_field 1 7 (v * 128)) in
    rw (cleared, value, fill_field 1 7 (t / 2 ^ 8) v (t % 2 ^ 7) hv (omega arith)) (omega arith)

set_field-mpp :
    (t v : ℕ)
    → t < 2 ^ 32
    → v < 4
    → set_field t status_mpp v ≡ with_status t v (mpie_of t) (mie_of t)
unfolding set_field
set_field-mpp t v ht hv =
    let cleared : bit_and t (not32 status_mpp) ≡ t / 2 ^ 13 * 2 ^ 2 * 2 ^ 11 + t % 2 ^ 11 =
      omega (arith, clear_field 2 11 t ht (omega arith)) in
    let value : bit_and (v * 2048) status_mpp ≡ v * 2 ^ 11 =
      omega (arith, bit_and_field 2 11 (v * 2048)) in
    rw (cleared, value, fill_field 2 11 (t / 2 ^ 13) v (t % 2 ^ 11) hv (omega arith)) (omega arith)

pub get_field-mie : (t : ℕ) → get_field t status_mie ≡ mie_of t
unfolding get_field
get_field-mie t = omega (arith, bit_and_field 1 3 t)

pub get_field-mpie : (t : ℕ) → get_field t status_mpie ≡ mpie_of t
unfolding get_field
get_field-mpie t = omega (arith, bit_and_field 1 7 t)

pub get_field-mpp : (t : ℕ) → get_field t status_mpp ≡ mpp_of t
unfolding get_field
get_field-mpp t = omega (arith, bit_and_field 2 11 t)

-- mstatus after `mret`, as the row computes it.
abbrev pub mret_mstatus : ℕ → ℕ
mret_mstatus t =
    let a = u32 (set_field t status_mie (get_field t status_mpie)) in
    let b = u32 (set_field a status_mpie 1) in u32 (set_field b status_mpp 0)

-- The mode after `mret`, as the row computes it.
abbrev pub mret_mode : ℕ → ℕ
mret_mode t =
    let a = u32 (set_field t status_mie (get_field t status_mpie)) in
    let b = u32 (set_field a status_mpie 1) in u32 (get_field b status_mpp)

mret_second :
    (t : ℕ)
    → t < 2 ^ 32
    → u32 (set_field (u32 (set_field t status_mie (get_field t status_mpie))) status_mpie 1)
      ≡ with_status t (mpp_of t) 1 (mpie_of t)
mret_second t ht =
    let a = with_status t (mpp_of t) (mpie_of t) (mpie_of t) in
    let e1 : u32 (set_field t status_mie (mpie_of t)) ≡ a =
      omega (arith, set_field-mie t (mpie_of t) ht (omega arith)) in
    rw (get_field-mpie t, e1) (omega (arith, set_field-mpie a 1 (omega arith) (omega arith)))

pub mret_mode-mpp_of : (t : ℕ) → t < 2 ^ 32 → mret_mode t ≡ mpp_of t
mret_mode-mpp_of t ht =
    let b = with_status t (mpp_of t) 1 (mpie_of t) in
    rw (mret_second t ht, get_field-mpp b) (omega arith)

pub mret_mstatus-with_status : (t : ℕ) → t < 2 ^ 32 → mret_mstatus t ≡ with_status t 0 1 (mpie_of t)
mret_mstatus-with_status t ht =
    let b = with_status t (mpp_of t) 1 (mpie_of t) in
    rw (mret_second t ht) (omega (arith, set_field-mpp b 0 (omega arith) (omega arith)))

-- mstatus after the entry of an interrupt, as `irp_and` computes it.
abbrev pub irq_mstatus : ℕ → ℕ → ℕ
irq_mstatus p t =
    let a = u32 (set_field t status_mpie (get_field t status_mie)) in
    let b = u32 (bit_and a (not32 status_mie)) in u32 (set_field b status_mpp p)

pub irq_mstatus-with_status :
    (p t : ℕ) → p < 4 → t < 2 ^ 32 → irq_mstatus p t ≡ with_status t p (mie_of t) 0
irq_mstatus-with_status p t hp ht =
    let a = with_status t (mpp_of t) (mie_of t) (mie_of t) in
    let b = with_status t (mpp_of t) (mie_of t) 0 in
    let e1 : u32 (set_field t status_mpie (mie_of t)) ≡ a =
      omega (arith, set_field-mpie t (mie_of t) ht (omega arith)) in
    let e2 : u32 (bit_and a (not32 status_mie)) ≡ b = omega (arith, clear_mie a (omega arith)) in
    let e3 : u32 (set_field b status_mpp p) ≡ with_status t p (mie_of t) 0 =
      omega (arith, set_field-mpp b p (omega arith) hp) in
    rw (get_field-mie t, e1, e2) e3
