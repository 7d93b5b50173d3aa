-- ===== src/Riscv/InterruptLaws.antt =====
-- Which interrupt is taken (src/isa/riscv32/inst.c `find_irq_type_val`).
use gs_emu.Base.{
  ℕ, ◌%◌, ◌≡◌, refl, ap, ◌∙◌, Bool, true, false, Option, none, some, ◌==◌, if◌then◌else◌, arith,
  all_below, all_below_sound, ==→eq,
}
use gs_emu.Word.{bit}
use gs_emu.Riscv.Interrupt.{irq_loop, find_irq_type_val, no_irq}

-- The number of the highest of the digits 11, 9, 7, 5, 3 and 1 that is set.
abbrev pub highest_odd : ℕ → ℕ
highest_odd y =
    if bit 11 y == 1
    then 11
    else if bit 9 y == 1
    then 9
    else if bit 7 y == 1
    then 7
    else if bit 5 y == 1
    then 5
    else if bit 3 y == 1
    then 3
    else if bit 1 y == 1
    then 1
    else no_irq

abbrev finds : Option ℕ → ℕ → Bool
finds none n = false
finds (some m) n = m == n

table : all_below 4096 (λ y. finds (find_irq_type_val y) (highest_odd y)) ≡ true
unfolding find_irq_type_val irq_loop
table = refl

finds-some : (o : Option ℕ) (n : ℕ) → finds o n ≡ true → o ≡ some n
finds-some (some m) n h = ap some (==→eq m n h)
finds-some none n h = ground arith

low_digits : (y : ℕ) → find_irq_type_val y ≡ find_irq_type_val (y % 4096)
unfolding find_irq_type_val
low_digits y = ap (irq_loop 33 20) (omega arith)

-- The search for the pending interrupt ends, with the number of the highest of the digits 11, 9,
-- 7, 5, 3 and 1 that is set in the word, and with -1 when none of them is.
pub find_irq_type_val-highest_odd : (y : ℕ) → find_irq_type_val y ≡ some (highest_odd y)
find_irq_type_val-highest_odd y =
    let found = finds-some (find_irq_type_val (y % 4096)) (highest_odd (y % 4096)) (
      all_below_sound 4096 (λ x. finds (find_irq_type_val x) (highest_odd x)) (y % 4096) table
        (omega arith)) in
    let same : highest_odd (y % 4096) ≡ highest_odd y =
      let d11 : bit 11 (y % 4096) ≡ bit 11 y = omega arith in
      let d9 : bit 9 (y % 4096) ≡ bit 9 y = omega arith in
      let d7 : bit 7 (y % 4096) ≡ bit 7 y = omega arith in
      let d5 : bit 5 (y % 4096) ≡ bit 5 y = omega arith in
      let d3 : bit 3 (y % 4096) ≡ bit 3 y = omega arith in
      let d1 : bit 1 (y % 4096) ≡ bit 1 y = omega arith in rw (d11, d9, d7, d5, d3, d1) refl in
    low_digits y ∙ found ∙ ap some same
