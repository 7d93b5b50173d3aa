-- ===== src/Riscv/SelectLaws.antt =====
-- The choice of a row of the table (src/isa/riscv32/inst.c) against the patterns as they are written.
use gs_emu.Base.{
  ℕ, ◌≡◌, refl, Bool, true, false, ◌&&◌, Bool-cases, Option-cases, inl, inr, Option, none, some,
  List, [], ◌∷◌, if◌then◌else◌, arith,
}
use gs_emu.Decode.Pattern.{pattern_decode, pattern_loop}
use gs_emu.Decode.Fits.{fits, pattern_decode-fits}
use gs_emu.Riscv.Instr.{Row, select, instpats}

-- The first row whose pattern the word fits, digit by digit.
abbrev pub first_fit : List Row → ℕ → Option Row
first_fit [] x = none
first_fit (r ∷ rs) x = if fits r.pattern x then some r else first_fit rs x

abbrev is_some : {A : Type 0} → Option A → Bool
is_some none = false
is_some (some a) = true

abbrev all_decode : List Row → Bool
all_decode [] = true
all_decode (r ∷ rs) = is_some (pattern_decode r.pattern) && all_decode rs

instpats_decode : all_decode instpats ≡ true
unfolding pattern_decode pattern_loop
instpats_decode = refl

select-decoded : (rs : List Row) (x : ℕ) → all_decode rs ≡ true → select rs x ≡ first_fit rs x
unfolding select
select-decoded [] x h = refl
select-decoded (r ∷ rs) x h = elim (Option-cases (pattern_decode r.pattern)) [
  | inl bad ↦ ground arith
  | inr (p, good) ↦
      let rest = select-decoded rs x (ground arith) in
      rw (select, good, pattern_decode-fits r.pattern x good)
        (elim (Bool-cases (fits r.pattern x)) [ inl hit ↦ rw hit refl | inr miss ↦ rw miss rest ])
]

-- For every instruction word, `decode_exec` takes the first row of its table whose pattern, read
-- digit by digit as it is written, the word fits.
pub select-first_fit : (x : ℕ) → select instpats x ≡ first_fit instpats x
select-first_fit x = select-decoded instpats x instpats_decode
