-- ===== src/Word/Defs.antt =====
-- include/macro.h `BITS`, `SEXT`; include/common.h `word_t`, `sword_t`. A `word_t` is a number
-- below 2 ^ 32 (RV32), a conversion to it is a remainder, and `x & (2 ^ k - 1)` is a remainder too.
use gs_emu.Base.{ℕ, ◌+◌, ◌-◌, ◌/◌, ◌%◌, ◌^◌, Bool, ltb, leb, if◌then◌else◌}

-- A conversion to `word_t`.
abbrev pub u32 : ℕ → ℕ
u32 n = n % 2 ^ 32

abbrev pub u64 : ℕ → ℕ
u64 n = n % 2 ^ 64

-- `~x` on a word.
abbrev pub not32 : ℕ → ℕ
not32 x = 2 ^ 32 - 1 - x

-- `a - b` on words.
abbrev pub sub32 : ℕ → ℕ → ℕ
sub32 a b = (a + (2 ^ 32 - b)) % 2 ^ 32

-- `BITS(x, hi, lo)`.
abbrev pub bits : ℕ → ℕ → ℕ → ℕ
bits x hi lo = x / 2 ^ lo % 2 ^ (hi - lo + 1)

-- `SEXT(x, len)`: a signed bit field of `len` bits, read back as a `uint64_t`.
abbrev pub sext : ℕ → ℕ → ℕ
sext x len =
    if ltb (x % 2 ^ len) (2 ^ (len - 1)) then x % 2 ^ len else x % 2 ^ len + (2 ^ 64 - 2 ^ len)

-- The binary digit number `k`.
abbrev pub bit : ℕ → ℕ → ℕ
bit k x = x / 2 ^ k % 2

-- `(sword_t)a < (sword_t)b`: the order of two's complement flips the top bit.
abbrev pub flip32 : ℕ → ℕ
flip32 a = (a + 2 ^ 31) % 2 ^ 32

abbrev pub slt32 : ℕ → ℕ → Bool
slt32 a b = ltb (flip32 a) (flip32 b)

abbrev pub sge32 : ℕ → ℕ → Bool
sge32 a b = leb (flip32 b) (flip32 a)

-- `-x` on a word, and the magnitude of the number that the word stands for.
abbrev pub neg32 : ℕ → ℕ
neg32 x = (2 ^ 32 - x) % 2 ^ 32

abbrev pub is_neg : ℕ → Bool
is_neg x = leb (2 ^ 31) x

abbrev pub abs32 : ℕ → ℕ
abs32 x = if is_neg x then 2 ^ 32 - x else x

-- `(sword_t)a / (sword_t)b` and `%`: C truncates towards zero, and the remainder has the sign of `a`.
unfoldable pub sdiv32 : ℕ → ℕ → ℕ
sdiv32 a b =
    let q = abs32 a / abs32 b in
    if is_neg a
    then (if is_neg b then u32 q else neg32 (u32 q))
    else (if is_neg b then neg32 (u32 q) else u32 q)

unfoldable pub srem32 : ℕ → ℕ → ℕ
srem32 a b = let r = abs32 a % abs32 b in if is_neg a then neg32 r else r

-- `(sword_t)a >> k` for `k < 32`: the shifted word, with copies of the sign bit above.
unfoldable pub sra32 : ℕ → ℕ → ℕ
sra32 a k = if is_neg a then a / 2 ^ k + (2 ^ 32 - 2 ^ (32 - k)) else a / 2 ^ k

-- `(int64_t)(sword_t)a`, as the bit pattern of 64 bits.
abbrev pub sext64 : ℕ → ℕ
sext64 a = sext a 32
