-- ===== src/Word/Fields.antt =====
-- Contiguous fields of a word: `x & mask`, `x & ~mask`, `(x & ~mask) | (v << j)`.
use mathlib.Core.WellFounded
use native.Mathlib.Nat.{pow-suc, one-le-pow, div-add-mod', mod-lt, mul-add-div_right, div-eq_of_lt}
use Prim.Native.Nat.{bit_and-bitwise}
use gs_emu.Base.{
  ℕ, zero, suc, ◌+◌, ◌-◌, ◌*◌, ◌/◌, ◌%◌, ◌^◌, ◌<◌, bit_and, bit_or, ◌≡◌, ap, arith, lt_wf,
}
use gs_emu.Word.Defs.{not32}
use gs_emu.Word.Bits.{
  bit_and_step, bit_or_step, bit_and-zero, bit_and-shl, bit_or_sum, bit_or_fields,
}

pub zero-bit_and : (b : ℕ) → bit_and 0 b ≡ 0
zero-bit_and b = bit_and-bitwise 0 b

pub bit_and_comm : (a b : ℕ) → bit_and a b ≡ bit_and b a
bit_and_comm a = WellFounded.induction lt_wf {C = λ a. (b : ℕ) → bit_and a b ≡ bit_and b a} a step
  where
    step :
        (n : ℕ)
        → ((m : ℕ) → m < n → (b : ℕ) → bit_and m b ≡ bit_and b m)
        → (b : ℕ) → bit_and n b ≡ bit_and b n
    step zero ih b = omega (arith, zero-bit_and b, bit_and-zero b)
    step (suc n) ih b = omega (
      arith,
      bit_and_step (suc n) b,
      bit_and_step b (suc n),
      ih (suc n / 2) (omega arith) (b / 2),
    )

pub bit_or_comm : (a b : ℕ) → bit_or a b ≡ bit_or b a
bit_or_comm a b = omega (arith, bit_or_sum a b, bit_or_sum b a, bit_and_comm a b)

-- A mask and its complement share a word out.
pub bit_and_not : (w a m : ℕ) → a < 2 ^ w → m < 2 ^ w → bit_and a m + bit_and a (2 ^ w - 1 - m) ≡ a
bit_and_not zero a m ha hm =
    let e : a ≡ 0 = omega arith in
    rw e (omega (arith, zero-bit_and m, zero-bit_and (2 ^ 0 - 1 - m)))
bit_and_not (suc w) a m ha hm =
    let p = pow-suc 2 w in
    let half : (2 ^ suc w - 1 - m) / 2 ≡ 2 ^ w - 1 - m / 2 = omega arith in
    let low : (2 ^ suc w - 1 - m) % 2 ≡ 1 - m % 2 = omega arith in
    rw (bit_and_step a m, bit_and_step a (2 ^ suc w - 1 - m), half, low)
      (omega (arith, bit_and_not w (a / 2) (m / 2) (omega arith) (omega arith)))

pub bit_or-lt : (w a b : ℕ) → a < 2 ^ w → b < 2 ^ w → bit_or a b < 2 ^ w
bit_or-lt zero a b ha hb = omega (arith, bit_or_sum a b)
bit_or-lt (suc w) a b ha hb =
    let p = pow-suc 2 w in
    let rest = bit_or-lt w (a / 2) (b / 2) (omega arith) (omega arith) in
    omega (arith, bit_or_step a b)

mul-two-pow_suc : (q k : ℕ) → q * 2 ^ suc k ≡ 2 * (q * 2 ^ k)
mul-two-pow_suc q k = omega (arith, ap (λ (t : ℕ). q * t) (pow-suc 2 k))

low_field : (k q r : ℕ) → r < 2 ^ k → bit_and (q * 2 ^ k + r) (2 ^ k - 1) ≡ r
low_field zero q r h = rw bit_and-zero (omega arith)
low_field (suc k) q r h =
    let p = pow-suc 2 k in
    let pos = one-le-pow k 2 (omega arith) in
    let double = mul-two-pow_suc q k in
    let half : (q * 2 ^ suc k + r) / 2 ≡ q * 2 ^ k + r / 2 = omega arith in
    let low : (q * 2 ^ suc k + r) % 2 ≡ r % 2 = omega arith in
    let ones : (2 ^ suc k - 1) / 2 ≡ 2 ^ k - 1 = omega arith in
    let one' : (2 ^ suc k - 1) % 2 ≡ 1 = omega arith in
    rw (bit_and_step (q * 2 ^ suc k + r) (2 ^ suc k - 1), half, low, ones, one')
      (omega (arith, low_field k q (r / 2) (omega arith)))

pub bit_and_mask : (k a : ℕ) → bit_and a (2 ^ k - 1) ≡ a % 2 ^ k
bit_and_mask k a =
    let pos = one-le-pow k 2 (omega arith) in
    let parts : a / 2 ^ k * 2 ^ k + a % 2 ^ k ≡ a = div-add-mod' a (2 ^ k) in
    rw parts at (low_field k (a / 2 ^ k) (a % 2 ^ k) (mod-lt a pos))

-- The field of `w` digits from digit `j` on.
pub bit_and_field : (w j a : ℕ) → bit_and a ((2 ^ w - 1) * 2 ^ j) ≡ a / 2 ^ j % 2 ^ w * 2 ^ j
bit_and_field w j a = rw (bit_and-shl j a (2 ^ w - 1), bit_and_mask w (a / 2 ^ j))

-- `x & ~mask`.
pub clear_field :
    (w j a : ℕ)
    → a < 2 ^ 32
    → (2 ^ w - 1) * 2 ^ j < 2 ^ 32
    → bit_and a (not32 ((2 ^ w - 1) * 2 ^ j)) + a / 2 ^ j % 2 ^ w * 2 ^ j ≡ a
clear_field w j a ha hm =
    omega (arith, bit_and_not 32 a ((2 ^ w - 1) * 2 ^ j) ha hm, bit_and_field w j a)

-- `high | low` is a sum, if `low` fits below the digits of `high`, and if it fits into a gap of `w`
-- digits that `high` leaves at digit `j`.
pub fill_field :
    (w j h v l : ℕ)
    → v < 2 ^ w
    → l < 2 ^ j
    → bit_or (h * 2 ^ w * 2 ^ j + l) (v * 2 ^ j) ≡ (h * 2 ^ w + v) * 2 ^ j + l
fill_field w j h v l hv hl =
    let pos = one-le-pow j 2 (omega arith) in
    let top : (h * 2 ^ w * 2 ^ j + l) / 2 ^ j ≡ h * 2 ^ w =
      omega (arith, mul-add-div_right pos (h * 2 ^ w) l, div-eq_of_lt hl) in
    let apart : bit_and (h * 2 ^ w) v ≡ 0 =
      omega (arith, bit_or_sum (h * 2 ^ w) v, bit_or_fields w h v hv) in
    let none_common : bit_and (h * 2 ^ w * 2 ^ j + l) (v * 2 ^ j) ≡ 0 =
      rw (bit_and-shl j (h * 2 ^ w * 2 ^ j + l) v, top, apart) (omega arith) in
    omega (arith, bit_or_sum (h * 2 ^ w * 2 ^ j + l) (v * 2 ^ j))
