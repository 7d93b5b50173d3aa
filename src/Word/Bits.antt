-- ===== src/Word/Bits.antt =====
-- Laws of `&`, `|` and `^` at every width, from the digit recursion that they stand for.
use Prim.Native.Nat.{digits, bitwise, bit_and-bitwise, bit_or-bitwise}
use mathlib.Core.WellFounded
use native.Mathlib.Nat.{pow-suc, zero-add, suc-add, pow-succ', div-div-eq-div-mul}
use gs_emu.Base.{
  ℕ, zero, suc, ◌+◌, ◌*◌, ◌/◌, ◌%◌, ◌^◌, ◌≤◌, ◌<◌, min, max, bit_and, bit_or, ◌≡◌, refl, sym, ap,
  ◌∙◌, arith, lt_wf,
}
use gs_emu.Word.Defs.{bit}

-- The result of a digit operation does not depend on how many digits it may look at.
module _ (z : ℕ → ℕ) (op : ℕ → ℕ → ℕ) where
  digits-enough : (k n x y : ℕ) → n ≤ k → x ≤ n → digits z op n x y ≡ bitwise z op x y
  digits-enough k zero zero y u v = refl
  digits-enough k (suc n) zero y u v = refl
  digits-enough k zero (suc x) y u v = absurd (omega arith)
  digits-enough zero (suc n) (suc x) y u v = absurd (omega arith)
  digits-enough (suc k) (suc n) (suc x) y u v =
      let long = digits-enough k n (suc x / 2) (y / 2) (omega arith) (omega arith) in
      let short = digits-enough k x (suc x / 2) (y / 2) (omega arith) (omega arith) in
      ap (λ t. t * 2 + op (suc x % 2) (y % 2)) (long ∙ sym short)

  bitwise-halves :
      (x y : ℕ)
      → bitwise z op (suc x) y ≡ bitwise z op (suc x / 2) (y / 2) * 2 + op (suc x % 2) (y % 2)
  bitwise-halves x y =
      ap (λ t. t * 2 + op (suc x % 2) (y % 2))
        (digits-enough x x (suc x / 2) (y / 2) (omega arith) (omega arith))

-- The lowest digit, and the halves.
pub bit_and_step : (x y : ℕ) → bit_and x y ≡ bit_and (x / 2) (y / 2) * 2 + min (x % 2) (y % 2)
bit_and_step zero y = simp bit_and-bitwise (omega arith)
bit_and_step (suc x) y = simp bit_and-bitwise (bitwise-halves (λ t. 0) min x y)

pub bit_or_step : (x y : ℕ) → bit_or x y ≡ bit_or (x / 2) (y / 2) * 2 + max (x % 2) (y % 2)
bit_or_step zero y = simp bit_or-bitwise (omega arith)
bit_or_step (suc x) y = simp bit_or-bitwise (bitwise-halves (λ t. t) max x y)

pub div-pow_suc : (k x : ℕ) → x / 2 ^ suc k ≡ x / 2 / 2 ^ k
div-pow_suc k x = rw (pow-succ' 2 k) (sym (div-div-eq-div-mul x 2 (2 ^ k)))

-- Each digit of the result is made of the digits of the operands.
pub bit-bit_and : (k a b : ℕ) → bit k (bit_and a b) ≡ min (bit k a) (bit k b)
bit-bit_and zero a b = omega (arith, bit_and_step a b)
bit-bit_and (suc k) a b =
    rw (div-pow_suc, div-pow_suc, div-pow_suc, half_and) (bit-bit_and k (a / 2) (b / 2))
  where
    half_and : bit_and a b / 2 ≡ bit_and (a / 2) (b / 2)
    half_and = omega (arith, bit_and_step a b)

pub bit-bit_or : (k a b : ℕ) → bit k (bit_or a b) ≡ max (bit k a) (bit k b)
bit-bit_or zero a b = omega (arith, bit_or_step a b)
bit-bit_or (suc k) a b =
    rw (div-pow_suc, div-pow_suc, div-pow_suc, half_or) (bit-bit_or k (a / 2) (b / 2))
  where
    half_or : bit_or a b / 2 ≡ bit_or (a / 2) (b / 2)
    half_or = omega (arith, bit_or_step a b)

-- `x << j`: the digits move up by `j`.
pub bit-shl : (j k x : ℕ) → bit (j + k) (x * 2 ^ j) ≡ bit k x
bit-shl zero k x = rw zero-add (ap (λ t. bit k t) (omega arith))
bit-shl (suc j) k x = rw (suc-add, div-pow_suc, halve) (bit-shl j k x)
  where
    halve : x * 2 ^ suc j / 2 ≡ x * 2 ^ j
    halve = rw (pow-suc 2 j) (omega (arith))

-- `a | b` of numbers with no digit in common is their sum.
pub bit_or_sum : (a b : ℕ) → bit_or a b + bit_and a b ≡ a + b
bit_or_sum a =
    WellFounded.induction lt_wf {C = λ a. (b : ℕ) → bit_or a b + bit_and a b ≡ a + b} a step
  where
    step :
        (n : ℕ)
        → ((m : ℕ) → m < n → (b : ℕ) → bit_or m b + bit_and m b ≡ m + b)
        → (b : ℕ) → bit_or n b + bit_and n b ≡ n + b
    step zero ih b = omega (arith, bit_or-bitwise 0 b, bit_and-bitwise 0 b)
    step (suc n) ih b =
        omega (
          arith,
          bit_or_step (suc n) b,
          bit_and_step (suc n) b,
          ih (suc n / 2) (omega arith) (b / 2),
        )

bit_and-zero_below : (k x : ℕ) → x < k → bit_and x 0 ≡ 0
bit_and-zero_below zero x h = absurd (omega arith)
bit_and-zero_below (suc k) zero h = refl
bit_and-zero_below (suc k) (suc x) h =
    omega (arith, bit_and_step (suc x) 0, bit_and-zero_below k (suc x / 2) (omega arith))

pub bit_and-zero : (x : ℕ) → bit_and x 0 ≡ 0
bit_and-zero x = bit_and-zero_below (suc x) x (omega arith)

mul-two-pow_suc : (q k : ℕ) → q * 2 ^ suc k ≡ 2 * (q * 2 ^ k)
mul-two-pow_suc q k = omega (arith, ap (λ (t : ℕ). q * t) (pow-suc 2 k))

-- `x & (m << k)` is `((x >> k) & m) << k`.
pub bit_and-shl : (k a m : ℕ) → bit_and a (m * 2 ^ k) ≡ bit_and (a / 2 ^ k) m * 2 ^ k
bit_and-shl zero a m =
    let p : m * 2 ^ 0 ≡ m = omega arith in
    let q : a / 2 ^ 0 ≡ a = omega arith in rw (p, q) (omega arith)
bit_and-shl (suc k) a m = rw (div-pow_suc k a) (
    ground (
      arith,
      bit_and_step a (m * 2 ^ suc k),
      mul-two-pow_suc m k,
      bit_and-shl k (a / 2) m,
      mul-two-pow_suc (bit_and (a / 2 / 2 ^ k) m) k,
    ))

-- `(q << k) | r` is a sum when `r` fits `k` digits.
pub bit_or_fields : (k q r : ℕ) → r < 2 ^ k → bit_or (q * 2 ^ k) r ≡ q * 2 ^ k + r
bit_or_fields zero q r h =
    omega (arith, bit_or_sum (q * 2 ^ 0) r, bit_and-zero (q * 2 ^ 0), eq_zero)
  where
    eq_zero : bit_and (q * 2 ^ 0) r ≡ bit_and (q * 2 ^ 0) 0
    eq_zero = ap (bit_and (q * 2 ^ 0)) (omega arith)
bit_or_fields (suc k) q r h = ground (
  arith,
  bit_or_step (q * 2 ^ suc k) r,
  mul-two-pow_suc q k,
  pow-suc 2 k,
  bit_or_fields k q (r / 2) (omega (arith, pow-suc 2 k)),
)
