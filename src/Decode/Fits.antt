-- ===== src/Decode/Fits.antt =====
-- The test of `INSTPAT` against the meaning of a pattern, character by character.
use native.Mathlib.Nat.{pow-suc, pow-le-pow_right, mul-div_cancel, div-div-eq-div-mul, one-le-pow}
use native.Mathlib.Numerals.{add-one}
use gs_emu.Base.{
  ==→eq, ℕ, suc, ◌+◌, ◌*◌, ◌/◌, ◌%◌, ◌^◌, ◌≤◌, ◌<◌, min, bit_and, bit_or, ◌≡◌, refl, sym, ◌∙◌, ap,
  Bool, true, false, ◌&&◌, ◌||◌, none, some, List, [], ◌∷◌, arith, ◌==◌, if◌then◌else◌, length,
  Bool-cases, Option-cases, inl, inr,
}
use gs_emu.Word.{u64, bit, bit_and_step, bit_or_fields, bit_and-shl, bit_and-zero}
use gs_emu.Decode.Pattern.{
  Pat, pat, is_pattern_char, key_digit, mask_digit, pattern_loop, finish, pattern_decode,
  instpat_test,
}

-- The number of binary digits that a pattern speaks of.
abbrev pub digits : List ℕ → ℕ
digits [] = 0
digits (c ∷ cs) = if c == b' ' then digits cs else suc (digits cs)

-- A `1` wants the digit 1, a `0` the digit 0, a `?` and a space want nothing.
abbrev pub char_fits : ℕ → ℕ → Bool
char_fits c d = (c == b' ' || c == b'?') || d == key_digit c

-- The last character stands for the lowest digit.
abbrev pub fits : List ℕ → ℕ → Bool
fits [] x = true
fits (c ∷ cs) x = char_fits c (bit (digits cs) x) && fits cs x

shift_in : (n k b : ℕ) → n < 64 → k < 2 ^ n → b < 2 → bit_or (u64 (k * 2)) b ≡ k * 2 + b
shift_in n k b hn hk hb =
    let top : 2 ^ n * 2 ≤ 2 ^ 64 =
      omega (arith, pow-le-pow_right {n = 2} (omega arith) hn, pow-suc 2 n) in
    let same : u64 (k * 2) ≡ k * 2 ^ 1 = omega arith in
    rw (same, bit_or_fields 1 k b hb) (omega arith)

low_digit :
    (x m k mb kb : ℕ)
    → kb ≤ mb
    → mb < 2
    → (bit_and x (m * 2 + mb) == k * 2 + kb) ≡ ((bit_and (x / 2) m == k) && (min (x % 2) mb == kb))
low_digit x m k mb kb p q =
    let half : (m * 2 + mb) / 2 ≡ m = omega arith in
    let low : (m * 2 + mb) % 2 ≡ mb = omega arith in
    rw (bit_and_step x (m * 2 + mb), half, low) (ground arith)

char_lem :
    (c d : ℕ)
    → (c == b' ') ≡ false
    → is_pattern_char c ≡ true
    → d < 2
    → (min d (mask_digit c) == key_digit c) ≡ char_fits c d
char_lem c d h v small = ground arith

digit_bounds : (c : ℕ) → (key_digit c ≤ mask_digit c) × (mask_digit c < 2)
digit_bounds c = ground arith

&&_assoc : (a b c : Bool) → ((a && b) && c) ≡ (a && (b && c))
&&_assoc a b c = ground arith

div-pow_suc_right : (x n : ℕ) → x / 2 ^ suc n ≡ x / 2 ^ n / 2
div-pow_suc_right x n = rw (pow-suc 2 n) (sym (div-div-eq-div-mul x (2 ^ n) 2))

-- What the loop has read so far, `n` digits, and what is left.
record IsRead (n k m : ℕ) (cs : List ℕ) : Type 0 where
  room : n + length cs ≤ 64
  key_lt : k < 2 ^ n
  mask_lt : m < 2 ^ n

IsRead-suc :
    (n k m c : ℕ) (cs : List ℕ)
    → IsRead n k m (c ∷ cs)
    → IsRead (suc n) (k * 2 + key_digit c) (m * 2 + mask_digit c) cs
IsRead-suc n k m c cs h = let b = digit_bounds c in omega (arith, pow-suc 2 n)

IsRead-skip : (n k m c : ℕ) (cs : List ℕ) → IsRead n k m (c ∷ cs) → IsRead n k m cs
IsRead-skip n k m c cs h = omega arith

loop_digit :
    (c : ℕ) (cs : List ℕ) (k m s n : ℕ)
    → IsRead n k m (c ∷ cs)
    → (c == b' ') ≡ false
    → is_pattern_char c ≡ true
    → pattern_loop (c ∷ cs) k m s
      ≡ pattern_loop cs
          (k * 2 + key_digit c)
          (m * 2 + mask_digit c)
          (if c == b'?' then s + 1 else 0)
unfolding pattern_loop
loop_digit c cs k m s n h e v =
    let b = digit_bounds c in
    rw (
      pattern_loop,
      e,
      v,
      shift_in n k (key_digit c) (omega arith) h.key_lt (omega arith),
      shift_in n m (mask_digit c) (omega arith) h.mask_lt (omega arith),
    )

loop_skip :
    (c : ℕ) (cs : List ℕ) (k m s : ℕ)
    → (c == b' ') ≡ true
    → pattern_loop (c ∷ cs) k m s ≡ pattern_loop cs k m s
unfolding pattern_loop
loop_skip c cs k m s e = rw (e, pattern_loop)

loop_bad :
    (c : ℕ) (cs : List ℕ) (k m s : ℕ)
    → (c == b' ') ≡ false
    → is_pattern_char c ≡ false
    → pattern_loop (c ∷ cs) k m s ≡ none
unfolding pattern_loop
loop_bad c cs k m s e v = rw (e, v, pattern_loop)

-- What the loop adds to the test is what the characters that are left ask for.
loop_fits :
    (cs : List ℕ) (k m s n x : ℕ) {p : Pat}
    → IsRead n k m cs
    → pattern_loop cs k m s ≡ some p
    → (bit_and x p.mask == p.key) ≡ ((bit_and (x / 2 ^ digits cs) m == k) && fits cs x)
unfolding pattern_loop
loop_fits [] k m s n x {p} h e =
    let same : pat k m s ≡ p = ground arith in
    let whole : x / 2 ^ digits [] ≡ x = omega arith in rw (← same, whole) (ground arith)
loop_fits (c ∷ cs) k m s n x {p} h e = elim (Bool-cases (c == b' ')) [
  | inl space ↦
      let rest =
        loop_fits cs k m s n x (IsRead-skip n k m c cs h) (rw (loop_skip c cs k m s space) at e) in
      rw space rest
  | inr char ↦ elim (Bool-cases (is_pattern_char c)) [
    | inl valid ↦
        let b = digit_bounds c in
        let rest =
          loop_fits cs (k * 2 + key_digit c) (m * 2 + mask_digit c) (if c == b'?' then s + 1 else 0)
            (suc n) x (IsRead-suc n k m c cs h) (rw (loop_digit c cs k m s n h char valid) at e) in
        rest
        ∙ ap (λ t. t && fits cs x)
            (low_digit (x / 2 ^ digits cs) m k (mask_digit c) (key_digit c) b.0 b.1
              ∙ ap (λ t. (bit_and (x / 2 ^ digits cs / 2) m == k) && t)
                  (char_lem c (bit (digits cs) x) char valid (omega arith)))
        ∙ &&_assoc (bit_and (x / 2 ^ digits cs / 2) m == k) (char_fits c (bit (digits cs) x))
            (fits cs x)
        ∙ (let same : x / 2 ^ digits (c ∷ cs) ≡ x / 2 ^ digits cs / 2 =
              rw char (div-pow_suc_right x (digits cs)) in
            rw same refl)
    | inr bad ↦ cc (e, loop_bad c cs k m s char bad)
  ]
]

-- Below the last `1` or `0` key and mask are empty.
record IsShifted (s k m : ℕ) : Type 0 where
  key_part : ℕ
  mask_part : ℕ
  key_eq : k ≡ key_part * 2 ^ s
  mask_eq : m ≡ mask_part * 2 ^ s

IsShifted-suc :
    (s k m c : ℕ)
    → IsShifted s k m
    → IsShifted (if c == b'?' then s + 1 else 0) (k * 2 + key_digit c) (m * 2 + mask_digit c)
IsShifted-suc s k m c q = elim (Bool-cases (c == b'?')) [
  | inl e ↦
      let is : c ≡ b'?' = ==→eq c b'?' e in
      rw is (record {
        key_part = q.key_part;
        mask_part = q.mask_part;
        key_eq = rw add-one (omega (arith, mul-pow_suc q.key_part s));
        mask_eq = rw add-one (omega (arith, mul-pow_suc q.mask_part s));
      })
  | inr e ↦ rw e (record {
    key_part = k * 2 + key_digit c;
    mask_part = m * 2 + 1;
    key_eq = omega arith;
    mask_eq = omega arith;
  })
]
  where
    mul-pow_suc : (a n : ℕ) → a * 2 ^ suc n ≡ 2 * (a * 2 ^ n)
    mul-pow_suc a n = omega (arith, ap (λ (t : ℕ). a * t) (pow-suc 2 n))

loop-IsShifted :
    (cs : List ℕ) (k m s n : ℕ) {p : Pat}
    → IsRead n k m cs
    → IsShifted s k m
    → pattern_loop cs k m s ≡ some p
    → IsShifted p.shift p.key p.mask
unfolding pattern_loop
loop-IsShifted [] k m s n {p} h q e = let same : pat k m s ≡ p = ground arith in rw (← same) q
loop-IsShifted (c ∷ cs) k m s n {p} h q e = elim (Bool-cases (c == b' ')) [
  | inl space ↦
      loop-IsShifted cs k m s n (IsRead-skip n k m c cs h) q (rw (loop_skip c cs k m s space) at e)
  | inr char ↦ elim (Bool-cases (is_pattern_char c)) [
    | inl valid ↦
        loop-IsShifted cs (k * 2 + key_digit c) (m * 2 + mask_digit c)
          (if c == b'?' then s + 1 else 0) (suc n) (IsRead-suc n k m c cs h)
          (IsShifted-suc s k m c q) (rw (loop_digit c cs k m s n h char valid) at e)
    | inr bad ↦ cc (e, loop_bad c cs k m s char bad)
  ]
]

==-mul_pow : (a b s : ℕ) → (a * 2 ^ s == b * 2 ^ s) ≡ (a == b)
==-mul_pow a b s =
    let pos : 0 < 2 ^ s = one-le-pow s 2 (omega arith) in
    ground (arith, mul-div_cancel a pos, mul-div_cancel b pos, ap (λ (t : ℕ). t / 2 ^ s))

finish_test :
    (p : Pat) (x : ℕ)
    → IsShifted p.shift p.key p.mask
    → instpat_test (finish p) x ≡ (bit_and x p.mask == p.key)
unfolding instpat_test
finish_test p x q =
    let pos = one-le-pow p.shift 2 (omega arith) in
    rw
      (
        q.key_eq,
        q.mask_eq,
        mul-div_cancel q.key_part pos,
        mul-div_cancel q.mask_part pos,
        bit_and-shl p.shift x q.mask_part,
        ==-mul_pow,
      )
      refl

-- A pattern that decodes to key, mask and shift selects by them exactly the words whose binary
-- digits its characters allow, digit by digit: 0 and 1 as written, any digit for a question
-- mark, spaces skipped.
pub pattern_decode-fits :
    (str : List ℕ) {p : Pat} (x : ℕ) → pattern_decode str ≡ some p → instpat_test p x ≡ fits str x
unfolding pattern_decode
pattern_decode-fits str {p} x e = elim (Option-cases (pattern_loop str 0 0 0)) [
  | inl bad ↦ absurd (ground (arith, bad))
  | inr (q, good) ↦
      let short : length str < 64 = ground (arith, good) in
      let done : finish q ≡ p = ground (arith, good) in
      rw (← done) (
        finish_test q x (
          loop-IsShifted str 0 0 0 0 (omega arith)
            (record { key_part = 0; mask_part = 0; key_eq = refl; mask_eq = refl }) good)
        ∙ loop_fits str 0 0 0 0 x (omega arith) good
        ∙ rw bit_and-zero refl)
]
