-- ===== src/Device/KeyboardLaws.antt =====
-- The queue of src/device/keyboard.c against a list of key codes.
use gs_emu.Base.{
  ℕ, zero, suc, ◌+◌, ◌-◌, ◌%◌, ◌<◌, ◌≡◌, refl, Option, none, some, List, [], ◌∷◌, ◌++◌, ◌==◌, ltb,
  leb, ap, Bool-cases, inl, inr, ◌∙◌, ◌≤◌, if◌then◌else◌, arith, length,
}
use gs_emu.Device.Keyboard.{Keys, key_enqueue, key_dequeue, key_queue_len, key_none}

-- Both indices are places of the array.
pub record IsQueue (k : Keys) : Type 0 where
  pub front : k.key_f < key_queue_len
  pub rear : k.key_r < key_queue_len

abbrev pub size : Keys → ℕ
size k = (k.key_r + key_queue_len - k.key_f) % key_queue_len

-- The next `n` places of the array, from the place `i`.
abbrev pub slots : (ℕ → ℕ) → ℕ → ℕ → List ℕ
slots q i zero = []
slots q i (suc n) = q i ∷ slots q ((i + 1) % key_queue_len) n

-- The codes that wait, the oldest first.
abbrev pub contents : Keys → List ℕ
contents k = slots k.key_queue k.key_f (size k)

-- The queue of a specification: at most 1023 codes.
abbrev pub spec_enqueue : ℕ → List ℕ → Option (List ℕ)
spec_enqueue c xs = if ltb (length xs) 1023 then some (xs ++ c ∷ []) else none

abbrev pub spec_dequeue : List ℕ → ℕ × List ℕ
spec_dequeue [] = (key_none, [])
spec_dequeue (x ∷ xs) = (x, xs)

-- The size is written out, so that its steps are linear.
size_cases :
    (k : Keys)
    → IsQueue k
    → size k ≡ (if leb k.key_f k.key_r then k.key_r - k.key_f else k.key_r + 1024 - k.key_f)
size_cases k h = let f = h.front in let r = h.rear in ground arith

next_cases : (i : ℕ) → i < 1024 → (i + 1) % 1024 ≡ (if i == 1023 then 0 else i + 1)
next_cases i h = ground arith

-- The place after `n` steps.
slots-append :
    (q : ℕ → ℕ) (i n : ℕ) → i < 1024 → slots q i (suc n) ≡ slots q i n ++ q ((i + n) % 1024) ∷ []
slots-append q i zero h = ap (λ x. q x ∷ []) (omega arith)
slots-append q i (suc n) h =
    let e : ((i + 1) % 1024 + n) % 1024 ≡ (i + suc n) % 1024 = omega arith in
    ap (λ x. q i ∷ x)
      (slots-append q ((i + 1) % 1024) n (omega arith)
        ∙ ap (λ x. slots q ((i + 1) % 1024) n ++ q x ∷ []) e)

-- A write outside the places leaves them.
slots-write :
    (q : ℕ → ℕ) (i n j c : ℕ)
    → i < 1024
    → j < 1024
    → n ≤ (j + 1024 - i) % 1024
    → slots (λ x. if x == j then c else q x) i n ≡ slots q i n
slots-write q i zero j c hi hj h = refl
slots-write q i (suc n) j c hi hj h =
    let ne : (if i == j then c else q i) ≡ q i = ground arith in
    rw (ne, slots-write q ((i + 1) % 1024) n j c (omega arith) hj (omega arith))

length-slots : (q : ℕ → ℕ) (i n : ℕ) → length (slots q i n) ≡ n
length-slots q i zero = refl
length-slots q i (suc n) = ap suc (length-slots q ((i + 1) % 1024) n)

-- What became of an attempt to add a code.
abbrev pub Enqueued : ℕ → Keys → Option Keys → Type 0
Enqueued c k none = length (contents k) ≡ 1023
Enqueued c k (some t) =
    IsQueue t × (length (contents k) < 1023) × (contents t ≡ contents k ++ c ∷ [])

contents-suc :
    (q : ℕ → ℕ) (f r c n : ℕ)
    → f < 1024
    → r < 1024
    → n < 1023
    → n ≡ (r + 1024 - f) % 1024
    → slots (λ i. if i == r then c else q i) f (suc n) ≡ slots q f n ++ c ∷ []
contents-suc q f r c n hf hr hn e =
    let here : (f + n) % 1024 ≡ r = omega arith in
    let now : (if (f + n) % 1024 == r then c else q ((f + n) % 1024)) ≡ c = ground arith in
    rw (
      slots-append (λ i. if i == r then c else q i) f n hf,
      slots-write q f n r c hf hr (omega arith),
      now,
    )

-- With both indices in the array, a code is refused exactly when 1023 codes wait; otherwise
-- fewer wait, both indices stay in the array and the codes that wait are those before with the
-- new one behind them.
pub key_enqueue-Enqueued : (c : ℕ) (k : Keys) → IsQueue k → Enqueued c k (key_enqueue c k)
unfolding key_enqueue
key_enqueue-Enqueued c k h =
    let f = h.front in
    let r = h.rear in
    let n = length-slots k.key_queue k.key_f (size k) in
    elim (Bool-cases ((k.key_r + 1) % key_queue_len == k.key_f)) [
      | inl full ↦ rw full (rw n (ground arith))
      | inr free ↦
          let less : size k < 1023 = ground arith in
          let grown : ((k.key_r + 1) % 1024 + 1024 - k.key_f) % 1024 ≡ suc (size k) =
            ground arith in
          rw free (
            record { front = f; rear = omega arith },
            omega arith,
            rw grown (contents-suc k.key_queue k.key_f k.key_r c (size k) f r less refl),
          )
    ]

-- With both indices in the array, taking a code keeps them there, and gives the oldest code and
-- leaves the others in order, or gives the code 0 and leaves the queue empty when none waits.
pub key_dequeue-spec_dequeue :
    (k : Keys)
    → IsQueue k
    → IsQueue (key_dequeue k).1
      × (((key_dequeue k).0, contents (key_dequeue k).1) ≡ spec_dequeue (contents k))
unfolding key_dequeue
key_dequeue-spec_dequeue k h =
    let f = h.front in
    let r = h.rear in
    elim (Bool-cases (k.key_f == k.key_r)) [
      | inl empty ↦ let none_left : size k ≡ 0 = ground arith in rw (empty, none_left) (h, refl)
      | inr some_left ↦
          let n = (k.key_r + 1024 - (k.key_f + 1) % 1024) % 1024 in
          let shrunk : size k ≡ suc n = ground arith in
          rw (some_left, shrunk) (record { front = omega arith; rear = r }, refl)
    ]
