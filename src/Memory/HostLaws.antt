-- ===== src/Memory/HostLaws.antt =====
-- What a write into an array of bytes leaves for a read (include/memory/host.h).
use gs_emu.Base.{
  ℕ, zero, suc, ◌+◌, ◌*◌, ◌/◌, ◌%◌, ◌^◌, ◌<◌, ◌≤◌, ◌≡◌, ◌⊎◌, inl, inr, refl, Bool-cases, ap, ◌∙◌,
  some, ◌==◌, if◌then◌else◌, arith,
}
use gs_emu.Word.{u32}
use gs_emu.Memory.Host.{Bytes, put, load, store, host_read, host_write}

-- What an access of the length keeps of a word.
abbrev pub truncated : ℕ → ℕ → ℕ
truncated len v = if len == 1 then v % 2 ^ 8 else if len == 2 then v % 2 ^ 16 else v % 2 ^ 32

-- The low `n` bytes.
abbrev low : ℕ → ℕ → ℕ
low zero v = 0
low (suc n) v = v % 2 ^ 8 + 2 ^ 8 * low n (v / 2 ^ 8)

pub store-outside : (f : Bytes) (a n v x : ℕ) → (x < a) ⊎ (a + n ≤ x) → store f a n v x ≡ f x
unfolding store
store-outside f a zero v x h = refl
store-outside f a (suc n) v x h =
    let skips : (if x == a then v % 2 ^ 8 else f x) ≡ f x = ground arith in
    store-outside (put f a (v % 2 ^ 8)) (a + 1) n (v / 2 ^ 8) x (ground arith) ∙ skips

load-store : (f : Bytes) (a n v : ℕ) → load (store f a n v) a n ≡ low n v
unfolding store load
load-store f a zero v = refl
load-store f a (suc n) v =
    let g = put f a (v % 2 ^ 8) in
    let self : g a ≡ v % 2 ^ 8 = ground arith in
    let first : store g (a + 1) n (v / 2 ^ 8) a ≡ v % 2 ^ 8 =
      store-outside g (a + 1) n (v / 2 ^ 8) a (inl (omega arith)) ∙ self in
    rw (first, load-store g (a + 1) n (v / 2 ^ 8)) (omega arith)

load-agree :
    (f g : Bytes) (a n : ℕ) → ((x : ℕ) → a ≤ x → x < a + n → f x ≡ g x) → load f a n ≡ load g a n
unfolding load
load-agree f g a zero h = refl
load-agree f g a (suc n) h = rw (
  h a (omega arith) (omega arith),
  load-agree f g (a + 1) n (λ x l u. h x (omega arith) (omega arith)),
)

-- The number of bytes that an access writes.
abbrev pub written : ℕ → ℕ
written len = if len == 8 then 4 else len

stored : (f t : Bytes) (a len v : ℕ) → host_write f a len v ≡ some t → t ≡ store f a (written len) v
unfolding host_write
stored f t a len v h = ground arith

-- The lengths of an access.
abbrev pub IsWidth : ℕ → Type 0
IsWidth len = (len ≡ 1) ⊎ ((len ≡ 2) ⊎ ((len ≡ 4) ⊎ (len ≡ 8)))

host_write-IsWidth : (f t : Bytes) (a len v : ℕ) → host_write f a len v ≡ some t → IsWidth len
unfolding host_write
host_write-IsWidth f t a len v h = ground arith

eight : (f : Bytes) (a : ℕ) → u32 (load f a 8) ≡ load f a 4
unfolding load
eight f a = omega arith

reads :
    (f : Bytes) (a len v : ℕ)
    → IsWidth len
    → host_read (store f a (written len) v) a len ≡ some (truncated len v)
unfolding host_read
reads f a len v (inl e) = rw (e, load-store f a 1 v) (ap some (omega arith))
reads f a len v (inr (inl e)) = rw (e, load-store f a 2 v) (ap some (omega arith))
reads f a len v (inr (inr (inl e))) = rw (e, load-store f a 4 v) (ap some (omega arith))
reads f a len v (inr (inr (inr e))) =
    rw e (ap some (eight (store f a 4 v) a ∙ load-store f a 4 v ∙ omega arith))

-- A read of the bytes just written.
pub host_read-host_write :
    (f t : Bytes) (a len v : ℕ)
    → host_write f a len v ≡ some t
    → host_read t a len ≡ some (truncated len v)
host_read-host_write f t a len v h =
    rw (stored f t a len v h) (reads f a len v (host_write-IsWidth f t a len v h))

-- An access does not see a write beside it.
pub host_read-elsewhere :
    (f t : Bytes) (a len v b n : ℕ)
    → host_write f a len v ≡ some t
    → (b + n ≤ a) ⊎ (a + written len ≤ b)
    → host_read t b n ≡ host_read f b n
unfolding host_read
host_read-elsewhere f t a len v b n h apart =
    let same : (k : ℕ) → k ≤ n → load t b k ≡ load f b k = λ k le. load-agree t f b k (λ x l u.
      ap (λ g. g x) (stored f t a len v h) ∙ store-outside f a (written len) v x (ground arith)) in
    elim (Bool-cases (n == 1)) [
      | inl e ↦ rw (e, same 1 (ground arith)) refl
      | inr n1 ↦ elim (Bool-cases (n == 2)) [
        | inl e ↦ rw (n1, e, same 2 (ground arith)) refl
        | inr n2 ↦ elim (Bool-cases (n == 4)) [
          | inl e ↦ rw (n1, n2, e, same 4 (ground arith)) refl
          | inr n4 ↦ elim (Bool-cases (n == 8)) [
            | inl e ↦ rw (n1, n2, n4, e, same 8 (ground arith)) refl
            | inr n8 ↦ rw (n1, n2, n4, n8) refl
          ]
        ]
      ]
    ]

load_lt : (f : Bytes) (a : ℕ) → (load f a 1 < 2 ^ 8) × (load f a 2 < 2 ^ 16) × (load f a 4 < 2 ^ 32)
unfolding load
load_lt f a = (omega arith, omega arith, omega arith)

-- What a read gives is a word.
pub host_read_lt : (f : Bytes) (a len v : ℕ) → host_read f a len ≡ some v → v < 2 ^ 32
unfolding host_read
host_read_lt f a len v h = let (one, two, four) = load_lt f a in ground arith

-- Words of four bytes.
pub load-store_word : (f : Bytes) (a v : ℕ) → v < 2 ^ 32 → load (store f a 4 v) a 4 ≡ v
load-store_word f a v h = load-store f a 4 v ∙ omega arith

pub load-store_apart :
    (f : Bytes) (a b v : ℕ) → (b + 4 ≤ a) ⊎ (a + 4 ≤ b) → load (store f a 4 v) b 4 ≡ load f b 4
load-store_apart f a b v h =
    load-agree (store f a 4 v) f b 4 (λ x l u. store-outside f a 4 v x (ground arith))

-- Eight bytes, and one.
pub load-store_double : (f : Bytes) (a v : ℕ) → v < 2 ^ 64 → load (store f a 8 v) a 8 ≡ v
load-store_double f a v h = load-store f a 8 v ∙ omega arith

pub load-put : (f : Bytes) (a v : ℕ) → load (put f a v) a 1 ≡ v % 2 ^ 8
unfolding load
load-put f a v = let self : (if a == a then v else f a) ≡ v = ground arith in omega (arith, self)
