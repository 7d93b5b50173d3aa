-- ===== src/Sdb/Outcome.antt =====
-- What a routine of the debugger comes to: a result; a failed assertion or an access outside an
-- array (`fault`); or a loop that has used up the rounds it was given (`timeout`).
use gs_emu.Base.{◌≡◌, ◌⊎◌, inl, inr, refl, Bool, true, false, if◌then◌else◌}

pub data Outcome {ℓ} (A : Type ℓ) : Type ℓ where
  ok : A → Outcome A
  fault timeout : Outcome A

infixl 5 ◌>>=◌
abbrev pub ◌>>=◌ {ℓ κ} : {A : Type ℓ} {B : Type κ} → Outcome A → (A → Outcome B) → Outcome B
ok a >>= f = f a
fault >>= f = fault
timeout >>= f = timeout

-- The routine ends.
abbrev pub Ends {ℓ} : {A : Type ℓ} → Outcome A → Type 0
Ends (ok a) = Unit {0}
Ends fault = Unit {0}
Ends timeout = ⊥

-- The routine gives a result with the property.
abbrev pub Returns {ℓ} : {A : Type ℓ} → (A → Type 0) → Outcome A → Type 0
Returns P (ok a) = P a
Returns P fault = ⊥
Returns P timeout = ⊥

-- A result with `P`, or a failure that `Q` allows.
abbrev pub Then {ℓ κ} :
    {A : Type ℓ} {B : Type κ} → (A → Type 0) → (Outcome B → Type 0) → Outcome A → Type 0
Then P Q (ok a) = P a
Then P Q fault = Q fault
Then P Q timeout = Q timeout

pub >>=-Then {ℓ κ} :
    {A : Type ℓ} {B : Type κ} (P : A → Type 0) (Q : Outcome B → Type 0) (m : Outcome A)
    (f : A → Outcome B)
    → Then P Q m
    → ((a : A) → P a → Q (f a))
    → Q (m >>= f)
>>=-Then P Q (ok a) f h k = k a h
>>=-Then P Q fault f h k = h
>>=-Then P Q timeout f h k = h

pub >>=-Ends {ℓ κ} :
    {A : Type ℓ} {B : Type κ} (m : Outcome A) (f : A → Outcome B)
    → Ends m
    → ((a : A) → Ends (f a))
    → Ends (m >>= f)
>>=-Ends (ok a) f h k = k a
>>=-Ends fault f h k = tt
>>=-Ends timeout f h k = h

pub Then-Ends {ℓ} : {A : Type ℓ} (P : A → Type 0) (m : Outcome A) → Then P (Ends {A = A}) m → Ends m
Then-Ends P (ok a) h = tt
Then-Ends P fault h = tt
Then-Ends P timeout h = h

-- A result, if there is one, has the property.
abbrev pub When {ℓ} : {A : Type ℓ} → (A → Type 0) → Outcome A → Type 0
When P (ok a) = P a
When P fault = Unit {0}
When P timeout = Unit {0}

pub >>=-When {ℓ κ} :
    {A : Type ℓ} {B : Type κ} (P : A → Type 0) (Q : B → Type 0) (m : Outcome A) (f : A → Outcome B)
    → When P m
    → ((a : A) → P a → When Q (f a))
    → When Q (m >>= f)
>>=-When P Q (ok a) f h k = k a h
>>=-When P Q fault f h k = tt
>>=-When P Q timeout f h k = tt

-- A part that does not concern the property.
pub >>=-When_any {ℓ κ} :
    {A : Type ℓ} {B : Type κ} (Q : B → Type 0) (m : Outcome A) (f : A → Outcome B)
    → ((a : A) → When Q (f a))
    → When Q (m >>= f)
>>=-When_any Q (ok a) f k = k a
>>=-When_any Q fault f k = tt
>>=-When_any Q timeout f k = tt

pub When-if {ℓ} :
    {A : Type ℓ} (P : A → Type 0) (b : Bool) (m n : Outcome A)
    → When P m
    → When P n
    → When P (if b then m else n)
When-if P true m n h k = h
When-if P false m n h k = k

-- To split on an outcome and keep the equation.
pub Outcome-cases {ℓ} :
    {A : Type ℓ} (o : Outcome A) → ((a : A) × (o ≡ ok a)) ⊎ ((o ≡ fault) ⊎ (o ≡ timeout))
Outcome-cases (ok a) = inl (a, refl)
Outcome-cases fault = inr (inl refl)
Outcome-cases timeout = inr (inr refl)

pub ok_inj {ℓ} : {A : Type ℓ} {u v : A} → ok u ≡ ok v → u ≡ v
ok_inj h = cc
