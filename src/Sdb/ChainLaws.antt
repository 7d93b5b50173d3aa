-- ===== src/Sdb/ChainLaws.antt =====
-- `tokens_calculation` of src/monitor/sdb/expr.c on numbers joined by `+` and `-`.
use gs_emu.Base.{
  ℕ, zero, suc, ◌+◌, ◌<◌, ◌≡◌, refl, ap, ◌∙◌, Bool, true, false, Option, none, some, List, [], ◌∷◌,
  lt→ltb, length, arith,
}
use gs_emu.Word.{u32, sub32}
use gs_emu.Sdb.Outcome.{ok, ◌>>=◌}
use gs_emu.Sdb.Token.{Token, token, tk_decimal}
use gs_emu.Sdb.Eval.{
  Target, Calc, push_num, push_op, apply_op, calculate, take_sum, take_token, take_tokens,
  reduce_one, reduce_all, tokens_calculation, last_value,
}

-- A sign, `true` for `-`.
abbrev pub sign : Bool → ℕ
sign true = b'-'
sign false = b'+'

abbrev pub number : List ℕ → Token
number s = token tk_decimal s

abbrev pub chain : List (Bool × List ℕ) → List Token
chain [] = []
chain ((m, s) ∷ rest) = token (sign m) (sign m ∷ []) ∷ (number s ∷ chain rest)

-- Every text has room for its NUL.
abbrev pub AllShort : List (Bool × List ℕ) → Type 0
AllShort [] = Unit {0}
AllShort ((m, s) ∷ rest) = (length s < 32) × AllShort rest

abbrev pub combine : Bool → ℕ → ℕ → ℕ
combine true a b = sub32 a b
combine false a b = u32 (a + b)

-- The sum read from the right: a - (b - (c + d)).
abbrev pub from_right : (List ℕ → ℕ) → ℕ → List (Bool × List ℕ) → ℕ
from_right atol v [] = v
from_right atol v ((m, s) ∷ rest) = combine m v (from_right atol (u32 (atol s)) rest)

-- The stacks below the number on top.
abbrev nums_of : List (Bool × ℕ) → List ℕ
nums_of [] = []
nums_of ((m, u) ∷ d) = u ∷ nums_of d

abbrev ops_of : List (Bool × ℕ) → List ℕ
ops_of [] = []
ops_of ((m, u) ∷ d) = sign m ∷ ops_of d

length-nums_of : (d : List (Bool × ℕ)) → length (nums_of d) ≡ length d
length-nums_of [] = refl
length-nums_of ((m, u) ∷ d) = omega (arith, length-nums_of d)

length-ops_of : (d : List (Bool × ℕ)) → length (ops_of d) ≡ length d
length-ops_of [] = refl
length-ops_of ((m, u) ∷ d) = omega (arith, length-ops_of d)

abbrev fold : ℕ → List (Bool × ℕ) → ℕ
fold v [] = v
fold v ((m, u) ∷ d) = fold (combine m u v) d

abbrev top_after : (List ℕ → ℕ) → ℕ → List (Bool × List ℕ) → ℕ
top_after atol v [] = v
top_after atol v ((m, s) ∷ rest) = top_after atol (u32 (atol s)) rest

abbrev below_after : (List ℕ → ℕ) → ℕ → List (Bool × ℕ) → List (Bool × List ℕ) → List (Bool × ℕ)
below_after atol v d [] = d
below_after atol v d ((m, s) ∷ rest) = below_after atol (u32 (atol s)) ((m, v) ∷ d) rest

length-below_after :
    (atol : List ℕ → ℕ) (v : ℕ) (d : List (Bool × ℕ)) (rest : List (Bool × List ℕ))
    → length (below_after atol v d rest) ≡ length d + length rest
length-below_after atol v d [] = omega arith
length-below_after atol v d ((m, s) ∷ rest) =
    omega (arith, length-below_after atol (u32 (atol s)) ((m, v) ∷ d) rest)

fold-after :
    (atol : List ℕ → ℕ) (v : ℕ) (d : List (Bool × ℕ)) (rest : List (Bool × List ℕ))
    → fold (top_after atol v rest) (below_after atol v d rest) ≡ fold (from_right atol v rest) d
fold-after atol v d [] = refl
fold-after atol v d ((m, s) ∷ rest) = fold-after atol (u32 (atol s)) ((m, v) ∷ d) rest

module _ {S : Type 0} (t : Target S) (s : S) (r : ℕ) where
  abbrev stack : ℕ → List (Bool × ℕ) → Calc S
  stack v d = record { nums = v ∷ nums_of d; ops = ops_of d; result = r; target = s }

  -- A sign after signs only is pushed.
  take_sum_pushes :
      (m : Bool) (v : ℕ) (d : List (Bool × ℕ))
      → length d < 32
      → take_sum (sign m) (stack v d) ≡ ok (record (stack v d) { ops = sign m ∷ ops_of d })
  unfolding take_sum push_op
  take_sum_pushes m v [] h = refl
  take_sum_pushes m v ((true, u) ∷ d) h = let l = length-ops_of d in ground arith
  take_sum_pushes m v ((false, u) ∷ d) h = let l = length-ops_of d in ground arith

  module _ (atol strtol : List ℕ → ℕ) where
    take_number :
        (prev : Option ℕ) (str : List ℕ) (c : Calc S)
        → length str < 32
        → length c.nums < 32
        → take_token t atol strtol prev (number str) c
          ≡ ok (some (record c { nums = u32 (atol str) ∷ c.nums }))
    unfolding take_token push_num
    take_number prev str c h k = rw (lt→ltb _ _ h, lt→ltb _ _ k) refl

    take_sign :
        (prev : Option ℕ) (m : Bool) (x : List ℕ) (v : ℕ) (d : List (Bool × ℕ))
        → length d < 32
        → take_token t atol strtol prev (token (sign m) x) (stack v d)
          ≡ ok (some (record (stack v d) { ops = sign m ∷ ops_of d }))
    unfolding take_token
    take_sign prev true x v d h = rw (take_sum_pushes true v d h) refl
    take_sign prev false x v d h = rw (take_sum_pushes false v d h) refl

    take_chain :
        (prev : Option ℕ) (v : ℕ) (d : List (Bool × ℕ)) (rest : List (Bool × List ℕ))
        → length d + length rest < 32
        → AllShort rest
        → take_tokens t atol strtol prev (chain rest) (stack v d)
          ≡ ok (some (stack (top_after atol v rest) (below_after atol v d rest)))
    unfolding take_tokens
    take_chain prev v d [] h k = refl
    take_chain prev v d ((m, x) ∷ rest) h k =
        let l = length-nums_of d in
        rw
          (
            take_sign prev m (sign m ∷ []) v d (omega arith),
            take_number (some (sign m)) x (record (stack v d) { ops = sign m ∷ ops_of d }) k.0
                (omega arith),
          )
          (take_chain (some tk_decimal) (u32 (atol x)) ((m, v) ∷ d) rest (omega arith) k.1)

module _ {S : Type 0} (t : Target S) (s : S) where
  reduce_one-sign :
      (m : Bool) (r u v : ℕ) (d : List (Bool × ℕ))
      → length d < 31
      → reduce_one t (sign m) (ops_of d) (stack t s r v ((m, u) ∷ d))
        ≡ ok (stack t s (combine m u v) (combine m u v) d)
  unfolding reduce_one apply_op push_num calculate
  reduce_one-sign true r u v d h = let l = length-nums_of d in ground arith
  reduce_one-sign false r u v d h = let l = length-nums_of d in ground arith

  -- The operators left are taken from the top.
  reduce_chain :
      (fuel r v : ℕ) (d : List (Bool × ℕ))
      → length d < fuel
      → length d < 32
      → (reduce_all t fuel (stack t s r v d) >>= last_value) ≡ ok (some (fold v d, s))
  unfolding reduce_all
  reduce_chain zero r v d h k = absurd (omega arith)
  reduce_chain (suc fuel) r v [] h k = refl
  reduce_chain (suc fuel) r v ((m, u) ∷ d) h k =
      rw (reduce_one-sign m r u v d (omega arith))
        (reduce_chain fuel (combine m u v) (combine m u v) d (omega arith) (omega arith))

  -- Of at most 32 numbers joined by `+` and `-`, each shorter than 32 characters, the evaluation
  -- gives the value read from the right, a - (b - (c + d)), on 32 bits, and leaves the processor
  -- as it was.
  pub tokens_calculation-from_right :
      (atol strtol : List ℕ → ℕ) (first : List ℕ) (rest : List (Bool × List ℕ))
      → length first < 32
      → length rest < 32
      → AllShort rest
      → tokens_calculation t atol strtol (number first ∷ chain rest) s
        ≡ ok (some (from_right atol (u32 (atol first)) rest, s))
  unfolding tokens_calculation take_tokens
  tokens_calculation-from_right atol strtol first rest f h k =
      let v : ℕ = u32 (atol first) in
      let b = length-below_after atol v [] rest in
      let o = length-ops_of (below_after atol v [] rest) in
      let r : ℕ = 0xffff_ffff in
      rw
        (
          take_number t s r atol strtol none first
              (record { nums = []; ops = []; result = r; target = s }) f (omega arith),
          take_chain t s r atol strtol (some tk_decimal) v [] rest (omega arith) k,
        )
        (reduce_chain _ r (top_after atol v rest) (below_after atol v [] rest) (omega arith)
            (omega arith)
          ∙ ap (λ w. ok (some (w, s))) (fold-after atol v [] rest))
