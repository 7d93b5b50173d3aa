-- ===== src/Sdb/EvalEnds.antt =====
-- The loops of `tokens_calculation` (src/monitor/sdb/expr.c) come to an end.
use gs_emu.Base.{
  ℕ, zero, suc, ◌+◌, ◌-◌, ◌*◌, ◌≤◌, ◌<◌, ◌≡◌, Bool, true, false, ◌||◌, Option, none, some, List, [],
  ◌∷◌, ◌==◌, if◌then◌else◌, length, drop, ap, arith,
}
use gs_emu.Sdb.Outcome.{Outcome, ok, ◌>>=◌, Ends, Then, >>=-Then, >>=-Ends, Then-Ends}
use gs_emu.Word.{u32}
use gs_emu.Sdb.Token.{Token, tk_decimal, tk_hex, tk_reg, tk_word}
use gs_emu.Sdb.Eval.{
  Target, Calc, calculate, push_num, push_op, apply_op, reduce_products, read_top, close_bracket,
  reduce_tighter, reduce_one, reduce_all, take_product, take_sum, take_token, take_tokens,
  tokens_calculation, reduce_before, go_on, c_string, bottom, all_fuel, end_calculation,
}

module _ {S : Type 0} where
  abbrev Kept : ℕ → List ℕ → Calc S → Type 0
  Kept n ops d = (length d.nums ≡ n) × (n ≤ 32) × (d.ops ≡ ops)

  -- An operator takes one number away.
  apply_op-Then :
      (o : ℕ) (nums ops : List ℕ) (r : ℕ) (s : S)
      → Then
          (Kept (length nums - 1) ops)
          (Ends {A = Calc S})
          (apply_op o (record { nums = nums; ops = ops; result = r; target = s }))
  unfolding apply_op push_num calculate
  apply_op-Then o [] ops r s = tt
  apply_op-Then o (a ∷ []) ops r s = tt
  apply_op-Then o (a ∷ (b ∷ rest)) ops r s = ground arith

  module _ (t : Target S) where
    read_top-Then :
        (nums ops : List ℕ) (r : ℕ) (s : S)
        → Then
            (Kept (length nums + 1) ops)
            (Ends {A = Calc S})
            (read_top t (record { nums = nums; ops = ops; result = r; target = s }))
    unfolding read_top push_num
    read_top-Then [] ops r s = tt
    read_top-Then (a ∷ rest) ops r s = ground arith

    reduce_tighter-Ends :
        (fuel : ℕ) (nums ops : List ℕ) (r : ℕ) (s : S)
        → 2 * length ops + (33 - length nums) < fuel
        → Ends (reduce_tighter t fuel (record { nums = nums; ops = ops; result = r; target = s }))
    unfolding reduce_tighter
    reduce_tighter-Ends zero nums ops r s h = absurd (omega arith)
    reduce_tighter-Ends (suc fuel) nums [] r s h = tt
    reduce_tighter-Ends (suc fuel) nums (o ∷ ops) r s h =
        let c : Calc S = record { nums = nums; ops = o ∷ ops; result = r; target = s } in
        let read : Ends (read_top t c >>= reduce_tighter t fuel) =
          >>=-Then (Kept (length nums + 1) (o ∷ ops)) Ends (read_top t c) _
            (read_top-Then nums (o ∷ ops) r s)
            (λ d k.
              reduce_tighter-Ends fuel d.nums d.ops d.result d.target
                (omega (arith, k.0, k.1, ap (length {0}) k.2))) in
        let apply' : Ends (apply_op o (record c { ops = ops }) >>= reduce_tighter t fuel) =
          >>=-Then (Kept (length nums - 1) ops) Ends (apply_op o (record c { ops = ops })) _
            (apply_op-Then o nums ops r s)
            (λ d k.
              reduce_tighter-Ends fuel d.nums d.ops d.result d.target
                (omega (arith, k.0, k.1, ap (length {0}) k.2))) in
        ground arith

    apply_op-Ends : (o : ℕ) (c : Calc S) → Ends (apply_op o c)
    apply_op-Ends o c =
        Then-Ends (Kept (length c.nums - 1) c.ops) (apply_op o c)
          (apply_op-Then o c.nums c.ops c.result c.target)

    read_top-Ends : (c : Calc S) → Ends (read_top t c)
    read_top-Ends c =
        Then-Ends (Kept (length c.nums + 1) c.ops) (read_top t c)
          (read_top-Then c.nums c.ops c.result c.target)

    reduce_products-Ends : (ops : List ℕ) (c : Calc S) → Ends (reduce_products ops c)
    unfolding reduce_products
    reduce_products-Ends [] c = tt
    reduce_products-Ends (o ∷ ops) c =
        let rest =
          >>=-Ends (apply_op o (record c { ops = ops })) (reduce_products ops) (apply_op-Ends o _)
            (reduce_products-Ends ops) in
        ground arith

    close_bracket-Ends : (ops : List ℕ) (c : Calc S) → Ends (close_bracket t ops c)
    unfolding close_bracket
    close_bracket-Ends [] c = tt
    close_bracket-Ends (o ∷ []) c = ground arith
    close_bracket-Ends (o ∷ (p ∷ ops)) c =
        let below = record c { ops = p ∷ ops } in
        let read =
          >>=-Ends (read_top t below) (close_bracket t (p ∷ ops)) (read_top-Ends below)
            (close_bracket-Ends (p ∷ ops)) in
        let apply' =
          >>=-Ends (apply_op o below) (close_bracket t (p ∷ ops)) (apply_op-Ends o below)
            (close_bracket-Ends (p ∷ ops)) in
        ground arith

    -- An operator with one number left puts a number on, and takes the operator in the next round.
    abbrev left : List ℕ → List ℕ → ℕ
    left nums ops = 2 * length ops + (if length nums == 1 then 1 else 0)

    reduce_one-Then :
        (o : ℕ) (nums ops : List ℕ) (r : ℕ) (s : S)
        → Then
            (λ d. left d.nums d.ops < left nums (o ∷ ops))
            (Ends {A = Calc S})
            (reduce_one t o ops (record { nums = nums; ops = o ∷ ops; result = r; target = s }))
    unfolding reduce_one apply_op push_num calculate
    reduce_one-Then o [] ops r s = tt
    reduce_one-Then o (a ∷ []) ops r s = ground arith
    reduce_one-Then o (a ∷ (b ∷ rest)) ops r s = ground arith

    reduce_all-Ends :
        (fuel : ℕ) (nums ops : List ℕ) (r : ℕ) (s : S)
        → left nums ops < fuel
        → Ends (reduce_all t fuel (record { nums = nums; ops = ops; result = r; target = s }))
    unfolding reduce_all
    reduce_all-Ends zero nums ops r s h = absurd (omega arith)
    reduce_all-Ends (suc fuel) nums [] r s h = tt
    reduce_all-Ends (suc fuel) [] (o ∷ ops) r s h = tt
    reduce_all-Ends (suc fuel) (a ∷ nums) (o ∷ ops) r s h =
        >>=-Then (λ d. left d.nums d.ops < left (a ∷ nums) (o ∷ ops)) Ends
          (reduce_one t o ops (record { nums = a ∷ nums; ops = o ∷ ops; result = r; target = s })) _
          (reduce_one-Then o (a ∷ nums) ops r s)
          (λ d k. reduce_all-Ends fuel d.nums d.ops d.result d.target (omega arith))

    reduce_before-Ends :
        (nums ops : List ℕ) (r : ℕ) (s : S)
        → Ends (reduce_before t (record { nums = nums; ops = ops; result = r; target = s }))
    reduce_before-Ends nums [] r s = tt
    reduce_before-Ends nums (o ∷ ops) r s = reduce_tighter-Ends _ nums (o ∷ ops) r s (omega arith)

    push_op-Ends : (o : ℕ) (c : Calc S) → Ends (push_op o c)
    unfolding push_op
    push_op-Ends o c = ground arith

    push_num-Ends : (v : ℕ) (c : Calc S) → Ends (push_num v c)
    unfolding push_num
    push_num-Ends v c = ground arith

    take_product-Ends :
        (prev : Option ℕ) (type : ℕ) (c : Calc S) → Ends (take_product t prev type c)
    unfolding take_product
    take_product-Ends prev type c =
        let hash = push_op-Ends b'#' c in
        let rest =
          >>=-Ends (reduce_before t c) (push_op type)
            (reduce_before-Ends c.nums c.ops c.result c.target) (push_op-Ends type) in
        ground arith

    take_sum-Ends : (type : ℕ) (c : Calc S) → Ends (take_sum type c)
    unfolding take_sum push_op
    take_sum-Ends type c = let r = reduce_products-Ends c.ops c in ground arith

    go_on-Ends : (m : Outcome (Calc S)) → Ends m → Ends (go_on m)
    go_on-Ends m h = >>=-Ends m (λ c. ok (some c)) h (λ c. tt)

    c_string-Ends : (s : List ℕ) → Ends (c_string s)
    c_string-Ends s = ground arith

    bottom-Ends : (ns : List ℕ) → Ends (bottom ns)
    bottom-Ends [] = tt
    bottom-Ends (n ∷ ns) = tt

    if-Ends :
        {A : Type 0} (b : Bool) (x y : Outcome A) → Ends x → Ends y → Ends (if b then x else y)
    if-Ends true x y h k = h
    if-Ends false x y h k = k

    register-Ends :
        (o : Option ℕ) (c : Calc S)
        → Ends {A = Option (Calc S)} (elim o as (λ x. Outcome (Option (Calc S))) [
          | none ↦ ok none
          | some v ↦ go_on (push_num v c)
        ])
    register-Ends none c = tt
    register-Ends (some v) c = go_on-Ends (push_num v c) (push_num-Ends v c)

    end_calculation-Ends : (r : Option (Calc S)) → Ends (end_calculation t r)
    end_calculation-Ends none = tt
    end_calculation-Ends (some c) =
        >>=-Ends (reduce_all t (all_fuel t c) c) _
          (reduce_all-Ends _ c.nums c.ops c.result c.target (ground arith))
          (λ d. >>=-Ends (bottom d.nums) _ (bottom-Ends d.nums) (λ v. tt))

    module _ (atol strtol : List ℕ → ℕ) where
      take_token-Ends :
          (prev : Option ℕ) (k : Token) (c : Calc S) → Ends (take_token t atol strtol prev k c)
      unfolding take_token
      take_token-Ends prev k c =
          let short = λ (u : List ℕ → ℕ).
            >>=-Ends (c_string k.str) (λ s. push_num (u32 (u s)) c) (c_string-Ends k.str)
              (λ s. push_num-Ends (u32 (u s)) c) in
          if-Ends (k.type == tk_decimal) _ _ (go_on-Ends _ (short atol)) (
            if-Ends (k.type == tk_hex) _ _ (go_on-Ends _ (short strtol)) (
              if-Ends (k.type == tk_reg) _ _
                (>>=-Ends (c_string k.str) _ (c_string-Ends k.str)
                  (λ s. register-Ends (t.isa_reg_str2val (drop 1 s) c.target) c))
                (if-Ends (k.type == tk_word) _ _ (go_on-Ends _ (push_num-Ends 0 c)) (
                  if-Ends (k.type == b'(') _ _ (go_on-Ends _ (push_op-Ends b'(' c)) (
                    if-Ends (k.type == b')') _ _ (go_on-Ends _ (close_bracket-Ends c.ops c)) (
                      if-Ends (k.type == b'*' || k.type == b'/') _ _
                        (go_on-Ends _ (take_product-Ends prev k.type c))
                        (if-Ends (k.type == b'-' || k.type == b'+') _ _
                          (go_on-Ends _ (take_sum-Ends k.type c)) tt)))))))

      take_tokens-Ends :
          (prev : Option ℕ) (ks : List Token) (c : Calc S)
          → Ends (take_tokens t atol strtol prev ks c)
      unfolding take_tokens
      take_tokens-Ends prev [] c = tt
      take_tokens-Ends prev (k ∷ ks) c =
          >>=-Ends (take_token t atol strtol prev k c) _ (take_token-Ends prev k c) (λ r.
            elim r
              as (λ x. Ends {A = Option (Calc S)} (elim x as (λ y. Outcome (Option (Calc S))) [
                | none ↦ ok none
                | some d ↦ take_tokens t atol strtol (some k.type) ks d
              ])) [ none ↦ tt | some d ↦ take_tokens-Ends (some k.type) ks d ])

      -- The evaluation of any tokens ends: the rounds given to its loops are enough.
      pub tokens_calculation-Ends :
          (ks : List Token) (s : S) → Ends (tokens_calculation t atol strtol ks s)
      unfolding tokens_calculation
      tokens_calculation-Ends ks s =
          >>=-Ends (take_tokens t atol strtol none ks _) _ (take_tokens-Ends none ks _)
            end_calculation-Ends
