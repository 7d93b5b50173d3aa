-- ===== src/Sdb/Eval.antt =====
-- src/monitor/sdb/expr.c: `calculate`, `is_not_num`, `tokens_calculation` and `expr`. A stack is a
-- list, the top first. `atol` and `strtol` of the C library are parameters, and so is what an
-- expression asks of the processor. `fault` is a failed assertion, an access outside a stack, or a
-- number of 32 characters, whose array has no NUL.
use gs_emu.Base.{
  ℕ, zero, suc, ◌+◌, ◌*◌, ◌/◌, Bool, true, false, ◌&&◌, ◌||◌, Option, none, some, List, [], ◌∷◌,
  ltb, ◌==◌, if◌then◌else◌, length, get_or, drop,
}
use gs_emu.Word.{u32, sub32}
use gs_emu.Sdb.Outcome.{Outcome, ok, fault, timeout, ◌>>=◌}
use gs_emu.Sdb.Token.{Token, make_token, tk_notype, tk_decimal, tk_hex, tk_reg, tk_word}

-- What `tokens_calculation` calls: `isa_reg_str2val`, where `none` is `*success = false`, and
-- `vaddr_read`, where `none` is a failed assertion.
pub record Target (S : Type 0) : Type 0 where
  pub isa_reg_str2val : List ℕ → S → Option ℕ
  pub vaddr_read : ℕ → ℕ → S → Option (ℕ × S)

unfoldable pub calculate : ℕ → ℕ → ℕ → Outcome ℕ
calculate c a b =
    if c == b'+'
    then ok (u32 (a + b))
    else (if c == b'-'
        then ok (sub32 a b)
        else (if c == b'*'
            then ok (u32 (a * b))
            else (if c == b'/' then (if b == 0 then fault else ok (a / b)) else ok 0)))

unfoldable pub is_not_num : ℕ → Bool
is_not_num t = t == b'+' || (t == b'-' || (t == b'*' || (t == b'/' || t == tk_notype)))

-- `op_stack[op_stack_top - 1]` is one of `*` and `/`.
abbrev pub is_product : ℕ → Bool
is_product o = o == b'*' || o == b'/'

-- The local variables of `tokens_calculation`, and the processor.
pub record Calc (S : Type 0) : Type 0 where
  pub nums : List ℕ
  pub ops : List ℕ
  pub result : ℕ
  pub target : S

-- The places of `num_stack` and `op_stack`.
abbrev pub stack_len : ℕ
stack_len = 32

-- A text in an array of 32 characters.
abbrev pub c_string : List ℕ → Outcome (List ℕ)
c_string s = if ltb (length s) 32 then ok s else fault

-- `num_stack[0]` is the number at the bottom.
abbrev pub bottom : List ℕ → Outcome ℕ
bottom [] = fault
bottom (a ∷ as') = ok (get_or (a ∷ as') (length as') 0)

module _ {S : Type 0} where
  -- `num_stack[num_stack_top++] = v`.
  unfoldable pub push_num : ℕ → Calc S → Outcome (Calc S)
  push_num v c =
      if ltb (length c.nums) stack_len then ok (record c { nums = v ∷ c.nums }) else fault

  -- `op_stack[op_stack_top++] = o`.
  unfoldable pub push_op : ℕ → Calc S → Outcome (Calc S)
  push_op o c = if ltb (length c.ops) stack_len then ok (record c { ops = o ∷ c.ops }) else fault

  -- `a` and `b` off the stack, `result = calculate(o, b, a)`, and the result on it.
  unfoldable pub apply_op : ℕ → Calc S → Outcome (Calc S)
  apply_op o c = elim c.nums [
    | [] ↦ fault
    | a ∷ t ↦ elim t [
      | [] ↦ fault
      | b ∷ rest ↦ calculate o b a >>= λ v. push_num v (record c { nums = rest; result = v })
    ]
  ]

  -- The `while` of `+` and `-`. Its test leaves no `#` for its first branch.
  unfoldable pub reduce_products : List ℕ → Calc S → Outcome (Calc S)
  reduce_products [] c = fault
  reduce_products (o ∷ ops) c = elim (is_product o) [
    | true ↦ apply_op o (record c { ops = ops }) >>= reduce_products ops
    | false ↦ ok (record c { ops = o ∷ ops })
  ]

  -- The labels `-` and `+`.
  unfoldable pub take_sum : ℕ → Calc S → Outcome (Calc S)
  take_sum type c = elim c.ops [
    | [] ↦ push_op type c
    | o ∷ _ ↦
        if o == b'(' || (o == b'+' || o == b'-') then push_op type c else reduce_products c.ops c
  ]

  -- `return num_stack[0]`.
  abbrev pub last_value : Calc S → Outcome (Option (ℕ × S))
  last_value d = bottom d.nums >>= λ v. ok (some (v, d.target))

  abbrev pub go_on : Outcome (Calc S) → Outcome (Option (Calc S))
  go_on m = m >>= λ c. ok (some c)

module _ {S : Type 0} (t : Target S) where
  -- `result = vaddr_read(num_stack[num_stack_top - 1], 4)`, which takes nothing off, and the push.
  unfoldable pub read_top : Calc S → Outcome (Calc S)
  read_top c = elim c.nums [
    | [] ↦ fault
    | a ∷ rest ↦ elim (t.vaddr_read a 4 c.target) [
      | none ↦ fault
      | some (v, s) ↦ push_num v (record c { result = v; target = s })
    ]
  ]

  -- The `while` of `)`: `op_stack[--op_stack_top]` is `o`, and the test for `#` reads the operator
  -- below it.
  unfoldable pub close_bracket : List ℕ → Calc S → Outcome (Calc S)
  close_bracket [] c = ok (record c { ops = [] })
  close_bracket (o ∷ ops) c = elim (o == b'(') [
    | true ↦ ok (record c { ops = ops })
    | false ↦
        elim ops [
          | [] ↦ fault
          | p ∷ below ↦ elim (p == b'#') [
            | true ↦ read_top (record c { ops = p ∷ below })
            | false ↦ apply_op o (record c { ops = p ∷ below })
          ]
        ]
        >>= close_bracket ops
  ]

  -- The `while` of `*` and `/`, where `#` stays on its stack.
  unfoldable pub reduce_tighter : ℕ → Calc S → Outcome (Calc S)
  reduce_tighter zero c = timeout
  reduce_tighter (suc fuel) c = elim c.ops [
    | [] ↦ fault
    | o ∷ ops ↦ elim (is_product o || o == b'#') [
      | false ↦ ok c
      | true ↦
          elim (o == b'#') [ true ↦ read_top c | false ↦ apply_op o (record c { ops = ops }) ]
          >>= reduce_tighter fuel
    ]
  ]

  -- Each round takes an operator off or puts a number on.
  abbrev pub tighter_fuel : Calc S → ℕ
  tighter_fuel c = 2 * length c.ops + 34

  -- The body of the last `while`, with an operator and a number there.
  unfoldable pub reduce_one : ℕ → List ℕ → Calc S → Outcome (Calc S)
  reduce_one o ops c = elim c.nums [
    | [] ↦ fault
    | a ∷ rest ↦ elim (o == b'#') [
      | true ↦ if a == 0 then fault else elim (t.vaddr_read a 4 c.target) [
        | none ↦ fault
        | some (v, s) ↦ push_num v (record { nums = rest; ops = ops; result = v; target = s })
      ]
      | false ↦ elim rest [ [] ↦ push_num c.result c | b ∷ _ ↦ apply_op o (record c { ops = ops }) ]
    ]
  ]

  unfoldable pub reduce_all : ℕ → Calc S → Outcome (Calc S)
  reduce_all zero c = timeout
  reduce_all (suc fuel) c = elim c.ops [
    | [] ↦ ok c
    | o ∷ ops ↦ elim c.nums [ [] ↦ ok c | a ∷ rest ↦ reduce_one o ops c >>= reduce_all fuel ]
  ]

  abbrev pub all_fuel : Calc S → ℕ
  all_fuel c = 2 * length c.ops + 2

  -- `if (op_stack_top>0) while ...`.
  abbrev pub reduce_before : Calc S → Outcome (Calc S)
  reduce_before c = elim c.ops [ [] ↦ ok c | _ ∷ _ ↦ reduce_tighter (tighter_fuel c) c ]

  -- The label `*` and what it falls into, the label `/`. The token before is `none` at the first.
  unfoldable pub take_product : Option ℕ → ℕ → Calc S → Outcome (Calc S)
  take_product prev type c =
      let dereference : Bool = elim prev [ none ↦ true | some p ↦ is_not_num p ] in
      if type == b'*' && dereference then push_op b'#' c else (reduce_before c >>= push_op type)

  -- The last `while` and what is returned.
  abbrev pub end_calculation : Option (Calc S) → Outcome (Option (ℕ × S))
  end_calculation none = ok none
  end_calculation (some c) = reduce_all (all_fuel c) c >>= last_value

  module _ (atol strtol : List ℕ → ℕ) where
    -- The `switch` on a token; `none` is `return -1` after `*success == false`.
    unfoldable pub take_token : Option ℕ → Token → Calc S → Outcome (Option (Calc S))
    take_token prev k c =
        if k.type == tk_decimal
        then go_on (c_string k.str >>= λ s. push_num (u32 (atol s)) c)
        else (if k.type == tk_hex
            then go_on (c_string k.str >>= λ s. push_num (u32 (strtol s)) c)
            else (if k.type == tk_reg
                then (c_string k.str >>= λ s. elim (t.isa_reg_str2val (drop 1 s) c.target) [
                  | none ↦ ok none
                  | some v ↦ go_on (push_num v c)
                ])
                else (if k.type == tk_word
                    then go_on (push_num 0 c)
                    else (if k.type == b'('
                        then go_on (push_op b'(' c)
                        else (if k.type == b')'
                            then go_on (close_bracket c.ops c)
                            else (if k.type == b'*' || k.type == b'/'
                                then go_on (take_product prev k.type c)
                                else (if k.type == b'-' || k.type == b'+'
                                    then go_on (take_sum k.type c)
                                    else ok (some c))))))))

    unfoldable pub take_tokens : Option ℕ → List Token → Calc S → Outcome (Option (Calc S))
    take_tokens prev [] c = ok (some c)
    take_tokens prev (k ∷ ks) c = take_token prev k c >>= λ r. elim r [
      | none ↦ ok none
      | some d ↦ take_tokens (some k.type) ks d
    ]

    -- `none` is `*success = false`.
    unfoldable pub tokens_calculation : List Token → S → Outcome (Option (ℕ × S))
    tokens_calculation ks s =
        take_tokens none ks (record { nums = []; ops = []; result = 0xffff_ffff; target = s })
        >>= end_calculation

    unfoldable pub expr : (List ℕ → List ℕ → Option (ℕ × ℕ)) → List ℕ → S → Outcome (Option (ℕ × S))
    expr regexec e s = make_token regexec e >>= λ r. elim r.0 [
      | false ↦ ok none
      | true ↦ tokens_calculation (r.1).tokens s
    ]
