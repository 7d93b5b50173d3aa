-- ===== src/Sdb/EvalKeeps.antt =====
-- What the stacks of `tokens_calculation` (src/monitor/sdb/expr.c) keep of the processor when a read of
-- memory keeps it.
use gs_emu.Base.{
  ℕ, zero, suc, ◌≡◌, ◌||◌, Option, none, some, List, [], ◌∷◌, ◌==◌, Option-cases, Bool-cases, inl,
  inr, arith,
}
use gs_emu.Sdb.Outcome.{Outcome, When, >>=-When, >>=-When_any}
use gs_emu.Sdb.Eval.{
  Target, Calc, calculate, push_num, push_op, apply_op, reduce_products, take_sum, read_top,
  close_bracket, reduce_tighter, reduce_one, reduce_all, reduce_before, take_product, last_value,
  bottom, go_on, end_calculation,
}

module _ {S : Type 0} (P : S → Type 0) where
  abbrev pub Has : Calc S → Type 0
  Has c = P c.target

  abbrev pub HasSome : Option (Calc S) → Type 0
  HasSome none = Unit {0}
  HasSome (some c) = Has c

  abbrev pub Gives : Option (ℕ × S) → Type 0
  Gives none = Unit {0}
  Gives (some (v, s)) = P s

  pub push_num-keeps : (v : ℕ) (c : Calc S) → Has c → When Has (push_num v c)
  unfolding push_num
  push_num-keeps v c h = ground arith

  pub push_op-keeps : (o : ℕ) (c : Calc S) → Has c → When Has (push_op o c)
  unfolding push_op
  push_op-keeps o c h = ground arith

  apply_op-keeps :
      (o : ℕ) (nums ops : List ℕ) (r : ℕ) (s : S)
      → P s
      → When Has (apply_op o (record { nums = nums; ops = ops; result = r; target = s }))
  unfolding apply_op
  apply_op-keeps o [] ops r s h = tt
  apply_op-keeps o (a ∷ []) ops r s h = tt
  apply_op-keeps o (a ∷ (b ∷ rest)) ops r s h =
      >>=-When_any Has (calculate o b a) _ (λ v. push_num-keeps v _ h)

  apply_op-Keeps : (o : ℕ) (c : Calc S) → Has c → When Has (apply_op o c)
  apply_op-Keeps o c h = apply_op-keeps o c.nums c.ops c.result c.target h

  reduce_products-keeps : (ops : List ℕ) (c : Calc S) → Has c → When Has (reduce_products ops c)
  unfolding reduce_products
  reduce_products-keeps [] c h = tt
  reduce_products-keeps (o ∷ ops) c h = elim (Bool-cases (o == b'*' || o == b'/')) [
    | inl p ↦
        rw (reduce_products, p)
          (>>=-When Has Has (apply_op o (record c { ops = ops })) _
            (apply_op-Keeps o (record c { ops = ops }) h) (λ d k. reduce_products-keeps ops d k))
    | inr p ↦ rw (reduce_products, p) h
  ]

  pub take_sum-keeps :
      (type : ℕ) (nums ops : List ℕ) (r : ℕ) (s : S)
      → P s
      → When Has (take_sum type (record { nums = nums; ops = ops; result = r; target = s }))
  unfolding take_sum
  take_sum-keeps type nums [] r s h = push_op-keeps type _ h
  take_sum-keeps type nums (o ∷ ops) r s h =
      elim (Bool-cases (o == b'(' || (o == b'+' || o == b'-'))) [
        | inl p ↦ rw (take_sum, p) (push_op-keeps type _ h)
        | inr p ↦ rw (take_sum, p) (reduce_products-keeps (o ∷ ops) _ h)
      ]

  last_value-keeps : (d : Calc S) → Has d → When Gives (last_value d)
  last_value-keeps d h = >>=-When_any Gives (bottom d.nums) _ (λ v. h)

  pub go_on-keeps : (m : Outcome (Calc S)) → When Has m → When HasSome (go_on m)
  go_on-keeps m h = >>=-When Has HasSome m _ h (λ c k. k)

module _ {S : Type 0} (P : S → Type 0) (t : Target S)
    (reads : (a n v : ℕ) (s u : S) → P s → t.vaddr_read a n s ≡ some (v, u) → P u) where
  read_top-keeps :
      (nums ops : List ℕ) (r : ℕ) (s : S)
      → P s
      → When (Has P) (read_top t (record { nums = nums; ops = ops; result = r; target = s }))
  unfolding read_top
  read_top-keeps [] ops r s h = tt
  read_top-keeps (a ∷ rest) ops r s h = elim (Option-cases (t.vaddr_read a 4 s)) [
    | inl bad ↦ rw (read_top, bad) tt
    | inr ((v, u), good) ↦ rw (read_top, good) (push_num-keeps P v _ (reads a 4 v s u h good))
  ]

  read_top-Keeps : (c : Calc S) → Has P c → When (Has P) (read_top t c)
  read_top-Keeps c h = read_top-keeps c.nums c.ops c.result c.target h

  pub close_bracket-keeps :
      (ops : List ℕ) (c : Calc S) → Has P c → When (Has P) (close_bracket t ops c)
  unfolding close_bracket
  close_bracket-keeps [] c h = h
  close_bracket-keeps (o ∷ []) c h = elim (Bool-cases (o == b'(')) [
    | inl p ↦ rw (close_bracket, p) h
    | inr p ↦ rw (close_bracket, p) tt
  ]
  close_bracket-keeps (o ∷ (p ∷ below)) c h = elim (Bool-cases (o == b'(')) [
    | inl e ↦ rw (close_bracket, e) h
    | inr e ↦ elim (Bool-cases (p == b'#')) [
      | inl f ↦
          rw (close_bracket, e, f)
            (>>=-When (Has P) (Has P) (read_top t (record c { ops = p ∷ below })) _
              (read_top-Keeps (record c { ops = p ∷ below }) h)
              (λ d k. close_bracket-keeps (p ∷ below) d k))
      | inr f ↦
          rw (close_bracket, e, f)
            (>>=-When (Has P) (Has P) (apply_op o (record c { ops = p ∷ below })) _
              (apply_op-Keeps P o (record c { ops = p ∷ below }) h)
              (λ d k. close_bracket-keeps (p ∷ below) d k))
    ]
  ]

  reduce_tighter-keeps :
      (fuel : ℕ) (nums ops : List ℕ) (r : ℕ) (s : S)
      → P s
      → When
          (Has P)
          (reduce_tighter t fuel (record { nums = nums; ops = ops; result = r; target = s }))
  unfolding reduce_tighter
  reduce_tighter-keeps zero nums ops r s h = tt
  reduce_tighter-keeps (suc fuel) nums [] r s h = tt
  reduce_tighter-keeps (suc fuel) nums (o ∷ ops) r s h =
      let c : Calc S = record { nums = nums; ops = o ∷ ops; result = r; target = s } in
      let again = λ (d : Calc S) (k : P d.target).
        reduce_tighter-keeps fuel d.nums d.ops d.result d.target k in
      elim (Bool-cases ((o == b'*' || o == b'/') || o == b'#')) [
        | inr p ↦ rw (reduce_tighter, p) h
        | inl p ↦ elim (Bool-cases (o == b'#')) [
          | inl q ↦
              rw (reduce_tighter, p, q)
                (>>=-When (Has P) (Has P) (read_top t c) _ (read_top-Keeps c h) again)
          | inr q ↦
              rw (reduce_tighter, p, q)
                (>>=-When (Has P) (Has P) (apply_op o (record c { ops = ops })) _
                  (apply_op-Keeps P o (record c { ops = ops }) h) again)
        ]
      ]

  reduce_before-keeps :
      (nums ops : List ℕ) (r : ℕ) (s : S)
      → P s
      → When (Has P) (reduce_before t (record { nums = nums; ops = ops; result = r; target = s }))
  reduce_before-keeps nums [] r s h = h
  reduce_before-keeps nums (o ∷ ops) r s h = reduce_tighter-keeps _ nums (o ∷ ops) r s h

  pub take_product-keeps :
      (prev : Option ℕ) (type : ℕ) (c : Calc S)
      → Has P c
      → When (Has P) (take_product t prev type c)
  unfolding take_product
  take_product-keeps prev type c h =
      let before =
        >>=-When (Has P) (Has P) (reduce_before t c) (push_op type)
          (reduce_before-keeps c.nums c.ops c.result c.target h)
          (λ d k. push_op-keeps P type d k) in
      let dereference = push_op-keeps P b'#' c h in ground (arith, before, dereference)

  reduce_one-keeps :
      (o : ℕ) (nums ops : List ℕ) (r : ℕ) (s : S)
      → P s
      → When
          (Has P)
          (reduce_one t o ops (record { nums = nums; ops = o ∷ ops; result = r; target = s }))
  unfolding reduce_one
  reduce_one-keeps o [] ops r s h = tt
  reduce_one-keeps o (a ∷ rest) ops r s h = elim (Bool-cases (o == b'#')) [
    | inl p ↦ elim (Bool-cases (a == 0)) [
      | inl z ↦ rw (reduce_one, p, z) tt
      | inr z ↦ elim (Option-cases (t.vaddr_read a 4 s)) [
        | inl bad ↦ rw (reduce_one, p, z, bad) tt
        | inr ((v, u), good) ↦
            rw (reduce_one, p, z, good) (push_num-keeps P v _ (reads a 4 v s u h good))
      ]
    ]
    | inr p ↦ rw (reduce_one, p) (others (a ∷ rest) rest)
  ]
    where
      others :
          (all rest : List ℕ)
          → When (Has P) (elim rest [
            | [] ↦ push_num r (record { nums = all; ops = o ∷ ops; result = r; target = s })
            | b ∷ _ ↦ apply_op o (record { nums = all; ops = ops; result = r; target = s })
          ])
      others all [] = push_num-keeps P r _ h
      others all (b ∷ bs) = apply_op-Keeps P o _ h

  reduce_all-keeps :
      (fuel : ℕ) (nums ops : List ℕ) (r : ℕ) (s : S)
      → P s
      → When (Has P) (reduce_all t fuel (record { nums = nums; ops = ops; result = r; target = s }))
  unfolding reduce_all
  reduce_all-keeps zero nums ops r s h = tt
  reduce_all-keeps (suc fuel) nums [] r s h = h
  reduce_all-keeps (suc fuel) [] (o ∷ ops) r s h = h
  reduce_all-keeps (suc fuel) (a ∷ rest) (o ∷ ops) r s h =
      >>=-When (Has P) (Has P) (reduce_one t o ops _) _ (reduce_one-keeps o (a ∷ rest) ops r s h)
        (λ d k. reduce_all-keeps fuel d.nums d.ops d.result d.target k)

  pub end_calculation-keeps :
      (c : Option (Calc S)) → HasSome P c → When (Gives P) (end_calculation t c)
  end_calculation-keeps none h = tt
  end_calculation-keeps (some c) h =
      >>=-When (Has P) (Gives P) (reduce_all t _ c) _
        (reduce_all-keeps _ c.nums c.ops c.result c.target h) (λ d k. last_value-keeps P d k)
