-- ===== src/Sdb/ExprKeeps.antt =====
-- What the evaluation of an expression (src/monitor/sdb/expr.c) keeps of the processor when a read of
-- memory keeps it.
use gs_emu.Base.{
  ℕ, ◌≡◌, Option, none, some, List, [], ◌∷◌, drop, Option-cases, Bool-cases, inl, inr, arith,
}
use gs_emu.Word.{u32}
use gs_emu.Sdb.Outcome.{ok, ◌>>=◌, When, >>=-When, >>=-When_any}
use gs_emu.Sdb.Token.{Token, make_token}
use gs_emu.Sdb.Eval.{
  Target, Calc, push_num, c_string, go_on, take_token, take_tokens, tokens_calculation, expr,
}
use gs_emu.Sdb.EvalKeeps.{
  Has, HasSome, Gives, push_num-keeps, push_op-keeps, go_on-keeps, take_sum-keeps,
  close_bracket-keeps, take_product-keeps, end_calculation-keeps,
}

module _ {S : Type 0} (P : S → Type 0) (t : Target S)
    (reads : (a n v : ℕ) (s u : S) → P s → t.vaddr_read a n s ≡ some (v, u) → P u) where
  module _ (atol strtol : List ℕ → ℕ) where
    take_reg-keeps :
        (k : Token) (c : Calc S)
        → Has P c
        → When (HasSome P) (
            c_string k.str >>= λ s. elim (t.isa_reg_str2val (drop 1 s) c.target) [
              | none ↦ ok none
              | some v ↦ go_on (push_num v c)
            ])
    take_reg-keeps k c h = >>=-When_any (HasSome P) (c_string k.str) _ λ s.
        elim (Option-cases (t.isa_reg_str2val (drop 1 s) c.target)) [
          | inl bad ↦ rw bad tt
          | inr (v, good) ↦ rw good (go_on-keeps P (push_num v c) (push_num-keeps P v c h))
        ]

    take_num-keeps :
        (k : Token) (c : Calc S) (value : List ℕ → ℕ)
        → Has P c
        → When (HasSome P) (go_on (c_string k.str >>= λ s. push_num (u32 (value s)) c))
    take_num-keeps k c value h =
        go_on-keeps P (c_string k.str >>= λ s. push_num (u32 (value s)) c)
          (>>=-When_any (Has P) (c_string k.str) _ (λ s. push_num-keeps P _ c h))

    take_token-keeps :
        (prev : Option ℕ) (k : Token) (c : Calc S)
        → Has P c
        → When (HasSome P) (take_token t atol strtol prev k c)
    unfolding take_token
    take_token-keeps prev k c h =
        let decimal = take_num-keeps k c atol h in
        let hex = take_num-keeps k c strtol h in
        let reg = take_reg-keeps k c h in
        let word = go_on-keeps P _ (push_num-keeps P 0 c h) in
        let opened = go_on-keeps P _ (push_op-keeps P b'(' c h) in
        let closed = go_on-keeps P _ (close_bracket-keeps P t reads c.ops c h) in
        let product = go_on-keeps P _ (take_product-keeps P t reads prev k.type c h) in
        let sum = go_on-keeps P _ (take_sum-keeps P k.type c.nums c.ops c.result c.target h) in
        ground (arith, decimal, hex, reg, word, opened, closed, product, sum)

    take_tokens-keeps :
        (ks : List Token) (prev : Option ℕ) (c : Calc S)
        → Has P c
        → When (HasSome P) (take_tokens t atol strtol prev ks c)
    unfolding take_tokens
    take_tokens-keeps [] prev c h = h
    take_tokens-keeps (k ∷ ks) prev c h =
        >>=-When (HasSome P) (HasSome P) (take_token t atol strtol prev k c) _
          (take_token-keeps prev k c h) (next (λ d. take_tokens-keeps ks (some k.type) d))
      where
        next :
            ((d : Calc S)
              → Has P d
              → When (HasSome P) (take_tokens t atol strtol (some k.type) ks d))
            → (r : Option (Calc S)) → HasSome P r
            → When
                (HasSome P)
                (elim r [ none ↦ ok none | some d ↦ take_tokens t atol strtol (some k.type) ks d ])
        next rest none h = tt
        next rest (some d) h = rest d h

    tokens_calculation-keeps :
        (ks : List Token) (s : S) → P s → When (Gives P) (tokens_calculation t atol strtol ks s)
    unfolding tokens_calculation
    tokens_calculation-keeps ks s h =
        >>=-When (HasSome P) (Gives P) (take_tokens t atol strtol none ks _) _
          (take_tokens-keeps ks none _ h) (end_calculation-keeps P t reads)

    pub expr-keeps :
        (regexec : List ℕ → List ℕ → Option (ℕ × ℕ)) (e : List ℕ) (s : S)
        → P s
        → When (Gives P) (expr t atol strtol regexec e s)
    unfolding expr
    expr-keeps regexec e s h = >>=-When_any (Gives P) (make_token regexec e) _ λ r.
        elim (Bool-cases r.0) [
          | inl good ↦ rw good (tokens_calculation-keeps (r.1).tokens s h)
          | inr bad ↦ rw bad tt
        ]
