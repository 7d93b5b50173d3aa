-- ===== src/Sdb/ExprLaws.antt =====
-- Single operators, their mixtures, and `expr` as a whole (src/monitor/sdb/expr.c).
use gs_emu.Base.{
  ℕ, ◌*◌, ◌<◌, ◌≡◌, ◌≢◌, refl, sym, subst, Bool, true, false, Option, none, some, List, [], ◌∷◌,
  lt→ltb, length, arith, ◌⊎◌, inl, inr,
}
use gs_emu.Word.{u32}
use gs_emu.Sdb.Outcome.{Outcome, ok, fault, timeout, ◌>>=◌, Ends, >>=-Ends}
use gs_emu.Sdb.Token.{Token, token, Lexer, make_token}
use gs_emu.Sdb.TokenStep.{IsRegexec, Balanced}
use gs_emu.Sdb.TokenLaws.{make_token-Balanced}
use gs_emu.Sdb.Eval.{
  Target, push_num, push_op, apply_op, calculate, take_sum, take_product, take_token, take_tokens,
  is_not_num, reduce_tighter, reduce_products, close_bracket, reduce_one, reduce_all,
  tokens_calculation, expr,
}
use gs_emu.Sdb.EvalEnds.{tokens_calculation-Ends}
use gs_emu.Sdb.ChainLaws.{number}

abbrev pub op_token : ℕ → Token
op_token o = token o (o ∷ [])

-- The four operators.
abbrev pub IsOperator : ℕ → Type 0
IsOperator o = (o ≡ b'+') ⊎ ((o ≡ b'-') ⊎ ((o ≡ b'*') ⊎ (o ≡ b'/')))

module _ {S : Type 0} (t : Target S) (atol strtol : List ℕ → ℕ) where
  -- Two numbers with an operator between them give what `calculate` gives, a division by 0
  -- included, when each number is shorter than 32 characters.
  pub tokens_calculation-calculate :
      (a b : List ℕ) (o : ℕ) (s : S)
      → IsOperator o
      → length a < 32
      → length b < 32
      → tokens_calculation t atol strtol (number a ∷ (op_token o ∷ (number b ∷ []))) s
        ≡ (calculate o (u32 (atol a)) (u32 (atol b)) >>= λ v. ok (some (v, s)))
  unfolding tokens_calculation take_tokens take_token push_num push_op take_sum take_product
      reduce_all reduce_one apply_op is_not_num calculate reduce_tighter reduce_products
  tokens_calculation-calculate a b o s h f g =
      let x = lt→ltb _ _ f in
      let y = lt→ltb _ _ g in
      let at_operator = λ (p : ℕ) (e : o ≡ p) (g : Binary p). subst Binary (sym e) g in
      elim h [
        | inl e ↦ at_operator b'+' e (rw (x, y) refl)
        | inr r ↦ elim r [
          | inl e ↦ at_operator b'-' e (rw (x, y) refl)
          | inr q ↦ elim q [
            | inl e ↦ at_operator b'*' e (rw (x, y) refl)
            | inr e ↦ at_operator b'/' e (rw (x, y) (ground arith))
          ]
        ]
      ]
    where
      Binary : ℕ → Type 0
      Binary p =
          tokens_calculation t atol strtol (number a ∷ (op_token p ∷ (number b ∷ []))) s
          ≡ (calculate p (u32 (atol a)) (u32 (atol b)) >>= λ v. ok (some (v, s)))

  -- A `*` at the start reads the word at the number behind it, when that number is not 0 and
  -- shorter than 32 characters and the read succeeds.
  pub tokens_calculation-vaddr_read :
      (a : List ℕ) (v : ℕ) (s s' : S)
      → length a < 32
      → u32 (atol a) ≢ 0
      → t.vaddr_read (u32 (atol a)) 4 s ≡ some (v, s')
      → tokens_calculation t atol strtol (op_token b'*' ∷ (number a ∷ [])) s ≡ ok (some (v, s'))
  unfolding tokens_calculation take_tokens take_token push_num push_op take_product reduce_all
      reduce_one
  tokens_calculation-vaddr_read a v s s' f n e = rw (lt→ltb _ _ f) (ground arith)

  -- In brackets a sum after a product is lost: (a * b + c) gives a * b, whatever c is, when each
  -- number is shorter than 32 characters.
  pub tokens_calculation-lost_sum :
      (a b c : List ℕ) (s : S)
      → length a < 32
      → length b < 32
      → length c < 32
      → tokens_calculation t atol strtol
          (op_token b'('
            ∷ (number a
                ∷ (op_token b'*'
                    ∷ (number b ∷ (op_token b'+' ∷ (number c ∷ (op_token b')' ∷ [])))))))
          s
        ≡ ok (some (u32 (u32 (atol a) * u32 (atol b)), s))
  unfolding tokens_calculation take_tokens take_token push_num push_op take_sum take_product
      reduce_all reduce_one apply_op is_not_num calculate reduce_products close_bracket
      reduce_tighter
  tokens_calculation-lost_sum a b c s f g h = rw (lt→ltb _ _ f, lt→ltb _ _ g, lt→ltb _ _ h) refl

  -- Three numbers with `*` or `/` between them, outside brackets, always fail, the first two
  -- numbers shorter than 32 characters: the routine divides by 0 or reads the place before its
  -- operators.
  pub tokens_calculation-fault :
      (a b c : List ℕ) (o p : ℕ) (s : S)
      → (o ≡ b'*') ⊎ (o ≡ b'/')
      → (p ≡ b'*') ⊎ (p ≡ b'/')
      → length a < 32
      → length b < 32
      → tokens_calculation t atol strtol
          (number a ∷ (op_token o ∷ (number b ∷ (op_token p ∷ (number c ∷ [])))))
          s
        ≡ fault
  unfolding tokens_calculation take_tokens take_token push_num push_op take_product apply_op
      is_not_num reduce_tighter calculate
  tokens_calculation-fault a b c o p s ho hp f g =
      let x = lt→ltb _ _ f in
      let y = lt→ltb _ _ g in
      let at_operators = λ (u v : ℕ) (d : o ≡ u) (e : p ≡ v) (g : Ternary u v).
        subst (λ n. Ternary n p) (sym d) (subst (λ n. Ternary u n) (sym e) g) in
      elim ho [
        | inl d ↦ elim hp [
          | inl e ↦ at_operators b'*' b'*' d e (rw (x, y) refl)
          | inr e ↦ at_operators b'*' b'/' d e (rw (x, y) refl)
        ]
        | inr d ↦ elim hp [
          | inl e ↦ at_operators b'/' b'*' d e (rw (x, y) (ground arith))
          | inr e ↦ at_operators b'/' b'/' d e (rw (x, y) (ground arith))
        ]
      ]
    where
      Ternary : ℕ → ℕ → Type 0
      Ternary u v =
          tokens_calculation t atol strtol
            (number a ∷ (op_token u ∷ (number b ∷ (op_token v ∷ (number c ∷ []))))) s
          ≡ fault

  -- The evaluation of every text ends, when each match lies within the text and no pattern
  -- matches the empty text: the rounds given to the loops of both stages are enough.
  pub expr-Ends :
      (regexec : List ℕ → List ℕ → Option (ℕ × ℕ)) (e : List ℕ) (s : S)
      → IsRegexec regexec
      → Ends (expr t atol strtol regexec e s)
  unfolding expr
  expr-Ends regexec e s h =
      >>=-Ends (make_token regexec e) _
        (Balanced-Ends (make_token regexec e) (make_token-Balanced regexec h e)) after
    where
      Balanced-Ends : (o : Outcome (Bool × Lexer)) → Balanced o → Ends o
      Balanced-Ends (ok r) b = tt
      Balanced-Ends fault b = tt
      Balanced-Ends timeout b = b

      after :
          (r : Bool × Lexer)
          → Ends {A = Option (ℕ × S)} (elim r.0 as (λ x. Outcome (Option (ℕ × S))) [
            | false ↦ ok none
            | true ↦ tokens_calculation t atol strtol (r.1).tokens s
          ])
      after (true, l) = tokens_calculation-Ends t atol strtol l.tokens s
      after (false, l) = tt
