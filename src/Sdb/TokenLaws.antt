-- ===== src/Sdb/TokenLaws.antt =====
-- `make_token` of src/monitor/sdb/expr.c: it ends, stays in its arrays on short texts, and lets
-- through only balanced brackets and at most 32 tokens.
use gs_emu.Base.{
  ℕ, zero, suc, ◌+◌, ◌≤◌, ◌<◌, ◌≡◌, refl, Bool, true, false, Option, none, some, List, [], ◌∷◌,
  ◌==◌, length, take, drop, arith, sym, subst, Option-cases, inl, inr, length-take, length-drop,
  Bool-cases,
}
use gs_emu.Sdb.Outcome.{Outcome, ok, ◌>>=◌, >>=-Then}
use gs_emu.Sdb.Token.{
  Rule, rules, Lexer, new_lexer, lex_match, first_match, make_token_loop, make_token,
}
use gs_emu.Sdb.TokenStep.{
  NeedsText, IsRegexec, IsLexed, Step, Kept-Then, lex_match-Kept, Safe, Safe-Then, Balanced,
  lex_match-Safe,
}

module _ (regexec : List ℕ → List ℕ → Option (ℕ × ℕ)) (h : IsRegexec regexec) where
  first_match_bounds :
      (rs : List Rule) (e : List ℕ) {n t : ℕ}
      → NeedsText regexec rs
      → first_match regexec rs e ≡ some (n, t)
      → (0 < n) × (n ≤ length e)
  unfolding first_match
  first_match_bounds [] e p eq = cc
  first_match_bounds (r ∷ rs) e {n = n} {t = t} p eq = elim (Option-cases (regexec r.regex e)) [
    | inl bad ↦ first_match_bounds rs e p.1 (rw (first_match, bad) at eq)
    | inr ((so, eo), good) ↦
        let b = h.within r.regex e so eo good in
        let l = p.0 e so eo good in
        elim (Bool-cases (so == 0)) [
          | inl start ↦
              let same : ◌≡◌ {A = Option (ℕ × ℕ)} (some (eo, r.token_type)) (some (n, t)) =
                rw (first_match, good, start) at eq in
              let len : eo ≡ n = cc in omega arith
          | inr later ↦ first_match_bounds rs e p.1 (rw (first_match, good, later) at eq)
        ]
  ]

  -- One round of the `while`.
  abbrev next : ℕ → ℕ → List ℕ → Bool × Lexer → Outcome (Bool × Lexer)
  next fuel n e r = elim r.0 [
    | true ↦ make_token_loop regexec fuel (drop n e) r.1
    | false ↦ ok (false, r.1)
  ]

  loop_round :
      (Q : Outcome (Bool × Lexer) → Type 0) (fuel c : ℕ) (cs : List ℕ) (l : Lexer)
      → ((k : Lexer) → Q (ok (false, k)))
      → ((n t : ℕ)
          → 0 < n
          → n ≤ length (c ∷ cs)
          → Q (lex_match t (take n (c ∷ cs)) l >>= next fuel n (c ∷ cs)))
      → Q (make_token_loop regexec (suc fuel) (c ∷ cs) l)
  unfolding make_token_loop
  loop_round Q fuel c cs l no_match match' =
      elim (Option-cases (first_match regexec rules (c ∷ cs))) [
        | inl bad ↦ subst Q (sym (stopped bad)) (no_match l)
        | inr ((n, t), good) ↦
            let m = first_match_bounds rules (c ∷ cs) h.longer good in
            subst Q (sym (matched n t good)) (match' n t m.0 m.1)
      ]
    where
      stopped :
          first_match regexec rules (c ∷ cs) ≡ none
          → make_token_loop regexec (suc fuel) (c ∷ cs) l ≡ ok (false, l)
      stopped e = rw (make_token_loop, e) refl

      matched :
          (n t : ℕ)
          → first_match regexec rules (c ∷ cs) ≡ some (n, t)
          → make_token_loop regexec (suc fuel) (c ∷ cs) l
            ≡ (lex_match t (take n (c ∷ cs)) l >>= next fuel n (c ∷ cs))
      matched n t e = rw (make_token_loop, e) refl

  loop-Balanced :
      (fuel : ℕ) (e : List ℕ) (l : Lexer)
      → length e ≤ fuel
      → IsLexed l
      → Balanced (make_token_loop regexec fuel e l)
  unfolding make_token_loop
  loop-Balanced fuel [] l b k = elim (Bool-cases (l.stack_top == 0)) [
    | inl z ↦ let at_zero : l.stack_top ≡ 0 = ground arith in rw z (k.few, rw at_zero at k.nested)
    | inr z ↦ rw z tt
  ]
  loop-Balanced zero (c ∷ cs) l b k = absurd (omega arith)
  loop-Balanced (suc fuel) (c ∷ cs) l b k =
      loop_round Balanced fuel c cs l (λ m. tt)
        (λ n t p q.
          >>=-Then (Step l) Balanced (lex_match t (take n (c ∷ cs)) l) (next fuel n (c ∷ cs))
            (Kept-Then l Balanced _ (lex_match-Kept t (take n (c ∷ cs)) l k) tt)
            (after n p (loop-Balanced fuel)))
    where
      after :
          (n : ℕ)
          → 0 < n
          → ((e : List ℕ) (m : Lexer)
              → length e ≤ fuel
              → IsLexed m
              → Balanced (make_token_loop regexec fuel e m))
          → (r : Bool × Lexer) → Step l r
          → Balanced (next fuel n (c ∷ cs) r)
      after n p ih (true, m) s = ih (drop n (c ∷ cs)) m (omega (arith, length-drop n (c ∷ cs))) s.0
      after n p ih (false, m) s = tt

  -- When each match lies within the text and no pattern of the table matches the empty text,
  -- `make_token` ends on every text, and the tokens that it lets through are at most 32 and have
  -- all their brackets closed, none before it is opened.
  pub make_token-Balanced : (e : List ℕ) → Balanced (make_token regexec e)
  unfolding make_token
  make_token-Balanced e =
      loop-Balanced (length e) e new_lexer (omega arith)
        (record { few = omega arith; nested = refl })

  loop-Safe :
      (fuel : ℕ) (e : List ℕ) (l : Lexer)
      → length e ≤ fuel
      → l.stack_top + length e ≤ 32
      → IsLexed l
      → Safe (make_token_loop regexec fuel e l)
  unfolding make_token_loop
  loop-Safe fuel [] l b w k = tt
  loop-Safe zero (c ∷ cs) l b w k = absurd (omega arith)
  loop-Safe (suc fuel) (c ∷ cs) l b w k =
      loop_round Safe fuel c cs l (λ m. tt)
        (λ n t p q.
          let short : length (take n (c ∷ cs)) ≤ 32 = omega (arith, length-take n (c ∷ cs)) in
          >>=-Then (Step l) Safe (lex_match t (take n (c ∷ cs)) l) (next fuel n (c ∷ cs))
            (Safe-Then l (lex_match t (take n (c ∷ cs)) l) (lex_match-Kept t (take n (c ∷ cs)) l k)
              (lex_match-Safe t (take n (c ∷ cs)) l (omega arith) short))
            (after n p (loop-Safe fuel)))
    where
      after :
          (n : ℕ)
          → 0 < n
          → ((e : List ℕ) (m : Lexer)
              → length e ≤ fuel
              → m.stack_top + length e ≤ 32
              → IsLexed m
              → Safe (make_token_loop regexec fuel e m))
          → (r : Bool × Lexer) → Step l r
          → Safe (next fuel n (c ∷ cs) r)
      after n p ih (true, m) s =
          let shorter = length-drop n (c ∷ cs) in
          let higher = s.1 in ih (drop n (c ∷ cs)) m (omega arith) (omega arith) s.0
      after n p ih (false, m) s = tt

  -- On a text of at most 32 characters `make_token` ends without leaving its arrays, when each
  -- match lies within the text and no pattern of the table matches the empty text.
  pub make_token-Safe : (e : List ℕ) → length e ≤ 32 → Safe (make_token regexec e)
  unfolding make_token
  make_token-Safe e b =
      loop-Safe (length e) e new_lexer (omega arith) (omega arith)
        (record { few = omega arith; nested = refl })
