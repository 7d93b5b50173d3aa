-- ===== src/Sdb/TokenStep.antt =====
-- One match of `make_token` of src/monitor/sdb/expr.c: what it keeps, and when it stays in the
-- arrays.
use gs_emu.Base.{
  ℕ, ◌+◌, ◌-◌, ◌≤◌, ◌<◌, ◌≡◌, refl, ◌∙◌, Bool, true, false, Option, none, some, List, [], ◌∷◌, ◌++◌,
  ltb, ◌==◌, if◌then◌else◌, length, get_or, arith, Option-cases, inl, inr, length-append,
  Bool-cases,
}
use gs_emu.Sdb.Outcome.{Outcome, ok, fault, timeout, Then}
use gs_emu.Sdb.Token.{Rule, rules, Token, token, Lexer, is_stored, store_token, lex_match}

module _ (regexec : List ℕ → List ℕ → Option (ℕ × ℕ)) where
  -- No pattern of the table matches the empty text.
  abbrev pub NeedsText : List Rule → Type 0
  NeedsText [] = Unit {0}
  NeedsText (r ∷ rs) =
      ((e : List ℕ) (so eo : ℕ) → regexec r.regex e ≡ some (so, eo) → so < eo) × NeedsText rs

  -- What the rules rely on; a match ends within the text.
  pub record IsRegexec : Type 0 where
    pub within : (r e : List ℕ) (so eo : ℕ) → regexec r e ≡ some (so, eo) → eo ≤ length e
    pub longer : NeedsText rules

-- The brackets open after one more token, and after a list of them; `none` is one too many closed.
unfoldable pub nest : ℕ → ℕ → Option ℕ
nest d t =
    if t == b'('
    then some (d + 1)
    else (if t == b')' then (if d == 0 then none else some (d - 1)) else some d)

abbrev pub nesting : ℕ → List Token → Option ℕ
nesting d [] = some d
nesting d (t ∷ ts) = elim (nest d t.type) [ none ↦ none | some k ↦ nesting k ts ]

nesting-snoc :
    (d : ℕ) (ts : List Token) (t : Token) {k : ℕ}
    → nesting d ts ≡ some k
    → nesting d (ts ++ t ∷ []) ≡ nest k t.type
nesting-snoc d [] t h = ground (arith, Option-cases (nest d t.type))
nesting-snoc d (u ∷ ts) t h = elim (Option-cases (nest d u.type)) [
  | inl e ↦ absurd (ground (arith, e))
  | inr (m, e) ↦ rw (nesting, e) (nesting-snoc m ts t (rw (nesting, e) at h))
]

-- The invariant of the loop.
pub record IsLexed (l : Lexer) : Type 0 where
  pub few : length l.tokens ≤ 32
  pub nested : nesting 0 l.tokens ≡ some l.stack_top

abbrev pub Step : Lexer → Bool × Lexer → Type 0
Step l (true, k) = IsLexed k × (k.stack_top ≤ l.stack_top + 1)
Step l (false, k) = Unit {0}

abbrev pub Kept : Lexer → Outcome (Bool × Lexer) → Type 0
Kept l (ok r) = Step l r
Kept l fault = Unit {0}
Kept l timeout = ⊥

pub Kept-Then :
    (l : Lexer) (Q : Outcome (Bool × Lexer) → Type 0) (o : Outcome (Bool × Lexer))
    → Kept l o
    → Q fault
    → Then (Step l) Q o
Kept-Then l Q (ok r) h q = h
Kept-Then l Q fault h q = q
Kept-Then l Q timeout h q = absurd h

-- Storing a token that leaves `k` brackets open.
store_token-Kept :
    (t : ℕ) (s : List ℕ) (l m : Lexer)
    → IsLexed l
    → m.tokens ≡ l.tokens
    → nest l.stack_top t ≡ some m.stack_top
    → m.stack_top ≤ l.stack_top + 1
    → Kept l (store_token t s m)
unfolding store_token
store_token-Kept t s l m h e n b =
    let whole : nesting 0 (m.tokens ++ token t s ∷ []) ≡ some m.stack_top =
      rw e (nesting-snoc 0 l.tokens (token t s) h.nested ∙ n) in
    let f = h.few in
    elim (Bool-cases (ltb (length m.tokens) 32)) [
      | inl room ↦ elim (Bool-cases (ltb 32 (length s))) [
        | inl long ↦ rw (room, long) tt
        | inr short ↦
            rw (room, short)
              (
                record {
                  few = rw (length-append m.tokens (token t s ∷ [])) (ground arith);
                  nested = whole;
                },
                b,
              )
      ]
      | inr full ↦ rw full tt
    ]

pub lex_match-Kept : (t : ℕ) (s : List ℕ) (l : Lexer) → IsLexed l → Kept l (lex_match t s l)
unfolding lex_match nest
lex_match-Kept t s l h = elim (Bool-cases (t == b')')) [
  | inl closing ↦ elim (Bool-cases (l.stack_top == 0)) [
    | inl zero' ↦ rw (closing, zero') tt
    | inr more ↦ elim (Bool-cases (get_or l.bracket_stack (l.stack_top - 1) 0 == b'(')) [
      | inr other ↦ rw (closing, more, other) tt
      | inl open' ↦ elim (Bool-cases (ltb l.stack_top 32)) [
        | inr full ↦ rw (closing, more, open', full) tt
        | inl room ↦
            rw (closing, more, open', room)
              (store_token-Kept t s l _ h refl (ground arith) (omega arith))
      ]
    ]
  ]
  | inr e ↦ rw e (elim (Bool-cases (t == b'(')) [
    | inl opening ↦ rw opening (elim (Bool-cases (ltb l.stack_top 32)) [
      | inl room ↦ rw room (store_token-Kept t s l _ h refl (ground arith) (ground arith))
      | inr full ↦ rw full tt
    ])
    | inr f ↦ rw f (elim (Bool-cases (is_stored t)) [
      | inl stored ↦ rw stored (store_token-Kept t s l l h refl (ground arith) (ground arith))
      | inr skip ↦ rw skip (h, omega arith)
    ])
  ])
]

-- Neither outside the arrays nor without end.
abbrev pub Safe : Outcome (Bool × Lexer) → Type 0
Safe (ok r) = Unit {0}
Safe fault = ⊥
Safe timeout = ⊥

pub Safe-Then : (l : Lexer) (o : Outcome (Bool × Lexer)) → Kept l o → Safe o → Then (Step l) Safe o
Safe-Then l (ok r) h s = h
Safe-Then l fault h s = s
Safe-Then l timeout h s = s

-- The outcome of the whole: it ends, and tokens that are let through are at most 32 with every
-- bracket closed.
abbrev pub Balanced : Outcome (Bool × Lexer) → Type 0
Balanced (ok (true, k)) = (length k.tokens ≤ 32) × (nesting 0 k.tokens ≡ some 0)
Balanced (ok (false, k)) = Unit {0}
Balanced fault = Unit {0}
Balanced timeout = ⊥

pub lex_match-Safe :
    (t : ℕ) (s : List ℕ) (l : Lexer) → l.stack_top < 32 → length s ≤ 32 → Safe (lex_match t s l)
unfolding lex_match store_token
lex_match-Safe t s l h f = ground arith
