-- ===== src/Sdb/Token.antt =====
-- src/monitor/sdb/expr.c: the rules, the tokens and `make_token`. A text is the list of its
-- characters, without the NUL that ends it. `regcomp` and `regexec` of the C library are the
-- parameter `regexec`: a pattern and a text to the bounds of the match.
use gs_emu.Base.{
  ℕ, zero, suc, ◌+◌, ◌-◌, Bool, true, false, ◌||◌, not, Option, none, some, List, [], ◌∷◌, ◌++◌,
  ltb, ◌==◌, if◌then◌else◌, length, get_or, set, take, drop, replicate,
}
use gs_emu.Riscv.Instr.{codes}
use gs_emu.Sdb.Outcome.{Outcome, ok, fault, timeout, ◌>>=◌}

-- The token types that are no characters.
abbrev pub tk_notype : ℕ
tk_notype = 256

abbrev pub tk_eq : ℕ
tk_eq = 257

abbrev pub tk_decimal : ℕ
tk_decimal = 258

abbrev pub tk_hex : ℕ
tk_hex = 259

abbrev pub tk_reg : ℕ
tk_reg = 260

abbrev pub tk_word : ℕ
tk_word = 261

pub record Rule : Type 0 where
  pub regex : List ℕ
  pub token_type : ℕ

abbrev pub rule : List ℕ → ℕ → Rule
rule r t = record { regex = r; token_type = t }

abbrev pub rules : List Rule
rules =
    rule (codes " +") tk_notype
    ∷ rule (codes "\\+") b'+'
    ∷ rule (codes "\\-") b'-'
    ∷ rule (codes "\\*") b'*'
    ∷ rule (codes "/") b'/'
    ∷ rule (codes "\\(") b'('
    ∷ rule (codes "\\)") b')'
    ∷ rule (codes "==") tk_eq
    ∷ rule (codes "0x[0-9A-Fa-f]+") tk_hex
    ∷ rule (codes "\\b[0-9]+\\b") tk_decimal
    ∷ rule (codes "\\$[0-9a-zA-Z]+") tk_reg
    ∷ rule (codes "\\b[a-zA-Z_][a-zA-Z0-9_]*\\b") tk_word
    ∷ []

pub record Token : Type 0 where
  pub type : ℕ
  pub str : List ℕ

abbrev pub token : ℕ → List ℕ → Token
token t s = record { type = t; str = s }

-- `tokens` up to `nr_token`, and the local variables of `make_token`.
pub record Lexer : Type 0 where
  pub tokens : List Token
  pub bracket_stack : List ℕ
  pub stack_top : ℕ

abbrev pub new_lexer : Lexer
new_lexer = record { tokens = []; bracket_stack = replicate 32 0; stack_top = 0 }

-- The types that the second label of the `switch` stores.
abbrev pub is_stored : ℕ → Bool
is_stored t =
    t == tk_eq
    || (t == b'+'
        || (t == b'-'
            || (t == b'*'
                || (t == b'/'
                    || (t == tk_word || (t == tk_reg || (t == tk_decimal || t == tk_hex)))))))

-- The write of a token, refused when 32 are there; `str` has 32 characters.
unfoldable pub store_token : ℕ → List ℕ → Lexer → Outcome (Bool × Lexer)
store_token t s l =
    if not (ltb (length l.tokens) 32)
    then ok (false, l)
    else (if ltb 32 (length s)
        then fault
        else ok (true, record l { tokens = l.tokens ++ token t s ∷ [] }))

-- The `switch` of `make_token`; `false` is its `return false`.
unfoldable pub lex_match : ℕ → List ℕ → Lexer → Outcome (Bool × Lexer)
lex_match t s l =
    if t == b')'
    then (if l.stack_top == 0 || not (get_or l.bracket_stack (l.stack_top - 1) 0 == b'(')
        then ok (false, l)
        else (if ltb l.stack_top 32
            then store_token t s (record l {
              bracket_stack = set l.bracket_stack l.stack_top 0;
              stack_top = l.stack_top - 1;
            })
            else fault))
    else (if t == b'('
        then (if ltb l.stack_top 32
            then store_token t s (record l {
              bracket_stack = set l.bracket_stack l.stack_top b'(';
              stack_top = l.stack_top + 1;
            })
            else fault)
        else (if is_stored t then store_token t s l else ok (true, l)))

module _ (regexec : List ℕ → List ℕ → Option (ℕ × ℕ)) where
  -- The `for` over the rules: the first that matches at the start, its length and its type.
  unfoldable pub first_match : List Rule → List ℕ → Option (ℕ × ℕ)
  first_match [] e = none
  first_match (r ∷ rs) e = elim (regexec r.regex e) [
    | none ↦ first_match rs e
    | some (so, eo) ↦ elim (so == 0) [ true ↦ some (eo, r.token_type) | false ↦ first_match rs e ]
  ]

  -- The `while`, on the text that is left.
  unfoldable pub make_token_loop : ℕ → List ℕ → Lexer → Outcome (Bool × Lexer)
  make_token_loop fuel [] l = ok (l.stack_top == 0, l)
  make_token_loop zero (c ∷ cs) l = timeout
  make_token_loop (suc fuel) (c ∷ cs) l = elim (first_match rules (c ∷ cs)) [
    | none ↦ ok (false, l)
    | some (substr_len, t) ↦ lex_match t (take substr_len (c ∷ cs)) l >>= λ r. elim r.0 [
      | true ↦ make_token_loop fuel (drop substr_len (c ∷ cs)) r.1
      | false ↦ ok (false, r.1)
    ]
  ]

  -- A round takes at least one character.
  unfoldable pub make_token : List ℕ → Outcome (Bool × Lexer)
  make_token e = make_token_loop (length e) e new_lexer
