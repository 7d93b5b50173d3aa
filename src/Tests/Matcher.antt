-- ===== src/Tests/Matcher.antt =====
-- A function in place of `regexec` (src/monitor/sdb/expr.c).
use gs_emu.Base.{
  ℕ, ◌+◌, ◌<◌, ◌≤◌, ◌≡◌, Bool, false, ◌&&◌, ◌||◌, Option, none, some, List, [], ◌∷◌, length, take,
  ltb, leb, ◌==◌, if◌then◌else◌, arith,
}
use gs_emu.Riscv.Names.{same_text}
use gs_emu.Riscv.Instr.{codes}
use gs_emu.Sdb.Token.{Rule, rules}
use gs_emu.Sdb.TokenStep.{IsRegexec, NeedsText}

-- A function in place of `regexec`, for the patterns of the table only: the longest match at the
-- start.
abbrev is_digit : ℕ → Bool
is_digit c = leb b'0' c && leb c b'9'

abbrev is_letter : ℕ → Bool
is_letter c = (leb b'a' c && leb c b'z') || (leb b'A' c && leb c b'Z')

abbrev is_hex : ℕ → Bool
is_hex c = is_digit c || ((leb b'a' c && leb c b'f') || (leb b'A' c && leb c b'F'))

abbrev span : (ℕ → Bool) → List ℕ → ℕ
span p [] = 0
span p (c ∷ cs) = let rest = span p cs in if p c then rest + 1 else 0

abbrev head_is : List ℕ → (ℕ → Bool) → Bool
head_is [] p = false
head_is (c ∷ cs) p = p c

-- The characters that a one-character pattern such as `\+` ends with.
abbrev last_of : List ℕ → ℕ
last_of [] = 0
last_of (c ∷ []) = c
last_of (c ∷ (d ∷ cs)) = last_of (d ∷ cs)

abbrev scan : List ℕ → List ℕ → ℕ
scan r e =
    if same_text r (codes " +")
    then span (λ c. c == b' ') e
    else (if same_text r (codes "==")
        then (if same_text (take 2 e) (codes "==") then 2 else 0)
        else (if same_text r (codes "0x[0-9A-Fa-f]+")
            then (if same_text (take 2 e) (codes "0x")
                then 2 + span is_hex (rest_of (rest_of e))
                else 0)
            else (if same_text r (codes "\\b[0-9]+\\b")
                then span is_digit e
                else (if same_text r (codes "\\$[0-9a-zA-Z]+")
                    then (if head_is e (λ c. c == b'$')
                        then 1 + span (λ c. is_digit c || is_letter c) (rest_of e)
                        else 0)
                    else (if same_text r (codes "\\b[a-zA-Z_][a-zA-Z0-9_]*\\b")
                        then (if head_is e (λ c. is_letter c || c == b'_')
                            then span (λ c. is_digit c || (is_letter c || c == b'_')) e
                            else 0)
                        else (if head_is e (λ c. c == last_of r) then 1 else 0))))))
  where
    rest_of : List ℕ → List ℕ
    rest_of [] = []
    rest_of (c ∷ cs) = cs

abbrev within : ℕ → ℕ → Option (ℕ × ℕ)
within n m = if ltb 0 n && leb n m then some (0, n) else none

abbrev pub matcher : List ℕ → List ℕ → Option (ℕ × ℕ)
matcher r e = within (scan r e) (length e)

matcher_bounds :
    (r e : List ℕ) (so eo : ℕ) → matcher r e ≡ some (so, eo) → (so < eo) × (eo ≤ length e)
matcher_bounds r e so eo h = bounds (scan r e) (length e) h
  where
    bounds : (n m : ℕ) → within n m ≡ some (so, eo) → (so < eo) × (eo ≤ m)
    bounds n m h = ground arith

needs_text : (rs : List Rule) → NeedsText matcher rs
needs_text [] = tt
needs_text (r ∷ rs) = ((λ e so eo h. (matcher_bounds r.regex e so eo h).0), needs_text rs)

pub matcher-IsRegexec : IsRegexec matcher
matcher-IsRegexec = record {
  within = λ r e so eo h. (matcher_bounds r e so eo h).1;
  longer = needs_text rules;
}
