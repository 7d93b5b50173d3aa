-- ===== src/Decode/Pattern.antt =====
-- include/cpu/decode.h: `pattern_decode`, `pattern_decode_hex` and the test of `INSTPAT`.
use gs_emu.Base.{
  ℕ, ◌+◌, ◌-◌, ◌*◌, ◌/◌, ◌^◌, bit_and, bit_or, Bool, true, false, ◌&&◌, ◌||◌, Option, none, some,
  List, [], ◌∷◌, ltb, leb, ◌==◌, if◌then◌else◌, length,
}
use gs_emu.Word.{u64}

-- `*key`, `*mask`, `*shift`.
pub record Pat : Type 0 where
  pub key : ℕ
  pub mask : ℕ
  pub shift : ℕ

abbrev pub pat : ℕ → ℕ → ℕ → Pat
pat k m s = record { key = k; mask = m; shift = s }

-- The characters that the `Assert` lets through.
abbrev pub is_pattern_char : ℕ → Bool
is_pattern_char c = c == b'0' || (c == b'1' || c == b'?')

abbrev pub key_digit : ℕ → ℕ
key_digit c = if c == b'1' then 1 else 0

abbrev pub mask_digit : ℕ → ℕ
mask_digit c = if c == b'?' then 0 else 1

-- `macro(i)` for the characters that are left.
unfoldable pub pattern_loop : List ℕ → ℕ → ℕ → ℕ → Option Pat
pattern_loop [] k m s = some (pat k m s)
pattern_loop (c ∷ cs) k m s = elim (c == b' ') [
  | true ↦ pattern_loop cs k m s
  | false ↦ elim (is_pattern_char c) [
    | true ↦
        pattern_loop cs (bit_or (u64 (k * 2)) (key_digit c)) (bit_or (u64 (m * 2)) (mask_digit c))
          (if c == b'?' then s + 1 else 0)
    | false ↦ none
  ]
]

-- The label `finish`.
abbrev pub finish : Pat → Pat
finish p = pat (p.key / 2 ^ p.shift) (p.mask / 2 ^ p.shift) p.shift

-- `macro64(0)` looks at 64 characters; the end of the text is only seen before the 64th.
unfoldable pub pattern_decode : List ℕ → Option Pat
pattern_decode str =
    if ltb (length str) 64
    then elim (pattern_loop str 0 0 0) [ none ↦ none | some p ↦ some (finish p) ]
    else none

-- `INSTPAT`: `((inst >> shift) & mask) == key`.
unfoldable pub instpat_test : Pat → ℕ → Bool
instpat_test p inst = bit_and (inst / 2 ^ p.shift) p.mask == p.key

abbrev pub is_hex_char : ℕ → Bool
is_hex_char c = (leb b'0' c && leb c b'9') || ((leb b'a' c && leb c b'f') || c == b'?')

abbrev pub hex_key : ℕ → ℕ
hex_key c = if c == b'?' then 0 else (if leb b'0' c && leb c b'9' then c - b'0' else c - b'a' + 10)

unfoldable pub pattern_hex_loop : List ℕ → ℕ → ℕ → ℕ → Option Pat
pattern_hex_loop [] k m s = some (pat k m s)
pattern_hex_loop (c ∷ cs) k m s = elim (c == b' ') [
  | true ↦ pattern_hex_loop cs k m s
  | false ↦ elim (is_hex_char c) [
    | true ↦
        pattern_hex_loop cs (bit_or (u64 (k * 16)) (hex_key c))
          (bit_or (u64 (m * 16)) (if c == b'?' then 0 else 0xf)) (if c == b'?' then s + 4 else 0)
    | false ↦ none
  ]
]

-- `macro16(0)` looks at 16 characters.
unfoldable pub pattern_decode_hex : List ℕ → Option Pat
pattern_decode_hex str =
    if ltb (length str) 16
    then elim (pattern_hex_loop str 0 0 0) [ none ↦ none | some p ↦ some (finish p) ]
    else none
