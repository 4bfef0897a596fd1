-- ===== src/Arith/Number.antt =====
-- The character classes of the C locale, and `strtoll` of the C library for base 0, which
-- src/expand.c reads numbers with.
use arksh.Base.{
  ℕ, ◌+◌, ◌-◌, ◌*◌, ◌%◌, Bool, true, false, ◌&&◌, ◌||◌, Option, none, some, [], ◌∷◌, ltb, leb, ◌==◌,
  if◌then◌else◌, Bytes,
}
use arksh.Arith.Word.{modulus, half}

abbrev pub is_space : ℕ → Bool
is_space c = c == 32 || (leb 9 c && leb c 13)

abbrev pub is_digit : ℕ → Bool
is_digit c = leb b'0' c && leb c b'9'

abbrev pub is_letter : ℕ → Bool
is_letter c = (leb b'a' c && leb c b'z') || (leb b'A' c && leb c b'Z')

-- `isalnum(c) || c == '_'`
abbrev pub is_name_char : ℕ → Bool
is_name_char c = is_letter c || is_digit c || c == b'_'

-- `arith_skip_ws`
unfoldable pub arith_skip_ws : Bytes → Bytes
arith_skip_ws [] = []
arith_skip_ws (c ∷ s) = if is_space c then arith_skip_ws s else c ∷ s

-- What a digit stands for, if it is one of the base.
unfoldable pub digit_of : ℕ → ℕ → Option ℕ
digit_of base c =
    let d =
      if is_digit c
      then c - b'0'
      else if leb b'a' c && leb c b'z'
      then c - b'a' + 10
      else if leb b'A' c && leb c b'Z'
      then c - b'A' + 10
      else 99 in
    if ltb d base then some d else none

-- The digits in front, and what follows them.
unfoldable pub digits : ℕ → ℕ → Bytes → ℕ × Bytes
unfolding digit_of
digits base acc [] = (acc, [])
digits base acc (c ∷ s) = elim (digit_of base c) [
  | none ↦ (acc, c ∷ s)
  | some d ↦ digits base (acc * base + d) s
]

unfoldable pub starts_digit : ℕ → Bytes → Bool
unfolding digit_of
starts_digit base [] = false
starts_digit base (c ∷ s) = elim (digit_of base c) [ none ↦ false | some d ↦ true ]

-- `0x` counts as a prefix where a hexadecimal digit follows.
unfoldable pub magnitude_from : Bytes → ℕ × Bytes
unfolding digits starts_digit
magnitude_from [] = (0, [])
magnitude_from (c ∷ []) = digits (if c == b'0' then 8 else 10) 0 (c ∷ [])
magnitude_from (c ∷ x ∷ s) =
    if c == b'0' && (x == b'x' || x == b'X') && starts_digit 16 s
    then digits 16 0 s
    else digits (if c == b'0' then 8 else 10) 0 (c ∷ x ∷ s)

-- The clamp to LLONG_MIN and LLONG_MAX.
unfoldable pub clamp : Bool → ℕ → ℕ
clamp true m = if leb half m then half else (modulus - m) % modulus
clamp false m = if leb half m then half - 1 else m

unfoldable pub number_from : Bool → Bytes → Bytes → ℕ × Bytes
unfolding starts_digit magnitude_from clamp
number_from negative whole s =
    if starts_digit 10 s
    then (let (m, rest) = magnitude_from s in (clamp negative m, rest))
    else (0, whole)

unfoldable pub signed_from : Bytes → Bytes → ℕ × Bytes
unfolding number_from
signed_from whole [] = (0, whole)
signed_from whole (c ∷ s) =
    if c == b'-'
    then number_from true whole s
    else if c == b'+'
    then number_from false whole s
    else number_from false whole (c ∷ s)

-- `strtoll(text, &end, 0)`: the number and the text from `end` on.
unfoldable pub strtoll : Bytes → ℕ × Bytes
unfolding arith_skip_ws signed_from
strtoll text = signed_from text (arith_skip_ws text)
