-- ===== src/Permissions.antt =====
-- src/object.c, the permission specs of `chmod` and of the `permissions` properties:
-- `format_permission_octal`, `format_permission_rwx`, `parse_octal_permissions`,
-- `parse_rwx_permissions` and `parse_permissions_spec`.
-- The output buffer is taken to hold the text. `unsigned int` bits are tested by `&` and set by `|`.
pub mod RoundTrip
pub mod Accepts
mod Tests
use arksh.Base.{
  ℕ, zero, suc, ◌+◌, ◌-◌, ◌*◌, ◌/◌, ◌%◌, bit_and, bit_or, Bool, true, false, not, ◌||◌, Option,
  none, some, List, [], ◌∷◌, ltb, ◌==◌, if◌then◌else◌, length, Bytes,
}

-- `permissions & 07777u`
abbrev pub masked : ℕ → ℕ
masked permissions = bit_and permissions 0o7777

-- `%o` digits of a number, most significant first.
abbrev octal_digit : ℕ → ℕ
octal_digit d = b'0' + d % 8

unfoldable pub format_permission_octal : ℕ → Bytes
format_permission_octal permissions =
    let m = masked permissions in
    let low = octal_digit (m / 64) ∷ octal_digit (m / 8) ∷ octal_digit m ∷ [] in
    if not (bit_and m 0o7000 == 0) then octal_digit (m / 512) ∷ low else low

-- `(masked & bit) ? yes : no`
abbrev test_bit : ℕ → ℕ → ℕ → ℕ → ℕ
test_bit m bit set_char clear_char = if not (bit_and m bit == 0) then set_char else clear_char

unfoldable pub format_permission_rwx : ℕ → Bytes
format_permission_rwx permissions =
    let m = masked permissions in
    test_bit m 0o400 b'r' b'-'
    ∷ test_bit m 0o200 b'w' b'-'
    ∷ test_bit m 0o4000 (test_bit m 0o100 b's' b'S') (test_bit m 0o100 b'x' b'-')
    ∷ test_bit m 0o40 b'r' b'-'
    ∷ test_bit m 0o20 b'w' b'-'
    ∷ test_bit m 0o2000 (test_bit m 0o10 b's' b'S') (test_bit m 0o10 b'x' b'-')
    ∷ test_bit m 0o4 b'r' b'-'
    ∷ test_bit m 0o2 b'w' b'-'
    ∷ test_bit m 0o1000 (test_bit m 0o1 b't' b'T') (test_bit m 0o1 b'x' b'-')
    ∷ []

-- The digit loop of `parse_octal_permissions`: `value` so far, over the text that is left.
unfoldable pub octal_loop : ℕ → Bytes → Option ℕ
octal_loop value [] = some value
octal_loop value (c ∷ text) =
    let next = value * 8 + (c - b'0') in
    let rest = octal_loop next text in
    if ltb c b'0' || ltb b'7' c then none else if ltb 0o7777 next then none else rest

unfoldable pub parse_octal_permissions : Bytes → Option ℕ
unfolding octal_loop
parse_octal_permissions [] = none
parse_octal_permissions (c ∷ text) = elim (octal_loop 0 (c ∷ text)) [
  | none ↦ none
  | some value ↦ if ltb (length (c ∷ text)) 3 || ltb 4 (length (c ∷ text)) then none else some value
]

infixl 5 ◌>>=◌
abbrev pub ◌>>=◌ : Option ℕ → (ℕ → Option ℕ) → Option ℕ
none >>= f = none
some v >>= f = f v

-- `if (c == yes) { value |= bit; } else if (c != '-') { return 1; }`
unfoldable pub set_if : ℕ → ℕ → ℕ → ℕ → Option ℕ
set_if c yes_char bit value =
    if c == yes_char then some (bit_or value bit) else if not (c == b'-') then none else some value

-- An execute place: `x`, its special bit with (`s`, `t`) or without (`S`, `T`) execute, or `-`.
unfoldable pub set_execute : ℕ → ℕ → ℕ → ℕ → ℕ → ℕ → Option ℕ
set_execute c both only bit special value =
    if c == b'x'
    then some (bit_or value bit)
    else if c == both
    then some (bit_or value (bit_or bit special))
    else if c == only
    then some (bit_or value special)
    else if not (c == b'-')
    then none
    else some value

unfoldable pub parse_rwx_permissions : Bytes → Option ℕ
unfolding set_if set_execute
parse_rwx_permissions (c0 ∷ c1 ∷ c2 ∷ c3 ∷ c4 ∷ c5 ∷ c6 ∷ c7 ∷ c8 ∷ []) = do
  v0 ← set_if c0 b'r' 0o400 0
  v1 ← set_if c1 b'w' 0o200 v0
  v2 ← set_execute c2 b's' b'S' 0o100 0o4000 v1
  v3 ← set_if c3 b'r' 0o40 v2
  v4 ← set_if c4 b'w' 0o20 v3
  v5 ← set_execute c5 b's' b'S' 0o10 0o2000 v4
  v6 ← set_if c6 b'r' 0o4 v5
  v7 ← set_if c7 b'w' 0o2 v6
  set_execute c8 b't' b'T' 0o1 0o1000 v7
parse_rwx_permissions _ = none

unfoldable pub parse_permissions_spec : Bytes → Option ℕ
unfolding parse_octal_permissions parse_rwx_permissions
parse_permissions_spec text = elim (parse_octal_permissions text) [
  | some value ↦ some value
  | none ↦ parse_rwx_permissions text
]
