-- ===== src/Json/Text.antt =====
-- The texts of src/object.c: appending to a buffer, JSON strings with their escapes.
-- A buffer with its length is the list of the characters in it.
use arksh.Base.{
  ℕ, zero, suc, ◌+◌, ◌-◌, ◌*◌, ◌/◌, ◌%◌, bit_or, ◌&&◌, ◌||◌, Option, none, some, [], ◌∷◌, ◌++◌, ltb,
  leb, ◌==◌, if◌then◌else◌, length, Bytes,
}
use arksh.Json.{
  no_room, expected_string, unterminated_string, unterminated_escape, too_large, control_character,
  invalid_escape, expected_hex, lone_high_surrogate, expected_low_surrogate, lone_low_surrogate,
  out_of_fuel, Result, ok, err, ◌>>=◌,
}

-- `append_char`
unfoldable pub append_char : ℕ → Bytes → ℕ → Result Bytes
append_char out_size out c =
    if leb out_size (length out + 1) then err no_room else ok (out ++ c ∷ [])

-- `append_text`
unfoldable pub append_text : ℕ → Bytes → Bytes → Result Bytes
append_text out_size out text =
    if leb out_size (length out + length text) then err no_room else ok (out ++ text)

-- A digit of `%04x`.
abbrev pub hex_char : ℕ → ℕ
hex_char d = if ltb d 10 then b'0' + d else b'a' + (d - 10)

-- What a character is written as.
unfoldable pub escaped : ℕ → Bytes
escaped c =
    if c == b'"'
    then b'\\' ∷ b'"' ∷ []
    else if c == b'\\'
    then b'\\' ∷ b'\\' ∷ []
    else if c == 8
    then b'\\' ∷ b'b' ∷ []
    else if c == 12
    then b'\\' ∷ b'f' ∷ []
    else if c == 10
    then b'\\' ∷ b'n' ∷ []
    else if c == 13
    then b'\\' ∷ b'r' ∷ []
    else if c == 9
    then b'\\' ∷ b't' ∷ []
    else if ltb c 0x20
    then b'\\' ∷ b'u' ∷ b'0' ∷ b'0' ∷ hex_char (c / 16) ∷ hex_char (c % 16) ∷ []
    else c ∷ []

-- The loop of `append_json_escaped_string`.
unfoldable pub escape_loop : ℕ → Bytes → Bytes → Result Bytes
unfolding append_text escaped
escape_loop out_size out [] = ok out
escape_loop out_size out (c ∷ text) = do
  longer ← append_text out_size out (escaped c)
  escape_loop out_size longer text

unfoldable pub append_json_escaped_string : ℕ → Bytes → Result Bytes
unfolding append_char escape_loop
append_json_escaped_string out_size text = do
  opened ← append_char out_size [] b'"'
  filled ← escape_loop out_size opened text
  append_char out_size filled b'"'

-- `json_skip_ws`
unfoldable pub json_skip_ws : Bytes → Bytes
json_skip_ws [] = []
json_skip_ws (c ∷ s) = if c == b' ' || c == 9 || c == 10 || c == 13 then json_skip_ws s else c ∷ s

unfoldable pub hex_value : ℕ → Option ℕ
hex_value c =
    if leb b'0' c && leb c b'9'
    then some (c - b'0')
    else if leb b'a' c && leb c b'f'
    then some (c - b'a' + 10)
    else if leb b'A' c && leb c b'F'
    then some (c - b'A' + 10)
    else none

-- So many hexadecimal digits, and what follows them.
unfoldable pub hex_digits : ℕ → ℕ → Bytes → Result (ℕ × Bytes)
unfolding hex_value
hex_digits zero cp s = ok (cp, s)
hex_digits (suc n) cp [] = err expected_hex
hex_digits (suc n) cp (c ∷ s) = elim (hex_value c) [
  | none ↦ err expected_hex
  | some d ↦ hex_digits n (cp * 16 + d) s
]

-- The second half of a surrogate pair.
unfoldable pub low_surrogate : ℕ → Bytes → Result (ℕ × Bytes)
unfolding hex_digits
low_surrogate high (x ∷ y ∷ s) =
    if x == b'\\' && y == b'u'
    then (do
      (low, rest) ← hex_digits 4 0 s
      if ltb low 0xDC00 || ltb 0xDFFF low
          then err expected_low_surrogate
          else ok (0x10000 + (high - 0xD800) * 0x400 + (low - 0xDC00), rest))
    else err lone_high_surrogate
low_surrogate high s = err lone_high_surrogate

unfoldable pub code_point : Bytes → Result (ℕ × Bytes)
unfolding hex_digits low_surrogate
code_point s = do
  (cp, rest) ← hex_digits 4 0 s
  if leb 0xD800 cp && leb cp 0xDBFF
      then low_surrogate cp rest
      else if leb 0xDC00 cp && leb cp 0xDFFF
      then err lone_low_surrogate
      else ok (cp, rest)

-- `cp & 0x3F` under the mark of a continuation byte.
abbrev pub continuation : ℕ → ℕ
continuation cp = bit_or 0x80 (cp % 64)

unfoldable pub utf8 : ℕ → Bytes
utf8 cp =
    if leb cp 0x7F
    then cp ∷ []
    else if leb cp 0x7FF
    then bit_or 0xC0 (cp / 64) ∷ continuation cp ∷ []
    else if leb cp 0xFFFF
    then bit_or 0xE0 (cp / 4096) ∷ continuation (cp / 64) ∷ continuation cp ∷ []
    else bit_or 0xF0 (cp / 262144)
      ∷ continuation (cp / 4096)
      ∷ continuation (cp / 64)
      ∷ continuation cp
      ∷ []

unfoldable pub append_chars : ℕ → Bytes → Bytes → Result Bytes
unfolding append_char
append_chars out_size out [] = ok out
append_chars out_size out (c ∷ cs) = do
  longer ← append_char out_size out c
  append_chars out_size longer cs

-- `json_parse_unicode_escape`
unfoldable pub json_parse_unicode_escape : ℕ → Bytes → Bytes → Result (Bytes × Bytes)
unfolding code_point utf8 append_chars
json_parse_unicode_escape out_size out s = do
  (cp, rest) ← code_point s
  longer ← append_chars out_size out (utf8 cp)
  ok (longer, rest)

-- `append_char` in `json_parse_string`, with its message.
unfoldable pub push : ℕ → Bytes → ℕ → Result Bytes
push out_size out c = if leb out_size (length out + 1) then err too_large else ok (out ++ c ∷ [])

-- What an escape of one character stands for.
unfoldable pub simple_escape : ℕ → Option ℕ
simple_escape c =
    if c == b'"'
    then some b'"'
    else if c == b'\\'
    then some b'\\'
    else if c == b'/'
    then some b'/'
    else if c == b'b'
    then some 8
    else if c == b'f'
    then some 12
    else if c == b'n'
    then some 10
    else if c == b'r'
    then some 13
    else if c == b't'
    then some 9
    else none

-- What follows a backslash; `next` is the rest of the loop.
unfoldable pub escape_step :
    (Bytes → Bytes → Result (Bytes × Bytes)) → ℕ → Bytes → Bytes → Result (Bytes × Bytes)
unfolding simple_escape json_parse_unicode_escape push
escape_step next out_size out [] = err unterminated_escape
escape_step next out_size out (c ∷ s) =
    if c == b'u'
    then (do (longer, rest) ← json_parse_unicode_escape out_size out s; next longer rest)
    else elim (simple_escape c) [
      | none ↦ err (invalid_escape c)
      | some d ↦ (do longer ← push out_size out d; next longer s)
    ]

unfoldable pub string_loop : ℕ → ℕ → Bytes → Bytes → Result (Bytes × Bytes)
unfolding escape_step push
string_loop zero out_size out s = err out_of_fuel
string_loop (suc fuel) out_size out [] = err unterminated_string
string_loop (suc fuel) out_size out (c ∷ s) =
    let plain = push out_size out c >>= λ longer. string_loop fuel out_size longer s in
    if c == b'"'
    then ok (out, s)
    else if c == b'\\'
    then escape_step (string_loop fuel out_size) out_size out s
    else if ltb c 0x20
    then err (control_character c)
    else plain

-- The C string in a buffer: up to the first zero.
unfoldable pub c_string : Bytes → Bytes
c_string [] = []
c_string (c ∷ s) = if c == 0 then [] else c ∷ c_string s

-- `json_parse_string`, and the C string that it leaves.
unfoldable pub json_parse_string : ℕ → Bytes → Result (Bytes × Bytes)
unfolding string_loop c_string
json_parse_string out_size [] = err expected_string
json_parse_string out_size (c ∷ s) =
    if c == b'"'
    then (do (out, rest) ← string_loop (length s + 1) out_size [] s; ok (c_string out, rest))
    else err expected_string
