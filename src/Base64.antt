-- ===== src/Base64.antt =====
-- src/executor.c, the pipeline stages `base64_encode` and `base64_decode`
-- (`apply_base64_encode_stage`, `apply_base64_decode_stage`).
-- A value is a string, or something else, which both refuse. The stage's status and message are
-- the result: the new text, or the error whose message goes to `out`.
pub mod RoundTrip
pub mod Padding
mod Tests
use arksh.Base.{
  ℕ, zero, suc, ◌+◌, ◌-◌, ◌*◌, ◌/◌, ◌%◌, bit_and, bit_or, Bool, true, false, not, ◌&&◌, List, [],
  ◌∷◌, ◌++◌, ltb, leb, ◌==◌, if◌then◌else◌, length, get_or, Bytes, codes, max_output,
}

pub data Value : Type 0 where
  string : Bytes → Value
  other : Value

pub data Error : Type 0 where
  not_a_string input_too_long bad_length output_too_long : Error
  bad_character : ℕ → Error

pub data Result : Type 0 where
  ok : Bytes → Result
  err : Error → Result

abbrev pub base64_alphabet : Bytes
base64_alphabet = codes "ABCDEFGHIJKLMNOPQRSTUVWXYZabcdefghijklmnopqrstuvwxyz0123456789+/"

abbrev pub letter : ℕ → ℕ
letter i = get_or base64_alphabet i 0

-- The four indices that the loop body computes from three bytes, a missing one being 0.
abbrev pub index0 : ℕ → ℕ
index0 b0 = bit_and (b0 / 4) 0x3f

abbrev pub index1 : ℕ → ℕ → ℕ
index1 b0 b1 = bit_and (bit_or (b0 * 16) (b1 / 16)) 0x3f

abbrev pub index2 : ℕ → ℕ → ℕ
index2 b1 b2 = bit_and (bit_or (b1 * 4) (b2 / 64)) 0x3f

abbrev pub index3 : ℕ → ℕ
index3 b2 = bit_and b2 0x3f

-- `for (i = 0; i < src_len; i += 3)`
unfoldable pub encode_loop : Bytes → Bytes
encode_loop [] = []
encode_loop (b0 ∷ []) = letter (index0 b0) ∷ letter (index1 b0 0) ∷ b'=' ∷ b'=' ∷ []
encode_loop (b0 ∷ b1 ∷ []) =
    letter (index0 b0) ∷ letter (index1 b0 b1) ∷ letter (index2 b1 0) ∷ b'=' ∷ []
encode_loop (b0 ∷ b1 ∷ b2 ∷ src) =
    letter (index0 b0)
    ∷ letter (index1 b0 b1)
    ∷ letter (index2 b1 b2)
    ∷ letter (index3 b2)
    ∷ encode_loop src

unfoldable pub apply_base64_encode_stage : Value → Result
unfolding encode_loop
apply_base64_encode_stage other = err not_a_string
apply_base64_encode_stage (string []) = ok []
apply_base64_encode_stage (string (c ∷ src)) =
    if leb max_output ((length (c ∷ src) + 2) / 3 * 4)
    then err input_too_long
    else ok (encode_loop (c ∷ src))

-- An entry of `decode_table`: -1, -2, or a digit.
pub data Entry : Type 0 where
  invalid padding : Entry
  digit : ℕ → Entry

unfoldable pub decode_table : ℕ → Entry
decode_table c =
    if c == b'+'
    then digit 62
    else if c == b'/'
    then digit 63
    else if leb b'0' c && leb c b'9'
    then digit (c - b'0' + 52)
    else if c == b'='
    then padding
    else if leb b'A' c && leb c b'Z'
    then digit (c - b'A')
    else if leb b'a' c && leb c b'z'
    then digit (c - b'a' + 26)
    else invalid

-- `(unsigned char)` of an entry.
abbrev pub to_byte : Entry → ℕ
to_byte invalid = 255
to_byte padding = 254
to_byte (digit d) = d

-- The second and third byte of a group are left out at a padding sign.
abbrev pub unless_padding : Entry → ℕ → Bytes
unless_padding padding b = []
unless_padding invalid b = b ∷ []
unless_padding (digit d) b = b ∷ []

abbrev pub decode_group : Entry → Entry → Entry → Entry → Bytes
decode_group c0 c1 c2 c3 =
    bit_or (to_byte c0 * 4) (to_byte c1 / 16) % 256
    ∷ (unless_padding c2 (bit_or (bit_and (to_byte c1) 0x0f * 16) (to_byte c2 / 4) % 256)
        ++ unless_padding c3 (bit_or (bit_and (to_byte c2) 0x03 * 64) (to_byte c3) % 256))

-- `c < 0`, and `c == -1`
abbrev pub is_negative : Entry → Bool
is_negative (digit d) = false
is_negative invalid = true
is_negative padding = true

abbrev pub is_invalid : Entry → Bool
is_invalid invalid = true
is_invalid padding = false
is_invalid (digit d) = false

abbrev pub append_to : Bytes → Result → Result
append_to group (ok text) = ok (group ++ text)
append_to group (err e) = err e

-- `for (i = 0; i < src_len; i += 4)`; `dst_pos` counts the bytes written before.
unfoldable pub decode_loop : ℕ → ℕ → Bytes → Result
decode_loop i dst_pos (s0 ∷ s1 ∷ s2 ∷ s3 ∷ src) =
    let c0 = decode_table s0 in
    let c1 = decode_table s1 in
    let c2 = decode_table s2 in
    let c3 = decode_table s3 in
    let group = decode_group c0 c1 c2 c3 in
    let rest = decode_loop (i + 4) (dst_pos + length group) src in
    if is_negative c0
    then err (bad_character i)
    else if is_negative c1
    then err (bad_character (i + 1))
    else if is_invalid c2
    then err (bad_character (i + 2))
    else if is_invalid c3
    then err (bad_character (i + 3))
    else if leb max_output (dst_pos + 3)
    then err output_too_long
    else append_to group rest
decode_loop i dst_pos _ = ok []

-- What `arksh_value_set_string` takes of the buffer: the bytes before the first zero.
unfoldable pub until_zero : Bytes → Bytes
until_zero [] = []
until_zero (c ∷ s) = if c == 0 then [] else c ∷ until_zero s

abbrev pub as_c_string : Result → Result
as_c_string (ok text) = ok (until_zero text)
as_c_string (err e) = err e

unfoldable pub apply_base64_decode_stage : Value → Result
unfolding decode_loop decode_table until_zero
apply_base64_decode_stage other = err not_a_string
apply_base64_decode_stage (string []) = ok []
apply_base64_decode_stage (string (c ∷ src)) =
    if not (length (c ∷ src) % 4 == 0)
    then err bad_length
    else as_c_string (decode_loop 0 0 (c ∷ src))
