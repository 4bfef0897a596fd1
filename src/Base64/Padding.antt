-- ===== src/Base64/Padding.antt =====
-- Bounds of the two loops, and how the decoder reads padding signs.
use arksh.Base.{
  ℕ, ◌+◌, ◌*◌, ◌/◌, ◌%◌, ◌<◌, ◌≤◌, ◌≡◌, refl, Bool-cases, inl, inr, [], ◌∷◌, arith, leb, bit_and,
  bit_or, not_leb→lt, ◌∙◌, length, length-append, Bytes, max_output,
}
use arksh.Base64.{
  string, Result, ok, err, encode_loop, apply_base64_encode_stage, Entry, invalid, padding, digit,
  decode_table, decode_group, unless_padding, to_byte, decode_loop, append_to,
  apply_base64_decode_stage, until_zero, as_c_string, Value, other, letter,
}
use arksh.Base.Bits.{bit_or_disjoint}
use arksh.Base64.RoundTrip.{
  decode_code, decode_loop_step, decode_table-letter, padding_entry, length-encode_loop,
}

-- What a loop wrote ends before the last place of the buffer, which the zero takes.
abbrev pub WithinBuffer : ℕ → Result → Type 0
WithinBuffer dst (ok text) = dst + length text < max_output
WithinBuffer dst (err e) = Unit

append_to-Within :
    (dst : ℕ) (group : Bytes) (r : Result)
    → WithinBuffer (dst + length group) r
    → WithinBuffer dst (append_to group r)
append_to-Within dst group (ok text) h = omega (arith, length-append group text)
append_to-Within dst group (err e) h = tt

length-unless_padding : (e : Entry) (b : ℕ) → length (unless_padding e b) ≤ 1
length-unless_padding invalid b = omega arith
length-unless_padding padding b = omega arith
length-unless_padding (digit d) b = omega arith

length-decode_group : (c0 c1 c2 c3 : Entry) → length (decode_group c0 c1 c2 c3) ≤ 3
length-decode_group c0 c1 c2 c3 = omega (
  arith,
  length-append (unless_padding c2 (bit_or (bit_and (to_byte c1) 0x0f * 16) (to_byte c2 / 4) % 256))
      (unless_padding c3 (bit_or (bit_and (to_byte c2) 0x03 * 64) (to_byte c3) % 256)),
  length-unless_padding c2 (bit_or (bit_and (to_byte c1) 0x0f * 16) (to_byte c2 / 4) % 256),
  length-unless_padding c3 (bit_or (bit_and (to_byte c2) 0x03 * 64) (to_byte c3) % 256),
)

-- `decode_loop` writes inside its buffer, on every input.
decode_loop-Within :
    (i dst : ℕ) (src : Bytes) → dst < max_output → WithinBuffer dst (decode_loop i dst src)
unfolding decode_loop
decode_loop-Within i dst (s0 ∷ s1 ∷ s2 ∷ s3 ∷ src) room =
    let group =
      decode_group (decode_table s0) (decode_table s1) (decode_table s2) (decode_table s3) in
    let small =
      length-decode_group (decode_table s0) (decode_table s1) (decode_table s2) (decode_table s3) in
    let rest = decode_loop (i + 4) (dst + length group) src in
    ground (
      arith,
      append_to-Within dst group rest,
      decode_loop-Within (i + 4) (dst + length group) src,
      small,
    )
decode_loop-Within i dst (s0 ∷ s1 ∷ s2 ∷ []) room = omega arith
decode_loop-Within i dst (s0 ∷ s1 ∷ []) room = omega arith
decode_loop-Within i dst (s0 ∷ []) room = omega arith
decode_loop-Within i dst [] room = omega arith

length-until_zero : (s : Bytes) → length (until_zero s) ≤ length s
unfolding until_zero
length-until_zero [] = omega arith
length-until_zero (c ∷ s) = ground (arith, length-until_zero s)

as_c_string-Within : (r : Result) → WithinBuffer 0 r → WithinBuffer 0 (as_c_string r)
as_c_string-Within (ok text) h = omega (arith, length-until_zero text)
as_c_string-Within (err e) h = tt

encode_loop-Within :
    (src : Bytes) → (length src + 2) / 3 * 4 < max_output → WithinBuffer 0 (ok (encode_loop src))
encode_loop-Within src h = omega (arith, length-encode_loop src)

Within_encode : (v : Value) → WithinBuffer 0 (apply_base64_encode_stage v)
unfolding apply_base64_encode_stage
Within_encode other = tt
Within_encode (string []) = omega arith
Within_encode (string (c ∷ src)) =
    elim (Bool-cases (leb max_output ((length (c ∷ src) + 2) / 3 * 4))) [
      | inl long ↦ rw long tt
      | inr fits ↦ rw fits (
          encode_loop-Within (c ∷ src)
            (not_leb→lt max_output ((length (c ∷ src) + 2) / 3 * 4) fits))
    ]

Within_decode : (v : Value) → WithinBuffer 0 (apply_base64_decode_stage v)
unfolding apply_base64_decode_stage
Within_decode other = tt
Within_decode (string []) = omega arith
Within_decode (string (c ∷ src)) = ground (
  arith,
  as_c_string-Within (decode_loop 0 0 (c ∷ src)) (decode_loop-Within 0 0 (c ∷ src) (omega arith)),
)

-- Whatever text either stage produces, for any value, ends before the last place of the
-- ARKSH_MAX_OUTPUT buffer, which the terminating zero takes.
pub stages-WithinBuffer :
    (v : Value)
    → WithinBuffer 0 (apply_base64_encode_stage v) × WithinBuffer 0 (apply_base64_decode_stage v)
stages-WithinBuffer v = (Within_encode v, Within_decode v)

-- A group whose third sign is padding and whose fourth is a digit is no error: the stage takes it
-- as two bytes, the second made of the bits of -2 and of the fourth digit.
pub digit_after_padding :
    (d0 d1 d3 : ℕ)
    → d0 < 64
    → d1 < 64
    → d3 < 64
    → apply_base64_decode_stage (string (letter d0 ∷ letter d1 ∷ b'=' ∷ letter d3 ∷ []))
      ≡ ok (until_zero ((d0 * 4 + d1 / 16) ∷ (128 + d3) ∷ []))
digit_after_padding d0 d1 d3 h0 h1 h3 =
    let second : bit_or (bit_and 254 0x03 * 64) d3 % 256 ≡ 128 + d3 =
      omega (arith, bit_or_disjoint 6 2 d3 h3) in
    let first : bit_or (d0 * 4) (d1 / 16) % 256 ≡ d0 * 4 + d1 / 16 =
      omega (arith, bit_or_disjoint 2 d0 (d1 / 16) (omega arith)) in
    decode_code (letter d0 ∷ letter d1 ∷ b'=' ∷ letter d3 ∷ [])
      ((d0 * 4 + d1 / 16) ∷ (128 + d3) ∷ []) (omega arith) (omega arith)
      (decode_loop_step 0 0 _ _ _ _ _ _ _ _ [] (decode_table-letter d0 h0)
          (decode_table-letter d1 h1) padding_entry (decode_table-letter d3 h3) refl refl
          (omega arith)
        ∙ (unfold decode_loop in λ k. append_to (first k ∷ second k ∷ []) (decode_loop 4 2 [])))
