-- ===== src/Base64/RoundTrip.antt =====
-- Decoding what was encoded gives the text back.
use arksh.Base.{
  ℕ, ◌+◌, ◌*◌, ◌/◌, ◌%◌, ◌<◌, ◌≡◌, refl, ◌∙◌, ap, bit_and, bit_or, Bool, true, false, [], ◌∷◌,
  arith, lt→not_leb, ◌==◌, ==_iff, length, All, Bytes, max_output, all_below, all_below_sound,
}
use arksh.Base.Bits.{bit_or_disjoint, bit_and_mask}
use arksh.Base64.{
  string, ok, letter, index0, index1, index2, index3, encode_loop, apply_base64_encode_stage, Entry,
  invalid, padding, digit, decode_table, decode_group, is_invalid, decode_loop, until_zero,
  apply_base64_decode_stage, append_to,
}

-- A byte of a C string: not the terminating zero.
abbrev pub IsCharacter : ℕ → Type 0
IsCharacter c = (0 < c) × (c < 256)

abbrev decodes : ℕ → Entry → Bool
decodes i (digit d) = d == i
decodes i invalid = false
decodes i padding = false

letter_table : all_below 64 (λ i. decodes i (decode_table (letter i))) ≡ true
unfolding all_below decode_table
letter_table = refl

decodes-digit : (i : ℕ) (e : Entry) → decodes i e ≡ true → e ≡ digit i
decodes-digit i (digit d) h = ground (arith, ==_iff d i)
decodes-digit i invalid h = cc
decodes-digit i padding h = cc

-- Each letter of the alphabet decodes to its index.
pub decode_table-letter : (i : ℕ) → i < 64 → decode_table (letter i) ≡ digit i
decode_table-letter i h =
    decodes-digit i (decode_table (letter i))
      (all_below_sound 64 (λ i. decodes i (decode_table (letter i))) i letter_table h)

index0_lem : (a : ℕ) → index0 a ≡ a / 4 % 64
index0_lem a = bit_and_mask 6 (a / 4)

index1_lem : (a b : ℕ) → b < 256 → index1 a b ≡ (a * 16 + b / 16) % 64
index1_lem a b h =
    omega
      (arith, bit_and_mask 6 (bit_or (a * 16) (b / 16)), bit_or_disjoint 4 a (b / 16) (omega arith))

index2_lem : (b c : ℕ) → c < 256 → index2 b c ≡ (b * 4 + c / 64) % 64
index2_lem b c h =
    omega
      (arith, bit_and_mask 6 (bit_or (b * 4) (c / 64)), bit_or_disjoint 2 b (c / 64) (omega arith))

index3_lem : (c : ℕ) → index3 c ≡ c % 64
index3_lem c = bit_and_mask 6 c

-- The three byte expressions of the decoder, on digits.
first_byte : (p q : ℕ) → q < 64 → bit_or (p * 4) (q / 16) ≡ p * 4 + q / 16
first_byte p q h = bit_or_disjoint 2 p (q / 16) (omega arith)

second_byte : (q r : ℕ) → r < 64 → bit_or (bit_and q 0x0f * 16) (r / 4) ≡ q % 16 * 16 + r / 4
second_byte q r h =
    omega (arith, bit_and_mask 4 q, bit_or_disjoint 4 (bit_and q 0x0f) (r / 4) (omega arith))

third_byte : (r s : ℕ) → s < 64 → bit_or (bit_and r 0x03 * 64) s ≡ r % 4 * 64 + s
third_byte r s h =
    omega (arith, bit_and_mask 2 r, bit_or_disjoint 6 (bit_and r 0x03) s (omega arith))

group_of_three :
    (a b c : ℕ)
    → a < 256
    → b < 256
    → c < 256
    → decode_group (digit (index0 a)) (digit (index1 a b)) (digit (index2 b c)) (digit (index3 c))
      ≡ a ∷ b ∷ c ∷ []
group_of_three a b c ha hb hc =
    let e0 = index0_lem a in
    let e1 = index1_lem a b hb in
    let e2 = index2_lem b c hc in
    let e3 = index3_lem c in
    let x : bit_or (index0 a * 4) (index1 a b / 16) % 256 ≡ a =
      omega (arith, e0, e1, first_byte (index0 a) (index1 a b) (omega arith)) in
    let y : bit_or (bit_and (index1 a b) 0x0f * 16) (index2 b c / 4) % 256 ≡ b =
      omega (arith, e1, e2, second_byte (index1 a b) (index2 b c) (omega arith)) in
    let z : bit_or (bit_and (index2 b c) 0x03 * 64) (index3 c) % 256 ≡ c =
      omega (arith, e2, e3, third_byte (index2 b c) (index3 c) (omega arith)) in
    λ k. x k ∷ y k ∷ z k ∷ []

group_of_two :
    (a b : ℕ)
    → a < 256
    → b < 256
    → decode_group (digit (index0 a)) (digit (index1 a b)) (digit (index2 b 0)) padding ≡ a ∷ b ∷ []
group_of_two a b ha hb =
    let e0 = index0_lem a in
    let e1 = index1_lem a b hb in
    let e2 = index2_lem b 0 (omega arith) in
    let x : bit_or (index0 a * 4) (index1 a b / 16) % 256 ≡ a =
      omega (arith, e0, e1, first_byte (index0 a) (index1 a b) (omega arith)) in
    let y : bit_or (bit_and (index1 a b) 0x0f * 16) (index2 b 0 / 4) % 256 ≡ b =
      omega (arith, e1, e2, second_byte (index1 a b) (index2 b 0) (omega arith)) in
    λ k. x k ∷ y k ∷ []

group_of_one :
    (a : ℕ)
    → a < 256
    → decode_group (digit (index0 a)) (digit (index1 a 0)) padding padding ≡ a ∷ []
group_of_one a ha =
    let e0 = index0_lem a in
    let e1 = index1_lem a 0 (omega arith) in
    let x : bit_or (index0 a * 4) (index1 a 0 / 16) % 256 ≡ a =
      omega (arith, e0, e1, first_byte (index0 a) (index1 a 0) (omega arith)) in
    λ k. x k ∷ []

-- One group that the decoder accepts.
pub decode_loop_step :
    (i dst s0 s1 s2 s3 d0 d1 : ℕ) (e2 e3 : Entry) (src : Bytes)
    → decode_table s0 ≡ digit d0
    → decode_table s1 ≡ digit d1
    → decode_table s2 ≡ e2
    → decode_table s3 ≡ e3
    → is_invalid e2 ≡ false
    → is_invalid e3 ≡ false
    → dst + 3 < max_output
    → let group = decode_group (digit d0) (digit d1) e2 e3 in
      decode_loop i dst (s0 ∷ s1 ∷ s2 ∷ s3 ∷ src)
      ≡ append_to group (decode_loop (i + 4) (dst + length group) src)
unfolding decode_loop
decode_loop_step i dst s0 s1 s2 s3 d0 d1 e2 e3 src h0 h1 h2 h3 v2 v3 room =
    rw (h0, h1, h2, h3, v2, v3, lt→not_leb _ _ room)

pub padding_entry : decode_table b'=' ≡ padding
unfolding decode_table
padding_entry = refl

small0 : (a : ℕ) → index0 a < 64
small0 a = omega (arith, index0_lem a)

small1 : (a b : ℕ) → index1 a b < 64
small1 a b = omega (arith, bit_and_mask 6 (bit_or (a * 16) (b / 16)))

small2 : (b c : ℕ) → index2 b c < 64
small2 b c = omega (arith, bit_and_mask 6 (bit_or (b * 4) (c / 64)))

small3 : (c : ℕ) → index3 c < 64
small3 c = omega (arith, index3_lem c)

-- The decoder's loop undoes the encoder's, from any position that leaves room for the text.
decode_loop-encode_loop :
    (text : Bytes) (i dst : ℕ)
    → All IsCharacter text
    → dst + length text + 3 < max_output
    → decode_loop i dst (encode_loop text) ≡ ok text
unfolding encode_loop
decode_loop-encode_loop [] i dst h room = unfold decode_loop in refl
decode_loop-encode_loop (a ∷ []) i dst h room =
    decode_loop_step i dst _ _ _ _ _ _ _ _ [] (decode_table-letter (index0 a) (small0 a))
      (decode_table-letter (index1 a 0) (small1 a 0)) padding_entry padding_entry refl refl
      (omega arith)
    ∙ rw (group_of_one a h.0.1) (unfold decode_loop in refl)
decode_loop-encode_loop (a ∷ b ∷ []) i dst h room =
    decode_loop_step i dst _ _ _ _ _ _ _ _ [] (decode_table-letter (index0 a) (small0 a))
      (decode_table-letter (index1 a b) (small1 a b))
      (decode_table-letter (index2 b 0) (small2 b 0)) padding_entry refl refl (omega arith)
    ∙ rw (group_of_two a b h.0.1 h.1.0.1) (unfold decode_loop in refl)
decode_loop-encode_loop (a ∷ b ∷ c ∷ text) i dst h room =
    decode_loop_step i dst _ _ _ _ _ _ _ _ (encode_loop text)
      (decode_table-letter (index0 a) (small0 a)) (decode_table-letter (index1 a b) (small1 a b))
      (decode_table-letter (index2 b c) (small2 b c)) (decode_table-letter (index3 c) (small3 c))
      refl refl (omega arith)
    ∙ rw (group_of_three a b c h.0.1 h.1.0.1 h.1.1.0.1) (
        ap (append_to (a ∷ b ∷ c ∷ []))
          (decode_loop-encode_loop text (i + 4) (dst + 3) h.1.1.1 (omega arith)))

pub length-encode_loop : (text : Bytes) → length (encode_loop text) ≡ (length text + 2) / 3 * 4
unfolding encode_loop
length-encode_loop [] = omega arith
length-encode_loop (a ∷ []) = omega arith
length-encode_loop (a ∷ b ∷ []) = omega arith
length-encode_loop (a ∷ b ∷ c ∷ text) = omega (arith, length-encode_loop text)

until_zero_text : (text : Bytes) → All IsCharacter text → until_zero text ≡ text
unfolding until_zero
until_zero_text [] h = refl
until_zero_text (c ∷ s) h = ground (arith, until_zero_text s h.1)

-- The decoder on a nonempty code of the right length.
pub decode_code :
    (code text : Bytes)
    → 0 < length code
    → length code % 4 ≡ 0
    → decode_loop 0 0 code ≡ ok text
    → apply_base64_decode_stage (string code) ≡ ok (until_zero text)
unfolding apply_base64_decode_stage
decode_code [] text h m e = elim h [ ]
decode_code (c ∷ code) text h m e = rw ((==_iff (length (c ∷ code) % 4) 0).1 m, e) refl

encode_code :
    (c : ℕ) (src : Bytes)
    → (length (c ∷ src) + 2) / 3 * 4 < max_output
    → apply_base64_encode_stage (string (c ∷ src)) ≡ ok (encode_loop (c ∷ src))
unfolding apply_base64_encode_stage
encode_code c src h = rw (lt→not_leb _ _ h)

-- `base64_encode` accepts every C string whose code fits the buffer, and `base64_decode` gives the
-- string back from that code.
pub decode-encode_stage :
    (text : Bytes)
    → All IsCharacter text
    → (length text + 2) / 3 * 4 < max_output
    → (code : Bytes) × (apply_base64_encode_stage (string text) ≡ ok code)
      × (apply_base64_decode_stage (string code) ≡ ok text)
decode-encode_stage [] h fits =
    ([], unfold apply_base64_encode_stage in refl, unfold apply_base64_decode_stage in refl)
decode-encode_stage (c ∷ src) h fits =
    let code = encode_loop (c ∷ src) in
    let long = length-encode_loop (c ∷ src) in
    (
      code,
      encode_code c src fits,
      decode_code code (c ∷ src) (omega arith) (omega arith)
            (decode_loop-encode_loop (c ∷ src) 0 0 h (omega arith))
          ∙ ap ok (until_zero_text (c ∷ src) h),
    )
