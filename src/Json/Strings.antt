-- ===== src/Json/Strings.antt =====
-- `json_parse_string` of src/object.c on what `append_json_escaped_string` wrote.
use arksh.Base.{
  ℕ, zero, suc, ◌+◌, ◌*◌, ◌/◌, ◌%◌, ◌≤◌, ◌<◌, ◌≡◌, refl, sym, ap, subst, ◌∙◌, true, false,
  Bool-cases, inl, inr, some, [], ◌∷◌, ◌++◌, append_assoc, append-nil, arith, ltb, leb, ◌==◌,
  ==_iff, length, length-append, All, Bytes,
}
use arksh.Json.{ok, ◌>>=◌}
use arksh.Json.Text.{
  append_char, hex_char, escaped, hex_value, hex_digits, code_point, utf8, append_chars,
  json_parse_unicode_escape, push, simple_escape, escape_step, string_loop, c_string,
  json_parse_string,
}
use arksh.Json.Written.{escape_all, quoted}

-- The bytes of a C string.
abbrev pub IsText : Bytes → Type 0
IsText = All (λ c. (c == 0) ≡ false)

hex_value-hex_char : (d : ℕ) → d < 16 → hex_value (hex_char d) ≡ some d
unfolding hex_value
hex_value-hex_char d h = ground arith

hex_digits_here :
    (n cp d : ℕ) (s : Bytes)
    → d < 16
    → hex_digits (suc n) cp (hex_char d ∷ s) ≡ hex_digits n (cp * 16 + d) s
unfolding hex_digits
hex_digits_here n cp d s h = rw (hex_digits, hex_value-hex_char d h) refl

-- `\u00` and two digits stand for a control character.
hex_digits_control :
    (c : ℕ) (s : Bytes)
    → c < 0x20
    → hex_digits 4 0 (b'0' ∷ b'0' ∷ hex_char (c / 16) ∷ hex_char (c % 16) ∷ s) ≡ ok (c, s)
unfolding hex_digits
hex_digits_control c s h =
    hex_digits_here 3 0 0 (b'0' ∷ hex_char (c / 16) ∷ hex_char (c % 16) ∷ s) (omega arith)
    ∙ hex_digits_here 2 0 0 (hex_char (c / 16) ∷ hex_char (c % 16) ∷ s) (omega arith)
    ∙ hex_digits_here 1 0 (c / 16) (hex_char (c % 16) ∷ s) (omega arith)
    ∙ hex_digits_here 0 (0 * 16 + c / 16) (c % 16) s (omega arith)
    ∙ ap (λ v. ok (v, s)) (omega arith)

push_fits :
    (out_size : ℕ) (out : Bytes) (c : ℕ)
    → length out + 1 < out_size
    → push out_size out c ≡ ok (out ++ c ∷ [])
unfolding push
push_fits out_size out c h =
    let fits : leb out_size (length out + 1) ≡ false = ground arith in rw fits refl

unicode_control :
    (out_size : ℕ) (out : Bytes) (c : ℕ) (s : Bytes)
    → c < 0x20
    → length out + 1 < out_size
    → json_parse_unicode_escape out_size out
        (b'0' ∷ b'0' ∷ hex_char (c / 16) ∷ hex_char (c % 16) ∷ s)
      ≡ ok (out ++ c ∷ [], s)
unfolding json_parse_unicode_escape code_point utf8 append_chars append_char
unicode_control out_size out c s h short =
    let no_high : leb 0xD800 c ≡ false = ground arith in
    let no_low : leb 0xDC00 c ≡ false = ground arith in
    let one_byte : leb c 0x7F ≡ true = ground arith in
    let fits : leb out_size (length out + 1) ≡ false = ground arith in
    rw
      (
        json_parse_unicode_escape,
        code_point,
        hex_digits_control c s h,
        no_high,
        no_low,
        utf8,
        one_byte,
        append_chars,
        append_char,
        fits,
      )
      refl

escaped_plain :
    (c : ℕ) → (c == b'"') ≡ false → (c == b'\\') ≡ false → ltb c 0x20 ≡ false → escaped c ≡ c ∷ []
unfolding escaped
escaped_plain c h k m =
    let no_backspace : (c == 8) ≡ false = ground arith in
    let no_feed : (c == 12) ≡ false = ground arith in
    let no_newline : (c == 10) ≡ false = ground arith in
    let no_return : (c == 13) ≡ false = ground arith in
    let no_tab : (c == 9) ≡ false = ground arith in
    rw (h, k, no_backspace, no_feed, no_newline, no_return, no_tab, m) refl

-- One turn of the loop reads one character.
module _ (fuel out_size : ℕ) (out s : Bytes) (short : length out + 1 < out_size) where
  abbrev IsRead : ℕ → Type 0
  IsRead c =
      string_loop (suc fuel) out_size out (escaped c ++ s)
      ≡ string_loop fuel out_size (out ++ c ∷ []) s

  pushed :
      (c : ℕ)
      → (push out_size out c >>= λ longer. string_loop fuel out_size longer s)
        ≡ string_loop fuel out_size (out ++ c ∷ []) s
  pushed c =
      ap (λ r. r >>= λ longer. string_loop fuel out_size longer s) (push_fits out_size out c short)

  same_as : (c k : ℕ) → (c == k) ≡ true → IsRead k → IsRead c
  same_as c k e h = subst IsRead (sym ((==_iff c k).0 e)) h

  plain-IsRead :
      (c : ℕ) → (c == b'"') ≡ false → (c == b'\\') ≡ false → ltb c 0x20 ≡ false → IsRead c
  unfolding string_loop
  plain-IsRead c h k m =
      ap (λ t. string_loop (suc fuel) out_size out (t ++ s)) (escaped_plain c h k m)
      ∙ rw (h, k, m) (pushed c)

  control-IsRead :
      (c : ℕ)
      → c < 0x20
      → (c == 8) ≡ false
      → (c == 12) ≡ false
      → (c == 10) ≡ false
      → (c == 13) ≡ false
      → (c == 9) ≡ false
      → IsRead c
  unfolding string_loop escape_step escaped
  control-IsRead c h no_backspace no_feed no_newline no_return no_tab =
      let no_quote : (c == b'"') ≡ false = ground arith in
      let no_slash : (c == b'\\') ≡ false = ground arith in
      let small : ltb c 0x20 ≡ true = ground arith in
      rw (no_quote, no_slash, no_backspace, no_feed, no_newline, no_return, no_tab, small)
        (ap (λ r. r >>= λ p. string_loop fuel out_size p.0 p.1)
          (unicode_control out_size out c s h short))

  char-IsRead : (c : ℕ) → IsRead c
  unfolding string_loop escape_step simple_escape escaped
  char-IsRead c = elim (Bool-cases (c == b'"')) [
    | inl e ↦ same_as c b'"' e (pushed b'"')
    | inr no_quote ↦ elim (Bool-cases (c == b'\\')) [
      | inl e ↦ same_as c b'\\' e (pushed b'\\')
      | inr no_slash ↦ elim (Bool-cases (c == 8)) [
        | inl e ↦ same_as c 8 e (pushed 8)
        | inr no_backspace ↦ elim (Bool-cases (c == 12)) [
          | inl e ↦ same_as c 12 e (pushed 12)
          | inr no_feed ↦ elim (Bool-cases (c == 10)) [
            | inl e ↦ same_as c 10 e (pushed 10)
            | inr no_newline ↦ elim (Bool-cases (c == 13)) [
              | inl e ↦ same_as c 13 e (pushed 13)
              | inr no_return ↦ elim (Bool-cases (c == 9)) [
                | inl e ↦ same_as c 9 e (pushed 9)
                | inr no_tab ↦ elim (Bool-cases (ltb c 0x20)) [
                  | inl small ↦
                      control-IsRead c (ground arith) no_backspace no_feed no_newline no_return
                        no_tab
                  | inr large ↦ plain-IsRead c no_quote no_slash large
                ]
              ]
            ]
          ]
        ]
      ]
    ]
  ]

escaped_some : (c : ℕ) → 1 ≤ length (escaped c)
unfolding escaped
escaped_some c = ground arith

text_read :
    (fuel out_size : ℕ) (out text s : Bytes)
    → length text < fuel
    → length out + length text < out_size
    → string_loop fuel out_size out (escape_all text ++ b'"' ∷ s) ≡ ok (out ++ text, s)
unfolding string_loop escape_all
text_read zero out_size out text s h k = elim h [ ]
text_read (suc fuel) out_size out [] s h k = ap (λ t. ok (t, s)) (sym (append-nil out))
text_read (suc fuel) out_size out (c ∷ text) s h k =
    let longer = length-append out (c ∷ []) in
    ap (string_loop (suc fuel) out_size out) (append_assoc (escaped c) (escape_all text) (b'"' ∷ s))
    ∙ char-IsRead fuel out_size out (escape_all text ++ b'"' ∷ s) (omega arith) c
    ∙ text_read fuel out_size (out ++ c ∷ []) text s (omega arith) (omega (arith, longer))
    ∙ ap (λ t. ok (t, s)) (append_assoc out (c ∷ []) text)

c_string-IsText : (text : Bytes) → IsText text → c_string text ≡ text
unfolding c_string
c_string-IsText [] h = refl
c_string-IsText (c ∷ text) (h, k) = rw h (ap (◌∷◌ c) (c_string-IsText text k))

escape_all_longer : (text : Bytes) → length text ≤ length (escape_all text)
unfolding escape_all
escape_all_longer [] = omega arith
escape_all_longer (c ∷ text) =
    omega
      (arith, escaped_some c, length-append (escaped c) (escape_all text), escape_all_longer text)

pub quoted_longer : (text : Bytes) → length text + 2 ≤ length (quoted text)
unfolding quoted
quoted_longer text =
    omega (arith, escape_all_longer text, length-append (escape_all text) (b'"' ∷ []))

pub json_parse_string-quoted :
    (out_size : ℕ) (text s : Bytes)
    → IsText text
    → length text < out_size
    → json_parse_string out_size (quoted text ++ s) ≡ ok (text, s)
unfolding json_parse_string quoted
json_parse_string-quoted out_size text s h k =
    let body = escape_all text ++ b'"' ∷ s in
    let split = append_assoc (escape_all text) (b'"' ∷ []) s in
    let enough = length-append (escape_all text) (b'"' ∷ s) in
    ap (λ t. string_loop (length t + 1) out_size [] t >>= λ p. ok (c_string p.0, p.1)) split
    ∙ ap (λ r. r >>= λ p. ok (c_string p.0, p.1))
        (text_read (length body + 1) out_size [] text s
          (omega (arith, enough, escape_all_longer text)) (omega arith))
    ∙ ap (λ t. ok (t, s)) (c_string-IsText text h)
