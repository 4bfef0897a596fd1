-- ===== src/Json/Tests.antt =====
-- Runs of the JSON printer and parser, and the theorem at a value where it applies. Numbers are
-- single digits here.
use arksh.Base.{ℕ, ◌+◌, ◌-◌, ◌≤◌, ◌≡◌, refl, true, false, [], ◌∷◌, arith, Bytes, codes, max_output}
use arksh.Json.{
  Numbers, Value, string, number, boolean, list, map, dict, empty, nil, cons, end, entry,
  unable_to_grow, ok, err,
}
use arksh.Json.Print.{value_to_json_text}
use arksh.Json.Parse.{has_leading_zero, arksh_value_parse_json}
use arksh.Json.Readable.{Numeral, IsReadable, depth, as_read}
use arksh.Json.RoundTrip.{parse-value_to_json_text}

abbrev digit_text : ℕ → Bytes
digit_text x = (b'0' + x) ∷ []

abbrev read_digit : Bytes → ℕ × Bytes
read_digit [] = (0, [])
read_digit (c ∷ s) = (c - b'0', s)

abbrev digits_only : Numbers
digits_only = record {
  Number = ℕ;
  is_special = λ x. false;
  format_double = digit_text;
  format_float = digit_text;
  format_integer = digit_text;
  format_int = digit_text;
  strtod = read_digit;
}

-- `{"a\n": [7, true, "x\"\u001f"], "b": {}}`
abbrev value : Value ℕ
value = dict (
    entry (b'a' ∷ 10 ∷ [])
      (list (cons (number 7) (cons (boolean true) (cons (string (b'x' ∷ b'"' ∷ 31 ∷ [])) nil))))
      (entry (b'b' ∷ []) (map end) end))

abbrev text : Bytes
text = codes "{\"a\\n\":[7,true,\"x\\\"\\u001f\"],\"b\":{}}"

value_printed : value_to_json_text digits_only max_output value ≡ ok text
unfolding value_to_json_text
value_printed = refl

blanks :
    arksh_value_parse_json digits_only (codes " [ 1 , null , { \"k\" : \"\\u00e9\" } ] ")
    ≡ ok (
        list (
          cons
            (number 1)
            (cons empty (cons (map (entry (b'k' ∷ []) (string (0xC3 ∷ 0xA9 ∷ [])) end)) nil))))
unfolding arksh_value_parse_json
blanks = refl

-- An empty key is refused, and a zero character ends the text.
empty_key : arksh_value_parse_json digits_only (codes "{\"\":1}") ≡ err unable_to_grow
unfolding arksh_value_parse_json
empty_key = refl

zero_character :
    arksh_value_parse_json digits_only (codes "\"a\\u0000b\"") ≡ ok (string (b'a' ∷ []))
unfolding arksh_value_parse_json
zero_character = refl

seven_no_zero : (s : Bytes) → has_leading_zero (b'7' ∷ s) ≡ false
seven_no_zero [] = refl
seven_no_zero (c ∷ s) = refl

seven : Numeral digits_only (digit_text 7) 7
seven = record {
  first = b'7';
  more = [];
  split = refl;
  begins = refl;
  no_leading_zero = λ s h. seven_no_zero s;
  fits = omega arith;
  reads = λ s h. refl;
}

value-IsReadable : IsReadable digits_only value
unfolding IsReadable
value-IsReadable = (
  omega arith,
  omega arith,
  (refl, (refl, tt)),
  (refl, tt),
  ((λ h. seven), (tt, ((refl, (refl, (refl, tt))), tt))),
  (omega arith, omega arith, (refl, tt), tt, tt, tt),
)

value-shallow : depth digits_only value ≤ 129
unfolding depth
value-shallow = omega arith

parse-value_to_json_text_example :
    arksh_value_parse_json digits_only text ≡ ok (as_read digits_only value)
parse-value_to_json_text_example =
    parse-value_to_json_text digits_only value text value-IsReadable value-shallow value_printed
