-- ===== src/Json/Elements.antt =====
-- The pieces of `json_parse_value_internal` of src/object.c on written text: how a value begins,
-- numbers, and one turn of the loops over elements.
use arksh.Base.{
  ℕ, suc, ◌-◌, ◌<◌, ◌≡◌, refl, sym, ap, subst, ◌∙◌, inl, inr, true, false, Bool-cases, ◌||◌, [],
  ◌∷◌, ◌++◌, arith, ◌==◌, if◌then◌else◌, length, length-append, take_all, Bytes, codes, copy_string,
  max_output,
}
use arksh.Json.{
  Numbers, Value, Items, Entries, empty, string, number, integer, float, double, imaginary, boolean,
  object, block, class, instance_of, list, map, dict, invalid_number, Result, ok, err, ◌>>=◌,
}
use arksh.Json.Text.{json_skip_ws}
use arksh.Json.Parse.{
  starts_with, at_delimiter, is_digit, has_leading_zero, append_value, map_set, Parser,
  json_parse_number, after_item, array_loop, after_key, after_entry, object_loop, value_here,
  value_at,
}
use arksh.Json.Strings.{json_parse_string-quoted, IsText}
use arksh.Json.Written.{quoted, written}
use arksh.Json.Readable.{Numeral, IsReadable}

-- A text that begins with no blank and does not close a list.
abbrev pub Begins : Bytes → Type 0
Begins [] = ⊥
Begins (c ∷ s) = ((c == b' ' || c == 9 || c == 10 || c == 13) ≡ false) × ((c == b']') ≡ false)

pub json_skip_ws-Begins : (t : Bytes) → Begins t → json_skip_ws t ≡ t
unfolding json_skip_ws
json_skip_ws-Begins [] h = elim h [ ]
json_skip_ws-Begins (c ∷ t) (h, k) = rw h refl

pub not_closed : (t : Bytes) → Begins t → starts_with (codes "]") t ≡ false
not_closed [] h = elim h [ ]
not_closed (c ∷ t) (h, k) = rw k refl

module _ (n : Numbers) where
  Numeral-Begins :
      (text : Bytes) (x : n.Number)
      → Numeral n text x
      → (s : Bytes) → Begins (copy_string max_output text ++ s)
  Numeral-Begins text x num s =
      let c = num.first in
      let begins = num.begins in
      let fits = num.fits in
      subst (λ t. Begins (t ++ s)) (sym (take_all (max_output - 1) text (omega arith) ∙ num.split))
        (ground arith, ground arith)

  pub written-Begins :
      (v : Value n.Number) → IsReadable n v → (s : Bytes) → Begins (written n v ++ s)
  unfolding written IsReadable quoted
  written-Begins empty h s = (refl, refl)
  written-Begins (string text) h s = (refl, refl)
  written-Begins (number x) h s = elim (Bool-cases (n.is_special x)) [
    | inl e ↦ rw e (refl, refl)
    | inr e ↦ rw e (Numeral-Begins (n.format_double x) x (h e) s)
  ]
  written-Begins (integer x) h s = Numeral-Begins (n.format_integer x) x h s
  written-Begins (float x) h s = Numeral-Begins (n.format_float x) x h s
  written-Begins (double x) h s = Numeral-Begins (n.format_double x) x h s
  written-Begins (imaginary x) h s = (refl, refl)
  written-Begins (boolean true) h s = (refl, refl)
  written-Begins (boolean false) h s = (refl, refl)
  written-Begins (object path) h s = (refl, refl)
  written-Begins (block source) h s = (refl, refl)
  written-Begins (class name) h s = (refl, refl)
  written-Begins (instance_of name id) h s = (refl, refl)
  written-Begins (list items) h s = (refl, refl)
  written-Begins (map entries) h s = (refl, refl)
  written-Begins (dict entries) h s = (refl, refl)

  number_lem :
      (s rest : Bytes) (x : n.Number)
      → n.strtod s ≡ (x, rest)
      → length rest < length s
      → at_delimiter rest ≡ true
      → json_parse_number n s ≡ ok (number x, rest)
  unfolding json_parse_number
  number_lem s rest x e shorter delimited =
      let moved : (length rest == length s) ≡ false = ground arith in
      ap checked e ∙ rw (moved, delimited) refl
    where
      checked : n.Number × Bytes → Result (Value n.Number × Bytes)
      checked (y, t) =
          if length t == length s
          then err invalid_number
          else if at_delimiter t
          then ok (number y, t)
          else err invalid_number

  module _ (parse : Parser n) where
    numeral_here :
        (c : ℕ) (t s : Bytes) (x : n.Number)
        → (c == b'-' || is_digit c) ≡ true
        → has_leading_zero (c ∷ (t ++ s)) ≡ false
        → n.strtod (c ∷ (t ++ s)) ≡ (x, s)
        → at_delimiter s ≡ true
        → value_here n parse c (t ++ s) ≡ ok (number x, s)
    unfolding value_here
    numeral_here c t s x begins no_zero read delimited =
        let no_quote : (c == b'"') ≡ false = ground arith in
        let no_list : (c == b'[') ≡ false = ground arith in
        let no_map : (c == b'{') ≡ false = ground arith in
        let no_true : (c == b't') ≡ false = ground arith in
        let no_false : (c == b'f') ≡ false = ground arith in
        let no_null : (c == b'n') ≡ false = ground arith in
        rw (no_quote, no_list, no_map, no_true, no_false, no_null, begins, no_zero)
          (number_lem (c ∷ (t ++ s)) s x read (omega (arith, length-append t s)) delimited)

    pub Numeral-read :
        (text : Bytes) (x : n.Number) (s : Bytes)
        → Numeral n text x
        → at_delimiter s ≡ true
        → value_at n parse (json_skip_ws (copy_string max_output text ++ s)) ≡ ok (number x, s)
    unfolding value_at
    Numeral-read text x s num delimited =
        let fits = num.fits in
        let whole = take_all (max_output - 1) text (omega arith) in
        let split = num.split in
        ap (value_at n parse) (json_skip_ws-Begins _ (Numeral-Begins text x num s))
        ∙ ap (λ t. value_at n parse (t ++ s)) (whole ∙ split)
        ∙ numeral_here num.first num.more s x num.begins
            (subst (λ t. has_leading_zero (t ++ s) ≡ false) split (num.no_leading_zero s delimited))
            (subst (λ t. n.strtod (t ++ s) ≡ (x, s)) split (num.reads s delimited)) delimited

    pub string_read :
        (text s : Bytes)
        → IsText text
        → length text < max_output
        → value_at n parse (json_skip_ws (quoted text ++ s)) ≡ ok (string text, s)
    unfolding value_at value_here quoted json_skip_ws
    string_read text s h short =
        ap (λ r. r >>= λ p. ok (string p.0, p.1))
          (json_parse_string-quoted max_output text s h short)

    -- One turn of the loop of an array, where the element is read.
    pub element_read :
        (f : ℕ) (acc : Items n.Number) (t rest : Bytes) (v : Value n.Number)
        → Begins t
        → parse t ≡ ok (v, rest)
        → array_loop n parse (suc f) acc t
          ≡ after_item n parse
              (array_loop n parse f (append_value n acc v))
              (append_value n acc v)
              (json_skip_ws rest)
    unfolding array_loop
    element_read f acc [] rest v h e = elim h [ ]
    element_read f acc (c ∷ t) rest v h e =
        ap
          (λ r. r >>= λ p.
            after_item n parse (array_loop n parse f (append_value n acc p.0))
              (append_value n acc p.0) (json_skip_ws p.1))
          e

    -- One turn of the loop of an object, where the value behind the key is read.
    pub member_read :
        (f : ℕ) (acc longer : Entries n.Number) (key t rest : Bytes) (v : Value n.Number)
        → IsText key
        → length key < 128
        → Begins t
        → parse t ≡ ok (v, rest)
        → map_set n acc key v ≡ ok longer
        → object_loop n parse (suc f) acc (quoted key ++ (b':' ∷ t))
          ≡ after_entry n parse (object_loop n parse f longer) longer (json_skip_ws rest)
    unfolding object_loop after_key quoted json_skip_ws
    member_read f acc longer key t rest v h short begins e m =
        ap (λ r. r >>= λ x. after_key n parse acc x.0 (json_skip_ws x.1) >>= behind)
          (json_parse_string-quoted 128 key (b':' ∷ t) h short)
        ∙ ap (λ u. parse u >>= with_value >>= behind) (json_skip_ws-Begins t begins)
        ∙ ap (λ r. r >>= with_value >>= behind) e
        ∙ ap (λ r. r >>= (λ l. ok (l, rest)) >>= behind) m
      where
        behind : Entries n.Number × Bytes → Result (Value n.Number × Bytes)
        behind x = after_entry n parse (object_loop n parse f x.0) x.0 (json_skip_ws x.1)

        with_value : Value n.Number × Bytes → Result (Entries n.Number × Bytes)
        with_value q = map_set n acc key q.0 >>= λ l. ok (l, q.1)
