-- ===== src/Json/RoundTrip.antt =====
-- `arksh_value_parse_json` of src/object.c on what `arksh_value_to_json` printed.
use arksh.Base.{
  ℕ, zero, suc, ◌≤◌, ◌<◌, ◌≡◌, refl, sym, ap, subst, ◌∙◌, inl, inr, true, false, Bool-cases, [],
  ◌∷◌, ◌++◌, append-nil, arith, if◌then◌else◌, length, Bytes, copy_string, max_output,
}
use arksh.Json.{
  Numbers, Value, Items, Entries, empty, string, number, integer, float, double, imaginary, boolean,
  object, block, class, instance_of, list, map, dict, nil, cons, end, entry, trailing_content,
  Result, ok, err, ◌>>=◌,
}
use arksh.Json.Text.{json_skip_ws}
use arksh.Json.Print.{imaginary_text, label, format_number_json, value_to_json_text}
use arksh.Json.Parse.{
  at_delimiter, value_here, value_at, json_parse_value_internal, arksh_value_parse_json,
}
use arksh.Json.Strings.{IsText, quoted_longer}
use arksh.Json.Written.{Gives, Holds, quoted, written}
use arksh.Json.Prints.{json_text-Holds}
use arksh.Json.Readable.{
  Numeral, as_read, depth, items_depth, entries_depth, IsReadable, AreReadable, IsReadableMap,
}
use arksh.Json.Elements.{Numeral-read, string_read}
use arksh.Json.Maps.{
  EntriesReadAt, entries_none, entries_more, map_end, map_entry, end-AllAbsent, chain,
}
use arksh.Json.Lists.{join, items_none, ReadsAt, ItemsReadAt, items_more, list_nil, list_cons}

module _ (n : Numbers) where
  depth_some : (v : Value n.Number) → 1 ≤ depth n v
  unfolding depth
  depth_some empty = omega arith
  depth_some (string text) = omega arith
  depth_some (number x) = omega arith
  depth_some (integer x) = omega arith
  depth_some (float x) = omega arith
  depth_some (double x) = omega arith
  depth_some (imaginary x) = omega arith
  depth_some (boolean b) = omega arith
  depth_some (object path) = omega arith
  depth_some (block source) = omega arith
  depth_some (class name) = omega arith
  depth_some (instance_of name id) = omega arith
  depth_some (list items) = omega arith
  depth_some (map entries) = omega arith
  depth_some (dict entries) = omega arith

  -- A text that is read where a string is quoted.
  quoted_read :
      (level : ℕ) (text s : Bytes)
      → IsText text
      → length (quoted text) < max_output
      → json_parse_value_internal n (suc level) (quoted text ++ s) ≡ ok (string text, s)
  unfolding json_parse_value_internal
  quoted_read level text s h short =
      string_read n (json_parse_value_internal n level) text s h (omega (arith, quoted_longer text))

  number_read :
      (level : ℕ) (x : n.Number) (s : Bytes)
      → (n.is_special x ≡ false → Numeral n (n.format_double x) x)
      → at_delimiter s ≡ true
      → json_parse_value_internal n
          (suc level)
          (copy_string max_output (format_number_json n x) ++ s)
        ≡ ok (if n.is_special x then empty else number x, s)
  unfolding json_parse_value_internal value_at value_here json_skip_ws
  number_read level x s h delimited = elim (Bool-cases (n.is_special x)) [
    | inl e ↦ rw e refl
    | inr e ↦
        rw e (
          Numeral-read n (json_parse_value_internal n level) (n.format_double x) x s (h e)
            delimited)
  ]

  mutual
    unfolding written as_read depth IsReadable json_parse_value_internal value_at value_here
        json_skip_ws join chain

    value_read :
        (v : Value n.Number)
        → IsReadable n v
        → (level : ℕ) → depth n v ≤ suc level
        → ReadsAt n (suc level) v
    value_read empty h level d s short delimited = refl
    value_read (string text) h level d s short delimited = quoted_read level text s h short
    value_read (number x) h level d s short delimited = number_read level x s h delimited
    value_read (integer x) h level d s short delimited =
        Numeral-read n (json_parse_value_internal n level) (n.format_integer x) x s h delimited
    value_read (float x) h level d s short delimited =
        Numeral-read n (json_parse_value_internal n level) (n.format_float x) x s h delimited
    value_read (double x) h level d s short delimited =
        Numeral-read n (json_parse_value_internal n level) (n.format_double x) x s h delimited
    value_read (imaginary x) h level d s short delimited =
        quoted_read level (imaginary_text n x) s h short
    value_read (boolean true) h level d s short delimited = refl
    value_read (boolean false) h level d s short delimited = refl
    value_read (object path) h level d s short delimited = quoted_read level path s h short
    value_read (block source) h level d s short delimited = quoted_read level source s h short
    value_read (class name) h level d s short delimited = quoted_read level name s h short
    value_read (instance_of name id) h level d s short delimited =
        quoted_read level (label n name id) s h short
    value_read (list nil) h level d s short delimited = list_nil n level s short delimited
    value_read (list (cons item items)) h zero d s short delimited =
        absurd (omega (arith, depth_some item))
    value_read (list (cons item items)) (h, k) (suc level) d s short delimited =
        list_cons n (suc level) item items h (value_read item h level (omega arith))
          (items_read items k level (omega arith)) s short delimited
    value_read (map end) h level d s short delimited = map_end n level s short
    value_read (map (entry key item entries)) h zero d s short delimited =
        absurd (omega (arith, depth_some item))
    value_read (map (entry key item entries)) (a, b, c, e, h, k) (suc level) d s short delimited =
        map_entry n (suc level) key item entries (a, b, c, e, h, k)
          (value_read item h level (omega arith)) (entries_read entries k level (omega arith))
          (end-AllAbsent n entries) s short
    value_read (dict end) h level d s short delimited = map_end n level s short
    value_read (dict (entry key item entries)) h zero d s short delimited =
        absurd (omega (arith, depth_some item))
    value_read (dict (entry key item entries)) (a, b, c, e, h, k) (suc level) d s short delimited =
        map_entry n (suc level) key item entries (a, b, c, e, h, k)
          (value_read item h level (omega arith)) (entries_read entries k level (omega arith))
          (end-AllAbsent n entries) s short

    items_read :
        (items : Items n.Number)
        → AreReadable n items
        → (level : ℕ) → items_depth n items ≤ suc level
        → ItemsReadAt n (suc level) items
    items_read nil h level d = items_none n (suc level)
    items_read (cons item items) (h, k) level d =
        items_more n (suc level) item items h (value_read item h level (omega arith))
          (items_read items k level (omega arith))

    entries_read :
        (entries : Entries n.Number)
        → IsReadableMap n entries
        → (level : ℕ) → entries_depth n entries ≤ suc level
        → EntriesReadAt n (suc level) entries
    entries_read end h level d = entries_none n (suc level)
    entries_read (entry key item entries) (a, b, c, e, h, k) level d =
        entries_more n (suc level) key item entries (a, b, c, e, h, k)
          (value_read item h level (omega arith)) (entries_read entries k level (omega arith))

-- A value that is printed into a buffer of ARKSH_MAX_OUTPUT characters is read back from that text,
-- up to the kinds that JSON does not have: where its texts are C strings, its keys are not empty,
-- fit 127 characters and differ, its nesting is at most 129 deep, and each of its numbers prints as
-- a JSON number that `strtod` reads back. A special number of the plain kind needs no such text and
-- comes back empty; the other kinds of number print an infinity as `inf`, which is no JSON number, so
-- that they are covered where they are not special.
pub parse-value_to_json_text :
    (n : Numbers) (v : Value n.Number) (out : Bytes)
    → IsReadable n v
    → depth n v ≤ 129
    → value_to_json_text n max_output v ≡ ok out
    → arksh_value_parse_json n out ≡ ok (as_read n v)
unfolding value_to_json_text arksh_value_parse_json json_skip_ws
parse-value_to_json_text n v out readable shallow printed =
    let (same, short) =
      subst (Gives (Holds max_output (written n v))) printed (json_text-Holds n v) in
    ap at_end (
      ap (json_parse_value_internal n 129) (same ∙ sym (append-nil (written n v)))
      ∙ value_read n v readable 128 shallow [] (subst (λ t. length t < max_output) same short) refl)
  where
    at_end : Result (Value n.Number × Bytes) → Result (Value n.Number)
    at_end r = do
      (value, rest) ← r
      elim (json_skip_ws rest) [ [] ↦ ok value | c ∷ s ↦ err trailing_content ]
