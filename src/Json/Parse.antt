-- ===== src/Json/Parse.antt =====
-- `arksh_value_parse_json` of src/object.c. A cursor is the list of the characters that are left.
-- `level` is how much deeper the nesting may get; the loops over the elements take fuel, one more
-- than the characters left. Memory is there.
use arksh.Base.{
  same_text, ℕ, zero, suc, ◌+◌, Bool, true, false, ◌&&◌, ◌||◌, [], ◌∷◌, leb, ◌==◌, if◌then◌else◌,
  length, drop, Bytes, codes, max_output,
}
use arksh.Json.{
  Numbers, Value, Items, Entries, empty, string, number, boolean, list, map, nil, cons, end, entry,
  invalid_number, leading_zero, expected_in_array, unterminated_array, expected_key, expected_colon,
  unable_to_grow, expected_in_object, unterminated_object, too_deep, invalid_value,
  trailing_content, out_of_fuel, Result, ok, err, ◌>>=◌,
}
use arksh.Json.Text.{json_skip_ws, json_parse_string}

-- `strncmp(*cursor, literal, strlen(literal)) == 0`
abbrev pub starts_with : Bytes → Bytes → Bool
starts_with [] s = true
starts_with (c ∷ literal) [] = false
starts_with (c ∷ literal) (d ∷ s) = d == c && starts_with literal s

abbrev pub is_digit : ℕ → Bool
is_digit c = leb b'0' c && leb c b'9'

-- `json_is_number_delimiter` of the character that follows.
abbrev pub at_delimiter : Bytes → Bool
at_delimiter [] = true
at_delimiter (c ∷ s) =
    c == b',' || c == b']' || c == b'}' || c == b' ' || c == 9 || c == 10 || c == 13

-- `0` and a digit in front, behind a `-`.
abbrev zero_and_digit : Bytes → Bool
zero_and_digit (c ∷ d ∷ s) = c == b'0' && is_digit d
zero_and_digit s = false

abbrev pub has_leading_zero : Bytes → Bool
has_leading_zero [] = false
has_leading_zero (c ∷ s) = if c == b'-' then zero_and_digit s else zero_and_digit (c ∷ s)

module _ (n : Numbers) where
  -- `arksh_value_list_append_value`
  unfoldable pub append_value : Items n.Number → Value n.Number → Items n.Number
  append_value nil value = cons value nil
  append_value (cons item items) value = cons item (append_value items value)

  -- The entries of `arksh_value_map_set` after its guard: the key's entry is replaced.
  unfoldable pub set_entry : Entries n.Number → Bytes → Value n.Number → Entries n.Number
  set_entry end key value = entry key value end
  set_entry (entry k item entries) key value =
      if same_text k key then entry k value entries else entry k item (set_entry entries key value)

  unfoldable pub map_set : Entries n.Number → Bytes → Value n.Number → Result (Entries n.Number)
  unfolding set_entry
  map_set entries [] value = err unable_to_grow
  map_set entries (c ∷ key) value = ok (set_entry entries (c ∷ key) value)

  abbrev pub Parser : Type 0
  Parser = Bytes → Result (Value n.Number × Bytes)

  unfoldable pub json_parse_number : Parser
  json_parse_number s =
      let (x, rest) = n.strtod s in
      if length rest == length s
      then err invalid_number
      else if at_delimiter rest
      then ok (number x, rest)
      else err invalid_number

  module _ (json_parse_value : Parser) where
    -- What follows an element.
    unfoldable pub after_item :
        (Bytes → Result (Value n.Number × Bytes))
        → Items n.Number
        → Bytes
        → Result (Value n.Number × Bytes)
    unfolding json_skip_ws
    after_item next items [] = err expected_in_array
    after_item next items (c ∷ s) =
        if c == b']'
        then ok (list items, s)
        else if c == b','
        then next (json_skip_ws s)
        else err expected_in_array

    unfoldable pub array_loop : ℕ → Items n.Number → Parser
    unfolding after_item json_skip_ws append_value
    array_loop zero items s = err out_of_fuel
    array_loop (suc fuel) items [] = err unterminated_array
    array_loop (suc fuel) items (c ∷ s) = do
      (value, rest) ← json_parse_value (c ∷ s)
      let longer = append_value items value
      after_item (array_loop fuel longer) longer (json_skip_ws rest)

    -- `json_parse_array`, behind the `[`.
    unfoldable pub json_parse_array : Parser
    unfolding array_loop json_skip_ws
    json_parse_array s =
        if starts_with (codes "]") (json_skip_ws s)
        then ok (list nil, drop 1 (json_skip_ws s))
        else array_loop (length (json_skip_ws s) + 1) nil (json_skip_ws s)

    -- The value behind a key, and the map with it.
    unfoldable pub after_key : Entries n.Number → Bytes → Bytes → Result (Entries n.Number × Bytes)
    unfolding map_set json_skip_ws
    after_key entries key [] = err expected_colon
    after_key entries key (c ∷ s) =
        if c == b':'
        then (do
          (value, rest) ← json_parse_value (json_skip_ws s)
          longer ← map_set entries key value
          ok (longer, rest))
        else err expected_colon

    unfoldable pub after_entry : Parser → Entries n.Number → Parser
    unfolding json_skip_ws
    after_entry next entries [] = err expected_in_object
    after_entry next entries (c ∷ s) =
        if c == b'}'
        then ok (map entries, s)
        else if c == b','
        then next (json_skip_ws s)
        else err expected_in_object

    unfoldable pub object_loop : ℕ → Entries n.Number → Parser
    unfolding after_key after_entry json_skip_ws json_parse_string
    object_loop zero entries s = err out_of_fuel
    object_loop (suc fuel) entries [] = err unterminated_object
    object_loop (suc fuel) entries (c ∷ s) =
        let read = (do
          (key, rest) ← json_parse_string 128 (c ∷ s)
          (longer, behind) ← after_key entries key (json_skip_ws rest)
          after_entry (object_loop fuel longer) longer (json_skip_ws behind)) in
        if c == b'"' then read else err expected_key

    -- `json_parse_object`, behind the `{`.
    unfoldable pub json_parse_object : Parser
    unfolding object_loop json_skip_ws
    json_parse_object s =
        if starts_with (codes "}") (json_skip_ws s)
        then ok (map end, drop 1 (json_skip_ws s))
        else object_loop (length (json_skip_ws s) + 1) end (json_skip_ws s)

    -- `json_parse_value_internal` behind the blanks, by the first character.
    unfoldable pub value_here : ℕ → Parser
    unfolding json_parse_string json_parse_array json_parse_object json_parse_number
    value_here c s =
        if c == b'"'
        then (do (text, rest) ← json_parse_string max_output (c ∷ s); ok (string text, rest))
        else if c == b'['
        then json_parse_array s
        else if c == b'{'
        then json_parse_object s
        else if starts_with (codes "true") (c ∷ s)
        then ok (boolean true, drop 3 s)
        else if starts_with (codes "false") (c ∷ s)
        then ok (boolean false, drop 4 s)
        else if starts_with (codes "null") (c ∷ s)
        then ok (empty, drop 3 s)
        else if c == b'-' || is_digit c
        then (if has_leading_zero (c ∷ s) then err leading_zero else json_parse_number (c ∷ s))
        else err invalid_value

    unfoldable pub value_at : Parser
    unfolding value_here
    value_at [] = err invalid_value
    value_at (c ∷ s) = value_here c s

  -- `json_parse_value_internal`, where `depth` is 129 less the level.
  unfoldable pub json_parse_value_internal : ℕ → Parser
  unfolding value_at json_skip_ws
  json_parse_value_internal zero s = err too_deep
  json_parse_value_internal (suc level) s =
      value_at (json_parse_value_internal level) (json_skip_ws s)

  -- `arksh_value_parse_json`
  unfoldable pub arksh_value_parse_json : Bytes → Result (Value n.Number)
  unfolding json_parse_value_internal json_skip_ws
  arksh_value_parse_json text = do
    (value, rest) ← json_parse_value_internal 129 text
    elim (json_skip_ws rest) [ [] ↦ ok value | c ∷ s ↦ err trailing_content ]
