-- ===== src/Json/Print.antt =====
-- `value_to_json_text` of src/object.c, without matrices. The text of a nested value goes into a
-- buffer of ARKSH_MAX_OUTPUT characters before it is appended.
use arksh.Base.{
  ℕ, Bool, true, false, [], ◌∷◌, ◌++◌, ◌==◌, if◌then◌else◌, Bytes, codes, copy_string, max_output,
}
use arksh.Json.{
  Numbers, Value, Items, Entries, empty, string, number, integer, float, double, imaginary, boolean,
  object, block, class, instance_of, list, map, dict, nil, cons, end, entry, no_room, Result, ok,
  err, ◌>>=◌,
}
use arksh.Json.Text.{append_char, append_text, append_json_escaped_string}

-- `if (i > 0 && append_char(…, ',') != 0)`
unfoldable pub separate : ℕ → Bool → Bytes → Result Bytes
unfolding append_char
separate out_size true out = ok out
separate out_size false out = append_char out_size out b','

module _ (n : Numbers) where
  -- `format_number_json`
  abbrev pub format_number_json : n.Number → Bytes
  format_number_json x = if n.is_special x then codes "null" else n.format_double x

  -- `format_number_by_kind` for the imaginary kind, into 64 characters.
  abbrev pub imaginary_text : n.Number → Bytes
  imaginary_text x = copy_string 64 (copy_string 64 (n.format_double x) ++ b'i' ∷ [])

  abbrev pub label : Bytes → n.Number → Bytes
  label name id = copy_string max_output (name ++ b'#' ∷ n.format_int id)

  unfoldable mutual
    unfolding append_char append_text append_json_escaped_string separate

    pub json_text : ℕ → Value n.Number → Result Bytes
    json_text out_size empty = ok (copy_string out_size (codes "null"))
    json_text out_size (string text) = append_json_escaped_string out_size text
    json_text out_size (number x) = ok (copy_string out_size (format_number_json x))
    json_text out_size (integer x) = ok (copy_string out_size (n.format_integer x))
    json_text out_size (float x) = ok (copy_string out_size (n.format_float x))
    json_text out_size (double x) = ok (copy_string out_size (n.format_double x))
    json_text out_size (imaginary x) = append_json_escaped_string out_size (imaginary_text x)
    json_text out_size (boolean true) = ok (copy_string out_size (codes "true"))
    json_text out_size (boolean false) = ok (copy_string out_size (codes "false"))
    json_text out_size (object path) = append_json_escaped_string out_size path
    json_text out_size (block source) = append_json_escaped_string out_size source
    json_text out_size (class name) = append_json_escaped_string out_size name
    json_text out_size (instance_of name id) = append_json_escaped_string out_size (label name id)
    json_text out_size (list items) = do
      opened ← append_char out_size [] b'['
      filled ← items_text out_size true opened items
      append_char out_size filled b']'
    json_text out_size (map entries) = do
      opened ← append_char out_size [] b'{'
      filled ← entries_text out_size true opened entries
      append_char out_size filled b'}'
    json_text out_size (dict entries) = do
      opened ← append_char out_size [] b'{'
      filled ← entries_text out_size true opened entries
      append_char out_size filled b'}'

    pub items_text : ℕ → Bool → Bytes → Items n.Number → Result Bytes
    items_text out_size first out nil = ok out
    items_text out_size first out (cons item items) = do
      item_json ← json_text max_output item
      separated ← separate out_size first out
      longer ← append_text out_size separated item_json
      items_text out_size false longer items

    pub entries_text : ℕ → Bool → Bytes → Entries n.Number → Result Bytes
    entries_text out_size first out end = ok out
    entries_text out_size first out (entry key item entries) = do
      key_json ← append_json_escaped_string max_output key
      item_json ← json_text max_output item
      separated ← separate out_size first out
      with_key ← append_text out_size separated key_json
      with_colon ← append_char out_size with_key b':'
      longer ← append_text out_size with_colon item_json
      entries_text out_size false longer entries

  -- `arksh_value_to_json`, but for its message.
  unfoldable pub value_to_json_text : ℕ → Value n.Number → Result Bytes
  unfolding json_text
  value_to_json_text out_size value =
      if out_size == 0 then err no_room else json_text out_size value
