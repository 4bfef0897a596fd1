-- ===== src/Json/Maps.antt =====
-- Objects of `json_parse_object` of src/object.c on their written text.
use arksh.Base.{
  same_text, ℕ, zero, suc, ◌+◌, ◌≤◌, ◌<◌, ◌≡◌, refl, sym, ap, ◌∙◌, true, false, [], ◌∷◌, ◌++◌,
  append_assoc, arith, length, length-append, Bytes, max_output,
}
use arksh.Json.{Numbers, Value, Entries, map, end, entry, ok}
use arksh.Json.Text.{json_skip_ws}
use arksh.Json.Parse.{
  at_delimiter, set_entry, map_set, Parser, after_entry, object_loop, json_parse_object, value_here,
  value_at, json_parse_value_internal,
}
use arksh.Json.Written.{quoted, written, written_entries}
use arksh.Json.Readable.{as_read, entries_as_read, NotKey, IsReadable, IsReadableMap}
use arksh.Json.Elements.{written-Begins, member_read}
use arksh.Json.Lists.{ReadsAt}

module _ (n : Numbers) where
  unfoldable pub chain : Entries n.Number → Entries n.Number → Entries n.Number
  chain end entries = entries
  chain (entry key item rest) entries = entry key item (chain rest entries)

  chain-end : (entries : Entries n.Number) → chain entries end ≡ entries
  unfolding chain
  chain-end end = refl
  chain-end (entry key item entries) = ap (entry key item) (chain-end entries)

  -- No entry has the key, and none has a key of the others.
  abbrev Absent : Bytes → Entries n.Number → Type 0
  Absent key end = Unit
  Absent key (entry k item entries) = (same_text k key ≡ false) × Absent key entries

  abbrev pub AllAbsent : Entries n.Number → Entries n.Number → Type 0
  AllAbsent acc end = Unit
  AllAbsent acc (entry key item entries) = Absent key acc × AllAbsent acc entries

  set_entry-chain :
      (acc entries : Entries n.Number) (key : Bytes) (v : Value n.Number)
      → Absent key acc
      → chain (set_entry n acc key v) entries ≡ chain acc (entry key v entries)
  unfolding chain set_entry
  set_entry-chain end entries key v h = refl
  set_entry-chain (entry k item acc) entries key v (h, r) =
      rw h (ap (entry k item) (set_entry-chain acc entries key v r))

  set_entry-Absent :
      (acc : Entries n.Number) (key other : Bytes) (v : Value n.Number)
      → Absent key acc
      → Absent other acc
      → same_text key other ≡ false
      → Absent other (set_entry n acc key v)
  unfolding set_entry
  set_entry-Absent end key other v h k m = (m, tt)
  set_entry-Absent (entry x item acc) key other v (h, r) (k, q) m =
      rw h (k, set_entry-Absent acc key other v r q m)

  set_entry-AllAbsent :
      (acc entries : Entries n.Number) (key : Bytes) (v : Value n.Number)
      → Absent key acc
      → NotKey n key entries
      → AllAbsent acc entries
      → AllAbsent (set_entry n acc key v) entries
  set_entry-AllAbsent acc end key v h k m = tt
  set_entry-AllAbsent acc (entry x item entries) key v h (k, q) (m, r) =
      (set_entry-Absent acc key x v h m k, set_entry-AllAbsent acc entries key v h q r)

  map_set_lem :
      (acc : Entries n.Number) (key : Bytes) (v : Value n.Number)
      → 1 ≤ length key
      → map_set n acc key v ≡ ok (set_entry n acc key v)
  unfolding map_set
  map_set_lem acc [] v h = elim h [ ]
  map_set_lem acc (c ∷ key) v h = refl

  abbrev pub EntriesReadAt : ℕ → Entries n.Number → Type 0
  EntriesReadAt level entries =
      (f : ℕ) (acc : Entries n.Number) (s : Bytes)
      → length (written_entries n false entries) < max_output
      → length (written_entries n false entries ++ b'}' ∷ s) ≤ f
      → AllAbsent acc entries
      → after_entry n (json_parse_value_internal n level)
          (object_loop n (json_parse_value_internal n level) f acc) acc
          (json_skip_ws (written_entries n false entries ++ b'}' ∷ s))
        ≡ ok (map (chain acc (entries_as_read n entries)), s)

  entries_delimited :
      (entries : Entries n.Number) (s : Bytes)
      → at_delimiter (written_entries n false entries ++ b'}' ∷ s) ≡ true
  unfolding written
  entries_delimited end s = refl
  entries_delimited (entry key item entries) s = refl

  -- A key, its value and what follows them, from the loop on.
  entries_turn :
      (level : ℕ) (key : Bytes) (item : Value n.Number) (entries : Entries n.Number)
      → IsReadableMap n (entry key item entries)
      → ReadsAt n level item
      → EntriesReadAt level entries
      → (f : ℕ) (acc : Entries n.Number) (s : Bytes) → length (written n item) < max_output
      → length (written_entries n false entries) < max_output
      → length (written_entries n false entries ++ b'}' ∷ s) ≤ f
      → AllAbsent acc (entry key item entries)
      → object_loop n
          (json_parse_value_internal n level)
          (suc f)
          acc
          (quoted key ++ (b':' ∷ (written n item ++ (written_entries n false entries ++ b'}' ∷ s))))
        ≡ ok (map (chain acc (entry key (as_read n item) (entries_as_read n entries))), s)
  unfolding IsReadable
  entries_turn level key item entries (some_key, short_key, text, new, readable, others) read
        rest_read f acc s short short_rest enough (absent, all_absent) =
      let parse = json_parse_value_internal n level in
      let rest = written_entries n false entries ++ b'}' ∷ s in
      let v = as_read n item in
      member_read n parse f acc (set_entry n acc key v) key (written n item ++ rest) rest v text
        short_key (written-Begins n item readable rest)
        (read rest short (entries_delimited entries s)) (map_set_lem acc key v some_key)
      ∙ rest_read f (set_entry n acc key v) s short_rest enough
          (set_entry-AllAbsent acc entries key v absent new all_absent)
      ∙ ap (λ e. ok (map e, s)) (set_entry-chain acc (entries_as_read n entries) key v absent)

  -- The text of the first entry and what follows it, regrouped.
  entry_split :
      (key : Bytes) (item : Value n.Number) (entries : Entries n.Number) (s : Bytes)
      → (quoted key ++ (b':' ∷ (written n item ++ written_entries n false entries))) ++ b'}' ∷ s
        ≡ quoted key ++ (b':' ∷ (written n item ++ (written_entries n false entries ++ b'}' ∷ s)))
  entry_split key item entries s =
      append_assoc (quoted key) (b':' ∷ (written n item ++ written_entries n false entries))
        (b'}' ∷ s)
      ∙ ap (λ t. quoted key ++ (b':' ∷ t))
          (append_assoc (written n item) (written_entries n false entries) (b'}' ∷ s))

  skip_quoted : (key t : Bytes) → json_skip_ws (quoted key ++ t) ≡ quoted key ++ t
  unfolding json_skip_ws quoted
  skip_quoted key t = refl

  entry_lengths :
      (key : Bytes) (item : Value n.Number) (rest : Bytes)
      → length (quoted key ++ (b':' ∷ (written n item ++ rest)))
        ≡ length (quoted key) + (length (written n item) + length rest + 1)
  entry_lengths key item rest = omega (
    arith,
    length-append (quoted key) (b':' ∷ (written n item ++ rest)),
    length-append (written n item) rest,
  )

  pub entries_more :
      (level : ℕ) (key : Bytes) (item : Value n.Number) (entries : Entries n.Number)
      → IsReadableMap n (entry key item entries)
      → ReadsAt n level item
      → EntriesReadAt level entries
      → EntriesReadAt level (entry key item entries)
  unfolding written after_entry json_skip_ws entries_as_read
  entries_more level key item entries readable read rest_read zero acc s short enough absent =
      elim enough [ ]
  entries_more level key item entries readable read rest_read (suc f) acc s short enough absent =
      let parse = json_parse_value_internal n level in
      let rest = written_entries n false entries ++ b'}' ∷ s in
      let parts = entry_lengths key item (written_entries n false entries) in
      let split = entry_split key item entries s in
      let whole = ap length split in
      let more = entry_lengths key item rest in
      ap (λ t. object_loop n parse (suc f) acc (json_skip_ws t)) split
      ∙ ap (object_loop n parse (suc f) acc) (skip_quoted key (b':' ∷ (written n item ++ rest)))
      ∙ entries_turn level key item entries readable read rest_read f acc s (omega (arith, parts))
          (omega (arith, parts)) (omega (arith, whole, more)) absent

  pub entries_none : (level : ℕ) → EntriesReadAt level end
  unfolding written after_entry json_skip_ws entries_as_read
  entries_none level f acc s short enough absent = ap (λ j. ok (map j, s)) (sym (chain-end acc))

  pub end-AllAbsent : (entries : Entries n.Number) → AllAbsent end entries
  end-AllAbsent end = tt
  end-AllAbsent (entry key item entries) = (tt, end-AllAbsent entries)

  -- What `{` and `}` stand around, of a map or a dictionary.
  abbrev pub BracedReadAt : ℕ → Entries n.Number → Type 0
  BracedReadAt level entries =
      (s : Bytes)
      → length (b'{' ∷ (written_entries n true entries ++ b'}' ∷ [])) < max_output
      → json_parse_value_internal n (suc level)
          ((b'{' ∷ (written_entries n true entries ++ b'}' ∷ [])) ++ s)
        ≡ ok (map (entries_as_read n entries), s)

  pub map_end : (level : ℕ) → BracedReadAt level end
  unfolding written json_parse_value_internal value_at value_here json_parse_object json_skip_ws
      entries_as_read
  map_end level s short = refl

  opened :
      (parse : Parser n) (key t : Bytes)
      → json_parse_object n parse (quoted key ++ t)
        ≡ object_loop n parse (length (quoted key ++ t) + 1) end (quoted key ++ t)
  unfolding json_parse_object json_skip_ws quoted
  opened parse key t = refl

  pub map_entry :
      (level : ℕ) (key : Bytes) (item : Value n.Number) (entries : Entries n.Number)
      → IsReadableMap n (entry key item entries)
      → ReadsAt n level item
      → EntriesReadAt level entries
      → AllAbsent end entries
      → BracedReadAt level (entry key item entries)
  unfolding written json_parse_value_internal value_at value_here entries_as_read chain json_skip_ws
  map_entry level key item entries readable read rest_read absent s short =
      let parse = json_parse_value_internal n level in
      let rest = written_entries n false entries ++ b'}' ∷ s in
      let text = quoted key ++ (b':' ∷ (written n item ++ rest)) in
      let parts = entry_lengths key item (written_entries n false entries) in
      let outer =
        length-append (quoted key ++ (b':' ∷ (written n item ++ written_entries n false entries)))
          (b'}' ∷ []) in
      let more = entry_lengths key item rest in
      let one_more : length text + 1 ≡ suc (length text) = omega arith in
      ap (json_parse_object n parse) (
        append_assoc (quoted key ++ (b':' ∷ (written n item ++ written_entries n false entries)))
          (b'}' ∷ []) s
        ∙ entry_split key item entries s)
      ∙ opened parse key (b':' ∷ (written n item ++ rest))
      ∙ ap (λ f. object_loop n parse f end text) one_more
      ∙ entries_turn level key item entries readable read rest_read (length text) end s
          (omega (arith, parts, outer)) (omega (arith, parts, outer)) (omega (arith, more))
          (tt, absent)
