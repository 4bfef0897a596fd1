-- ===== src/Json/Lists.antt =====
-- Arrays of `json_parse_array` of src/object.c on their written text.
use arksh.Base.{
  ℕ, zero, suc, ◌+◌, ◌≤◌, ◌<◌, ◌≡◌, refl, sym, ap, ◌∙◌, true, false, [], ◌∷◌, ◌++◌, append_assoc,
  arith, if◌then◌else◌, length, length-append, drop, Bytes, codes, max_output,
}
use arksh.Json.{Numbers, Value, Items, list, nil, cons, ok}
use arksh.Json.Text.{json_skip_ws}
use arksh.Json.Parse.{
  starts_with, at_delimiter, append_value, Parser, after_item, array_loop, json_parse_array,
  value_here, value_at, json_parse_value_internal,
}
use arksh.Json.Written.{written, written_items}
use arksh.Json.Readable.{as_read, items_as_read, IsReadable}
use arksh.Json.Elements.{Begins, json_skip_ws-Begins, not_closed, written-Begins, element_read}

module _ (n : Numbers) where
  -- The list behind another.
  unfoldable pub join : Items n.Number → Items n.Number → Items n.Number
  join nil items = items
  join (cons item rest) items = cons item (join rest items)

  join-nil : (items : Items n.Number) → join items nil ≡ items
  unfolding join
  join-nil nil = refl
  join-nil (cons item items) = ap (cons item) (join-nil items)

  join-append_value :
      (acc items : Items n.Number) (v : Value n.Number)
      → join (append_value n acc v) items ≡ join acc (cons v items)
  unfolding join append_value
  join-append_value nil items v = refl
  join-append_value (cons item acc) items v = ap (cons item) (join-append_value acc items v)

  -- The parser, at a level that is deep enough, takes the written value off the text.
  abbrev pub ReadsAt : ℕ → Value n.Number → Type 0
  ReadsAt level v =
      (s : Bytes)
      → length (written n v) < max_output
      → at_delimiter s ≡ true
      → json_parse_value_internal n level (written n v ++ s) ≡ ok (as_read n v, s)

  -- What the loop of an array does behind an element.
  abbrev pub ItemsReadAt : ℕ → Items n.Number → Type 0
  ItemsReadAt level items =
      (f : ℕ) (acc : Items n.Number) (s : Bytes)
      → length (written_items n false items) < max_output
      → length (written_items n false items ++ b']' ∷ s) ≤ f
      → after_item n (json_parse_value_internal n level)
          (array_loop n (json_parse_value_internal n level) f acc) acc
          (json_skip_ws (written_items n false items ++ b']' ∷ s))
        ≡ ok (list (join acc (items_as_read n items)), s)

  items_delimited :
      (items : Items n.Number) (s : Bytes)
      → at_delimiter (written_items n false items ++ b']' ∷ s) ≡ true
  unfolding written
  items_delimited nil s = refl
  items_delimited (cons item items) s = refl

  -- An element and what follows it, from the loop on.
  items_turn :
      (level : ℕ) (item : Value n.Number) (items : Items n.Number)
      → IsReadable n item
      → ReadsAt level item
      → ItemsReadAt level items
      → (f : ℕ) (acc : Items n.Number) (s : Bytes) → length (written n item) < max_output
      → length (written_items n false items) < max_output
      → length (written_items n false items ++ b']' ∷ s) ≤ f
      → array_loop n
          (json_parse_value_internal n level)
          (suc f)
          acc
          (written n item ++ (written_items n false items ++ b']' ∷ s))
        ≡ ok (list (join acc (cons (as_read n item) (items_as_read n items))), s)
  items_turn level item items readable read rest_read f acc s short short_rest enough =
      let rest = written_items n false items ++ b']' ∷ s in
      element_read n (json_parse_value_internal n level) f acc (written n item ++ rest) rest
        (as_read n item) (written-Begins n item readable rest)
        (read rest short (items_delimited items s))
      ∙ rest_read f (append_value n acc (as_read n item)) s short_rest enough
      ∙ ap (λ j. ok (list j, s)) (join-append_value acc (items_as_read n items) (as_read n item))

  pub items_more :
      (level : ℕ) (item : Value n.Number) (items : Items n.Number)
      → IsReadable n item
      → ReadsAt level item
      → ItemsReadAt level items
      → ItemsReadAt level (cons item items)
  unfolding written after_item json_skip_ws items_as_read
  items_more level item items readable read rest_read zero acc s short enough = elim enough [ ]
  items_more level item items readable read rest_read (suc f) acc s short enough =
      let parts = length-append (written n item) (written_items n false items) in
      let split = append_assoc (written n item) (written_items n false items) (b']' ∷ s) in
      let whole = ap length split in
      let more = length-append (written n item) (written_items n false items ++ b']' ∷ s) in
      let rest = written_items n false items ++ b']' ∷ s in
      ap (λ t. array_loop n (json_parse_value_internal n level) (suc f) acc (json_skip_ws t)) split
      ∙ ap (array_loop n (json_parse_value_internal n level) (suc f) acc)
          (json_skip_ws-Begins (written n item ++ rest) (written-Begins n item readable rest))
      ∙ items_turn level item items readable read rest_read f acc s (omega (arith, parts))
          (omega (arith, parts)) (omega (arith, whole, more))

  pub items_none : (level : ℕ) → ItemsReadAt level nil
  unfolding written after_item json_skip_ws items_as_read
  items_none level f acc s short enough = ap (λ j. ok (list j, s)) (sym (join-nil acc))

  pub list_nil : (level : ℕ) → ReadsAt (suc level) (list nil)
  unfolding written json_parse_value_internal value_at value_here json_parse_array json_skip_ws
      as_read
  list_nil level s short delimited = refl

  pub list_cons :
      (level : ℕ) (item : Value n.Number) (items : Items n.Number)
      → IsReadable n item
      → ReadsAt level item
      → ItemsReadAt level items
      → ReadsAt (suc level) (list (cons item items))
  unfolding written json_parse_value_internal value_at value_here json_parse_array as_read join
  list_cons level item items readable read rest_read s short delimited =
      let parse = json_parse_value_internal n level in
      let rest = written_items n false items ++ b']' ∷ s in
      let inner = length-append (written n item) (written_items n false items) in
      let outer = length-append (written n item ++ written_items n false items) (b']' ∷ []) in
      let more = length-append (written n item) rest in
      let begins = written-Begins n item readable rest in
      let one_more : length (written n item ++ rest) + 1 ≡ suc (length (written n item ++ rest)) =
        omega arith in
      ap (json_parse_array n parse) (
        append_assoc (written n item ++ written_items n false items) (b']' ∷ []) s
        ∙ append_assoc (written n item) (written_items n false items) (b']' ∷ s))
      ∙ opened parse (written n item ++ rest) begins
      ∙ ap (λ f. array_loop n parse f nil (written n item ++ rest)) one_more
      ∙ items_turn level item items readable read rest_read (length (written n item ++ rest)) nil s
          (omega (arith, inner, outer)) (omega (arith, inner, outer)) (omega (arith, more))
    where
      opened :
          (parse : Parser n) (t : Bytes)
          → Begins t
          → json_parse_array n parse t ≡ array_loop n parse (length t + 1) nil t
      opened parse t h =
          ap
            (λ u.
              if starts_with (codes "]") u
              then ok (list nil, drop 1 u)
              else array_loop n parse (length u + 1) nil u)
            (json_skip_ws-Begins t h)
          ∙ ap (λ b. if b then ok (list nil, drop 1 t) else array_loop n parse (length t + 1) nil t)
              (not_closed t h)
