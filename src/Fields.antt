-- ===== src/Fields.antt =====
-- Field splitting of src/expand.c: `apply_ifs_splitting` with `is_ifs_char` and
-- `is_ifs_whitespace`. A character comes with its split flag. `none` is the error of too many fields.
pub mod Segments
mod Tests
use arksh.Base.{
  ℕ, ◌+◌, Bool, true, false, not, ◌&&◌, ◌||◌, Option, none, some, List, [], ◌∷◌, ◌++◌, map, ltb,
  leb, ◌==◌, if◌then◌else◌, length, Bytes, copy_string, max_token,
}

abbrev isspace : ℕ → Bool
isspace c = c == 32 || leb 9 c && leb c 13

unfoldable pub is_ifs_char : ℕ → Bytes → Bool
is_ifs_char c [] = false
is_ifs_char c (d ∷ ifs) = d == c || is_ifs_char c ifs

unfoldable pub is_ifs_whitespace : ℕ → Bytes → Bool
unfolding is_ifs_char
is_ifs_whitespace c ifs = is_ifs_char c ifs && isspace c

abbrev pub is_empty : Bytes → Bool
is_empty [] = true
is_empty (c ∷ s) = false

module _ (ifs : Bytes) (max_values : ℕ) where
  -- One more field, if it fits.
  abbrev pub emit : Bytes → List Bytes → (List Bytes → Option (List Bytes)) → Option (List Bytes)
  emit field out next =
      let rest = next (out ++ (field ∷ [])) in if leb max_values (length out) then none else rest

  abbrev pub push : ℕ → Bytes → Bytes
  push c field = if ltb (length field + 1) max_token then field ++ (c ∷ []) else field

  -- After the loop; the flag is `after_nonwhite_ifs`.
  abbrev pub last_field : Bytes → Bool → List Bytes → Option (List Bytes)
  last_field [] true out = emit [] out some
  last_field [] false out = some out
  last_field (c ∷ field) after out = emit (c ∷ field) out some

  unfoldable pub field_loop : List (ℕ × Bool) → Bytes → Bool → List Bytes → Option (List Bytes)
  unfolding is_ifs_whitespace
  field_loop [] field after out = last_field field after out
  field_loop ((c, splittable) ∷ rest) field after out =
      let ended = emit field out (field_loop rest [] true) in
      let white = emit field out (field_loop rest [] false) in
      let skipped = field_loop rest [] false out in
      let kept = field_loop rest (push c field) false out in
      if splittable && is_ifs_char c ifs
      then (if is_ifs_whitespace c ifs then (if is_empty field then skipped else white) else ended)
      else kept

abbrev pub quoted_field : Bool → Option (List Bytes) → Option (List Bytes)
quoted_field saw_quote none = none
quoted_field saw_quote (some (f ∷ out)) = some (f ∷ out)
quoted_field saw_quote (some []) = if saw_quote then some ([] ∷ []) else some []

abbrev pub characters : List (ℕ × Bool) → Bytes
characters text = map (λ x. x.0) text

unfoldable pub apply_ifs_splitting : List (ℕ × Bool) → Bool → Bytes → ℕ → Option (List Bytes)
unfolding field_loop
apply_ifs_splitting expanded saw_quote [] max_values =
    if not (is_empty (characters expanded)) || saw_quote
    then some (copy_string max_token (characters expanded) ∷ [])
    else some []
apply_ifs_splitting expanded saw_quote (d ∷ ifs) max_values =
    quoted_field saw_quote (field_loop (d ∷ ifs) max_values expanded [] false [])
