-- ===== src/Fields/Tests.antt =====
-- Fields of small texts, and the theorem at one.
use arksh.Base.{
  none, ltb, length, ◌&&◌, ◌==◌, if◌then◌else◌, ℕ, ◌≡◌, refl, Bool, true, false, some, List, [],
  ◌∷◌, map, Bytes, codes,
}
use arksh.Fields.{apply_ifs_splitting}
use arksh.Fields.Segments.{segments, fields_of, cut, apply_ifs_splitting-fields}

abbrev unquoted : Bytes → List (ℕ × Bool)
unquoted text = map (λ c. (c, true)) text

white_space_joins :
    apply_ifs_splitting (unquoted (codes "  a  b ")) false (codes " :") 8
    ≡ some (codes "a" ∷ codes "b" ∷ [])
unfolding apply_ifs_splitting
white_space_joins = refl

-- The space before the colon and the colon are two separators, with an empty field between them.
empty_between :
    apply_ifs_splitting (unquoted (codes "a : b")) false (codes " :") 8
    ≡ some (codes "a" ∷ [] ∷ codes "b" ∷ [])
unfolding apply_ifs_splitting
empty_between = refl

empty_last :
    apply_ifs_splitting (unquoted (codes "a:")) false (codes " :") 8 ≡ some (codes "a" ∷ [] ∷ [])
unfolding apply_ifs_splitting
empty_last = refl

apply_ifs_splitting-fields_example :
    apply_ifs_splitting (unquoted (codes "a : b")) false (codes " :") 8 ≡ (
      let fields = map cut (fields_of false (segments (codes " :") (unquoted (codes "a : b")))) in
      if ltb 8 (length fields)
      then none
      else if false && length fields == 0
      then some ([] ∷ [])
      else some fields)
apply_ifs_splitting-fields_example =
    apply_ifs_splitting-fields (unquoted (codes "a : b")) false 32 (codes ":") 8
