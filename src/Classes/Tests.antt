-- ===== src/Classes/Tests.antt =====
-- A table of three classes, and the theorems there. Values are numbers, and so are blocks.
use arksh.Base.{
  subst, ℕ, ◌==◌, ◌≡◌, refl, ◌↔◌, Bool, true, false, Option, none, some, List, [], ◌∷◌, arith,
  Bytes, codes, same_text, if◌then◌else◌,
}
use arksh.Classes.{
  Named, Class, Member, property, method, inheritance_cycle, find_member, find_class_entry,
  lookup_property_recursive, class_is_a_recursive, populate_instance_defaults_recursive, set_class,
}
use arksh.Classes.Inherit.{each_as, IsMap, HasMaps, populate_instance_defaults-lookup_property}
use arksh.Classes.Descent.{Descends, step}
use arksh.Classes.Depth.{class_is_a_recursive-Descends}
use arksh.Classes.Define.{IsWellFormed, set_class-IsWellFormed}

abbrev size_members : List (Bytes × Member ℕ ℕ)
size_members = (codes "size", property 1) ∷ (codes "show", method 7) ∷ []

abbrev evaluated :
    List (Bytes × Member ℕ ℕ)
    → List (Class ℕ ℕ)
    → Option (List (Bytes × Member ℕ ℕ)) × List (Class ℕ ℕ)
evaluated members table = (some members, table)

abbrev shape : Class ℕ ℕ
shape = record {
  name = codes "Shape";
  bases = [];
  properties = (codes "size", 1) ∷ (codes "ink", 2) ∷ [];
  methods = [];
}

abbrev square : Class ℕ ℕ
square = record {
  name = codes "Square";
  bases = codes "Shape" ∷ [];
  properties = (codes "size", 5) ∷ [];
  methods = [];
}

abbrev two_classes : List (Class ℕ ℕ)
two_classes = shape ∷ square ∷ []

-- A value that loses something as an item: 2 stands for a matrix.
abbrev as_field : ℕ → ℕ
as_field n = if n == 2 then 0 else n

overrides :
    populate_instance_defaults_recursive as_field two_classes (codes "Square") []
    ≡ some ((codes "size", 5) ∷ (codes "ink", 0) ∷ [])
unfolding populate_instance_defaults_recursive
overrides = refl

refuses_cycle :
    set_class two_classes (codes "Shape") (codes "Square" ∷ []) (evaluated size_members)
    ≡ (some inheritance_cycle, two_classes)
unfolding set_class
refuses_cycle = refl

-- While the body of `Shape`, with the base `Square`, is evaluated, it defines `Square` with the base
-- `Shape`: a cycle is stored.
abbrev defines_square : List (Class ℕ ℕ) → Option (List (Bytes × Member ℕ ℕ)) × List (Class ℕ ℕ)
defines_square table =
    (some [], (set_class table (codes "Square") (codes "Shape" ∷ []) (evaluated [])).1)

abbrev plain_class : Bytes → List Bytes → Class ℕ ℕ
plain_class name bases = record { name = name; bases = bases; properties = []; methods = [] }

stores_cycle :
    set_class
      (plain_class (codes "Shape") [] ∷ plain_class (codes "Square") [] ∷ [])
      (codes "Shape")
      (codes "Square" ∷ [])
      defines_square
    ≡ (
      none,
      plain_class (codes "Shape") (codes "Square" ∷ [])
          ∷ plain_class (codes "Square") (codes "Shape" ∷ [])
          ∷ [],
    )
unfolding set_class
stores_cycle = refl

empty-IsWellFormed : IsWellFormed {V = ℕ} {B = ℕ} []
unfolding find_class_entry
empty-IsWellFormed = record {
  few = omega arith;
  known = λ name b c h m. ground (arith, h);
  no_cycle = λ n name h d. elim d [ step k m rest ↦ ground (arith, k) ];
}

shape-IsWellFormed : IsWellFormed (shape ∷ [])
unfolding set_class
shape-IsWellFormed =
    set_class-IsWellFormed [] (codes "Shape") []
      (evaluated ((codes "size", property 1) ∷ (codes "ink", property 2) ∷ [])) refl
      empty-IsWellFormed

set_class-IsWellFormed_example :
    IsWellFormed
      (set_class (shape ∷ []) (codes "Square") (codes "Shape" ∷ []) (evaluated size_members)).1
set_class-IsWellFormed_example =
    set_class-IsWellFormed (shape ∷ []) (codes "Square") (codes "Shape" ∷ [])
      (evaluated size_members) refl shape-IsWellFormed

two_classes-IsWellFormed : IsWellFormed two_classes
unfolding set_class
two_classes-IsWellFormed =
    set_class-IsWellFormed (shape ∷ []) (codes "Square") (codes "Shape" ∷ [])
      (evaluated ((codes "size", property 5) ∷ [])) refl shape-IsWellFormed

abbrev PropertiesAreMap : Option (Class ℕ ℕ) → Type 0
PropertiesAreMap none = Unit
PropertiesAreMap (some c) = IsMap c.properties

two_classes-HasMaps : HasMaps two_classes
unfolding find_class_entry find_member
two_classes-HasMaps name c h =
    subst PropertiesAreMap h
      (each (same_text (codes "Shape") name) (same_text (codes "Square") name))
  where
    each :
        (x y : Bool) → PropertiesAreMap (if x then some shape else if y then some square else none)
    each true y = (omega arith, refl, (omega arith, refl, tt))
    each false true = (omega arith, refl, tt)
    each false false = tt

populate_instance_defaults-lookup_property_example :
    (fields : Named ℕ) × (populate_instance_defaults_recursive as_field two_classes
        (codes "Square")
        []
      ≡ some fields)
    × ((name : Bytes)
        → find_member fields name
          ≡ each_as as_field (lookup_property_recursive two_classes (codes "Square") name))
unfolding find_class_entry
populate_instance_defaults-lookup_property_example =
    populate_instance_defaults-lookup_property as_field two_classes (codes "Square")
      two_classes-IsWellFormed two_classes-HasMaps refl

class_is_a_recursive-Descends_example :
    (class_is_a_recursive two_classes (codes "Square") (codes "Shape") ≡ true)
    ↔ ((n : ℕ) × Descends (find_class_entry two_classes) n (codes "Square") (codes "Shape"))
class_is_a_recursive-Descends_example =
    class_is_a_recursive-Descends two_classes (codes "Square") (codes "Shape")
      two_classes-IsWellFormed
