-- ===== src/Classes.antt =====
-- The classes of src/shell.c: their table, the members that a class inherits, and the definition of
-- a class.
-- `V` is the type of values and `B` that of blocks. The names in the table are different, so that
-- the binary search over its sorted index finds the one entry there is. Names are shorter than their
-- buffers, and memory is there.
pub mod Inherit
pub mod Descent
pub mod Define
pub mod Depth
mod Tests
use arksh.Base.{
  ℕ, zero, suc, ◌+◌, ◌⊎◌, inl, inr, Bool, true, false, ◌&&◌, ◌||◌, Option, none, some, List, [],
  ◌∷◌, ◌++◌, leb, if◌then◌else◌, length, Bytes, same_text,
}
use arksh.Scope.{is_valid_identifier}

-- Names with what they stand for: the properties or the methods of a class, or a map of fields.
abbrev pub Named : Type 0 → Type 0
Named A = List (Bytes × A)

pub record Class (V B : Type 0) : Type 0 where
  pub name : Bytes
  pub bases : List Bytes
  pub properties : Named V
  pub methods : Named B

abbrev pub max_classes : ℕ
max_classes = 32

abbrev pub or_else : {A : Type 0} → Option A → Option A → Option A
or_else none y = y
or_else (some x) y = some x

-- `find_property_in_class` and `find_method_in_class`, on the array of the one or the other.
unfoldable pub find_member : {A : Type 0} → Named A → Bytes → Option A
find_member [] name = none
find_member ((n, x) ∷ members) name = if same_text n name then some x else find_member members name

-- `class_definition_add_property` and `class_definition_add_method`; also the entries of a map.
unfoldable pub add_member : {A : Type 0} → Bytes → A → Named A → Named A
add_member name x [] = (name, x) ∷ []
add_member name x ((n, y) ∷ members) =
    if same_text n name then (n, x) ∷ members else (n, y) ∷ add_member name x members

-- `arksh_value_map_set` on the fields of an instance: no empty key. A field is an item of a map,
-- and `as_item` is what `arksh_value_set_from_item` gives for the item that
-- `arksh_value_item_set_from_value` makes of a value; a matrix, for one, does not come back.
abbrev pub map_set : {A : Type 0} → (A → A) → Named A → Bytes → A → Option (Named A)
map_set as_item fields [] x = none
map_set as_item fields (c ∷ key) x = some (add_member (c ∷ key) (as_item x) fields)

-- A member once its expression is evaluated.
pub data Member (V B : Type 0) : Type 0 where
  property : V → Member V B
  method : B → Member V B

pub data ClassError : Type 0 where
  invalid_name extends_itself unknown_base inheritance_cycle invalid_member class_limit : ClassError

-- What a definition gives: an error, or none, and the table afterwards.
abbrev pub Definition : Type 0 → Type 0 → Type 0
Definition V B = Option ClassError × List (Class V B)

-- The loops over `bases`: whether one passes, and the first that one finds.
abbrev pub any_base : (Bytes → Bool) → List Bytes → Bool
any_base f [] = false
any_base f (b ∷ bases) = f b || any_base f bases

abbrev pub first_base : {A : Type 0} → (Bytes → Option A) → List Bytes → Option A
first_base f [] = none
first_base f (b ∷ bases) = or_else (f b) (first_base f bases)

abbrev pub then_set : {F : Type 0} → Option F → (F → Option F) → Option F
then_set none f = none
then_set (some fields) f = f fields

abbrev pub set_all : {V : Type 0} → (V → V) → Named V → Named V → Option (Named V)
set_all as_item [] fields = some fields
set_all as_item ((name, value) ∷ properties) fields =
    then_set (map_set as_item fields name value) (set_all as_item properties)

-- The bases, the last one first.
abbrev pub populate_bases :
    {V : Type 0} → (Bytes → Named V → Option (Named V)) → List Bytes → Named V → Option (Named V)
populate_bases f [] fields = some fields
populate_bases f (b ∷ bases) fields = then_set (populate_bases f bases fields) (f b)

abbrev pub is_some : {A : Type 0} → Option A → Bool
is_some none = false
is_some (some x) = true

module _ {V B : Type 0} where
  -- `find_class_entry` and `find_class_entry_const`
  unfoldable pub find_class_entry : List (Class V B) → Bytes → Option (Class V B)
  find_class_entry [] name = none
  find_class_entry (c ∷ table) name =
      if same_text c.name name then some c else find_class_entry table name

  -- `resolve_class_for_lookup`
  unfoldable pub resolve_class_for_lookup :
      List (Class V B) → Class V B → Bytes → Option (Class V B)
  unfolding find_class_entry
  resolve_class_for_lookup table pending name =
      if same_text pending.name name then some pending else find_class_entry table name

  abbrev contains_in : (Bytes → Bool) → Bytes → Option (Class V B) → Bool
  contains_in rest target none = false
  contains_in rest target (some c) = any_base (λ b. same_text b target || rest b) c.bases

  -- `class_chain_contains`: `suc fuel` is what `depth` is below ARKSH_MAX_CLASSES.
  unfoldable pub class_chain_contains : ℕ → List (Class V B) → Class V B → Bytes → Bytes → Bool
  unfolding resolve_class_for_lookup
  class_chain_contains zero table pending start target = false
  class_chain_contains (suc fuel) table pending start target =
      contains_in (λ b. class_chain_contains fuel table pending b target) target
        (resolve_class_for_lookup table pending start)

  abbrev is_a_in : (Bytes → Bool) → Option (Class V B) → Bool
  is_a_in rest none = false
  is_a_in rest (some c) = any_base rest c.bases

  unfoldable pub is_a_loop : ℕ → List (Class V B) → Bytes → Bytes → Bool
  unfolding find_class_entry
  is_a_loop zero table name target = false
  is_a_loop (suc fuel) table name target =
      same_text name target
      || is_a_in (λ b. is_a_loop fuel table b target) (find_class_entry table name)

  -- `class_is_a_recursive` at depth 0
  unfoldable pub class_is_a_recursive : List (Class V B) → Bytes → Bytes → Bool
  unfolding is_a_loop
  class_is_a_recursive table name target = is_a_loop (suc max_classes) table name target

  module _ {A : Type 0} (members : Class V B → Named A) where
    abbrev pub found_in : (Bytes → Option A) → Bytes → Option (Class V B) → Option A
    found_in rest name none = none
    found_in rest name (some c) = or_else (find_member (members c) name) (first_base rest c.bases)

    unfoldable pub lookup_loop : ℕ → List (Class V B) → Bytes → Bytes → Option A
    unfolding find_member find_class_entry
    lookup_loop zero table class_name name = none
    lookup_loop (suc fuel) table class_name name =
        found_in (λ b. lookup_loop fuel table b name) name (find_class_entry table class_name)

  -- `lookup_property_recursive` and `lookup_method_recursive` at depth 0
  unfoldable pub lookup_property_recursive : List (Class V B) → Bytes → Bytes → Option V
  unfolding lookup_loop
  lookup_property_recursive table class_name name =
      lookup_loop (λ c. c.properties) (suc max_classes) table class_name name

  unfoldable pub lookup_method_recursive : List (Class V B) → Bytes → Bytes → Option B
  unfolding lookup_loop
  lookup_method_recursive table class_name name =
      lookup_loop (λ c. c.methods) (suc max_classes) table class_name name

  abbrev pub populate_in :
      (V → V)
      → (Bytes → Named V → Option (Named V))
      → Named V
      → Option (Class V B)
      → Option (Named V)
  populate_in as_item rest fields none = none
  populate_in as_item rest fields (some c) =
      then_set (populate_bases rest c.bases fields) (set_all as_item c.properties)

  unfoldable pub populate_loop : (V → V) → ℕ → List (Class V B) → Bytes → Named V → Option (Named V)
  unfolding add_member find_class_entry
  populate_loop as_item zero table class_name fields = none
  populate_loop as_item (suc fuel) table class_name fields =
      populate_in as_item (populate_loop as_item fuel table) fields
        (find_class_entry table class_name)

  -- `populate_instance_defaults_recursive` at depth 0; texts of errors are left out.
  unfoldable pub populate_instance_defaults_recursive :
      (V → V) → List (Class V B) → Bytes → Named V → Option (Named V)
  unfolding populate_loop
  populate_instance_defaults_recursive as_item table class_name fields =
      populate_loop as_item (suc max_classes) table class_name fields

  unfoldable pub check_bases : List (Class V B) → Class V B → List Bytes → Option ClassError
  unfolding find_class_entry class_chain_contains
  check_bases table candidate [] = none
  check_bases table candidate (b ∷ bases) =
      let rest = check_bases table candidate bases in
      let cycles = class_chain_contains (suc max_classes) table candidate b candidate.name in
      let known = is_some (find_class_entry table b) in
      if same_text b candidate.name
      then some extends_itself
      else if known
      then (if cycles then some inheritance_cycle else rest)
      else some unknown_base

  abbrev pub add_members : List (Bytes × Member V B) → Class V B → Class V B
  add_members [] c = c
  add_members ((name, property value) ∷ rest) c =
      add_members rest (record c { properties = add_member name value c.properties })
  add_members ((name, method block) ∷ rest) c =
      add_members rest (record c { methods = add_member name block c.methods })

  -- The entry of the same name, or a new one.
  abbrev pub put_class : Class V B → List (Class V B) → List (Class V B)
  put_class c [] = c ∷ []
  put_class c (d ∷ table) = if same_text d.name c.name then c ∷ table else d ∷ put_class c table

  abbrev pub stored : List (Class V B) → Class V B → Definition V B
  stored table c =
      let known = is_some (find_class_entry table c.name) in
      if known || leb (length table + 1) max_classes
      then (none, put_class c table)
      else (some class_limit, table)

  abbrev pub with_members :
      Class V B → Option (List (Bytes × Member V B)) × List (Class V B) → Definition V B
  with_members c (none, table) = (some invalid_member, table)
  with_members c (some members, table) = stored table (add_members members c)

  abbrev pub checked : List (Class V B) → Option ClassError → Definition V B → Definition V B
  checked table (some error) next = (some error, table)
  checked table none next = next

  -- `arksh_shell_set_class`. `body` reads the body and evaluates its expressions, `none` if that
  -- fails, between the check of the bases and the store. An expression may run a command that
  -- defines a class, so that the body gives the table that it leaves.
  unfoldable pub set_class :
      List (Class V B)
      → Bytes
      → List Bytes
      → (List (Class V B) → Option (List (Bytes × Member V B)) × List (Class V B))
      → Definition V B
  unfolding check_bases add_member find_class_entry is_valid_identifier
  set_class table name bases body =
      let candidate : Class V B = record {
        name = name;
        bases = bases;
        properties = [];
        methods = [];
      } in
      let next =
        checked table (check_bases table candidate bases) (with_members candidate (body table)) in
      if is_valid_identifier name then next else (some invalid_name, table)
