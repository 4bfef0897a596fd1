-- ===== src/Classes/Inherit.antt =====
-- What a new instance of src/shell.c starts with, and what a look-up of a property finds.
use arksh.Base.{
  ℕ, zero, suc, ◌≤◌, ◌≡◌, refl, sym, ap, ◌∙◌, inl, inr, true, false, Option, none, some, List, [],
  ◌∷◌, if◌then◌else◌, Bool-cases, length, arith, Bytes, same_text, same_text_eq,
}
use arksh.Classes.Descent.{Among, here, there, Descends, stay, step}
use arksh.Classes.Define.{IsWellFormed}
use arksh.Classes.Depth.{no_long_chain}
use arksh.Classes.{
  Named, Class, max_classes, or_else, find_member, add_member, find_class_entry, first_base,
  found_in, lookup_loop, lookup_property_recursive, then_set, set_all, populate_bases, populate_in,
  populate_loop, populate_instance_defaults_recursive, is_some,
}

or_else-none : {A : Type 0} (x : Option A) → or_else x none ≡ x
or_else-none none = refl
or_else-none (some x) = refl

or_else_assoc : {A : Type 0} (x y z : Option A) → or_else x (or_else y z) ≡ or_else (or_else x y) z
or_else_assoc none y z = refl
or_else_assoc (some x) y z = refl

-- The names of the members are different, and none is empty.
abbrev pub IsMap : {A : Type 0} → Named A → Type 0
IsMap [] = Unit
IsMap ((name, x) ∷ members) = (1 ≤ length name) × (find_member members name ≡ none) × IsMap members

pub find-add_member :
    {A : Type 0} (members : Named A) (name other : Bytes) (x : A)
    → find_member (add_member name x members) other
      ≡ (if same_text name other then some x else find_member members other)
unfolding find_member add_member
find-add_member [] name other x = refl
find-add_member ((n, y) ∷ members) name other x = elim (Bool-cases (same_text n name)) [
  | inl e ↦
      let h : same_text n other ≡ same_text name other =
        ap (λ z. same_text z other) (same_text_eq n name e) in
      ground (arith, h, e)
  | inr e ↦
      let ih = find-add_member members name other x in
      elim (Bool-cases (same_text name other)) [
        | inl k ↦
            let h : same_text n other ≡ false =
              ap (same_text n) (sym (same_text_eq name other k)) ∙ e in
            ground (arith, ih, h, k, e)
        | inr k ↦ ground (arith, ih, k, e)
      ]
]

-- What becomes of the values that are found.
abbrev pub each_as : {A B : Type 0} → (A → B) → Option A → Option B
each_as f none = none
each_as f (some x) = some (f x)

each_as-or_else :
    {A B : Type 0} (f : A → B) (x y : Option A)
    → each_as f (or_else x y) ≡ or_else (each_as f x) (each_as f y)
each_as-or_else f none y = refl
each_as-or_else f (some x) y = refl

each_as-first_base :
    {A B : Type 0} (f : A → B) (g : Bytes → Option A) (bases : List Bytes)
    → each_as f (first_base g bases) ≡ first_base (λ b. each_as f (g b)) bases
each_as-first_base f g [] = refl
each_as-first_base f g (b ∷ bases) =
    each_as-or_else f (g b) (first_base g bases)
    ∙ ap (or_else (each_as f (g b))) (each_as-first_base f g bases)

set_all-finds :
    {V : Type 0} (as_item : V → V) (properties fields : Named V)
    → IsMap properties
    → (out : Named V) × (set_all as_item properties fields ≡ some out)
      × ((name : Bytes)
          → find_member out name
            ≡ or_else (each_as as_item (find_member properties name)) (find_member fields name))
unfolding find_member
set_all-finds as_item [] fields m = (fields, refl, λ name. refl)
set_all-finds as_item (([], value) ∷ properties) fields m = ground arith
set_all-finds as_item ((c ∷ n, value) ∷ properties) fields m =
    let (filled, other, is_map) = m in
    let (out, done, finds) =
      set_all-finds as_item properties (add_member (c ∷ n) (as_item value) fields) is_map in
    (
      out,
      done,
      λ name.
          finds name
          ∙ ap (or_else (each_as as_item (find_member properties name)))
              (find-add_member fields (c ∷ n) name (as_item value))
          ∙ new as_item (c ∷ n) name value (find_member fields name) properties other,
    )
  where
    new :
        {A : Type 0} (f : A → A) (n name : Bytes) (value : A) (old : Option A)
        (properties : Named A)
        → find_member properties n ≡ none
        → or_else
            (each_as f (find_member properties name))
            (if same_text n name then some (f value) else old)
          ≡ or_else
              (each_as f (if same_text n name then some value else find_member properties name))
              old
    new f n name value old properties h = elim (Bool-cases (same_text n name)) [
      | inl e ↦
          let k : find_member properties name ≡ none =
            ap (find_member properties) (sym (same_text_eq n name e)) ∙ h in
          ground (arith, k, e)
      | inr e ↦ ground (arith, e)
    ]

module _ {V B : Type 0} (table : List (Class V B)) where
  -- The properties of every class are a map.
  abbrev pub HasMaps : Type 0
  HasMaps =
      (name : Bytes) (c : Class V B) → find_class_entry table name ≡ some c → IsMap c.properties

module _ {V B : Type 0} (as_item : V → V) (table : List (Class V B)) where
  -- The fields are those that there were, under what is found.
  abbrev Populated : Named V → (Bytes → Option V) → Option (Named V) → Type 0
  Populated fields found result =
      (out : Named V) × (result ≡ some out)
      × ((name : Bytes) → find_member out name ≡ or_else (found name) (find_member fields name))

  populate_bases-Populated :
      (f : Bytes → Named V → Option (Named V)) (g : Bytes → Bytes → Option V) (bases : List Bytes)
      (fields : Named V)
      → ((b : Bytes) (fields' : Named V) → Among b bases → Populated fields' (g b) (f b fields'))
      → Populated fields (λ name. first_base (λ b. g b name) bases) (populate_bases f bases fields)
  populate_bases-Populated f g [] fields k = (fields, refl, λ name. refl)
  populate_bases-Populated f g (b ∷ bases) fields k =
      let (mid, done, finds) =
        populate_bases-Populated f g bases fields (λ b' fields' m. k b' fields' (there m)) in
      let (out, last, found) = k b mid here in
      (
        out,
        ap (λ o. then_set o (f b)) done ∙ last,
        λ name.
            found name
            ∙ ap (or_else (g b name)) (finds name)
            ∙ or_else_assoc (g b name) (first_base (λ b'. g b' name) bases)
                (find_member fields name),
      )

  found : ℕ → Bytes → Bytes → Option V
  found fuel class_name name = lookup_loop (λ c. c.properties) fuel table class_name name

  populate_in-Populated :
      (fuel : ℕ) (fields : Named V) (o : Option (Class V B))
      → is_some o ≡ true
      → ((c : Class V B) → o ≡ some c → IsMap c.properties)
      → ((c : Class V B) (b : Bytes) (fields' : Named V)
          → o ≡ some c
          → Among b c.bases
          → Populated fields'
              (λ name. each_as as_item (found fuel b name))
              (populate_loop as_item fuel table b fields'))
      → Populated fields
          (λ name. each_as as_item (found_in (λ c. c.properties) (λ b. found fuel b name) name o))
          (populate_in as_item (populate_loop as_item fuel table) fields o)
  populate_in-Populated fuel fields none k h f = ground arith
  populate_in-Populated fuel fields (some c) k h f =
      let (mid, done, finds) =
        populate_bases-Populated (populate_loop as_item fuel table)
          (λ b name. each_as as_item (found fuel b name)) c.bases fields
          (λ b fields' m. f c b fields' refl m) in
      let (out, last, set) = set_all-finds as_item c.properties mid (h c refl) in
      (
        out,
        ap (λ o. then_set o (set_all as_item c.properties)) done ∙ last,
        λ name.
            set name
            ∙ ap (or_else (each_as as_item (find_member c.properties name))) (finds name)
            ∙ or_else_assoc (each_as as_item (find_member c.properties name))
                (first_base (λ b. each_as as_item (found fuel b name)) c.bases)
                (find_member fields name)
            ∙ ap (λ x. or_else x (find_member fields name))
                (sym (
                  each_as-or_else as_item (find_member c.properties name)
                    (first_base (λ b. found fuel b name) c.bases)
                  ∙ ap (or_else (each_as as_item (find_member c.properties name)))
                      (each_as-first_base as_item (λ b. found fuel b name) c.bases))),
      )

  populate_loop-Populated :
      IsWellFormed table
      → HasMaps table
      → (fuel : ℕ) (class_name : Bytes) (fields : Named V)
      → is_some (find_class_entry table class_name) ≡ true
      → ((y : Bytes) → ¬ Descends (find_class_entry table) fuel class_name y)
      → Populated fields
          (λ name. each_as as_item (found fuel class_name name))
          (populate_loop as_item fuel table class_name fields)
  unfolding populate_loop lookup_loop found
  populate_loop-Populated law maps zero class_name fields known short =
      elim (short class_name stay) [ ]
  populate_loop-Populated law maps (suc fuel) class_name fields known short =
      populate_in-Populated fuel fields (find_class_entry table class_name) known (maps class_name)
        (λ c b fields' e m.
          populate_loop-Populated law maps fuel b fields' (law.known class_name b c e m)
            (λ y d. short y (step e m d)))

-- In a table that is well formed, and whose classes have properties with different names that are
-- not empty, a new instance of a class of the table gets its fields, and each field has what becomes,
-- as an item of a map, of the value that the look-up of that property in the class finds: that of the
-- class itself before those of its bases, and that of a base before those of the next.
pub populate_instance_defaults-lookup_property :
    {V B : Type 0} (as_item : V → V) (table : List (Class V B)) (class_name : Bytes)
    → IsWellFormed table
    → HasMaps table
    → is_some (find_class_entry table class_name) ≡ true
    → (fields : Named V) × (populate_instance_defaults_recursive as_item table class_name []
        ≡ some fields)
      × ((name : Bytes)
          → find_member fields name
            ≡ each_as as_item (lookup_property_recursive table class_name name))
unfolding populate_instance_defaults_recursive lookup_property_recursive found find_member
populate_instance_defaults-lookup_property as_item table class_name law maps known =
    let (out, done, finds) =
      populate_loop-Populated as_item table law maps (suc max_classes) class_name [] known
        (λ y. no_long_chain table class_name y law) in
    (out, done, λ name. finds name ∙ or_else-none _)
