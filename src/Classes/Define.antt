-- ===== src/Classes/Define.antt =====
-- The table of classes in src/shell.c stays well formed when a class is defined.
use arksh.Base.{
  ℕ, zero, suc, ◌≤◌, ◌+◌, ◌≡◌, refl, sym, ap, ◌∙◌, subst, ◌⊎◌, inl, inr, Bool, true, false, ◌||◌,
  Option, none, some, List, [], ◌∷◌, leb, if◌then◌else◌, Bool-cases, length, arith, Bytes,
  same_text, same_text_refl, same_text_eq,
}
use arksh.Scope.{is_valid_identifier}
use arksh.Classes.{
  Class, Member, property, method, ClassError, Definition, invalid_name, class_limit, max_classes,
  is_some, find_class_entry, resolve_class_for_lookup, class_chain_contains, check_bases,
  add_members, put_class, stored, with_members, checked, set_class,
}
use arksh.Classes.Descent.{Among, here, there, Descends, stay, step, Descends-class_chain_contains}

if-then : {A : Type 0} {x : A} (b : Bool) (y : A) → b ≡ true → (if b then x else y) ≡ x
if-then true y e = refl
if-then false y e = ground (arith, e)

module _ {V B : Type 0} where
  -- The names are different, there are at most as many classes as fit, every base is in the table,
  -- and no class comes back to itself in up to 34 steps, two more than there can be classes.
  pub record IsWellFormed (table : List (Class V B)) : Type 0 where
    pub few : length table ≤ max_classes
    pub known :
        (name b : Bytes) (c : Class V B)
        → find_class_entry table name ≡ some c
        → Among b c.bases
        → is_some (find_class_entry table b) ≡ true
    pub no_cycle :
        (n : ℕ) (name : Bytes) → n ≤ 33 → ¬ Descends (find_class_entry table) (suc n) name name

  find-put_class :
      (c : Class V B) (table : List (Class V B)) (name : Bytes)
      → find_class_entry (put_class c table) name ≡ resolve_class_for_lookup table c name
  unfolding find_class_entry resolve_class_for_lookup
  find-put_class c [] name = refl
  find-put_class c (d ∷ table) name = elim (Bool-cases (same_text d.name c.name)) [
    | inl e ↦
        let h : same_text d.name name ≡ same_text c.name name =
          ap (λ z. same_text z name) (same_text_eq d.name c.name e) in
        ground (arith, h, e)
    | inr e ↦
        let ih = find-put_class c table name in
        elim (Bool-cases (same_text c.name name)) [
          | inl k ↦
              let h : same_text d.name name ≡ false =
                ap (same_text d.name) (sym (same_text_eq c.name name k)) ∙ e in
              ground (arith, ih, h, k, e)
          | inr k ↦ ground (arith, ih, k, e)
        ]
  ]

  length-put_class :
      (c : Class V B) (table : List (Class V B))
      → (length (put_class c table) ≤ length table + 1)
        × (is_some (find_class_entry table c.name) ≡ true
            → length (put_class c table) ≤ length table)
  unfolding find_class_entry
  length-put_class c [] = (omega arith, λ h. ground arith)
  length-put_class c (d ∷ table) =
      let (less, same) = length-put_class c table in
      elim (Bool-cases (same_text d.name c.name)) [
        | inl e ↦ ground (arith, e)
        | inr e ↦ ground (arith, e, less, same)
      ]

  add_members-same :
      (members : List (Bytes × Member V B)) (c : Class V B)
      → ((add_members members c).name ≡ c.name) × ((add_members members c).bases ≡ c.bases)
  add_members-same [] c = (refl, refl)
  add_members-same ((name, property value) ∷ members) c = add_members-same members _
  add_members-same ((name, method block) ∷ members) c = add_members-same members _

  check_bases-passes :
      (table : List (Class V B)) (c : Class V B) (bases : List Bytes) {b : Bytes}
      → check_bases table c bases ≡ none
      → Among b bases
      → (same_text b c.name ≡ false)
        × (is_some (find_class_entry table b) ≡ true)
        × (class_chain_contains (suc max_classes) table c b c.name ≡ false)
  unfolding check_bases
  check_bases-passes table c [] h m = elim m [ ]
  check_bases-passes table c (b ∷ bases) h here = ground (arith, h)
  check_bases-passes table c (b ∷ bases) h (there m) =
      check_bases-passes table c bases (ground (arith, h)) m

  -- Only the bases count.
  pub Descends-along :
      {f g : Bytes → Option (Class V B)} {n : ℕ} {x y : Bytes}
      → ((name : Bytes) (c : Class V B)
          → f name ≡ some c
          → (d : Class V B) × (g name ≡ some d) × (d.bases ≡ c.bases))
      → Descends f n x y
      → Descends g n x y
  Descends-along h stay = stay
  Descends-along h (step {x} {b} {c} e m rest) =
      let (d, k, same) = h x c e in
      step k (subst (λ bases. Among b bases) (sym same) m) (Descends-along h rest)

  Descends-append :
      {f : Bytes → Option (Class V B)} {i j : ℕ} {x y z : Bytes} (n : ℕ)
      → n ≡ i + j
      → Descends f i x y
      → Descends f j y z
      → Descends f n x z
  Descends-append {f} {j} {x} {z} n e stay q = subst (λ k. Descends f k x z) (omega (arith, e)) q
  Descends-append zero e (step k m p) q = ground (arith, e)
  Descends-append (suc n) e (step k m p) q = step k m (Descends-append n (omega (arith, e)) p q)

  abbrev bases_of : Option (Class V B) → List Bytes
  bases_of none = []
  bases_of (some c) = c.bases

  module _ (table : List (Class V B)) (c : Class V B) where
    abbrev find : Bytes → Option (Class V B)
    find = resolve_class_for_lookup table c

    -- A chain in the new table is one in the old table, or it passes the new class.
    Descends-passes :
        {n : ℕ} {x y : Bytes}
        → Descends find n x y
        → Descends (find_class_entry table) n x y
          ⊎ ((i : ℕ) × (j : ℕ) × (n ≡ i + j) × Descends find i x c.name × Descends find j c.name y)
    unfolding resolve_class_for_lookup
    Descends-passes stay = inl stay
    Descends-passes {n = suc n} {x} {y} (step {b} {c = d} k m rest) =
        elim (Bool-cases (same_text c.name x)) [
          | inl e ↦
              let at : c.name ≡ x = same_text_eq c.name x e in
              inr (
                0,
                suc n,
                omega arith,
                subst (λ z. Descends find 0 z c.name) at stay,
                subst (λ z. Descends find (suc n) z y) (sym at) (step k m rest),
              )
          | inr e ↦ elim (Descends-passes rest) [
            | inl old ↦ inl (step {c = d} (ground (arith, k, e)) m old)
            | inr (i, j, sum, p, q) ↦ inr (suc i, j, omega (arith, sum), step k m p, q)
          ]
        ]

    module _ (base : Class V B) (same_name : c.name ≡ base.name) (same_bases : c.bases ≡ base.bases)
        (passes : check_bases table base base.bases ≡ none) where
      own_bases :
          (name : Bytes) (d : Class V B)
          → find name ≡ some d
          → same_text c.name name ≡ true
          → d.bases ≡ c.bases
      unfolding resolve_class_for_lookup
      own_bases name d h e =
          sym (
            ap bases_of (sym (if-then (same_text c.name name) (find_class_entry table name) e) ∙ h))

      resolve-base :
          (name : Bytes) (d : Class V B)
          → find name ≡ some d
          → (d' : Class V B) × (resolve_class_for_lookup table base name ≡ some d')
            × (d'.bases ≡ d.bases)
      unfolding resolve_class_for_lookup
      resolve-base name d h = elim (Bool-cases (same_text c.name name)) [
        | inl e ↦ (
          base,
          if-then (same_text base.name name) (find_class_entry table name)
              (ap (λ z. same_text z name) (sym same_name) ∙ e),
          sym same_bases ∙ sym (own_bases name d h e),
        )
        | inr e ↦
            let k : same_text base.name name ≡ false =
              ap (λ z. same_text z name) (sym same_name) ∙ e in
            (d, ground (arith, h, e, k), refl)
      ]

      no_loop : (n : ℕ) → n ≤ 33 → ¬ Descends find (suc n) c.name c.name
      no_loop n h (step {b} {c = d} k m rest) =
          let among : Among b base.bases =
            subst (λ bases. Among b bases)
              (own_bases c.name d k (same_text_refl c.name) ∙ same_bases) m in
          let (other, known, chain) = check_bases-passes table base base.bases passes among in
          elim-chain n h rest other chain
        where
          elim-chain :
              (n : ℕ) {b : Bytes}
              → n ≤ 33
              → Descends find n b c.name
              → same_text b base.name ≡ false
              → class_chain_contains (suc max_classes) table base b base.name ≡ false
              → ⊥
          elim-chain zero h stay other chain =
              ground
                (arith, other, same_name, ap (same_text c.name) same_name, same_text_refl c.name)
          elim-chain (suc n) {b} h rest other chain =
              let found =
                Descends-class_chain_contains table base (suc max_classes) n b base.name
                  (subst (λ z. Descends (resolve_class_for_lookup table base) (suc n) b z) same_name
                    (Descends-along resolve-base rest))
                  (omega (arith, h)) in
              ground (arith, found, chain)

      is_some-put_class :
          (b : Bytes)
          → is_some (find_class_entry table b) ≡ true
          → is_some (find_class_entry (put_class c table) b) ≡ true
      unfolding resolve_class_for_lookup
      is_some-put_class b h = ap is_some (find-put_class c table b) ∙ kept (same_text c.name b)
        where
          kept : (x : Bool) → is_some (if x then some c else find_class_entry table b) ≡ true
          kept true = refl
          kept false = h

      put_class-IsWellFormed :
          IsWellFormed table
          → length (put_class c table) ≤ max_classes
          → IsWellFormed (put_class c table)
      unfolding resolve_class_for_lookup
      put_class-IsWellFormed old fits = record {
        few = fits;
        known = λ name b d h m.
            let k : find name ≡ some d = sym (find-put_class c table name) ∙ h in
            is_some-put_class b (elim (Bool-cases (same_text c.name name)) [
              | inl e ↦
                  let (other, present, chain) =
                    check_bases-passes table base base.bases passes
                      (subst (λ bases. Among b bases) (own_bases name d k e ∙ same_bases) m) in
                  present
              | inr e ↦ old.known name b d (ground (arith, k, e)) m
            ]);
        no_cycle = λ n name h d.
            let d' =
              Descends-along {g = find} (λ x e k. (e, sym (find-put_class c table x) ∙ k, refl))
                d in
            elim (Descends-passes d') [
              | inl before ↦ old.no_cycle n name h before
              | inr (i, j, sum, p, q) ↦
                  no_loop n h (Descends-append (suc n) (omega (arith, sum)) q p)
            ];
      }

  abbrev after : Definition V B → List (Class V B)
  after d = d.1

  stored-IsWellFormed :
      (table : List (Class V B)) (c base : Class V B)
      → c.name ≡ base.name
      → c.bases ≡ base.bases
      → check_bases table base base.bases ≡ none
      → IsWellFormed table
      → IsWellFormed (stored table c).1
  stored-IsWellFormed table c base same_name same_bases passes old =
      fits (is_some (find_class_entry table c.name)) (leb (length table + 1) max_classes) refl refl
    where
      fits :
          (x y : Bool)
          → is_some (find_class_entry table c.name) ≡ x
          → leb (length table + 1) max_classes ≡ y
          → IsWellFormed
              (after (if x || y then (none, put_class c table) else (some class_limit, table)))
      fits true y h k =
          let (less, same) = length-put_class c table in
          let short = same h in
          let few = old.few in
          put_class-IsWellFormed table c base same_name same_bases passes old
            (omega (arith, short, few))
      fits false true h k =
          let (less, same) = length-put_class c table in
          put_class-IsWellFormed table c base same_name same_bases passes old
            (ground (arith, less, k))
      fits false false h k = old

-- A definition of a class whose body defines no class keeps the table well formed, whether it
-- succeeds or fails: at most 32 classes, every base in the table, and no class that is, over up to
-- 34 steps, its own base.
pub set_class-IsWellFormed :
    {V B : Type 0} (table : List (Class V B)) (name : Bytes) (bases : List Bytes)
    (body : List (Class V B) → Option (List (Bytes × Member V B)) × List (Class V B))
    → (body table).1 ≡ table
    → IsWellFormed table
    → IsWellFormed (set_class table name bases body).1
unfolding set_class
set_class-IsWellFormed {V} {B} table name bases body same old = valid (is_valid_identifier name)
  where
    candidate : Class V B
    candidate = record { name = name; bases = bases; properties = []; methods = [] }

    members-IsWellFormed :
        (members : Option (List (Bytes × Member V B))) (table' : List (Class V B))
        → check_bases table candidate bases ≡ none
        → table' ≡ table
        → IsWellFormed (with_members candidate (members, table')).1
    members-IsWellFormed none table' e k = subst IsWellFormed (sym k) old
    members-IsWellFormed (some all) table' e k =
        let (same_name, same_bases) = add_members-same all candidate in
        stored-IsWellFormed table' (add_members all candidate) candidate same_name same_bases
          (ap (λ t. check_bases t candidate bases) k ∙ e) (subst IsWellFormed (sym k) old)

    checked-IsWellFormed :
        (o : Option ClassError)
        → check_bases table candidate bases ≡ o
        → IsWellFormed (checked table o (with_members candidate (body table))).1
    checked-IsWellFormed (some error) e = old
    checked-IsWellFormed none e = members-IsWellFormed (body table).0 (body table).1 e same

    valid :
        (b : Bool)
        → IsWellFormed (
            after (
              if b
              then checked table
                  (check_bases table candidate bases)
                  (with_members candidate (body table))
              else (some invalid_name, table)))
    valid true = checked-IsWellFormed (check_bases table candidate bases) refl
    valid false = old
