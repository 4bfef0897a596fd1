-- ===== src/Classes/Depth.antt =====
-- In a well-formed table of src/shell.c no chain of bases is longer than the searches go.
use arksh.Base.{
  ◌↔◌, leb, ℕ, zero, suc, ◌<◌, ◌≤◌, ◌≡◌, refl, sym, ap, ◌∙◌, subst, ◌⊎◌, inl, inr, true, false,
  Option, none, some, List, [], ◌∷◌, if◌then◌else◌, Bool-cases, length, arith, Bytes, same_text,
  same_text_eq,
}
use arksh.Classes.{Class, max_classes, find_class_entry, class_is_a_recursive}
use arksh.Classes.Descent.{Descends, stay, step, is_a_loop-Descends, Descends-is_a_loop}
use arksh.Classes.Define.{IsWellFormed, Descends-along}

module _ {V B : Type 0} where
  remove : Bytes → List (Class V B) → List (Class V B)
  remove x [] = []
  remove x (c ∷ table) = let rest = remove x table in if same_text c.name x then rest else c ∷ rest

  find-remove :
      (x name : Bytes) (table : List (Class V B))
      → find_class_entry (remove x table) name
        ≡ (if same_text x name then none else find_class_entry table name)
  unfolding remove find_class_entry
  find-remove x name [] = elim (Bool-cases (same_text x name)) [
    | inl k ↦ ground (arith, k)
    | inr k ↦ ground (arith, k)
  ]
  find-remove x name (c ∷ table) =
      let ih = find-remove x name table in
      elim (Bool-cases (same_text c.name x)) [
        | inl e ↦
            let h : same_text c.name name ≡ same_text x name =
              ap (λ z. same_text z name) (same_text_eq c.name x e) in
            ground (arith, ih, h, e)
        | inr e ↦ elim (Bool-cases (same_text x name)) [
          | inl k ↦
              let h : same_text c.name name ≡ false =
                ap (same_text c.name) (sym (same_text_eq x name k)) ∙ e in
              ground (arith, ih, h, k, e)
          | inr k ↦ ground (arith, ih, k, e)
        ]
      ]

  length-remove :
      (x : Bytes) (table : List (Class V B)) (c : Class V B)
      → length (remove x table) ≤ length table
        × (find_class_entry table x ≡ some c → length (remove x table) < length table)
  unfolding remove find_class_entry
  length-remove x [] c = (omega arith, λ h. ground (arith, h))
  length-remove x (d ∷ table) c =
      let (shorter, strictly) = length-remove x table c in
      elim (Bool-cases (same_text d.name x)) [
        | inl e ↦ ground (arith, e, shorter)
        | inr e ↦ ground (arith, e, shorter, strictly)
      ]

  -- A chain avoids a class, or it passes it.
  Descends-remove :
      (x : Bytes) (table : List (Class V B)) {n : ℕ} {b y : Bytes}
      → Descends (find_class_entry table) n b y
      → Descends (find_class_entry (remove x table)) n b y
        ⊎ ((i : ℕ) × (i < n) × Descends (find_class_entry table) i b x)
  Descends-remove x table stay = inl stay
  Descends-remove x table {n = suc n} {b} {y} (step {c} k m rest) =
      elim (Bool-cases (same_text x b)) [
        | inl e ↦ inr (
          0,
          omega arith,
          subst (λ z. Descends (find_class_entry table) 0 b z) (sym (same_text_eq x b e)) stay,
        )
        | inr e ↦ elim (Descends-remove x table rest) [
          | inl avoids ↦ inl (step {c = c} (find-remove x b table ∙ ground (arith, e, k)) m avoids)
          | inr (i, less, d) ↦ inr (suc i, omega (arith, less), step k m d)
        ]
      ]

  chain_bound :
      (k : ℕ) (table : List (Class V B)) {x y : Bytes}
      → length table ≤ k
      → ((n : ℕ) (z : Bytes) → n ≤ k → ¬ Descends (find_class_entry table) (suc n) z z)
      → ¬ Descends (find_class_entry table) (suc k) x y
  unfolding find_class_entry
  chain_bound zero [] h no_cycle (step k m rest) = ground (arith, k)
  chain_bound zero (c ∷ table) h no_cycle d = ground arith
  chain_bound (suc k) table {x} h no_cycle (step {c} e m rest) =
      elim (Descends-remove x table rest) [
        | inl avoids ↦
            let (shorter, strictly) = length-remove x table c in
            let fewer = strictly e in
            chain_bound k (remove x table) (omega (arith, fewer, h))
              (λ n z less d.
                no_cycle n z (omega (arith, less))
                  (Descends-along (λ name c' there'. (c', kept name c' there', refl)) d))
              avoids
        | inr (i, less, d) ↦ no_cycle i x (omega (arith, less)) (step e m d)
      ]
    where
      kept :
          (name : Bytes) (c' : Class V B)
          → find_class_entry (remove x table) name ≡ some c'
          → find_class_entry table name ≡ some c'
      kept name c' h = let r = find-remove x name table in ground (arith, r, h)

  -- The classes are at most 32, so that 33 bases in a row would meet one of them twice.
  pub no_long_chain :
      (table : List (Class V B)) (x y : Bytes)
      → IsWellFormed table
      → ¬ Descends (find_class_entry table) (suc max_classes) x y
  no_long_chain table x y law =
      chain_bound max_classes table law.few (λ n z h. law.no_cycle n z (omega (arith, h)))

  prefix :
      {f : Bytes → Option (Class V B)} (k : ℕ) {n : ℕ} {x y : Bytes}
      → k ≤ n
      → Descends f n x y
      → (z : Bytes) × Descends f k x z
  prefix zero {x} h d = (x, stay)
  prefix (suc k) h stay = ground arith
  prefix (suc k) h (step e m d) = let (z, p) = prefix k (omega (arith, h)) d in (z, step e m p)

-- In a well-formed table, a class is a target exactly where a chain of bases, of whatever length,
-- leads from the one to the other; the class itself is a chain of none.
pub class_is_a_recursive-Descends :
    {V B : Type 0} (table : List (Class V B)) (name target : Bytes)
    → IsWellFormed table
    → (class_is_a_recursive table name target ≡ true)
      ↔ ((n : ℕ) × Descends (find_class_entry table) n name target)
unfolding class_is_a_recursive
class_is_a_recursive-Descends table name target law = (
  (λ h. let (n, less, d) = is_a_loop-Descends table (suc max_classes) name target h in (n, d)),
  (λ (n, d).
      Descends-is_a_loop table (suc max_classes) n name target d
        (elim (Bool-cases (leb (suc max_classes) n)) [
          | inl e ↦
              let (z, long) = prefix (suc max_classes) (ground (arith, e)) d in
              elim (no_long_chain table name z law long) [ ]
          | inr e ↦ ground (arith, e)
        ])),
)
