-- ===== src/Classes/Descent.antt =====
-- Chains of bases in src/shell.c, and the searches that go along them.
use arksh.Base.{
  ℕ, zero, suc, ◌<◌, ◌≡◌, refl, subst, inl, inr, Bool, true, false, ◌||◌, Option, some, List, [],
  ◌∷◌, Bool-cases, Option-cases, arith, Bytes, same_text, same_text_refl, same_text_eq,
}
use arksh.Classes.{
  Class, find_class_entry, resolve_class_for_lookup, any_base, class_chain_contains, is_a_loop,
}

pub data Among (b : Bytes) : List Bytes → Type 0 where
  here : {bases : List Bytes} → Among b (b ∷ bases)
  there : {c : Bytes} {bases : List Bytes} → Among b bases → Among b (c ∷ bases)

or-true : (x : Bool) {y : Bool} → y ≡ true → (x || y) ≡ true
or-true true e = refl
or-true false e = e

any_base-Among :
    (f : Bytes → Bool) (bases : List Bytes)
    → any_base f bases ≡ true
    → (b : Bytes) × Among b bases × (f b ≡ true)
any_base-Among f [] h = ground arith
any_base-Among f (b ∷ bases) h = elim (Bool-cases (f b)) [
  | inl e ↦ (b, here, e)
  | inr e ↦ let (c, m, k) = any_base-Among f bases (ground (arith, h, e)) in (c, there m, k)
]

Among-any_base :
    (f : Bytes → Bool) {b : Bytes} {bases : List Bytes}
    → Among b bases
    → f b ≡ true
    → any_base f bases ≡ true
Among-any_base f here h = ground (arith, h)
Among-any_base f (there {c} m) h = let k = Among-any_base f m h in or-true (f c) k

module _ {V B : Type 0} where
  -- From a class to one of its bases, that many times.
  pub data Descends (find : Bytes → Option (Class V B)) : ℕ → Bytes → Bytes → Type 0 where
    stay : {x : Bytes} → Descends find 0 x x
    step :
        {n : ℕ} {x b y : Bytes} {c : Class V B}
        → find x ≡ some c
        → Among b c.bases
        → Descends find n b y
        → Descends find (suc n) x y

  module _ (table : List (Class V B)) where
    pub is_a_loop-Descends :
        (fuel : ℕ) (name target : Bytes)
        → is_a_loop fuel table name target ≡ true
        → (n : ℕ) × (n < fuel) × Descends (find_class_entry table) n name target
    unfolding is_a_loop
    is_a_loop-Descends zero name target h = ground arith
    is_a_loop-Descends (suc fuel) name target h = elim (Bool-cases (same_text name target)) [
      | inl e ↦ (
        0,
        omega arith,
        subst (λ t. Descends (find_class_entry table) 0 name t) (same_text_eq name target e) stay,
      )
      | inr e ↦ elim (Option-cases (find_class_entry table name)) [
        | inl k ↦ ground (arith, h, e, k)
        | inr (c, k) ↦
            let (b, m, l) =
              any_base-Among (λ b. is_a_loop fuel table b target) c.bases
                (ground (arith, h, e, k)) in
            let (n, less, d) = is_a_loop-Descends fuel b target l in
            (suc n, omega arith, step k m d)
      ]
    ]

    pub Descends-is_a_loop :
        (fuel n : ℕ) (name target : Bytes)
        → Descends (find_class_entry table) n name target
        → n < fuel
        → is_a_loop fuel table name target ≡ true
    unfolding is_a_loop
    Descends-is_a_loop zero n name target d h = ground arith
    Descends-is_a_loop (suc fuel) zero name target stay h = ground (arith, same_text_refl name)
    Descends-is_a_loop (suc fuel) (suc n) name target (step {b} {c} k m d) h =
        let found : any_base (λ b'. is_a_loop fuel table b' target) c.bases ≡ true =
          Among-any_base _ m (Descends-is_a_loop fuel n b target d (omega arith)) in
        ground (arith, k, found)

    module _ (pending : Class V B) where
      -- The search for a cycle misses no chain of up to `fuel` steps.
      pub Descends-class_chain_contains :
          (fuel n : ℕ) (start target : Bytes)
          → Descends (resolve_class_for_lookup table pending) (suc n) start target
          → n < fuel
          → class_chain_contains fuel table pending start target ≡ true
      unfolding class_chain_contains
      Descends-class_chain_contains zero n start target d h = ground arith
      Descends-class_chain_contains (suc fuel) zero start target (step {c} k m stay) h =
          let found : any_base
                (λ b. same_text b target || class_chain_contains fuel table pending b target)
                c.bases
              ≡ true =
            Among-any_base _ m (ground (arith, same_text_refl target)) in
          ground (arith, k, found)
      Descends-class_chain_contains (suc fuel) (suc n) start target (step {b} {c} k m d) h =
          let rest = Descends-class_chain_contains fuel n b target d (omega arith) in
          let found : any_base
                (λ b'. same_text b' target || class_chain_contains fuel table pending b' target)
                c.bases
              ≡ true =
            Among-any_base _ m (or-true (same_text b target) rest) in
          ground (arith, k, found)
