-- ===== src/Arena/Layout.antt =====
-- Valid chunks, and the bytes that an arena has handed out.
use arksh.Base.{
  ℕ, ◌+◌, ◌≤◌, ◌<◌, ◌≡◌, refl, sym, ap, subst, ◌⊎◌, inl, inr, List, [], ◌∷◌, ◌++◌, map, arith, All,
}
use mathlib.Core.List.{map-append}
use arksh.Arena.{Extent, Chunk, word, header, data_of, rewind}

-- The blocks of two chunks do not meet.
abbrev pub Apart : Extent → Extent → Type 0
Apart x y = (x.base + header + x.capacity ≤ y.base) ⊎ (y.base + header + y.capacity ≤ x.base)

abbrev pub Separate : List Extent → Type 0
Separate [] = Unit
Separate (x ∷ xs) = All (Apart x) xs × Separate xs

-- A block in the address space, and a fill mark inside it.
pub record IsSound (c : Chunk) : Type 0 where
  pub above : 16 ≤ c.base
  pub below : c.base + header + c.capacity ≤ word
  pub within : c.used ≤ c.capacity

abbrev pub extents : List Chunk → List Extent
extents = map (λ c. c.extent)

pub record IsValid (cs : List Chunk) : Type 0 where
  pub separate : Separate (extents cs)
  pub sound : All IsSound cs

-- The handed-out bytes of a chunk, and of a list of chunks.
abbrev pub InChunk : Chunk → ℕ → Type 0
InChunk c a = (data_of c ≤ a) × (a < data_of c + c.used)

abbrev pub Live : List Chunk → ℕ → Type 0
Live [] a = ⊥
Live (c ∷ cs) a = InChunk c a ⊎ Live cs a

pub Live-append_left : (a : ℕ) (xs ys : List Chunk) → Live xs a → Live (xs ++ ys) a
Live-append_left a (x ∷ xs) ys (inl h) = inl h
Live-append_left a (x ∷ xs) ys (inr h) = inr (Live-append_left a xs ys h)
Live-append_left a [] ys h = absurd h

pub Live-append_right : (a : ℕ) (xs ys : List Chunk) → Live ys a → Live (xs ++ ys) a
Live-append_right a [] ys h = h
Live-append_right a (x ∷ xs) ys h = inr (Live-append_right a xs ys h)

pub Live-append_split : (a : ℕ) (xs ys : List Chunk) → Live (xs ++ ys) a → Live xs a ⊎ Live ys a
Live-append_split a [] ys h = inr h
Live-append_split a (x ∷ xs) ys (inl h) = inl (inl h)
Live-append_split a (x ∷ xs) ys (inr h) = elim (Live-append_split a xs ys h) [
  | inl k ↦ inl (inr k)
  | inr k ↦ inr k
]

All-append {ℓ κ} :
    {A : Type ℓ} (P : A → Type κ) (xs ys : List A) → All P xs → All P ys → All P (xs ++ ys)
All-append P [] ys h k = k
All-append P (x ∷ xs) ys h k = (h.0, All-append P xs ys h.1 k)

All-left {ℓ κ} : {A : Type ℓ} (P : A → Type κ) (xs ys : List A) → All P (xs ++ ys) → All P xs
All-left P [] ys h = tt
All-left P (x ∷ xs) ys h = (h.0, All-left P xs ys h.1)

All-right {ℓ κ} : {A : Type ℓ} (P : A → Type κ) (xs ys : List A) → All P (xs ++ ys) → All P ys
All-right P [] ys h = h
All-right P (x ∷ xs) ys h = All-right P xs ys h.1

pub IsSound-rewind : (c : Chunk) → IsSound c → IsSound (rewind c)
IsSound-rewind c h = record { above = h.above; below = h.below; within = omega arith }

-- Only the fill mark of one chunk changes.
extents_with_used :
    (u : ℕ) (before : List Chunk) (c : Chunk) (after : List Chunk)
    → extents (before ++ record c { used = u } ∷ after) ≡ extents (before ++ c ∷ after)
extents_with_used u [] c after = refl
extents_with_used u (b ∷ before) c after = ap (◌∷◌ b.extent) (extents_with_used u before c after)

pub chunk-IsSound :
    (before : List Chunk) (c : Chunk) (after : List Chunk)
    → IsValid (before ++ c ∷ after)
    → IsSound c
chunk-IsSound before c after v = (All-right IsSound before (c ∷ after) v.sound).0

pub IsValid-with_used :
    (u : ℕ) (before : List Chunk) (c : Chunk) (after : List Chunk)
    → IsValid (before ++ c ∷ after)
    → u ≤ c.capacity
    → IsValid (before ++ record c { used = u } ∷ after)
IsValid-with_used u before c after v h =
    let s = chunk-IsSound before c after v in
    record {
      separate = subst Separate (sym (extents_with_used u before c after)) v.separate;
      sound =
          All-append IsSound before (record c { used = u } ∷ after)
            (All-left IsSound before (c ∷ after) v.sound)
            (
              record { above = s.above; below = s.below; within = h },
              (All-right IsSound before (c ∷ after) v.sound).1,
            );
    }

Separate-snoc :
    (xs : List Extent) (y : Extent)
    → Separate xs
    → All (λ x. Apart x y) xs
    → Separate (xs ++ y ∷ [])
Separate-snoc [] y h k = (tt, tt)
Separate-snoc (x ∷ xs) y h k =
    (All-append (Apart x) xs (y ∷ []) h.0 (k.0, tt), Separate-snoc xs y h.1 k.1)

pub IsValid-snoc :
    (xs : List Chunk) (d : Chunk)
    → IsValid xs
    → IsSound d
    → All (λ x. Apart x d.extent) (extents xs)
    → IsValid (xs ++ d ∷ [])
IsValid-snoc xs d v s h = record {
  separate =
      subst Separate (sym (map-append (λ c. c.extent) xs (d ∷ [])))
        (Separate-snoc (extents xs) d.extent v.separate h);
  sound = All-append IsSound xs (d ∷ []) v.sound (s, tt);
}

-- No handed-out byte of an earlier chunk lies in a later one.
pub not-Live_before :
    (before : List Chunk) (c : Chunk) (after : List Chunk) (x : ℕ)
    → IsValid (before ++ c ∷ after)
    → data_of c ≤ x
    → x < data_of c + c.capacity
    → ¬ Live before x
not-Live_before [] c after x v lo hi h = h
not-Live_before (b ∷ before) c after x v lo hi (inr h) =
    not-Live_before before c after x (record { separate = v.separate.1; sound = v.sound.1 }) lo hi h
not-Live_before (b ∷ before) c after x v lo hi (inl h) =
    let apart = apart_of before c after b.extent v.separate.0 in
    let sound = v.sound.0 in
    elim apart [ inl e ↦ omega (arith, sound.within) | inr e ↦ omega (arith, sound.within) ]
  where
    apart_of :
        (before : List Chunk) (c : Chunk) (after : List Chunk) (e : Extent)
        → All (Apart e) (extents (before ++ c ∷ after))
        → Apart e c.extent
    apart_of [] c after e h = h.0
    apart_of (b ∷ before) c after e h = apart_of before c after e h.1
