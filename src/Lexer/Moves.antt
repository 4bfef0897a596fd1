-- ===== src/Lexer/Moves.antt =====
-- How the scanners of src/lexer.c move over the line: the steps that they are made of.
use arksh.Base.{
  Bool-cases, max_token, ℕ, ◌+◌, ◌≤◌, ◌≡◌, refl, sym, ap, ◌∙◌, ◌⊎◌, inl, inr, Bool, true, false, [],
  ◌∷◌, ◌++◌, append_assoc, append-nil, arith, leb, if◌then◌else◌, length, take, drop, Bytes,
  length-append, length-drop, take-append-drop,
}
use arksh.Lexer.{
  Error, raw_too_long, out_of_fuel, Result, ok, err, ◌>>=◌, Cursor, append_char, append_all, copy,
  copy_raw, more, copy_escape, drop_escape,
}

abbrev pub NotFuel : Error → Type 0
NotFuel out_of_fuel = ⊥
NotFuel e = Unit

-- Both buffers hold a terminating zero too.
abbrev pub Bounded : Cursor → Type 0
Bounded k = (length k.cooked ≤ 255) × (length k.raw ≤ 255)

-- At least `n` characters went from the line to `raw`.
pub record MovedTo (n : ℕ) (k k1 : Cursor) : Type 0 where
  pub same : k1.raw ++ k1.rest ≡ k.raw ++ k.rest
  pub shorter : length k1.rest + n ≤ length k.rest
  pub bounded : Bounded k1

abbrev pub Moves : ℕ → Cursor → Result Cursor → Type 0
Moves n k (err e) = NotFuel e
Moves n k (ok k1) = MovedTo n k k1

pub Moves-bind :
    (n m p : ℕ) (k : Cursor) (r : Result Cursor) (f : Cursor → Result Cursor)
    → p ≤ n + m
    → Moves n k r
    → ((k1 : Cursor) → Bounded k1 → length k1.rest + n ≤ length k.rest → Moves m k1 (f k1))
    → Moves p k (r >>= f)
Moves-bind n m p k (err e) f le h g = h
Moves-bind n m p k (ok k1) f le h g = through (f k1) (g k1 h.bounded h.shorter)
  where
    through : (r : Result Cursor) → Moves m k1 r → Moves p k r
    through (err e) x = x
    through (ok k2) x = record {
      same = x.same ∙ h.same;
      shorter = omega (arith, x.shorter, h.shorter);
      bounded = x.bounded;
    }

pub Moves-if :
    (n : ℕ) (k : Cursor) (b : Bool) (x y : Result Cursor)
    → Moves n k x
    → Moves n k y
    → Moves n k (if b then x else y)
Moves-if n k true x y h g = h
Moves-if n k false x y h g = g

pub Rest-cases : (s : Bytes) → (s ≡ []) ⊎ ((c : ℕ) × (t : Bytes) × (s ≡ c ∷ t))
Rest-cases [] = inl refl
Rest-cases (c ∷ t) = inr (c, t, refl)

abbrev Appends : Bytes → Bytes → Result Bytes → Type 0
Appends dest cs (err e) = NotFuel e
Appends dest cs (ok d) = (d ≡ dest ++ cs) × (length d ≤ 255)

append_char-cases :
    (label : Error) (dest : Bytes) (c : ℕ)
    → (append_char label dest c ≡ err label)
      ⊎ ((append_char label dest c ≡ ok (dest ++ c ∷ [])) × (length dest + 1 ≤ 255))
unfolding append_char
append_char-cases label dest c = elim (Bool-cases (leb max_token (length dest + 1))) [
  | inl e ↦ rw e (inl refl)
  | inr e ↦ rw e (inr (refl, ground arith))
]

Appends-shift :
    (dest : Bytes) (c : ℕ) (cs : Bytes) (r : Result Bytes)
    → Appends (dest ++ c ∷ []) cs r
    → Appends dest (c ∷ cs) r
Appends-shift dest c cs (err e) h = h
Appends-shift dest c cs (ok d) (same, fits) = (same ∙ append_assoc dest (c ∷ []) cs, fits)

pub append_all-Appends :
    (label : Error) (dest cs : Bytes)
    → NotFuel label
    → length dest ≤ 255
    → Appends dest cs (append_all label dest cs)
unfolding append_all
append_all-Appends label dest [] f h = (sym (append-nil dest), h)
append_all-Appends label dest (c ∷ cs) f h = elim (append_char-cases label dest c) [
  | inl e ↦ rw (e, Appends) f
  | inr (e, fits) ↦
      rw (e, Appends)
        (Appends-shift dest c cs _ (
          append_all-Appends label (dest ++ c ∷ []) cs f
            (omega (arith, length-append dest (c ∷ [])))))
]

-- After both buffers took their characters: `*index += n`.
module _ (n m : ℕ) (k : Cursor) (le : m ≤ n) (enough : m ≤ length k.rest) (b : Bounded k) where
  moved_to :
      (cooked raw : Bytes)
      → raw ≡ k.raw ++ take n k.rest
      → length raw ≤ 255
      → length cooked ≤ 255
      → MovedTo m k (record { cooked = cooked; raw = raw; rest = drop n k.rest })
  moved_to cooked raw e fits fits' = record {
    same =
        ap (λ r. r ++ drop n k.rest) e
        ∙ append_assoc k.raw (take n k.rest) (drop n k.rest)
        ∙ ap (◌++◌ k.raw) (take-append-drop n k.rest);
    shorter = omega (arith, length-drop n k.rest);
    bounded = (fits', fits);
  }

  with_cooked :
      (raw : Bytes) (r : Result Bytes)
      → raw ≡ k.raw ++ take n k.rest
      → length raw ≤ 255
      → Appends k.cooked (take n k.rest) r
      → Moves m k (r >>= λ cooked. ok (record { cooked = cooked; raw = raw; rest = drop n k.rest }))
  with_cooked raw (err e) h fits g = g
  with_cooked raw (ok d) h fits g = moved_to d raw h fits g.1

  with_raw :
      (r : Result Bytes) (f : Bytes → Result Cursor)
      → Appends k.raw (take n k.rest) r
      → ((raw : Bytes) → raw ≡ k.raw ++ take n k.rest → length raw ≤ 255 → Moves m k (f raw))
      → Moves m k (r >>= f)
  with_raw (err e) f h g = h
  with_raw (ok d) f h g = g d h.0 h.1

  pub copy-Moves : (label : Error) → NotFuel label → Moves m k (copy n label k)
  unfolding copy
  copy-Moves label f =
      with_raw _ _ (append_all-Appends raw_too_long k.raw (take n k.rest) tt b.1) (λ raw e fits.
        with_cooked raw _ e fits (append_all-Appends label k.cooked (take n k.rest) f b.0))

  pub copy_raw-Moves : Moves m k (copy_raw n k)
  unfolding copy_raw
  copy_raw-Moves =
      with_raw _ _ (append_all-Appends raw_too_long k.raw (take n k.rest) tt b.1)
        (λ raw e fits. moved_to k.cooked raw e fits b.0)

pub more-Moves :
    (dangling : Error) (k : Cursor) → NotFuel dangling → Bounded k → Moves 0 k (more dangling k)
unfolding more
more-Moves dangling k f b = elim (Rest-cases k.rest) [
  | inl e ↦ rw (e, Moves) f
  | inr (c, t, e) ↦ rw (e, Moves) (record { same = refl; shorter = omega arith; bounded = b })
]

module _ (label dangling : Error) (k : Cursor) (f : NotFuel label) (g : NotFuel dangling)
    (b : Bounded k) (enough : 1 ≤ length k.rest) where
  second-Moves : (k1 : Cursor) → Bounded k1 → Moves 0 k1 (more dangling k1 >>= copy 1 label)
  second-Moves k1 b1 =
      Moves-bind 0 0 0 k1 _ _ (omega arith) (more-Moves dangling k1 g b1)
        (λ k2 b2 le. copy-Moves 1 0 k2 (omega arith) (omega arith) b2 label f)

  pub copy_escape-Moves : Moves 1 k (copy_escape label dangling k)
  unfolding copy_escape
  copy_escape-Moves =
      Moves-bind 1 0 1 k _ _ (omega arith) (copy-Moves 1 1 k (omega arith) enough b label f)
        (λ k1 b1 le. second-Moves k1 b1)

  pub drop_escape-Moves : Moves 1 k (drop_escape label dangling k)
  unfolding drop_escape
  drop_escape-Moves =
      Moves-bind 1 0 1 k _ _ (omega arith) (copy_raw-Moves 1 1 k (omega arith) enough b)
        (λ k1 b1 le. second-Moves k1 b1)
