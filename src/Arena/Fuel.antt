-- ===== src/Arena/Fuel.antt =====
-- The allocator returns, and `multiply_size` is exact.
use arksh.Base.{
  ℕ, zero, suc, ◌+◌, ◌-◌, ◌*◌, ◌/◌, ◌%◌, ◌≤◌, ◌<◌, ◌≡◌, ◌≢◌, refl, ap, inl, inr, true, false, ◌&&◌,
  ◌||◌, Option, none, some, Option-cases, Bool-cases, List, [], ◌∷◌, ◌++◌, map, arith, leb, ◌==◌,
  length, le→not_ltb, lt→ltb, All,
}
use native.Mathlib.Nat.{le-div_iff_mul-le, div-lt_iff_lt-mul, mod-eq_of_lt}
use arksh.Arena.{
  Extent, Chunk, word, alignment, header, align_up, rewind, Outcome, multiply_size, allocate_chunk,
  chunk_capacity, grow, advance, alloc_loop,
}

nonzero : (l r : ℕ) → (suc l == 0 || suc r == 0) ≡ false
nonzero l r = ground arith

-- For two numbers below 2^64, `multiply_size` gives their product where it is below 2^64 too, and
-- status 1 where it is not.
pub multiply_size_exact :
    (left right : ℕ)
    → left < word
    → right < word
    → (left * right < word → multiply_size left right ≡ some (left * right))
      × (word ≤ left * right → multiply_size left right ≡ none)
unfolding multiply_size
multiply_size_exact zero right hl hr = (λ h. ap some (omega arith), λ h. absurd (omega arith))
multiply_size_exact (suc l) zero hl hr = (λ h. ground arith, λ h. absurd (omega arith))
multiply_size_exact (suc l) (suc r) hl hr = (
  λ h.
      let low : suc l ≤ (word - 1) / suc r =
        (le-div_iff_mul-le {k = suc r} (omega arith)).1 (omega arith) in
      rw (nonzero l r, le→not_ltb _ _ low) (ap some (mod-eq_of_lt h)),
  λ h.
      let high : (word - 1) / suc r < suc l =
        (div-lt_iff_lt-mul {k = suc r} (omega arith)).1 (omega arith) in
      rw (nonzero l r, lt→ltb _ _ high) refl,
)

-- A run that has ended.
abbrev pub Returns : Option Outcome → Type 0
Returns none = ⊥
Returns (some o) = Unit

align_up_zero : align_up 0 alignment ≡ 0
unfolding align_up
align_up_zero = refl

module _ (malloc : List Extent → ℕ → Option ℕ) (bytes default : ℕ) (memory : ℕ → ℕ)
    (small : bytes + alignment < word) where
  chunk_capacity-le : bytes + alignment ≤ chunk_capacity malloc default bytes
  unfolding chunk_capacity
  chunk_capacity-le = ground arith

  -- A chunk that was just allocated has room.
  pub fresh-Returns :
      (fuel : ℕ) (before : List Chunk) (d : Chunk) (after : List Chunk)
      → d.used ≡ 0
      → bytes ≤ d.capacity
      → Returns (alloc_loop malloc (suc fuel) bytes default memory before d after)
  unfolding alloc_loop
  fresh-Returns fuel before d after u h =
      let fits : (leb (align_up d.used alignment) d.capacity
            && leb bytes (d.capacity - align_up d.used alignment))
          ≡ true =
        rw (u, align_up_zero) (ground arith) in
      rw (fits, Returns) tt

  abbrev pub Empty : Option Chunk → Type 0
  Empty none = Unit
  Empty (some d) = (d.used ≡ 0) × (bytes ≤ d.capacity)

  pub allocate_chunk-Empty :
      (live : List Chunk) → Empty (allocate_chunk malloc live (chunk_capacity malloc default bytes))
  unfolding allocate_chunk
  allocate_chunk-Empty live =
      let size = (header + chunk_capacity malloc default bytes) % word in
      elim (Option-cases (malloc (map (λ c. c.extent) live) size)) [
        | inl e ↦ rw (e, Empty) tt
        | inr (base, e) ↦ rw (e, Empty) (refl, omega (arith, chunk_capacity-le))
      ]

  grow-Returns :
      (fuel : ℕ) (before : List Chunk) (c : Chunk) (o : Option Chunk)
      → Empty o
      → Returns (
          grow malloc bytes default memory
            (alloc_loop malloc (suc fuel) bytes default memory)
            before
            c
            o)
  unfolding grow
  grow-Returns fuel before c none e = tt
  grow-Returns fuel before c (some d) e = fresh-Returns fuel (before ++ c ∷ []) d [] e.0 e.1

  pub loop-Returns :
      (fuel : ℕ) (before : List Chunk) (c : Chunk) (after : List Chunk)
      → length after + 1 < fuel
      → Returns (alloc_loop malloc fuel bytes default memory before c after)
  unfolding alloc_loop advance
  loop-Returns zero before c after h = elim h [ ]
  loop-Returns (suc zero) before c after h = absurd (omega arith)
  loop-Returns (suc (suc fuel)) before c [] h =
      let test =
        leb (align_up c.used alignment) c.capacity
        && leb bytes (c.capacity - align_up c.used alignment) in
      elim (Bool-cases test) [
        | inl e ↦ rw (e, Returns) tt
        | inr e ↦
            rw (e, Returns) (grow-Returns fuel before c _ (allocate_chunk-Empty (before ++ c ∷ [])))
      ]
  loop-Returns (suc (suc fuel)) before c (d ∷ rest) h =
      let test =
        leb (align_up c.used alignment) c.capacity
        && leb bytes (c.capacity - align_up c.used alignment) in
      elim (Bool-cases test) [
        | inl e ↦ rw (e, Returns) tt
        | inr e ↦
            rw (e, Returns)
              (loop-Returns (suc fuel) (before ++ c ∷ []) (rewind d) rest (omega arith))
      ]

-- No chunk of the list has room for `bytes` bytes.
abbrev pub AllTooSmall : ℕ → List Chunk → Type 0
AllTooSmall bytes = All (λ c. c.capacity < bytes)

module _ (malloc : List Extent → ℕ → Option ℕ)
    (never_null : (es : List Extent) (n : ℕ) → malloc es n ≢ none) (bytes default : ℕ)
    (memory : ℕ → ℕ) (fits_word : bytes < word) (wraps : word ≤ bytes + alignment)
    (default_small : default < bytes) where
  capacity_wraps : chunk_capacity malloc default bytes < bytes
  unfolding chunk_capacity
  capacity_wraps = ground arith

  no_room :
      (c : Chunk)
      → c.capacity < bytes
      → (leb (align_up c.used alignment) c.capacity
          && leb bytes (c.capacity - align_up c.used alignment))
        ≡ false
  no_room c h = ground arith

  abbrev TooSmall : Option Chunk → Type 0
  TooSmall none = ⊥
  TooSmall (some d) = d.capacity < bytes

  allocate_chunk-TooSmall :
      (live : List Chunk)
      → TooSmall (allocate_chunk malloc live (chunk_capacity malloc default bytes))
  unfolding allocate_chunk
  allocate_chunk-TooSmall live =
      let size = (header + chunk_capacity malloc default bytes) % word in
      elim (Option-cases (malloc (map (λ c. c.extent) live) size)) [
        | inl e ↦ absurd (never_null _ _ e)
        | inr (base, e) ↦ rw (e, TooSmall) capacity_wraps
      ]

  forever_grown :
      {loop : List Chunk → Chunk → List Chunk → Option Outcome}
      → ((before : List Chunk) (d : Chunk) (after : List Chunk)
          → d.capacity < bytes
          → AllTooSmall bytes after
          → loop before d after ≡ none)
      → (before : List Chunk) (c : Chunk) (o : Option Chunk) → TooSmall o
      → grow malloc bytes default memory loop before c o ≡ none
  unfolding grow
  forever_grown ih before c none h = absurd h
  forever_grown ih before c (some d) h = ih (before ++ c ∷ []) d [] h tt

  -- While `malloc` never fails, the loop of `arksh_scratch_alloc_zero` runs out of any fuel for a
  -- size below 2^64 to which adding the alignment wraps, if the default chunk size and the chunks
  -- from the current one on are smaller than the size: every chunk that it adds is too small again.
  pub alloc_loop_forever :
      (fuel : ℕ) (before : List Chunk) (c : Chunk) (after : List Chunk)
      → c.capacity < bytes
      → AllTooSmall bytes after
      → alloc_loop malloc fuel bytes default memory before c after ≡ none
  unfolding alloc_loop
  alloc_loop_forever zero before c after h k = refl
  alloc_loop_forever (suc fuel) before c [] h k = rw (no_room c h) (
      forever_grown (alloc_loop_forever fuel) before c _
        (allocate_chunk-TooSmall (before ++ c ∷ [])))
  alloc_loop_forever (suc fuel) before c (d ∷ rest) h k =
      rw (no_room c h) (alloc_loop_forever fuel (before ++ c ∷ []) (rewind d) rest k.0 k.1)
