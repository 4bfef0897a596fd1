-- ===== src/Arena/Grow.antt =====
-- The loop of `arksh_scratch_alloc_zero` in src/arena.c, and the chunks that it adds.
use arksh.Base.{
  ℕ, zero, suc, ◌+◌, ◌-◌, ◌%◌, ◌≤◌, ◌<◌, ◌≡◌, refl, sym, subst, ◌⊎◌, inl, inr, ◌&&◌, Option, none,
  some, Option-cases, Bool-cases, List, [], ◌∷◌, ◌++◌, arith, leb, All, length-append,
}
use arksh.Arena.{
  Extent, Chunk, word, alignment, header, align_up, rewind, Outcome, allocate_chunk, chunk_capacity,
  return_at, grow, advance, alloc_loop,
}
use arksh.Arena.Layout.{Apart, IsSound, IsValid, extents, Live, IsValid-with_used, IsValid-snoc}
use arksh.Arena.Alloc.{
  Good, IsAllocator, take_middle, snoc_cons, placed-Good, Good-earlier, room_for,
}

module _ (malloc : List Extent → ℕ → Option ℕ) (m : IsAllocator malloc) where
  block-Apart :
      (size base : ℕ) (es : List Extent)
      → All (λ e. (e.base + header + e.capacity ≤ base) ⊎ (base + size ≤ e.base)) es
      → (capacity : ℕ) → size ≡ header + capacity
      → All (λ e. Apart e (record { base = base; capacity = capacity })) es
  block-Apart size base [] h capacity e = tt
  block-Apart size base (x ∷ es) h capacity e = (
    elim h.0 [ inl before ↦ inl before | inr behind ↦ inr (omega arith) ],
    block-Apart size base es h.1 capacity e,
  )

  abbrev pub Fresh : List Chunk → Option Chunk → Type 0
  Fresh live none = Unit
  Fresh live (some d) = IsSound d × All (λ e. Apart e d.extent) (extents live)

  pub allocate_chunk-Fresh :
      (live : List Chunk) (capacity : ℕ)
      → header + capacity < word
      → Fresh live (allocate_chunk malloc live capacity)
  unfolding allocate_chunk
  allocate_chunk-Fresh live capacity small =
      let size : (header + capacity) % word ≡ header + capacity = omega arith in
      elim (Option-cases (malloc (extents live) ((header + capacity) % word))) [
        | inl e ↦ rw (e, Fresh) tt
        | inr (base, e) ↦
            let above = m.block_above (extents live) _ base e in
            let below = m.block_below (extents live) _ base e in
            rw (e, Fresh)
              (
                record { above = above; below = omega arith; within = omega arith },
                block-Apart _ base (extents live) (m.block_apart (extents live) _ base e) capacity
                    size,
              )
      ]

  -- A call that returns NULL at chunk `c`.
  pub return_null-Good :
      (bytes default : ℕ) (memory : ℕ → ℕ) (before : List Chunk) (c : Chunk)
      → IsValid (before ++ c ∷ [])
      → Good
          (before ++ c ∷ [])
          memory
          bytes
          (some (return_at malloc default before c [] none memory))
  return_null-Good bytes default memory before c v = (
    record {
      valid = v;
      positioned = omega (arith, length-append before (c ∷ []));
      kept = λ x h. subst (λ cs. Live cs x) (sym (take_middle before c [])) h;
      unchanged = λ x h. refl;
    },
    tt,
  )

  module _ (bytes default : ℕ) (memory : ℕ → ℕ)
      (loop : List Chunk → Chunk → List Chunk → Option Outcome)
      (small : header + chunk_capacity malloc default bytes < word)
      (ih : (before : List Chunk) (c : Chunk) (after : List Chunk)
        → IsValid (before ++ c ∷ after)
        → Good (before ++ c ∷ []) memory bytes (loop before c after))
      (before : List Chunk) (c : Chunk) where
    grow-Good :
        (o : Option Chunk)
        → IsValid (before ++ c ∷ [])
        → Fresh (before ++ c ∷ []) o
        → Good (before ++ c ∷ []) memory bytes (grow malloc bytes default memory loop before c o)
    unfolding grow
    grow-Good none v f = return_null-Good bytes default memory before c v
    grow-Good (some d) v f =
        Good-earlier (before ++ c ∷ []) d memory bytes (loop (before ++ c ∷ []) d [])
          (ih (before ++ c ∷ []) d [] (IsValid-snoc (before ++ c ∷ []) d v f.0 f.1))

    advance-Good :
        (after : List Chunk)
        → IsValid (before ++ c ∷ after)
        → Good
            (before ++ c ∷ [])
            memory
            bytes
            (advance malloc bytes default memory loop before c after)
    unfolding advance
    advance-Good [] v =
        grow-Good _ v
          (allocate_chunk-Fresh (before ++ c ∷ []) (chunk_capacity malloc default bytes) small)
    advance-Good (d ∷ rest) v =
        let v' = subst IsValid (sym (snoc_cons before c (d ∷ rest))) v in
        Good-earlier (before ++ c ∷ []) (rewind d) memory bytes _ (
          ih (before ++ c ∷ []) (rewind d) rest
            (IsValid-with_used 0 (before ++ c ∷ []) d rest v' (omega arith)))

  -- Every run of the loop is good for the chunks up to the one it starts at.
  pub alloc_loop-Good :
      (fuel bytes default : ℕ) (memory : ℕ → ℕ)
      → header + chunk_capacity malloc default bytes < word
      → (before : List Chunk) (c : Chunk) (after : List Chunk) → IsValid (before ++ c ∷ after)
      → Good
          (before ++ c ∷ [])
          memory
          bytes
          (alloc_loop malloc fuel bytes default memory before c after)
  unfolding alloc_loop
  alloc_loop-Good zero bytes default memory small before c after v = tt
  alloc_loop-Good (suc fuel) bytes default memory small before c after v =
      let test =
        leb (align_up c.used alignment) c.capacity
        && leb bytes (c.capacity - align_up c.used alignment) in
      elim (Bool-cases test) [
        | inl e ↦ rw e (
            placed-Good before c after bytes memory default v (room_for c bytes e).0
              (room_for c bytes e).1)
        | inr e ↦ rw e (
            advance-Good bytes default memory (alloc_loop malloc fuel bytes default memory) small
              (alloc_loop-Good fuel bytes default memory small) before c after v)
      ]
