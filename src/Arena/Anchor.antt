-- ===== src/Arena/Anchor.antt =====
-- What allocations inside a frame of src/arena.c leave for its end to restore.
use arksh.Base.{
  ℕ, zero, suc, ◌+◌, ◌≡◌, refl, ap, subst, ◌∙◌, ◌⊎◌, inl, inr, Option, none, some, Bool-cases,
  Option-cases, List, [], ◌∷◌, ◌++◌, leb, length, take, drop, append_assoc, ◌||◌, ◌==◌, ◌&&◌, ◌-◌,
}
use arksh.Arena.{
  Extent, Chunk, Arena, alignment, align_up, rewind, Outcome, grow, advance, alloc_loop, alloc_at,
  scratch_alloc_zero, multiply_size,
}

-- The chunks before the current one begin with `pre` and a chunk at `e`, or they are `pre` and the
-- current one lies at `e`.
abbrev pub From : List Chunk → Extent → List Chunk → Chunk → Type 0
From pre e before c =
    ((before ≡ pre) × (c.extent ≡ e))
    ⊎ ((u : ℕ) × (rest : List Chunk) × (before ≡ pre ++ record { extent = e; used = u } ∷ rest))

-- An arena whose current chunk is the one at `e` behind `pre`, or a later one.
pub record Anchored (pre : List Chunk) (e : Extent) (a : Arena) : Type 0 where
  pub before : List Chunk
  pub here : Chunk
  pub after : List Chunk
  pub chunks_are : a.chunks ≡ before ++ here ∷ after
  pub current_is : a.current ≡ some (length before)
  pub from : From pre e before here

abbrev AnchoredResult : List Chunk → Extent → Option Outcome → Type 0
AnchoredResult pre e none = Unit
AnchoredResult pre e (some o) = Anchored pre e o.arena

module _ (pre : List Chunk) (e : Extent) where
  From-used :
      (before : List Chunk) (c : Chunk) (u : ℕ)
      → From pre e before c
      → From pre e before (record c { used = u })
  From-used before c u (inl h) = inl h
  From-used before c u (inr h) = inr h

  From-next :
      (before : List Chunk) (c d : Chunk) → From pre e before c → From pre e (before ++ c ∷ []) d
  From-next before c d (inl (same, at_e)) = inr (
    c.used,
    [],
    ap (λ b. b ++ c ∷ []) same ∙ ap (λ x. pre ++ record { extent = x; used = c.used } ∷ []) at_e,
  )
  From-next before c d (inr (u, rest, same)) = inr (
    u,
    rest ++ c ∷ [],
    ap (λ b. b ++ c ∷ []) same ∙ append_assoc pre (record { extent = e; used = u } ∷ rest) (c ∷ []),
  )

  module _ (malloc : List Extent → ℕ → Option ℕ) (bytes default : ℕ) (memory : ℕ → ℕ) where
    grown-Anchored :
        (loop : List Chunk → Chunk → List Chunk → Option Outcome)
        → ((before : List Chunk) (c : Chunk) (after : List Chunk)
            → From pre e before c
            → AnchoredResult pre e (loop before c after))
        → (before : List Chunk) (c : Chunk) (o : Option Chunk) → From pre e before c
        → AnchoredResult pre e (grow malloc bytes default memory loop before c o)
    unfolding grow
    grown-Anchored loop ih before c none f = record {
      before = before;
      here = c;
      after = [];
      chunks_are = refl;
      current_is = refl;
      from = f;
    }
    grown-Anchored loop ih before c (some d) f = ih (before ++ c ∷ []) d [] (From-next before c d f)

    advance-Anchored :
        (loop : List Chunk → Chunk → List Chunk → Option Outcome)
        → ((before : List Chunk) (c : Chunk) (after : List Chunk)
            → From pre e before c
            → AnchoredResult pre e (loop before c after))
        → (before : List Chunk) (c : Chunk) (after : List Chunk) → From pre e before c
        → AnchoredResult pre e (advance malloc bytes default memory loop before c after)
    unfolding advance
    advance-Anchored loop ih before c [] f = grown-Anchored loop ih before c _ f
    advance-Anchored loop ih before c (d ∷ rest) f =
        ih (before ++ c ∷ []) (rewind d) rest (From-next before c (rewind d) f)

    alloc_loop-Anchored :
        (fuel : ℕ) (before : List Chunk) (c : Chunk) (after : List Chunk)
        → From pre e before c
        → AnchoredResult pre e (alloc_loop malloc fuel bytes default memory before c after)
    unfolding alloc_loop
    alloc_loop-Anchored zero before c after f = tt
    alloc_loop-Anchored (suc fuel) before c after f =
        elim (Bool-cases (
          leb (align_up c.used alignment) c.capacity
          && leb bytes (c.capacity - align_up c.used alignment))) [
            | inl fits ↦
                rw (fits, AnchoredResult)
                  (record {
                    before = before;
                    here = record c { used = align_up c.used alignment + bytes };
                    after = after;
                    chunks_are = refl;
                    current_is = refl;
                    from = From-used before c (align_up c.used alignment + bytes) f;
                  })
            | inr full ↦ rw full (advance-Anchored _ (alloc_loop-Anchored fuel) before c after f)
          ]

drop_middle :
    (before : List Chunk) (c : Chunk) (after : List Chunk)
    → drop (length before) (before ++ c ∷ after) ≡ c ∷ after
drop_middle [] c after = refl
drop_middle (b ∷ before) c after = drop_middle before c after

take_before :
    (before : List Chunk) (rest : List Chunk) → take (length before) (before ++ rest) ≡ before
take_before [] rest = refl
take_before (b ∷ before) rest = ap (◌∷◌ b) (take_before before rest)

module _ (pre : List Chunk) (e : Extent) (malloc : List Extent → ℕ → Option ℕ)
    (memory : ℕ → ℕ) where
  alloc_at-Anchored :
      (a : Arena) (bytes : ℕ) (before : List Chunk) (c : Chunk) (after : List Chunk)
      → From pre e before c
      → AnchoredResult pre e
          (alloc_at malloc a memory bytes (some (length before)) (before ++ c ∷ after))
  unfolding alloc_at
  alloc_at-Anchored a bytes before c after f =
      rw (drop_middle before c after, take_before before (c ∷ after), AnchoredResult)
        (alloc_loop-Anchored pre e malloc bytes a.default_chunk_size memory _ before c after f)

  scratch_alloc_zero-Anchored :
      (a : Arena) (count item_size : ℕ)
      → Anchored pre e a
      → AnchoredResult pre e (scratch_alloc_zero malloc a memory count item_size)
  unfolding scratch_alloc_zero
  scratch_alloc_zero-Anchored a count item_size h =
      elim (Bool-cases (count == 0 || item_size == 0)) [
        | inl nothing ↦ rw (nothing, AnchoredResult) h
        | inr some_bytes ↦ rw some_bytes (elim (Option-cases (multiply_size count item_size)) [
          | inl overflow ↦ rw (overflow, AnchoredResult) h
          | inr (bytes, product) ↦
              rw (product, h.chunks_are, h.current_is, AnchoredResult)
                (alloc_at-Anchored
                  (record a {
                    chunks = h.before ++ h.here ∷ h.after;
                    current = some (length h.before);
                  })
                  bytes h.before h.here h.after h.from)
        ])
      ]

-- Any number of allocations.
pub data Run (malloc : List Extent → ℕ → Option ℕ) : Arena → Arena → Type 0 where
  done : {a : Arena} → Run malloc a a
  allocated :
      {a a' : Arena} (memory : ℕ → ℕ) (count item_size : ℕ) (o : Outcome)
      → scratch_alloc_zero malloc a memory count item_size ≡ some o
      → Run malloc o.arena a'
      → Run malloc a a'

pub Run-Anchored :
    (malloc : List Extent → ℕ → Option ℕ) (pre : List Chunk) (e : Extent) (a a' : Arena)
    → Run malloc a a'
    → Anchored pre e a
    → Anchored pre e a'
Run-Anchored malloc pre e a a' done h = h
Run-Anchored malloc pre e a a' (allocated memory count item_size o same run) h =
    Run-Anchored malloc pre e o.arena a' run (
      subst (AnchoredResult pre e) same
        (scratch_alloc_zero-Anchored pre e malloc memory a count item_size h))
