-- ===== src/Arena/Given.antt =====
-- `arksh_scratch_alloc_zero` of src/arena.c gives a block whenever `malloc` never fails.
use arksh.Base.{
  ℕ, zero, suc, ◌+◌, ◌-◌, ◌*◌, ◌%◌, ◌≤◌, ◌<◌, ◌≢◌, inl, inr, ◌&&◌, Option, none, some, Option-cases,
  Bool-cases, length, List, [], ◌∷◌, ◌++◌, map, arith, leb, take,
}
use arksh.Arena.{
  Extent, Chunk, Arena, header, alignment, align_up, rewind, Outcome, allocate_chunk, grow, advance,
  alloc_loop, alloc_at, word, refused, scratch_alloc_zero,
}
use arksh.Arena.Alloc.{Positioned}
use arksh.Arena.Fuel.{
  Returns, Empty, fresh-Returns, loop-Returns, allocate_chunk-Empty, multiply_size_exact,
}
use arksh.Arena.Calls.{position-At, both_positive}

-- Where the run has ended, its result is not NULL.
abbrev Given : Option Outcome → Type 0
Given none = Unit
Given (some o) = o.result ≢ none

module _ (malloc : List Extent → ℕ → Option ℕ)
    (never_null : (es : List Extent) (n : ℕ) → malloc es n ≢ none) (bytes : ℕ)
    (memory : ℕ → ℕ) where
  abbrev IsGiven : Option Chunk → Type 0
  IsGiven none = ⊥
  IsGiven (some d) = Unit

  allocate_chunk-IsGiven :
      (live : List Chunk) (capacity : ℕ) → IsGiven (allocate_chunk malloc live capacity)
  unfolding allocate_chunk
  allocate_chunk-IsGiven live capacity =
      elim (Option-cases (malloc (map (λ c. c.extent) live) ((header + capacity) % word))) [
        | inl e ↦ absurd (never_null _ _ e)
        | inr (base, e) ↦ rw (e, IsGiven) tt
      ]

  grown-Given :
      (default : ℕ) (loop : List Chunk → Chunk → List Chunk → Option Outcome)
      → ((before : List Chunk) (d : Chunk) (after : List Chunk) → Given (loop before d after))
      → (before : List Chunk) (c : Chunk) (o : Option Chunk) → IsGiven o
      → Given (grow malloc bytes default memory loop before c o)
  unfolding grow
  grown-Given default loop ih before c none h = absurd h
  grown-Given default loop ih before c (some d) h = ih (before ++ c ∷ []) d []

  advance-Given :
      (default : ℕ) (loop : List Chunk → Chunk → List Chunk → Option Outcome)
      → ((before : List Chunk) (d : Chunk) (after : List Chunk) → Given (loop before d after))
      → (before : List Chunk) (c : Chunk) (after : List Chunk)
      → Given (advance malloc bytes default memory loop before c after)
  unfolding advance
  advance-Given default loop ih before c [] =
      grown-Given default loop ih before c _ (allocate_chunk-IsGiven (before ++ c ∷ []) _)
  advance-Given default loop ih before c (d ∷ rest) = ih (before ++ c ∷ []) (rewind d) rest

  alloc_loop-Given :
      (fuel default : ℕ) (before : List Chunk) (c : Chunk) (after : List Chunk)
      → Given (alloc_loop malloc fuel bytes default memory before c after)
  unfolding alloc_loop
  alloc_loop-Given zero default before c after = tt
  alloc_loop-Given (suc fuel) default before c after =
      elim (Bool-cases (
        leb (align_up c.used alignment) c.capacity
        && leb bytes (c.capacity - align_up c.used alignment))) [
          | inl e ↦ rw (e, Given) (λ h. ground arith)
          | inr e ↦ rw e (advance-Given default _ (alloc_loop-Given fuel default) before c after)
        ]

-- The run has ended, and its result is not NULL.
abbrev pub GivesBlock : Option Outcome → Type 0
GivesBlock none = ⊥
GivesBlock (some o) = o.result ≢ none

returned-GivesBlock : (o : Option Outcome) → Returns o → Given o → GivesBlock o
returned-GivesBlock none r g = r
returned-GivesBlock (some o) r g = g

module _ (malloc : List Extent → ℕ → Option ℕ)
    (never_null : (es : List Extent) (n : ℕ) → malloc es n ≢ none) (bytes : ℕ) (memory : ℕ → ℕ)
    (small : bytes + alignment < word) (a : Arena) where
  first-GivesBlock :
      (o : Option Chunk)
      → IsGiven malloc never_null bytes memory o
      → Empty malloc bytes a.default_chunk_size memory small o
      → GivesBlock (elim o [
        | none ↦ refused malloc a memory
        | some d ↦ alloc_loop malloc 1 bytes a.default_chunk_size memory [] d []
      ])
  first-GivesBlock none h e = absurd h
  first-GivesBlock (some d) h e =
      returned-GivesBlock _
        (fresh-Returns malloc bytes a.default_chunk_size memory small 0 [] d [] e.0 e.1)
        (alloc_loop-Given malloc never_null bytes memory 1 a.default_chunk_size [] d [])

  loop-GivesBlock :
      (fuel : ℕ) (before : List Chunk) (c : Chunk) (after : List Chunk)
      → length after + 1 < fuel
      → GivesBlock (alloc_loop malloc fuel bytes a.default_chunk_size memory before c after)
  loop-GivesBlock fuel before c after enough =
      returned-GivesBlock _
        (loop-Returns malloc bytes a.default_chunk_size memory small fuel before c after enough)
        (alloc_loop-Given malloc never_null bytes memory fuel a.default_chunk_size before c after)

  alloc_at-GivesBlock :
      (cur : Option ℕ) (cs : List Chunk)
      → Positioned cur cs
      → GivesBlock (alloc_at malloc a memory bytes cur cs)
  unfolding alloc_at
  alloc_at-GivesBlock none [] p =
      first-GivesBlock _ (allocate_chunk-IsGiven malloc never_null bytes memory [] _)
        (allocate_chunk-Empty malloc bytes a.default_chunk_size memory small [])
  alloc_at-GivesBlock none (c ∷ cs) p = loop-GivesBlock _ [] (rewind c) cs (omega arith)
  alloc_at-GivesBlock (some i) cs p =
      let x = position-At i cs p in
      rw (x.dropped, GivesBlock) (loop-GivesBlock _ (take i cs) x.here x.after (omega arith))

-- While `malloc` does not fail, `arksh_scratch_alloc_zero`, on an arena whose current chunk is one
-- of its chunks and whose default chunk fits below 2^64 with its header, returns a pointer that is
-- not NULL for every product of two positive numbers that leaves room for a chunk's header and the
-- alignment below 2^64.
pub scratch_alloc_zero-GivesBlock :
    (malloc : List Extent → ℕ → Option ℕ)
    (never_null : (es : List Extent) (n : ℕ) → malloc es n ≢ none) (a : Arena) (memory : ℕ → ℕ)
    (count item_size : ℕ)
    → Positioned a.current a.chunks
    → 0 < count
    → 0 < item_size
    → header + a.default_chunk_size < word
    → count * item_size + alignment + header < word
    → GivesBlock (scratch_alloc_zero malloc a memory count item_size)
unfolding scratch_alloc_zero
scratch_alloc_zero-GivesBlock malloc never_null a memory count item_size p pc pi default fits =
    let whole : count ≤ count * item_size = grind arith in
    let whole' : item_size ≤ count * item_size = grind arith in
    let sized = (multiply_size_exact count item_size (omega arith) (omega arith)).0 (omega arith) in
    rw (both_positive count item_size pc pi, sized, GivesBlock)
      (alloc_at-GivesBlock malloc never_null (count * item_size) memory (omega (arith, fits)) a
        a.current a.chunks p)
