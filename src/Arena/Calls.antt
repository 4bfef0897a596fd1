-- ===== src/Arena/Calls.antt =====
-- A whole call of `arksh_scratch_alloc_zero`.
use arksh.Base.{
  ℕ, zero, suc, ◌+◌, ◌*◌, ◌≤◌, ◌<◌, ◌≡◌, refl, sym, ap, subst, ◌∙◌, false, ◌||◌, Option, none, some,
  List, [], ◌∷◌, ◌++◌, arith, ◌==◌, length, take, drop,
}
use arksh.Arena.{
  Extent, Chunk, Arena, word, alignment, header, rewind, Outcome, chunk_capacity, alloc_loop,
  alloc_at, scratch_alloc_zero, refused,
}
use arksh.Arena.Layout.{IsValid-with_used, IsValid-snoc, IsValid, Live}
use arksh.Arena.Alloc.{
  up_to, live_chunks, Good, GivesResult, Keeps, Positioned, IsAllocator, Good-earlier,
}
use arksh.Arena.Grow.{alloc_loop-Good, allocate_chunk-Fresh, Fresh}
use arksh.Arena.Fuel.{
  Returns, loop-Returns, fresh-Returns, allocate_chunk-Empty, Empty, multiply_size_exact,
}

-- The state that every call keeps.
pub record IsReady (a : Arena) : Type 0 where
  pub valid : IsValid a.chunks
  pub positioned : Positioned a.current a.chunks
  pub default_fits : header + a.default_chunk_size < word

-- The chunk at a position splits the list.
pub record At (i : ℕ) (cs : List Chunk) : Type 0 where
  pub here : Chunk
  pub after : List Chunk
  pub dropped : drop i cs ≡ here ∷ after
  pub prefix : take (suc i) cs ≡ take i cs ++ here ∷ []
  pub whole : take i cs ++ here ∷ after ≡ cs

pub position-At : (i : ℕ) (cs : List Chunk) → i < length cs → At i cs
position-At i [] h = elim h [ ]
position-At zero (c ∷ cs) h = record {
  here = c;
  after = cs;
  dropped = refl;
  prefix = refl;
  whole = refl;
}
position-At (suc i) (c ∷ cs) h =
    let x = position-At i cs (omega arith) in
    record {
      here = x.here;
      after = x.after;
      dropped = x.dropped;
      prefix = ap (◌∷◌ c) x.prefix;
      whole = ap (◌∷◌ c) x.whole;
    }

pub both_positive : (m n : ℕ) → 0 < m → 0 < n → (m == 0 || n == 0) ≡ false
both_positive m n h k = ground arith

module _ (malloc : List Extent → ℕ → Option ℕ) (m : IsAllocator malloc) (a : Arena) (memory : ℕ → ℕ)
    (ready : IsReady a) where
  capacity_fits :
      (bytes : ℕ)
      → bytes + alignment + header < word
      → header + chunk_capacity malloc a.default_chunk_size bytes < word
  unfolding chunk_capacity
  capacity_fits bytes h = let d = ready.default_fits in ground arith

  -- The call returned, and its outcome is good.
  abbrev pub Total : List Chunk → ℕ → Option Outcome → Type 0
  Total old bytes none = ⊥
  Total old bytes (some o) = Keeps old memory o × GivesResult old bytes o.result o

  total :
      (old : List Chunk) (bytes : ℕ) (o : Option Outcome)
      → Returns o
      → Good old memory bytes o
      → Total old bytes o
  total old bytes none r g = r
  total old bytes (some o) r g = g

  refused-Total :
      (old : List Chunk) (bytes : ℕ)
      → ((x : ℕ) → Live old x → Live (live_chunks a) x)
      → Total old bytes (refused malloc a memory)
  refused-Total old bytes up = (
    record {
      valid = ready.valid;
      positioned = ready.positioned;
      kept = up;
      unchanged = λ x h. refl;
    },
    tt,
  )

  module _ (bytes : ℕ) (small : bytes + alignment + header < word) where
    first_chunk-Total :
        (o : Option Chunk)
        → Fresh malloc m [] o
        → Empty malloc bytes a.default_chunk_size memory (omega arith) o
        → Total [] bytes (elim o [
          | none ↦ refused malloc a memory
          | some d ↦ alloc_loop malloc 1 bytes a.default_chunk_size memory [] d []
        ])
    first_chunk-Total none f e = refused-Total [] bytes (λ x h. absurd h)
    first_chunk-Total (some d) f e =
        total [] bytes _
          (fresh-Returns malloc bytes a.default_chunk_size memory (omega arith) 0 [] d [] e.0 e.1)
          (Good-earlier [] d memory bytes _ (
            alloc_loop-Good malloc m 1 bytes a.default_chunk_size memory (capacity_fits bytes small)
              [] d [] (IsValid-snoc [] d (record { separate = tt; sound = tt }) f.0 f.1)))

    alloc_at-Total :
        (cur : Option ℕ) (cs : List Chunk)
        → IsValid cs
        → Positioned cur cs
        → Total (up_to cur cs) bytes (alloc_at malloc a memory bytes cur cs)
    unfolding alloc_at
    alloc_at-Total none [] v p =
        first_chunk-Total _ (allocate_chunk-Fresh malloc m [] _ (capacity_fits bytes small))
          (allocate_chunk-Empty malloc bytes a.default_chunk_size memory (omega arith) [])
    alloc_at-Total none (c ∷ cs) v p =
        total [] bytes _
          (loop-Returns malloc bytes a.default_chunk_size memory (omega arith) _ [] (rewind c) cs
            (omega arith))
          (Good-earlier [] (rewind c) memory bytes _ (
            alloc_loop-Good malloc m _ bytes a.default_chunk_size memory (capacity_fits bytes small)
              [] (rewind c) cs (IsValid-with_used 0 [] c cs v (omega arith))))
    alloc_at-Total (some i) cs v p =
        let x = position-At i cs p in
        subst (λ old. Total old bytes (alloc_at malloc a memory bytes (some i) cs)) (sym x.prefix)
          (rw (x.dropped, Total)
            (total (take i cs ++ x.here ∷ []) bytes _
              (loop-Returns malloc bytes a.default_chunk_size memory (omega arith) _ (take i cs)
                x.here x.after (omega arith))
              (alloc_loop-Good malloc m _ bytes a.default_chunk_size memory
                (capacity_fits bytes small) (take i cs) x.here x.after
                (subst IsValid (sym x.whole) v))))

    -- For a `malloc` that behaves as documented, `arksh_scratch_alloc_zero` returns on every ready
    -- arena, for a product of two positive numbers that leaves room for a chunk's header and the
    -- alignment below 2^64. If it gives a block, then the block is new, zeroed, not NULL and among
    -- the bytes that the arena has handed out. Given or not, whatever was handed out before stays
    -- handed out with its bytes, and the chunks stay sound blocks that do not meet.
    pub scratch_alloc_zero_lem :
        (count item_size : ℕ)
        → count * item_size ≡ bytes
        → 0 < count
        → 0 < item_size
        → Total (live_chunks a) bytes (scratch_alloc_zero malloc a memory count item_size)
    unfolding scratch_alloc_zero
    scratch_alloc_zero_lem count item_size e pc pi =
        let whole : count ≤ count * item_size = grind arith in
        let whole' : item_size ≤ count * item_size = grind arith in
        let sized =
          (multiply_size_exact count item_size (omega arith) (omega arith)).0 (omega arith)
          ∙ ap some e in
        rw (both_positive count item_size pc pi, sized, Total)
          (alloc_at-Total a.current a.chunks ready.valid ready.positioned)
