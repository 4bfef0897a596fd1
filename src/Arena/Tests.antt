-- ===== src/Arena/Tests.antt =====
-- A concrete `malloc`, and the theorems of the arena at inputs where they apply.
use arksh.Base.{
  refl, false, ◌==◌, ◌↔◌, ℕ, ◌+◌, ◌-◌, ◌*◌, ◌^◌, ◌≤◌, ◌<◌, ◌≡◌, ◌≢◌, ◌⊎◌, inl, Option, none, some,
  List, [], ◌∷◌, arith, leb, if◌then◌else◌, All,
}
use arksh.Arena.{
  allocate_chunk, align_up, chunk_capacity, World, alloc_at, Outcome, clear, Extent, Chunk, header,
  word, init, alloc_loop, scratch_alloc_zero, multiply_size,
}
use arksh.Arena.Alloc.{IsAllocator, live_chunks}
use arksh.Arena.Fuel.{multiply_size_exact, alloc_loop_forever}
use arksh.Arena.Layout.{Live}
use arksh.Arena.Anchor.{done, allocated}
use arksh.Arena.Frames.{framed, frame_end_lem}
use arksh.Arena.Given.{GivesBlock, scratch_alloc_zero-GivesBlock}
use arksh.Arena.Calls.{IsReady, Total, scratch_alloc_zero_lem}

abbrev larger : ℕ → ℕ → ℕ
larger x y = if leb x y then y else x

-- Where the live blocks end.
abbrev top : List Extent → ℕ
top [] = 16
top (e ∷ es) = larger (e.base + header + e.capacity) (top es)

abbrev bump_at : ℕ → ℕ → Option ℕ
bump_at base n = if leb (base + n) word then some base else none

-- A `malloc` that never gives the same memory twice.
abbrev bump : List Extent → ℕ → Option ℕ
bump es n = bump_at (top es) n

top_above : (es : List Extent) → 16 ≤ top es
top_above [] = omega arith
top_above (e ∷ es) = let h = top_above es in ground arith

larger_left : (x y : ℕ) → x ≤ larger x y
larger_left x y = ground arith

larger_right : (x y : ℕ) → y ≤ larger x y
larger_right x y = ground arith

blocks_below :
    (bound n : ℕ) (es : List Extent)
    → top es ≤ bound
    → All (λ e. (e.base + header + e.capacity ≤ bound) ⊎ (bound + n ≤ e.base)) es
blocks_below bound n [] h = tt
blocks_below bound n (e ∷ es) h = (
  inl (omega (arith, larger_left (e.base + header + e.capacity) (top es))),
  blocks_below bound n es (omega (arith, larger_right (e.base + header + e.capacity) (top es))),
)

bump_at-some : (base n b : ℕ) → bump_at base n ≡ some b → (b ≡ base) × (base + n ≤ word)
bump_at-some base n b h = ground arith

bump-IsAllocator : IsAllocator bump
bump-IsAllocator = record {
  block_above = λ es n b h. omega (arith, top_above es, bump_at-some (top es) n b h);
  block_below = λ es n b h. omega (arith, bump_at-some (top es) n b h);
  block_apart = λ es n b h. blocks_below b n es (omega (arith, bump_at-some (top es) n b h));
}

init-IsReady : IsReady init
init-IsReady = record {
  valid = record { separate = tt; sound = tt };
  positioned = tt;
  default_fits = omega arith;
}

multiply_size_exact_example :
    (3 * 8 < word → multiply_size 3 8 ≡ some (3 * 8)) × (word ≤ 3 * 8 → multiply_size 3 8 ≡ none)
multiply_size_exact_example = multiply_size_exact 3 8 (omega arith) (omega arith)

abbrev a_memory : ℕ → ℕ
a_memory x = 7

-- A first allocation of ten items of a hundred bytes.
scratch_alloc_zero_lem_example :
    Total bump bump-IsAllocator init a_memory init-IsReady
      (live_chunks init)
      1000
      (scratch_alloc_zero bump init a_memory 10 100)
scratch_alloc_zero_lem_example =
    scratch_alloc_zero_lem bump bump-IsAllocator init a_memory init-IsReady 1000 (omega arith) 10
      100 (omega arith) (omega arith) (omega arith)

abbrev never_null : List Extent → ℕ → Option ℕ
never_null es n = some 4096

never_null_lem : (es : List Extent) (n : ℕ) → never_null es n ≢ none
never_null_lem es n h = ground arith

abbrev a_chunk : Chunk
a_chunk = record { extent = record { base = 4096; capacity = 65536 }; used = 0 }

alloc_loop_forever_example :
    alloc_loop never_null 5 (2 ^ 64 - 16) 65536 a_memory [] a_chunk [] ≡ none
alloc_loop_forever_example =
    alloc_loop_forever never_null never_null_lem (2 ^ 64 - 16) 65536 a_memory (omega arith)
      (omega arith) (omega arith) 5 [] a_chunk [] (omega arith) tt

scratch_alloc_zero-GivesBlock_example :
    GivesBlock (scratch_alloc_zero never_null init a_memory 10 100)
scratch_alloc_zero-GivesBlock_example =
    scratch_alloc_zero-GivesBlock never_null never_null_lem init a_memory 10 100 tt (omega arith)
      (omega arith) (omega arith) (omega arith)

abbrev an_outcome : Outcome
an_outcome = record {
  result = some 4120;
  arena = record {
    chunks = record { extent = record { base = 4096; capacity = 65536 }; used = 1000 } ∷ [];
    current = some 0;
    default_chunk_size = 65536;
  };
  memory = clear 4120 1000 a_memory;
}

ten_items : scratch_alloc_zero never_null init a_memory 10 100 ≡ some an_outcome
unfolding scratch_alloc_zero alloc_at multiply_size allocate_chunk align_up chunk_capacity
ten_items = refl

-- Shell 0 has ten items; a frame takes ten more behind them.
abbrev a_world : World
a_world = record { active_shell = none; scratch = λ s. an_outcome.arena }

abbrev next_outcome : Outcome
next_outcome = record {
  result = some 5144;
  arena = record {
    chunks = record { extent = record { base = 4096; capacity = 65536 }; used = 2024 } ∷ [];
    current = some 0;
    default_chunk_size = 65536;
  };
  memory = clear 5144 1000 a_memory;
}

next_items : scratch_alloc_zero never_null an_outcome.arena a_memory 10 100 ≡ some next_outcome
unfolding scratch_alloc_zero alloc_at multiply_size allocate_chunk align_up chunk_capacity
next_items = refl

frame_end_lem_example :
    ((framed 0 next_outcome.arena a_world).active_shell ≡ none)
    × ((x : ℕ)
        → Live (live_chunks ((framed 0 next_outcome.arena a_world).scratch 0)) x
          ↔ Live (live_chunks an_outcome.arena) x)
    × ((t : ℕ)
        → (t == 0) ≡ false
        → (framed 0 next_outcome.arena a_world).scratch t ≡ an_outcome.arena)
frame_end_lem_example =
    frame_end_lem never_null a_world 0 next_outcome.arena (omega arith)
      (allocated a_memory 10 100 next_outcome next_items done)
