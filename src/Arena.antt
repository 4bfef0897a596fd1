-- ===== src/Arena.antt =====
-- src/arena.c, the scratch arena: a list of chunks that allocations fill from the current one on,
-- and frames that give back what was allocated after they began.
-- The linked list from `head` is the list `chunks`; a `ArkshScratchChunk *` into it is a position.
-- `malloc` is a parameter: given the chunks that are live and a size, it returns an address or NULL.
-- `size_t` has 64 bits, `sizeof(max_align_t)` is 32 and the header of a chunk takes 24 bytes.
pub mod Layout
pub mod Alloc
pub mod Grow
pub mod Fuel
pub mod Calls
pub mod Given
pub mod Anchor
pub mod Frames
mod Tests
use arksh.Base.{
  ℕ, zero, suc, ◌+◌, ◌-◌, ◌*◌, ◌/◌, ◌%◌, ◌^◌, Bool, true, false, ◌&&◌, ◌||◌, Option, none, some,
  List, [], ◌∷◌, ◌++◌, map, ltb, leb, ◌==◌, if◌then◌else◌, length, take, drop,
}

-- Where `malloc` put a chunk, and `capacity`.
pub record Extent : Type 0 where
  pub base : ℕ
  pub capacity : ℕ

pub record Chunk : Type 0 where
  pub extent : Extent
  pub open extent use {base, capacity}
  pub used : ℕ

pub record Arena : Type 0 where
  pub chunks : List Chunk
  pub current : Option ℕ
  pub default_chunk_size : ℕ

abbrev pub word : ℕ
word = 2 ^ 64

abbrev pub alignment : ℕ
alignment = 32

-- `sizeof(*chunk)`
abbrev pub header : ℕ
header = 24

-- `chunk->data`
abbrev pub data_of : Chunk → ℕ
data_of c = c.base + header

-- `(value + mask) & ~mask` for an alignment that is a power of two: `& ~mask` rounds down to a
-- multiple of the alignment.
unfoldable pub align_up : ℕ → ℕ → ℕ
align_up value alignment =
    if alignment == 0 then value else (value + (alignment - 1)) % word / alignment * alignment

-- `multiply_size`: `none` for status 1.
unfoldable pub multiply_size : ℕ → ℕ → Option ℕ
multiply_size left right =
    if left == 0 || right == 0
    then some 0
    else if ltb ((word - 1) / right) left
    then none
    else some (left * right % word)

abbrev pub init : Arena
init = record { chunks = []; current = none; default_chunk_size = 64 * 1024 }

-- `chunk->used = 0`
abbrev pub rewind : Chunk → Chunk
rewind c = record c { used = 0 }

-- The arena after `arksh_scratch_arena_destroy`; each chunk was given to `free`.
unfoldable pub destroy : Arena → Arena
destroy a = record a { chunks = []; current = none }

abbrev pub head_position : List Chunk → Option ℕ
head_position [] = none
head_position (c ∷ cs) = some 0

unfoldable pub reset : Arena → Arena
reset a = record a { chunks = map rewind a.chunks; current = head_position a.chunks }

-- What a call of the allocator leaves: the pointer, the arena, and the memory.
pub record Outcome : Type 0 where
  pub result : Option ℕ
  pub arena : Arena
  pub memory : ℕ → ℕ

-- `memset(p, 0, n)`
unfoldable pub clear : ℕ → ℕ → (ℕ → ℕ) → ℕ → ℕ
clear p n memory a = if leb p a && ltb a (p + n) then 0 else memory a

module _ (malloc : List Extent → ℕ → Option ℕ) where
  -- `allocate_chunk`; the size handed to `malloc` wraps. Where it does, the block is smaller than the
  -- chunk, and clearing it runs out of the block, which is not modelled.
  unfoldable pub allocate_chunk : List Chunk → ℕ → Option Chunk
  allocate_chunk live capacity =
      elim (malloc (map (λ c. c.extent) live) ((header + capacity) % word)) [
        | none ↦ none
        | some base ↦
            some (record { extent = record { base = base; capacity = capacity }; used = 0 })
      ]

  -- `chunk_capacity = default_chunk_size`, raised to `bytes + alignment` where that is larger.
  unfoldable pub chunk_capacity : ℕ → ℕ → ℕ
  chunk_capacity default bytes =
      if ltb default ((bytes + alignment) % word) then (bytes + alignment) % word else default

  -- The arena of the loop, at chunk `c` between `before` and `after`, and what a return gives.
  module _ (default : ℕ) (before : List Chunk) (c : Chunk) (after : List Chunk) where
    abbrev pub return_at : Option ℕ → (ℕ → ℕ) → Outcome
    return_at result memory = record {
      result = result;
      arena = record {
        chunks = before ++ c ∷ after;
        current = some (length before);
        default_chunk_size = default;
      };
      memory = memory;
    }

  module _ (bytes default : ℕ) (memory : ℕ → ℕ)
      (loop : List Chunk → Chunk → List Chunk → Option Outcome) where
    -- `next = allocate_chunk(chunk_capacity)`, and what follows in the loop.
    unfoldable pub grow : List Chunk → Chunk → Option Chunk → Option Outcome
    grow before c none = some (return_at default before c [] none memory)
    grow before c (some d) = loop (before ++ c ∷ []) d []

    -- The rest of the loop's body, for a chunk that has no room.
    unfoldable pub advance : List Chunk → Chunk → List Chunk → Option Outcome
    unfolding grow
    advance before c (d ∷ rest) = loop (before ++ c ∷ []) (rewind d) rest
    advance before c [] =
        grow before c (allocate_chunk (before ++ c ∷ []) (chunk_capacity default bytes))

  -- The loop `while (chunk != NULL)`, at chunk `c` between `before` and `after`; the code moves
  -- on to non-NULL chunks only. `none` means that the fuel ran out.
  unfoldable pub alloc_loop : ℕ → ℕ → ℕ → (ℕ → ℕ) → List Chunk → Chunk → List Chunk → Option Outcome
  unfolding advance
  alloc_loop zero bytes default memory before c after = none
  alloc_loop (suc fuel) bytes default memory before c after =
      let offset = align_up c.used alignment in
      if leb offset c.capacity && leb bytes (c.capacity - offset)
      then some (
          return_at default before (record c { used = offset + bytes }) after
            (some (data_of c + offset)) (clear (data_of c + offset) bytes memory))
      else advance bytes default memory (alloc_loop fuel bytes default memory) before c after

  module _ (a : Arena) (memory : ℕ → ℕ) where
    -- `return NULL` before anything has changed.
    abbrev pub refused : Option Outcome
    refused = some (record { result = none; arena = a; memory = memory })

    -- From `arena->current` on; a position past the list would be a dangling pointer.
    unfoldable pub alloc_at : ℕ → Option ℕ → List Chunk → Option Outcome
    unfolding alloc_loop
    alloc_at bytes none [] =
        let size = chunk_capacity a.default_chunk_size bytes in
        elim (allocate_chunk [] size) [
          | none ↦ refused
          | some d ↦ alloc_loop 1 bytes a.default_chunk_size memory [] d []
        ]
    alloc_at bytes none (c ∷ cs) =
        alloc_loop (length (c ∷ cs) + 1) bytes a.default_chunk_size memory [] (rewind c) cs
    alloc_at bytes (some i) cs = elim (drop i cs) [
      | [] ↦ refused
      | c ∷ after ↦
          alloc_loop (length (c ∷ after) + 1) bytes a.default_chunk_size memory (take i cs) c after
    ]

    -- `arksh_scratch_alloc_zero`
    unfoldable pub scratch_alloc_zero : ℕ → ℕ → Option Outcome
    scratch_alloc_zero count item_size =
        if count == 0 || item_size == 0 then refused else elim (multiply_size count item_size) [
          | none ↦ refused
          | some bytes ↦ alloc_at bytes a.current a.chunks
        ]

-- `ArkshScratchFrame`. Shells are numbered; `scratch` gives each its arena.
pub record Frame : Type 0 where
  pub shell : Option ℕ
  pub previous_shell : Option ℕ
  pub chunk : Option ℕ
  pub used : ℕ
  pub active : Bool

-- `g_active_scratch_shell` and the arenas of the shells.
pub record World : Type 0 where
  pub active_shell : Option ℕ
  pub scratch : ℕ → Arena

-- `arena->current != NULL ? arena->current->used : 0`
unfoldable pub used_at : Option ℕ → List Chunk → ℕ
used_at none cs = 0
used_at (some i) cs = elim (drop i cs) [ [] ↦ 0 | c ∷ after ↦ c.used ]

-- What a frame records of the arena it begins on: `chunk` and `used`.
abbrev pub mark_of : Arena → Option ℕ × ℕ
mark_of a = (a.current, used_at a.current a.chunks)

unfoldable pub frame_begin : Option ℕ → World → Frame × World
unfolding used_at
frame_begin none w = (
  record { shell = none; previous_shell = w.active_shell; chunk = none; used = 0; active = true },
  record w { active_shell = none },
)
frame_begin (some s) w = (
  record {
    shell = some s;
    previous_shell = w.active_shell;
    chunk = (w.scratch s).current;
    used = used_at (w.scratch s).current (w.scratch s).chunks;
    active = true;
  },
  record w { active_shell = some s },
)

-- `frame->chunk->used = frame->used`, and 0 for the chunks behind it.
unfoldable pub restore_at : ℕ → ℕ → List Chunk → List Chunk
restore_at i used [] = []
restore_at zero used (c ∷ cs) = record c { used = used } ∷ map rewind cs
restore_at (suc i) used (c ∷ cs) = c ∷ restore_at i used cs

unfoldable pub restore : Option ℕ → ℕ → Arena → Arena
unfolding restore_at
restore none used a = record a { chunks = map rewind a.chunks; current = head_position a.chunks }
restore (some i) used a = record a { chunks = restore_at i used a.chunks; current = some i }

abbrev pub update : (ℕ → Arena) → ℕ → Arena → ℕ → Arena
update f s a k = if k == s then a else f k

unfoldable pub frame_end : Frame → World → Frame × World
unfolding restore
frame_end f w = elim f.active [
  | false ↦ (f, w)
  | true ↦ (
    record f { active = false },
    record {
      active_shell = f.previous_shell;
      scratch = elim f.shell [
        | none ↦ w.scratch
        | some s ↦ update w.scratch s (restore f.chunk f.used (w.scratch s))
      ];
    },
  )
]

-- `needle >= start && needle < end` for some chunk of the list.
unfoldable pub contains : List Chunk → ℕ → Bool
contains [] ptr = false
contains (c ∷ cs) ptr =
    if leb (data_of c) ptr && ltb ptr (data_of c + c.capacity) then true else contains cs ptr

-- `arksh_scratch_active_contains`, 0 for NULL.
unfoldable pub active_contains : World → ℕ → Bool
unfolding contains
active_contains w ptr = elim w.active_shell [
  | none ↦ false
  | some s ↦ if ptr == 0 then false else contains (w.scratch s).chunks ptr
]

-- `arksh_scratch_alloc_active_zero`: the pointer, the shells and the memory. With no active shell
-- `calloc`, a parameter, answers; `none` means that the fuel ran out.
module _ (malloc : List Extent → ℕ → Option ℕ) (calloc : (ℕ → ℕ) → ℕ → ℕ → Option ℕ × (ℕ → ℕ)) where
  unfoldable pub alloc_active_zero : World → (ℕ → ℕ) → ℕ → ℕ → Option (Option ℕ × World × (ℕ → ℕ))
  unfolding scratch_alloc_zero
  alloc_active_zero w memory count item_size = elim w.active_shell [
    | none ↦ let (result, memory') = calloc memory count item_size in some (result, w, memory')
    | some s ↦ elim (scratch_alloc_zero malloc (w.scratch s) memory count item_size) [
      | none ↦ none
      | some o ↦ some (o.result, record w { scratch = update w.scratch s o.arena }, o.memory)
    ]
  ]
