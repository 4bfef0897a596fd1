-- ===== src/Arena/Alloc.antt =====
-- What an allocation gives out, and what it leaves alone.
use arksh.Base.{
  ℕ, suc, ◌+◌, ◌-◌, ◌≤◌, ◌<◌, ◌≡◌, refl, sym, ap, subst, ◌⊎◌, inl, inr, true, ◌&&◌, Option, none,
  some, List, [], ◌∷◌, ◌++◌, arith, leb, length, take, All, append_assoc, length-append,
}
use native.Mathlib.Decide.{dec_lt}
use arksh.Arena.{Extent, Chunk, Arena, word, alignment, header, data_of, align_up, Outcome, clear}
use arksh.Arena.Layout.{
  IsSound, IsValid, Live, Live-append_left, Live-append_right, Live-append_split, chunk-IsSound,
  IsValid-with_used, not-Live_before,
}

abbrev pub up_to : Option ℕ → List Chunk → List Chunk
up_to none cs = []
up_to (some i) cs = take (suc i) cs

-- The chunks that hold what has been handed out: those up to the current one.
abbrev pub live_chunks : Arena → List Chunk
live_chunks a = up_to a.current a.chunks

-- The `bytes` bytes at `p` are new, belong to the arena now, and are zero.
pub record Gives (old : List Chunk) (bytes p : ℕ) (o : Outcome) : Type 0 where
  pub not_null : 0 < p
  pub in_memory : p + bytes ≤ word
  pub fresh : (x : ℕ) → p ≤ x → x < p + bytes → ¬ Live old x
  pub taken : (x : ℕ) → p ≤ x → x < p + bytes → Live (live_chunks o.arena) x
  pub zeroed : (x : ℕ) → p ≤ x → x < p + bytes → o.memory x ≡ 0

abbrev pub GivesResult : List Chunk → ℕ → Option ℕ → Outcome → Type 0
GivesResult old bytes none o = Unit
GivesResult old bytes (some p) o = Gives old bytes p o

-- `current` is NULL or one of the chunks.
abbrev pub Positioned : Option ℕ → List Chunk → Type 0
Positioned none cs = Unit
Positioned (some i) cs = i < length cs

-- A call keeps the chunks valid and all that was handed out, bytes included.
pub record Keeps (old : List Chunk) (memory : ℕ → ℕ) (o : Outcome) : Type 0 where
  pub valid : IsValid o.arena.chunks
  pub positioned : Positioned o.arena.current o.arena.chunks
  pub kept : (x : ℕ) → Live old x → Live (live_chunks o.arena) x
  pub unchanged : (x : ℕ) → Live old x → o.memory x ≡ memory x

abbrev pub Good : List Chunk → (ℕ → ℕ) → ℕ → Option Outcome → Type 0
Good old memory bytes none = Unit
Good old memory bytes (some o) = Keeps old memory o × GivesResult old bytes o.result o

-- The documented behaviour of `malloc`: a block lies in the address space, past the first 16
-- bytes, and meets no block that is live.
pub record IsAllocator (malloc : List Extent → ℕ → Option ℕ) : Type 0 where
  pub block_above : (es : List Extent) (n b : ℕ) → malloc es n ≡ some b → 16 ≤ b
  pub block_below : (es : List Extent) (n b : ℕ) → malloc es n ≡ some b → b + n ≤ word
  pub block_apart :
      (es : List Extent) (n b : ℕ)
      → malloc es n ≡ some b
      → All (λ e. (e.base + header + e.capacity ≤ b) ⊎ (b + n ≤ e.base)) es

pub take_middle :
    (before : List Chunk) (c : Chunk) (after : List Chunk)
    → take (suc (length before)) (before ++ c ∷ after) ≡ before ++ c ∷ []
take_middle [] c after = refl
take_middle (b ∷ before) c after = ap (◌∷◌ b) (take_middle before c after)

pub snoc_cons :
    (before : List Chunk) (c : Chunk) (after : List Chunk)
    → (before ++ c ∷ []) ++ after ≡ before ++ c ∷ after
snoc_cons before c after = append_assoc before (c ∷ []) after

pub align_up_lem :
    (u : ℕ) → u + 31 < word → (u ≤ align_up u alignment) × (align_up u alignment ≤ u + 31)
unfolding align_up
align_up_lem u h = ground arith

clear_inside : (p n : ℕ) (m : ℕ → ℕ) (x : ℕ) → p ≤ x → x < p + n → clear p n m x ≡ 0
unfolding clear
clear_inside p n m x lo hi = ground arith

clear_outside : (p n : ℕ) (m : ℕ → ℕ) (x : ℕ) → (x < p) ⊎ (p + n ≤ x) → clear p n m x ≡ m x
unfolding clear
clear_outside p n m x h = ground arith

-- Memory below the old fill mark, or in an earlier chunk, is outside the new block.
module _ (before : List Chunk) (c : Chunk) (after : List Chunk) (bytes : ℕ) (memory : ℕ → ℕ)
    (default : ℕ) (v : IsValid (before ++ c ∷ after))
    (fits : align_up c.used alignment ≤ c.capacity)
    (room : bytes ≤ c.capacity - align_up c.used alignment) where
  abbrev offset : ℕ
  offset = align_up c.used alignment

  abbrev filled : Chunk
  filled = record c { used = offset + bytes }

  abbrev place : ℕ
  place = data_of c + offset

  abbrev placed : Outcome
  placed = record {
    result = some place;
    arena = record {
      chunks = before ++ filled ∷ after;
      current = some (length before);
      default_chunk_size = default;
    };
    memory = clear place bytes memory;
  }

  chunk_here-IsSound : IsSound c
  chunk_here-IsSound = chunk-IsSound before c after v

  offset_at_least : c.used ≤ offset
  offset_at_least =
      let s = chunk_here-IsSound in
      (align_up_lem c.used (omega (arith, s.above, s.below, s.within))).0

  inside_chunk : (x : ℕ) → place ≤ x → x < place + bytes → ¬ Live (before ++ c ∷ []) x
  inside_chunk x lo hi h = elim (Live-append_split x before (c ∷ []) h) [
    | inl earlier ↦ not-Live_before before c after x v (omega arith) (omega arith) earlier
    | inr (inl here) ↦ omega (arith, offset_at_least)
    | inr (inr nowhere) ↦ nowhere
  ]

  unchanged_outside : (x : ℕ) → Live (before ++ c ∷ []) x → clear place bytes memory x ≡ memory x
  unchanged_outside x h = elim (dec_lt x place) [
    | yes below ↦ clear_outside place bytes memory x (inl below)
    | no not_below ↦ elim (dec_lt x (place + bytes)) [
      | yes inside ↦ absurd (inside_chunk x (omega arith) inside h)
      | no beyond ↦ clear_outside place bytes memory x (inr (omega arith))
    ]
  ]

  kept_live : (x : ℕ) → Live (before ++ c ∷ []) x → Live (before ++ filled ∷ []) x
  kept_live x h = elim (Live-append_split x before (c ∷ []) h) [
    | inl earlier ↦ Live-append_left x before (filled ∷ []) earlier
    | inr (inl here) ↦
        Live-append_right x before (filled ∷ []) (inl (here.0, omega (arith, offset_at_least)))
    | inr (inr nowhere) ↦ absurd nowhere
  ]

  to_current : (x : ℕ) → Live (before ++ filled ∷ []) x → Live (live_chunks placed.arena) x
  to_current x h = subst (λ cs. Live cs x) (sym (take_middle before filled after)) h

  pub placed-Good : Good (before ++ c ∷ []) memory bytes (some placed)
  placed-Good =
      let s = chunk_here-IsSound in
      (
        record {
          valid = IsValid-with_used (offset + bytes) before c after v (omega arith);
          positioned = omega (arith, length-append before (filled ∷ after));
          kept = λ x h. to_current x (kept_live x h);
          unchanged = unchanged_outside;
        },
        record {
          not_null = omega arith;
          in_memory = omega (arith, s.below);
          fresh = inside_chunk;
          taken = λ x lo hi.
              to_current x
                (Live-append_right x before (filled ∷ []) (inl (omega arith, omega arith)));
          zeroed = λ x lo hi. clear_inside place bytes memory x lo hi;
        },
      )

-- Good for the chunks up to a later one is good for the chunks before it.
pub Good-earlier :
    (old : List Chunk) (d : Chunk) (memory : ℕ → ℕ) (bytes : ℕ) (o : Option Outcome)
    → Good (old ++ d ∷ []) memory bytes o
    → Good old memory bytes o
Good-earlier old d memory bytes none g = tt
Good-earlier old d memory bytes (some o) (k, g) = (
  record {
    valid = k.valid;
    positioned = k.positioned;
    kept = λ x h. k.kept x (Live-append_left x old (d ∷ []) h);
    unchanged = λ x h. k.unchanged x (Live-append_left x old (d ∷ []) h);
  },
  earlier o.result g,
)
  where
    earlier : (r : Option ℕ) → GivesResult (old ++ d ∷ []) bytes r o → GivesResult old bytes r o
    earlier none g = tt
    earlier (some p) g = record {
      not_null = g.not_null;
      in_memory = g.in_memory;
      fresh = λ x lo hi h. g.fresh x lo hi (Live-append_left x old (d ∷ []) h);
      taken = g.taken;
      zeroed = g.zeroed;
    }

pub room_for :
    (c : Chunk) (bytes : ℕ)
    → (leb (align_up c.used alignment) c.capacity
        && leb bytes (c.capacity - align_up c.used alignment))
      ≡ true
    → (align_up c.used alignment ≤ c.capacity) × (bytes ≤ c.capacity - align_up c.used alignment)
room_for c bytes e = ground arith
