-- ===== src/Arena/Frames.antt =====
-- Frames of src/arena.c: what the end of a frame restores.
use arksh.Base.{
  ℕ, suc, ◌<◌, ◌≡◌, refl, sym, ap, subst, ◌∙◌, inl, inr, ◌↔◌, false, Option, none, some, List, [],
  ◌∷◌, ◌++◌, map, arith, length, take, length-take, append_assoc, ◌==◌, ==_refl,
}
use arksh.Arena.{
  Extent, Chunk, Arena, World, rewind, frame_begin, frame_end, restore, restore_at, used_at, update,
  head_position,
}
use arksh.Arena.Layout.{Live}
use arksh.Arena.Alloc.{Positioned, live_chunks, up_to, take_middle}
use arksh.Arena.Calls.{At, position-At}
use arksh.Arena.Anchor.{Anchored, Run, Run-Anchored}

restore_at_middle :
    (used : ℕ) (pre : List Chunk) (c : Chunk) (after : List Chunk)
    → restore_at (length pre) used (pre ++ c ∷ after)
      ≡ pre ++ record c { used = used } ∷ map rewind after
unfolding restore_at
restore_at_middle used [] c after = refl
restore_at_middle used (b ∷ pre) c after = ap (◌∷◌ b) (restore_at_middle used pre c after)

-- The chunk at `e` stands behind `pre` still.
Anchored-chunks :
    (pre : List Chunk) (e : Extent) (a : Arena)
    → Anchored pre e a
    → (u : ℕ) × (rest : List Chunk) × (a.chunks ≡ pre ++ record { extent = e; used = u } ∷ rest)
Anchored-chunks pre e a h = elim h.from [
  | inl (same, at_e) ↦ (
    h.here.used,
    h.after,
    h.chunks_are
        ∙ ap (λ b. b ++ h.here ∷ h.after) same
        ∙ ap (λ x. pre ++ record { extent = x; used = h.here.used } ∷ h.after) at_e,
  )
  | inr (u, rest, same) ↦ (
    u,
    rest ++ h.here ∷ h.after,
    h.chunks_are
        ∙ ap (λ b. b ++ h.here ∷ h.after) same
        ∙ append_assoc pre (record { extent = e; used = u } ∷ rest) (h.here ∷ h.after),
  )
]

restored_live :
    (pre : List Chunk) (e : Extent) (used : ℕ) (a : Arena)
    → Anchored pre e a
    → live_chunks (restore (some (length pre)) used a)
      ≡ pre ++ record { extent = e; used = used } ∷ []
unfolding restore
restored_live pre e used a h =
    let (u, rest, same) = Anchored-chunks pre e a h in
    ap (λ cs. take (suc (length pre)) (restore_at (length pre) used cs)) same
    ∙ ap (take (suc (length pre)))
        (restore_at_middle used pre (record { extent = e; used = u }) rest)
    ∙ take_middle pre (record { extent = e; used = used }) (map rewind rest)

rewound-Live : (cs : List Chunk) (x : ℕ) → ¬ Live (up_to (head_position cs) (map rewind cs)) x
rewound-Live [] x h = h
rewound-Live (c ∷ cs) x (inl h) = omega arith
rewound-Live (c ∷ cs) x (inr h) = h

length-take_at : (i : ℕ) (cs : List Chunk) → i < length cs → length (take i cs) ≡ i
length-take_at i cs h = omega (arith, length-take i cs)

used_at_here : (i : ℕ) (cs : List Chunk) (x : At i cs) → used_at (some i) cs ≡ x.here.used
unfolding used_at
used_at_here i cs x = rw (used_at, x.dropped) refl

module _ (malloc : List Extent → ℕ → Option ℕ) (a a' : Arena) (run : Run malloc a a') where
  live_as_before :
      (i : ℕ)
      → a.current ≡ some i
      → i < length a.chunks
      → live_chunks (restore (some i) (used_at (some i) a.chunks) a') ≡ take (suc i) a.chunks
  live_as_before i current within =
      let x = position-At i a.chunks within in
      let pre = take i a.chunks in
      let len = length-take_at i a.chunks within in
      let begun : Anchored pre x.here.extent a = record {
        before = pre;
        here = x.here;
        after = x.after;
        chunks_are = sym x.whole;
        current_is = current ∙ ap some (sym len);
        from = inl (refl, refl);
      } in
      let ended = Run-Anchored malloc pre x.here.extent a a' run begun in
      ap (λ u. live_chunks (restore (some i) u a')) (used_at_here i a.chunks x)
      ∙ subst (λ j. live_chunks (restore (some j) x.here.used a') ≡ pre ++ x.here ∷ []) len
          (restored_live pre x.here.extent x.here.used a' ended)
      ∙ sym x.prefix

  Live-restore :
      (cur : Option ℕ)
      → a.current ≡ cur
      → Positioned cur a.chunks
      → (x : ℕ)
      → Live (live_chunks (restore cur (used_at cur a.chunks) a')) x ↔ Live (up_to cur a.chunks) x
  unfolding restore
  Live-restore none current p x = (λ h. absurd (rewound-Live a'.chunks x h), λ h. absurd h)
  Live-restore (some i) current p x =
      let same = live_as_before i current p in
      (λ h. subst (λ cs. Live cs x) same h, λ h. subst (λ cs. Live cs x) (sym same) h)

-- A frame of shell `s`, within which the shell's arena becomes `a'`.
abbrev pub framed : ℕ → Arena → World → World
framed s a' w =
    let begun = frame_begin (some s) w in
    (frame_end begun.0 (record begun.1 { scratch = update begun.1.scratch s a' })).1

-- After a frame of shell `s` with any number of allocations in the shell's arena, for an arena whose
-- current chunk is one of its chunks, the active shell is the one from before, the bytes that count
-- as handed out are exactly those from before, and the arenas of other shells are untouched.
pub frame_end_lem :
    (malloc : List Extent → ℕ → Option ℕ) (w : World) (s : ℕ) (a' : Arena)
    → Positioned (w.scratch s).current (w.scratch s).chunks
    → Run malloc (w.scratch s) a'
    → ((framed s a' w).active_shell ≡ w.active_shell)
      × ((x : ℕ)
          → Live (live_chunks ((framed s a' w).scratch s)) x ↔ Live (live_chunks (w.scratch s)) x)
      × ((t : ℕ) → (t == s) ≡ false → (framed s a' w).scratch t ≡ w.scratch t)
unfolding frame_begin frame_end
frame_end_lem malloc w s a' p run = (
  refl,
  λ x. rw (==_refl s) (Live-restore malloc (w.scratch s) a' run (w.scratch s).current refl p x),
  λ t other. rw other refl,
)
