-- ===== src/Fields/Segments.antt =====
-- What the fields are: the text is cut at each separator into segments, and a segment is a field if
-- it has characters, or ends at a separator that is no white space, or is empty after one.
use arksh.Base.{
  ◌==◌, ℕ, zero, suc, ◌+◌, ◌≤◌, ◌≡◌, refl, sym, ap, ◌∙◌, inl, inr, Bool, true, false, not, ◌&&◌,
  Option, none, some, List, [], ◌∷◌, ◌++◌, append-nil, append_assoc, ap₂, length-append, map, ltb,
  leb, if◌then◌else◌, Bool-cases, length, take, arith, Bytes,
}
use arksh.Fields.{
  is_ifs_char, is_ifs_whitespace, is_empty, emit, push, last_field, field_loop, quoted_field,
  apply_ifs_splitting,
}

pub data End : Type 0 where
  white other at_end : End

abbrev begin_with : ℕ → List (Bytes × End) → List (Bytes × End)
begin_with c [] = []
begin_with c ((segment, end) ∷ rest) = (c ∷ segment, end) ∷ rest

-- A text cut at the separators, of which some are white.
abbrev segments_by : (ℕ → Bool) → (ℕ → Bool) → List (ℕ × Bool) → List (Bytes × End)
segments_by separates is_white [] = ([], at_end) ∷ []
segments_by separates is_white ((c, splittable) ∷ text) =
    let rest = segments_by separates is_white text in
    if splittable && separates c
    then (if is_white c then ([], white) ∷ rest else ([], other) ∷ rest)
    else begin_with c rest

-- One of these bytes, and one of those that `isspace` knows.
abbrev pub one_of : Bytes → ℕ → Bool
one_of [] c = false
one_of (d ∷ s) c = if c == d then true else one_of s c

abbrev pub blank : ℕ → Bool
blank = one_of (32 ∷ 9 ∷ 10 ∷ 11 ∷ 12 ∷ 13 ∷ [])

abbrev pub segments : Bytes → List (ℕ × Bool) → List (Bytes × End)
segments ifs text = segments_by (one_of ifs) blank text

-- The segments that are fields, after a separator that is no white space or not.
abbrev pub fields_of : Bool → List (Bytes × End) → List Bytes
fields_of after [] = []
fields_of after ((segment, other) ∷ rest) = segment ∷ fields_of true rest
fields_of after ((segment, white) ∷ rest) =
    let more = fields_of false rest in if is_empty segment then more else segment ∷ more
fields_of after ((segment, at_end) ∷ rest) =
    if is_empty segment && not after then [] else segment ∷ []

abbrev pub cut : Bytes → Bytes
cut field = take 255 field

abbrev join : Bytes → List (Bytes × End) → List (Bytes × End)
join full [] = []
join full ((segment, end) ∷ rest) = (full ++ segment, end) ∷ rest

abbrev pub limited : ℕ → List Bytes → Option (List Bytes)
limited max_values fields = if leb (length fields) max_values then some fields else none

join_nil : (segs : List (Bytes × End)) → join [] segs ≡ segs
join_nil [] = refl
join_nil (s ∷ segs) = refl

join-begin_with :
    (full : Bytes) (c : ℕ) (segs : List (Bytes × End))
    → join full (begin_with c segs) ≡ join (full ++ (c ∷ [])) segs
join-begin_with full c [] = refl
join-begin_with full c ((segment, end) ∷ segs) =
    ap (λ s. (s, end) ∷ segs) (sym (append_assoc full (c ∷ []) segment))

-- Before a segment with characters it does not matter what separator there was.
fields_of-join :
    (c : ℕ) (full : Bytes) (after : Bool) (segs : List (Bytes × End))
    → fields_of after (join (c ∷ full) segs) ≡ fields_of false (join (c ∷ full) segs)
fields_of-join c full after [] = refl
fields_of-join c full after ((segment, white) ∷ segs) = refl
fields_of-join c full after ((segment, other) ∷ segs) = refl
fields_of-join c full after ((segment, at_end) ∷ segs) = refl

fields_of-snoc :
    (full : Bytes) (c : ℕ) (after : Bool) (segs : List (Bytes × End))
    → fields_of after (join (full ++ (c ∷ [])) segs)
      ≡ fields_of false (join (full ++ (c ∷ [])) segs)
fields_of-snoc [] c after segs = fields_of-join c [] after segs
fields_of-snoc (d ∷ full) c after segs = fields_of-join d (full ++ (c ∷ [])) after segs

abbrev read_segments : Bytes → List (ℕ × Bool) → List (Bytes × End)
read_segments ifs text = segments_by (λ c. is_ifs_char c ifs) (λ c. is_ifs_whitespace c ifs) text

is_ifs_char-one_of : (c : ℕ) (ifs : Bytes) → is_ifs_char c ifs ≡ one_of ifs c
unfolding is_ifs_char
is_ifs_char-one_of c [] = refl
is_ifs_char-one_of c (d ∷ ifs) = let ih = is_ifs_char-one_of c ifs in ground (arith, ih)

is_ifs_whitespace-blank :
    (c : ℕ) (ifs : Bytes) → one_of ifs c ≡ true → is_ifs_whitespace c ifs ≡ blank c
unfolding is_ifs_whitespace
is_ifs_whitespace-blank c ifs h = let k = is_ifs_char-one_of c ifs in ground (arith, h, k)

read_segments-segments :
    (ifs : Bytes) (text : List (ℕ × Bool)) → read_segments ifs text ≡ segments ifs text
read_segments-segments ifs [] = refl
read_segments-segments ifs ((c, splittable) ∷ text) =
    ap₂
      (λ x rest.
        if splittable && x
        then (if is_ifs_whitespace c ifs then ([], white) ∷ rest else ([], other) ∷ rest)
        else begin_with c rest)
      (is_ifs_char-one_of c ifs) (read_segments-segments ifs text)
    ∙ same_white splittable (one_of ifs c) (is_ifs_whitespace c ifs) (blank c)
        (is_ifs_whitespace-blank c ifs) (segments ifs text)
  where
    same_white :
        (a x y z : Bool)
        → (x ≡ true → y ≡ z)
        → (rest : List (Bytes × End))
        → (if a && x
            then (if y then ([], white) ∷ rest else ([], other) ∷ rest)
            else begin_with c rest)
          ≡ (if a && x
              then (if z then ([], white) ∷ rest else ([], other) ∷ rest)
              else begin_with c rest)
    same_white false x y z h rest = refl
    same_white true false y z h rest = refl
    same_white true true y z h rest =
        ap (λ w. if w then ([], white) ∷ rest else ([], other) ∷ rest) (h refl)

module _ (ifs : Bytes) (max_values : ℕ) where
  take_nil : (n : ℕ) → take {A = ℕ} n [] ≡ []
  take_nil zero = refl
  take_nil (suc n) = refl

  push-take :
      (n : ℕ) (c : ℕ) (full : Bytes)
      → (if ltb (length (take n full) + 1) (n + 1) then take n full ++ (c ∷ []) else take n full)
        ≡ take n (full ++ (c ∷ []))
  push-take zero c full = refl
  push-take (suc n) c [] = let e = take_nil n in ground (arith, e)
  push-take (suc n) c (d ∷ full) =
      let ih = push-take n c full in
      elim (Bool-cases (ltb (length (take n full) + 1) (n + 1))) [
        | inl e ↦ ground (arith, ih, e)
        | inr e ↦ ground (arith, ih, e)
      ]

  collected : List Bytes → List Bytes → Option (List Bytes)
  collected out fields =
      if leb (length out + length fields) max_values then some (out ++ fields) else none

  emit-collected :
      (field : Bytes) (out fields : List Bytes) (next : List Bytes → Option (List Bytes))
      → (length (out ++ (field ∷ [])) ≤ max_values
          → next (out ++ (field ∷ [])) ≡ collected (out ++ (field ∷ [])) fields)
      → emit ifs max_values field out next ≡ collected out (field ∷ fields)
  unfolding collected
  emit-collected field out fields next h = elim (Bool-cases (leb max_values (length out))) [
    | inl e ↦ ground (arith, e)
    | inr e ↦
        let longer = length-append out (field ∷ []) in
        let fits : next (out ++ (field ∷ [])) ≡ collected out (field ∷ fields) =
          h (ground (arith, e, longer))
          ∙ ap₂ (λ n x. if leb n max_values then some x else none) (omega (arith, longer))
              (append_assoc out (field ∷ []) fields) in
        ground (arith, e, fits)
  ]

  abbrev kept : List Bytes → Bytes → Bool → List (ℕ × Bool) → Option (List Bytes)
  kept out full after text =
      collected out (map cut (fields_of after (join full (read_segments ifs text))))

  collected-nil : (out : List Bytes) → length out ≤ max_values → some out ≡ collected out []
  unfolding collected
  collected-nil out h = let e = append-nil out in ground (arith, e)

  -- A field that is emitted, with what the rest of the text gives.
  emit-kept :
      (full : Bytes) (out fields : List Bytes) (next : List Bytes → Option (List Bytes))
      → ((out' : List Bytes) → length out' ≤ max_values → next out' ≡ collected out' fields)
      → emit ifs max_values (cut full) out next ≡ collected out (cut (full ++ []) ∷ fields)
  emit-kept full out fields next h =
      emit-collected (cut full) out fields next (h (out ++ (cut full ∷ [])))
      ∙ ap (λ f. collected out (cut f ∷ fields)) (sym (append-nil full))

  last_field-kept :
      (full : Bytes) (after : Bool) (out : List Bytes)
      → length out ≤ max_values
      → last_field ifs max_values (cut full) after out ≡ kept out full after []
  last_field-kept [] true out h = emit-kept [] out [] some collected-nil
  last_field-kept [] false out h = collected-nil out h
  last_field-kept (c ∷ full) after out h = emit-kept (c ∷ full) out [] some collected-nil

  module _ (text : List (ℕ × Bool))
      (ih : (full : Bytes) (after : Bool) (out : List Bytes)
        → length out ≤ max_values
        → field_loop ifs max_values text (cut full) after out ≡ kept out full after text) where
    fresh :
        (after : Bool) (out : List Bytes)
        → length out ≤ max_values
        → field_loop ifs max_values text [] after out
          ≡ collected out (map cut (fields_of after (read_segments ifs text)))
    fresh after out h =
        ih [] after out h
        ∙ ap (λ segs. collected out (map cut (fields_of after segs)))
            (join_nil (read_segments ifs text))

    white-kept :
        (full : Bytes) (after : Bool) (out : List Bytes)
        → length out ≤ max_values
        → (if is_empty (cut full)
            then field_loop ifs max_values text [] false out
            else emit ifs max_values (cut full) out (field_loop ifs max_values text [] false))
          ≡ collected out
              (map cut (fields_of after (join full (([], white) ∷ read_segments ifs text))))
    white-kept [] after out h = fresh false out h
    white-kept (c ∷ full) after out h =
        emit-kept (c ∷ full) out _ (field_loop ifs max_values text [] false) (fresh false)

    push-kept :
        (c : ℕ) (full : Bytes) (after : Bool) (out : List Bytes)
        → length out ≤ max_values
        → field_loop ifs max_values text (push ifs max_values c (cut full)) false out
          ≡ collected out
              (map cut (fields_of after (join full (begin_with c (read_segments ifs text)))))
    push-kept c full after out h =
        ap (λ f. field_loop ifs max_values text f false out) (push-take 255 c full)
        ∙ ih (full ++ (c ∷ [])) false out h
        ∙ ap (λ fields. collected out (map cut fields))
            (sym (fields_of-snoc full c after (read_segments ifs text))
              ∙ ap (fields_of after) (sym (join-begin_with full c (read_segments ifs text))))

  field_loop-kept :
      (text : List (ℕ × Bool)) (full : Bytes) (after : Bool) (out : List Bytes)
      → length out ≤ max_values
      → field_loop ifs max_values text (cut full) after out ≡ kept out full after text
  unfolding field_loop
  field_loop-kept [] full after out h = last_field-kept full after out h
  field_loop-kept ((c, splittable) ∷ text) full after out h =
      stepped (field_loop-kept text) (splittable && is_ifs_char c ifs) (is_ifs_whitespace c ifs)
    where
      stepped :
          ((full' : Bytes) (after' : Bool) (out' : List Bytes)
            → length out' ≤ max_values
            → field_loop ifs max_values text (cut full') after' out' ≡ kept out' full' after' text)
          → (x y : Bool)
          → (if x
              then (if y
                  then (if is_empty (cut full)
                      then field_loop ifs max_values text [] false out
                      else emit ifs max_values
                          (cut full)
                          out
                          (field_loop ifs max_values text [] false))
                  else emit ifs max_values (cut full) out (field_loop ifs max_values text [] true))
              else field_loop ifs max_values text (push ifs max_values c (cut full)) false out)
            ≡ collected out (
                map cut (
                  fields_of after (
                    join full (
                      if x
                      then (if y
                          then ([], white) ∷ read_segments ifs text
                          else ([], other) ∷ read_segments ifs text)
                      else begin_with c (read_segments ifs text)))))
      stepped ih true true = white-kept text ih full after out h
      stepped ih true false =
          emit-kept full out _ (field_loop ifs max_values text [] true) (fresh text ih true)
      stepped ih false y = push-kept text ih c full after out h

quoted_limited :
    (saw_quote : Bool) (max_values : ℕ) (fields : List Bytes)
    → quoted_field saw_quote (limited max_values fields) ≡ (
        if ltb max_values (length fields)
        then none
        else if saw_quote && length fields == 0
        then some ([] ∷ [])
        else some fields)
quoted_limited true max_values [] = ground arith
quoted_limited false max_values [] = ground arith
quoted_limited saw_quote max_values (f ∷ fields) = ground arith

-- Where IFS is not empty, a separator is a byte of IFS whose flag allows a split, and white space is
-- what `isspace` knows. Splitting gives the segments of the text that are fields: those with
-- characters, those that end at a separator other than white space, and an empty last one just after
-- such a separator; each cut to 255 characters, and one empty field if there is none but a quote was
-- seen. It fails exactly where there are more fields than fit.
pub apply_ifs_splitting-fields :
    (text : List (ℕ × Bool)) (saw_quote : Bool) (d : ℕ) (ifs : Bytes) (max_values : ℕ)
    → apply_ifs_splitting text saw_quote (d ∷ ifs) max_values ≡ (
        let fields = map cut (fields_of false (segments (d ∷ ifs) text)) in
        if ltb max_values (length fields)
        then none
        else if saw_quote && length fields == 0
        then some ([] ∷ [])
        else some fields)
unfolding apply_ifs_splitting collected
apply_ifs_splitting-fields text saw_quote d ifs max_values =
    let fields = map cut (fields_of false (segments (d ∷ ifs) text)) in
    ap (quoted_field saw_quote) (
      fresh (d ∷ ifs) max_values text (field_loop-kept (d ∷ ifs) max_values text) false []
        (omega arith)
      ∙ ap (λ segs. collected (d ∷ ifs) max_values [] (map cut (fields_of false segs)))
          (read_segments-segments (d ∷ ifs) text)
      ∙ ap (λ n. if leb n max_values then some fields else none) (omega arith))
    ∙ quoted_limited saw_quote max_values fields
