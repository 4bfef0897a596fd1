-- ===== src/Arith/Numerals.antt =====
-- Decimal numerals and names in src/expand.c, read off a longer text.
use arksh.Base.{
  ℕ, ◌+◌, ◌-◌, ◌*◌, ◌≡◌, refl, sym, ap, ◌∙◌, true, false, none, some, [], ◌∷◌, ◌++◌, arith, leb,
  ◌==◌, All, Bytes,
}
use arksh.Arith.Number.{
  is_space, is_digit, is_name_char, arith_skip_ws, digit_of, digits, starts_digit, magnitude_from,
  clamp, number_from, signed_from, strtoll,
}
use arksh.Arith.Parse.{name_at}
use arksh.Arith.Tokens.{NoName}

pub digit_some : (c : ℕ) → is_digit c ≡ true → digit_of 10 c ≡ some (c - b'0')
unfolding digit_of
digit_some c h = ground arith

digit_none : (c : ℕ) → is_name_char c ≡ false → digit_of 10 c ≡ none
unfolding digit_of
digit_none c h = ground arith

-- The digits stop where no name character follows.
digits_stop : (acc : ℕ) (s : Bytes) → NoName s → digits 10 acc s ≡ (acc, s)
unfolding digits
digits_stop acc [] h = refl
digits_stop acc (c ∷ s) h = rw (digits, digit_none c h) refl

pub digits-append :
    (acc : ℕ) (more s : Bytes)
    → All (λ d. is_digit d ≡ true) more
    → NoName s
    → digits 10 acc (more ++ s) ≡ ((digits 10 acc more).0, s)
unfolding digits
digits-append acc [] s k h = digits_stop acc s h
digits-append acc (d ∷ more) s k h =
    rw (digits, digit_some d k.0) (digits-append (acc * 10 + (d - b'0')) more s k.1 h)

-- A decimal numeral that starts with no zero.
magnitude_decimal :
    (c : ℕ) (t : Bytes) → leb b'1' c ≡ true → magnitude_from (c ∷ t) ≡ digits 10 0 (c ∷ t)
unfolding magnitude_from
magnitude_decimal c [] h = let zero_free : (c == b'0') ≡ false = ground arith in rw zero_free refl
magnitude_decimal c (d ∷ t) h =
    let zero_free : (c == b'0') ≡ false = ground arith in rw zero_free refl

pub skip_nothing : (c : ℕ) (t : Bytes) → is_space c ≡ false → arith_skip_ws (c ∷ t) ≡ c ∷ t
unfolding arith_skip_ws
skip_nothing c t h = rw h refl

pub strtoll_decimal :
    (c : ℕ) (t : Bytes)
    → leb b'1' c ≡ true
    → leb c b'9' ≡ true
    → strtoll (c ∷ t) ≡ (clamp false (digits 10 0 (c ∷ t)).0, (digits 10 0 (c ∷ t)).1)
unfolding strtoll clamp digits
strtoll_decimal c t h k =
    let no_space : is_space c ≡ false = ground arith in
    let no_minus : (c == b'-') ≡ false = ground arith in
    let no_plus : (c == b'+') ≡ false = ground arith in
    let digit : is_digit c ≡ true = ground arith in
    rw
      (
        strtoll,
        skip_nothing c t no_space,
        signed_from,
        no_minus,
        no_plus,
        number_from,
        starts_digit,
        digit_some c digit,
        magnitude_decimal c t h,
      )
      refl

pub strtoll-append :
    (c : ℕ) (more s : Bytes)
    → leb b'1' c ≡ true
    → leb c b'9' ≡ true
    → All (λ d. is_digit d ≡ true) more
    → NoName s
    → strtoll (c ∷ (more ++ s)) ≡ ((strtoll (c ∷ more)).0, s)
strtoll-append c more s h k digits_only stop =
    let digit : is_digit c ≡ true = ground arith in
    let whole = digits-append 0 (c ∷ more) s (digit, digits_only) stop in
    strtoll_decimal c (more ++ s) h k
    ∙ ap (λ p. (clamp false p.0, p.1)) whole
    ∙ ap (λ p. (p.0, s)) (sym (strtoll_decimal c more h k))

name_stops : (s : Bytes) → NoName s → name_at s ≡ ([], s)
unfolding name_at
name_stops [] h = refl
name_stops (c ∷ s) h = rw h refl

pub name_at-append :
    (name s : Bytes)
    → All (λ d. is_name_char d ≡ true) name
    → NoName s
    → name_at (name ++ s) ≡ (name, s)
unfolding name_at
name_at-append [] s k h = name_stops s h
name_at-append (c ∷ name) s k h = rw (name_at, k.0, name_at-append name s k.1 h) refl
