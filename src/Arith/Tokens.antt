-- ===== src/Arith/Tokens.antt =====
-- Where the loops of src/expand.c stop, and which of them an operator belongs to.
use arksh.Base.{
  ℕ, zero, suc, ◌≤◌, ◌<◌, ◌≡◌, refl, false, ◌&&◌, none, some, [], ◌∷◌, ◌++◌, arith, length, Bytes,
}
use arksh.Arith.{
  Op, mul, div, mod_by, add, sub, shift_left, shift_right, le, ge, lt, gt, eq, ne, bit_and_op,
  bit_xor_op, bit_or_op, and_op, or_op,
}
use arksh.Arith.Number.{is_name_char, arith_skip_ws}
use arksh.Arith.Operators.{at}
use arksh.Arith.Operators.{operators}
use arksh.Arith.Expr.{op_text, op_level}

-- No character that goes on with a number or a name.
abbrev pub NoName : Bytes → Type 0
NoName [] = Unit
NoName (c ∷ s) = is_name_char c ≡ false

-- The loops below level `l` stop at `s`.
pub record Stops (l : ℕ) (s : Bytes) : Type 0 where
  pub no_space : arith_skip_ws s ≡ s
  pub no_name : NoName s
  pub no_power : (at s 0 b'*' && at s 1 b'*') ≡ false
  pub no_operator : (j : ℕ) → j < l → operators j s ≡ none

pub Stops-fewer : (l m : ℕ) (s : Bytes) → l ≤ m → Stops m s → Stops l s
Stops-fewer l m s h st = record {
  no_space = st.no_space;
  no_name = st.no_name;
  no_power = st.no_power;
  no_operator = λ j k. st.no_operator j (omega arith);
}

-- What may follow an operator: no character that would make it another one.
pub record StartsOperand (s : Bytes) : Type 0 where
  pub no_less : at s 0 b'<' ≡ false
  pub no_greater : at s 0 b'>' ≡ false
  pub no_equal : at s 0 b'=' ≡ false
  pub no_ampersand : at s 0 b'&' ≡ false
  pub no_bar : at s 0 b'|' ≡ false
  pub no_star : at s 0 b'*' ≡ false

module _ (t : Bytes) (h : StartsOperand t) where
  -- The level of an operator finds it.
  pub token_here : (o : Op) → operators (op_level o) (op_text o ++ t) ≡ some (o, length (op_text o))
  unfolding operators
  token_here mul = refl
  token_here div = refl
  token_here mod_by = refl
  token_here add = refl
  token_here sub = refl
  token_here shift_left = refl
  token_here shift_right = refl
  token_here le = refl
  token_here ge = refl
  token_here lt = rw (h.no_equal, h.no_less) refl
  token_here gt = rw (h.no_equal, h.no_greater) refl
  token_here eq = refl
  token_here ne = refl
  token_here bit_and_op = rw h.no_ampersand refl
  token_here bit_xor_op = refl
  token_here bit_or_op = rw h.no_bar refl
  token_here and_op = refl
  token_here or_op = refl

  -- The loops of tighter levels stop at it.
  token_above : (o : Op) (j : ℕ) → j < op_level o → operators j (op_text o ++ t) ≡ none
  unfolding operators
  token_above mul j k = absurd (omega arith)
  token_above div j k = absurd (omega arith)
  token_above mod_by j k = absurd (omega arith)
  token_above add zero k = refl
  token_above add (suc j) k = absurd (omega arith)
  token_above sub zero k = refl
  token_above sub (suc j) k = absurd (omega arith)
  token_above shift_left zero k = refl
  token_above shift_left (suc zero) k = refl
  token_above shift_left (suc (suc j)) k = absurd (omega arith)
  token_above shift_right zero k = refl
  token_above shift_right (suc zero) k = refl
  token_above shift_right (suc (suc j)) k = absurd (omega arith)
  token_above le zero k = refl
  token_above le (suc zero) k = refl
  token_above le (suc (suc zero)) k = refl
  token_above le (suc (suc (suc j))) k = absurd (omega arith)
  token_above ge zero k = refl
  token_above ge (suc zero) k = refl
  token_above ge (suc (suc zero)) k = refl
  token_above ge (suc (suc (suc j))) k = absurd (omega arith)
  token_above lt zero k = refl
  token_above lt (suc zero) k = refl
  token_above lt (suc (suc zero)) k = rw h.no_less refl
  token_above lt (suc (suc (suc j))) k = absurd (omega arith)
  token_above gt zero k = refl
  token_above gt (suc zero) k = refl
  token_above gt (suc (suc zero)) k = rw h.no_greater refl
  token_above gt (suc (suc (suc j))) k = absurd (omega arith)
  token_above eq zero k = refl
  token_above eq (suc zero) k = refl
  token_above eq (suc (suc zero)) k = refl
  token_above eq (suc (suc (suc zero))) k = refl
  token_above eq (suc (suc (suc (suc j)))) k = absurd (omega arith)
  token_above ne zero k = refl
  token_above ne (suc zero) k = refl
  token_above ne (suc (suc zero)) k = refl
  token_above ne (suc (suc (suc zero))) k = refl
  token_above ne (suc (suc (suc (suc j)))) k = absurd (omega arith)
  token_above bit_and_op zero k = refl
  token_above bit_and_op (suc zero) k = refl
  token_above bit_and_op (suc (suc zero)) k = refl
  token_above bit_and_op (suc (suc (suc zero))) k = refl
  token_above bit_and_op (suc (suc (suc (suc zero)))) k = refl
  token_above bit_and_op (suc (suc (suc (suc (suc j))))) k = absurd (omega arith)
  token_above bit_xor_op zero k = refl
  token_above bit_xor_op (suc zero) k = refl
  token_above bit_xor_op (suc (suc zero)) k = refl
  token_above bit_xor_op (suc (suc (suc zero))) k = refl
  token_above bit_xor_op (suc (suc (suc (suc zero)))) k = refl
  token_above bit_xor_op (suc (suc (suc (suc (suc zero))))) k = refl
  token_above bit_xor_op (suc (suc (suc (suc (suc (suc j)))))) k = absurd (omega arith)
  token_above bit_or_op zero k = refl
  token_above bit_or_op (suc zero) k = refl
  token_above bit_or_op (suc (suc zero)) k = refl
  token_above bit_or_op (suc (suc (suc zero))) k = refl
  token_above bit_or_op (suc (suc (suc (suc zero)))) k = refl
  token_above bit_or_op (suc (suc (suc (suc (suc zero))))) k = refl
  token_above bit_or_op (suc (suc (suc (suc (suc (suc zero)))))) k = refl
  token_above bit_or_op (suc (suc (suc (suc (suc (suc (suc j))))))) k = absurd (omega arith)
  token_above and_op zero k = refl
  token_above and_op (suc zero) k = refl
  token_above and_op (suc (suc zero)) k = refl
  token_above and_op (suc (suc (suc zero))) k = refl
  token_above and_op (suc (suc (suc (suc zero)))) k = refl
  token_above and_op (suc (suc (suc (suc (suc zero))))) k = refl
  token_above and_op (suc (suc (suc (suc (suc (suc zero)))))) k = refl
  token_above and_op (suc (suc (suc (suc (suc (suc (suc zero))))))) k = refl
  token_above and_op (suc (suc (suc (suc (suc (suc (suc (suc j)))))))) k = absurd (omega arith)
  token_above or_op zero k = refl
  token_above or_op (suc zero) k = refl
  token_above or_op (suc (suc zero)) k = refl
  token_above or_op (suc (suc (suc zero))) k = refl
  token_above or_op (suc (suc (suc (suc zero)))) k = refl
  token_above or_op (suc (suc (suc (suc (suc zero))))) k = refl
  token_above or_op (suc (suc (suc (suc (suc (suc zero)))))) k = refl
  token_above or_op (suc (suc (suc (suc (suc (suc (suc zero))))))) k = refl
  token_above or_op (suc (suc (suc (suc (suc (suc (suc (suc zero)))))))) k = refl
  token_above or_op (suc (suc (suc (suc (suc (suc (suc (suc (suc j))))))))) k = absurd (omega arith)

  token_no_space : (o : Op) → arith_skip_ws (op_text o ++ t) ≡ op_text o ++ t
  unfolding arith_skip_ws
  token_no_space mul = refl
  token_no_space div = refl
  token_no_space mod_by = refl
  token_no_space add = refl
  token_no_space sub = refl
  token_no_space shift_left = refl
  token_no_space shift_right = refl
  token_no_space le = refl
  token_no_space ge = refl
  token_no_space lt = refl
  token_no_space gt = refl
  token_no_space eq = refl
  token_no_space ne = refl
  token_no_space bit_and_op = refl
  token_no_space bit_xor_op = refl
  token_no_space bit_or_op = refl
  token_no_space and_op = refl
  token_no_space or_op = refl

  token-NoName : (o : Op) → NoName (op_text o ++ t)
  token-NoName mul = refl
  token-NoName div = refl
  token-NoName mod_by = refl
  token-NoName add = refl
  token-NoName sub = refl
  token-NoName shift_left = refl
  token-NoName shift_right = refl
  token-NoName le = refl
  token-NoName ge = refl
  token-NoName lt = refl
  token-NoName gt = refl
  token-NoName eq = refl
  token-NoName ne = refl
  token-NoName bit_and_op = refl
  token-NoName bit_xor_op = refl
  token-NoName bit_or_op = refl
  token-NoName and_op = refl
  token-NoName or_op = refl

  token_no_power : (o : Op) → (at (op_text o ++ t) 0 b'*' && at (op_text o ++ t) 1 b'*') ≡ false
  token_no_power mul = h.no_star
  token_no_power div = refl
  token_no_power mod_by = refl
  token_no_power add = refl
  token_no_power sub = refl
  token_no_power shift_left = refl
  token_no_power shift_right = refl
  token_no_power le = refl
  token_no_power ge = refl
  token_no_power lt = refl
  token_no_power gt = refl
  token_no_power eq = refl
  token_no_power ne = refl
  token_no_power bit_and_op = refl
  token_no_power bit_xor_op = refl
  token_no_power bit_or_op = refl
  token_no_power and_op = refl
  token_no_power or_op = refl

  pub token-Stops : (o : Op) → Stops (op_level o) (op_text o ++ t)
  token-Stops o = record {
    no_space = token_no_space o;
    no_name = token-NoName o;
    no_power = token_no_power o;
    no_operator = λ j k. token_above o j k;
  }
