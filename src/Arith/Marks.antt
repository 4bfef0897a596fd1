-- ===== src/Arith/Marks.antt =====
-- The characters that end an expression inside a larger one, and the end of the text: every loop of
-- src/expand.c stops there.
use arksh.Base.{ℕ, zero, suc, ◌≡◌, refl, none, [], ◌∷◌, Bytes}
use arksh.Arith.Number.{arith_skip_ws}
use arksh.Arith.Operators.{operators}
use arksh.Arith.Tokens.{Stops}

no_operator_paren : (s : Bytes) (j : ℕ) → operators j (b')' ∷ s) ≡ none
unfolding operators
no_operator_paren s zero = refl
no_operator_paren s (suc zero) = refl
no_operator_paren s (suc (suc zero)) = refl
no_operator_paren s (suc (suc (suc zero))) = refl
no_operator_paren s (suc (suc (suc (suc zero)))) = refl
no_operator_paren s (suc (suc (suc (suc (suc zero))))) = refl
no_operator_paren s (suc (suc (suc (suc (suc (suc zero)))))) = refl
no_operator_paren s (suc (suc (suc (suc (suc (suc (suc zero))))))) = refl
no_operator_paren s (suc (suc (suc (suc (suc (suc (suc (suc zero)))))))) = refl
no_operator_paren s (suc (suc (suc (suc (suc (suc (suc (suc (suc j))))))))) = refl

pub paren-Stops : (l : ℕ) (s : Bytes) → Stops l (b')' ∷ s)
unfolding arith_skip_ws
paren-Stops l s = record {
  no_space = refl;
  no_name = refl;
  no_power = refl;
  no_operator = λ j k. no_operator_paren s j;
}

no_operator_question : (s : Bytes) (j : ℕ) → operators j (b'?' ∷ s) ≡ none
unfolding operators
no_operator_question s zero = refl
no_operator_question s (suc zero) = refl
no_operator_question s (suc (suc zero)) = refl
no_operator_question s (suc (suc (suc zero))) = refl
no_operator_question s (suc (suc (suc (suc zero)))) = refl
no_operator_question s (suc (suc (suc (suc (suc zero))))) = refl
no_operator_question s (suc (suc (suc (suc (suc (suc zero)))))) = refl
no_operator_question s (suc (suc (suc (suc (suc (suc (suc zero))))))) = refl
no_operator_question s (suc (suc (suc (suc (suc (suc (suc (suc zero)))))))) = refl
no_operator_question s (suc (suc (suc (suc (suc (suc (suc (suc (suc j))))))))) = refl

pub question-Stops : (l : ℕ) (s : Bytes) → Stops l (b'?' ∷ s)
unfolding arith_skip_ws
question-Stops l s = record {
  no_space = refl;
  no_name = refl;
  no_power = refl;
  no_operator = λ j k. no_operator_question s j;
}

no_operator_colon : (s : Bytes) (j : ℕ) → operators j (b':' ∷ s) ≡ none
unfolding operators
no_operator_colon s zero = refl
no_operator_colon s (suc zero) = refl
no_operator_colon s (suc (suc zero)) = refl
no_operator_colon s (suc (suc (suc zero))) = refl
no_operator_colon s (suc (suc (suc (suc zero)))) = refl
no_operator_colon s (suc (suc (suc (suc (suc zero))))) = refl
no_operator_colon s (suc (suc (suc (suc (suc (suc zero)))))) = refl
no_operator_colon s (suc (suc (suc (suc (suc (suc (suc zero))))))) = refl
no_operator_colon s (suc (suc (suc (suc (suc (suc (suc (suc zero)))))))) = refl
no_operator_colon s (suc (suc (suc (suc (suc (suc (suc (suc (suc j))))))))) = refl

pub colon-Stops : (l : ℕ) (s : Bytes) → Stops l (b':' ∷ s)
unfolding arith_skip_ws
colon-Stops l s = record {
  no_space = refl;
  no_name = refl;
  no_power = refl;
  no_operator = λ j k. no_operator_colon s j;
}

no_operator_end : (j : ℕ) → operators j [] ≡ none
unfolding operators
no_operator_end zero = refl
no_operator_end (suc zero) = refl
no_operator_end (suc (suc zero)) = refl
no_operator_end (suc (suc (suc zero))) = refl
no_operator_end (suc (suc (suc (suc zero)))) = refl
no_operator_end (suc (suc (suc (suc (suc zero))))) = refl
no_operator_end (suc (suc (suc (suc (suc (suc zero)))))) = refl
no_operator_end (suc (suc (suc (suc (suc (suc (suc zero))))))) = refl
no_operator_end (suc (suc (suc (suc (suc (suc (suc (suc zero)))))))) = refl
no_operator_end (suc (suc (suc (suc (suc (suc (suc (suc (suc j))))))))) = refl

pub end-Stops : (l : ℕ) → Stops l []
unfolding arith_skip_ws
end-Stops l = record {
  no_space = refl;
  no_name = tt;
  no_power = refl;
  no_operator = λ j k. no_operator_end j;
}
