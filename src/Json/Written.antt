-- ===== src/Json/Written.antt =====
-- What `value_to_json_text` of src/object.c prints where its buffers hold it, with no buffer in it.
use arksh.Base.{
  ℕ, ◌+◌, ◌-◌, ◌<◌, ◌≡◌, refl, sym, ap, subst, ◌∙◌, Bool, true, false, Bool-cases, inl, inr, [],
  ◌∷◌, ◌++◌, append_assoc, append-nil, arith, leb, length, length-append, length-take, Bytes, codes,
  copy_string, max_output,
}
use arksh.Json.{
  Numbers, Value, Items, Entries, empty, string, number, integer, float, double, imaginary, boolean,
  object, block, class, instance_of, list, map, dict, nil, cons, end, entry, Result, ok, err, ◌>>=◌,
}
use arksh.Json.Text.{append_char, append_text, escaped, escape_loop, append_json_escaped_string}
use arksh.Json.Print.{separate, format_number_json, imaginary_text, label}

-- What a result promises where it is no error.
abbrev pub Gives {ℓ κ} : {A : Type ℓ} → (A → Type κ) → Result A → Type κ
Gives P (ok x) = P x
Gives P (err e) = Unit

pub bind-Gives {ℓ κ μ ν} :
    {A : Type ℓ} {B : Type κ} (P : A → Type μ) (Q : B → Type ν) (r : Result A) (f : A → Result B)
    → Gives P r
    → ((x : A) → P x → Gives Q (f x))
    → Gives Q (r >>= f)
bind-Gives P Q (ok x) f h k = k x h
bind-Gives P Q (err e) f h k = tt

-- The buffer holds exactly this.
abbrev pub Holds : ℕ → Bytes → Bytes → Type 0
Holds out_size text out = (out ≡ text) × (length out < out_size)

pub append_char-Holds :
    (out_size : ℕ) (text out : Bytes) (c : ℕ)
    → out ≡ text
    → Gives (Holds out_size (text ++ c ∷ [])) (append_char out_size out c)
unfolding append_char
append_char-Holds out_size text out c e =
    let longer = length-append out (c ∷ []) in
    elim (Bool-cases (leb out_size (length out + 1))) [
      | inl h ↦ rw h tt
      | inr h ↦ rw h (ap (λ t. t ++ c ∷ []) e, ground (arith, longer))
    ]

pub append_text-Holds :
    (out_size : ℕ) (text out more : Bytes)
    → out ≡ text
    → Gives (Holds out_size (text ++ more)) (append_text out_size out more)
unfolding append_text
append_text-Holds out_size text out more e =
    let longer = length-append out more in
    elim (Bool-cases (leb out_size (length out + length more))) [
      | inl h ↦ rw h tt
      | inr h ↦ rw h (ap (λ t. t ++ more) e, ground (arith, longer))
    ]

unfoldable pub escape_all : Bytes → Bytes
unfolding escaped
escape_all [] = []
escape_all (c ∷ text) = escaped c ++ escape_all text

unfoldable pub quoted : Bytes → Bytes
unfolding escape_all
quoted text = b'"' ∷ (escape_all text ++ b'"' ∷ [])

escape_loop-Holds :
    (out_size : ℕ) (before out text : Bytes)
    → Holds out_size before out
    → Gives (Holds out_size (before ++ escape_all text)) (escape_loop out_size out text)
unfolding escape_loop escape_all
escape_loop-Holds out_size before out [] (e, short) = (e ∙ sym (append-nil before), short)
escape_loop-Holds out_size before out (c ∷ text) (e, short) =
    bind-Gives (Holds out_size (before ++ escaped c)) _ (append_text out_size out (escaped c)) _
      (append_text-Holds out_size before out (escaped c) e)
      (λ longer h.
        subst (λ t. Gives (Holds out_size t) (escape_loop out_size longer text))
          (append_assoc before (escaped c) (escape_all text))
          (escape_loop-Holds out_size (before ++ escaped c) longer text h))

pub append_json_escaped_string-Holds :
    (out_size : ℕ) (text : Bytes)
    → Gives (Holds out_size (quoted text)) (append_json_escaped_string out_size text)
unfolding append_json_escaped_string quoted
append_json_escaped_string-Holds out_size text =
    bind-Gives (Holds out_size (b'"' ∷ [])) _ (append_char out_size [] b'"') _
      (append_char-Holds out_size [] [] b'"' refl)
      (λ opened h.
        bind-Gives (Holds out_size (b'"' ∷ escape_all text)) _ (escape_loop out_size opened text) _
          (escape_loop-Holds out_size (b'"' ∷ []) opened text h)
          (λ filled k. append_char-Holds out_size (b'"' ∷ escape_all text) filled b'"' k.0))

-- The comma in front of every element but the first.
abbrev pub comma : Bool → Bytes
comma true = []
comma false = b',' ∷ []

module _ (n : Numbers) where
  unfoldable mutual
    unfolding quoted

    pub written : Value n.Number → Bytes
    written empty = codes "null"
    written (string text) = quoted text
    written (number x) = copy_string max_output (format_number_json n x)
    written (integer x) = copy_string max_output (n.format_integer x)
    written (float x) = copy_string max_output (n.format_float x)
    written (double x) = copy_string max_output (n.format_double x)
    written (imaginary x) = quoted (imaginary_text n x)
    written (boolean true) = codes "true"
    written (boolean false) = codes "false"
    written (object path) = quoted path
    written (block source) = quoted source
    written (class name) = quoted name
    written (instance_of name id) = quoted (label n name id)
    written (list items) = b'[' ∷ (written_items true items ++ b']' ∷ [])
    written (map entries) = b'{' ∷ (written_entries true entries ++ b'}' ∷ [])
    written (dict entries) = b'{' ∷ (written_entries true entries ++ b'}' ∷ [])

    pub written_items : Bool → Items n.Number → Bytes
    written_items first nil = []
    written_items first (cons item items) =
        comma first ++ (written item ++ written_items false items)

    pub written_entries : Bool → Entries n.Number → Bytes
    written_entries first end = []
    written_entries first (entry key item entries) =
        comma first ++ (quoted key ++ (b':' ∷ (written item ++ written_entries false entries)))

  pub separate-Holds :
      (out_size : ℕ) (first : Bool) (before out : Bytes)
      → Holds out_size before out
      → Gives (Holds out_size (before ++ comma first)) (separate out_size first out)
  unfolding separate
  separate-Holds out_size true before out (e, short) = (e ∙ sym (append-nil before), short)
  separate-Holds out_size false before out (e, short) = append_char-Holds out_size before out b',' e

  pub copied :
      (text : Bytes) → Holds max_output (copy_string max_output text) (copy_string max_output text)
  copied text = (refl, omega (arith, length-take (max_output - 1) text))
