-- ===== src/Json.antt =====
-- Values and their JSON texts in src/object.c: what a value is, the errors of the parser, and what
-- the model takes from the C library for numbers.
-- An `ArkshValueItem` is the `ArkshValue` that it was set from. Matrices are left out.
pub mod Text
pub mod Print
pub mod Parse
pub mod Written
pub mod Prints
pub mod Strings
pub mod Readable
pub mod Elements
pub mod Lists
pub mod Maps
pub mod RoundTrip
mod Tests
use arksh.Base.{ℕ, Bool, List, Bytes}

-- `double` and the conversions of it that the C library makes.
pub record Numbers : Type 1 where
  Number : Type 0
  -- `isnan(number) || isinf(number)`
  pub is_special : Number → Bool
  -- `%.15g`, `%.7g` of the number as a `float`, `%lld` of it as a `long long`, `%d` as an `int`
  pub format_double : Number → Bytes
  pub format_float : Number → Bytes
  pub format_integer : Number → Bytes
  pub format_int : Number → Bytes
  -- the number in front of a text, and what follows it
  pub strtod : Bytes → Number × Bytes

mutual
  pub data Value (A : Type 0) : Type 0 where
    empty : Value A
    string : Bytes → Value A
    number integer float double imaginary : A → Value A
    boolean : Bool → Value A
    object : Bytes → Value A
    block : Bytes → Value A
    class : Bytes → Value A
    instance_of : Bytes → A → Value A
    list : Items A → Value A
    map dict : Entries A → Value A

  pub data Items (A : Type 0) : Type 0 where
    nil : Items A
    cons : Value A → Items A → Items A

  pub data Entries (A : Type 0) : Type 0 where
    end : Entries A
    entry : Bytes → Value A → Entries A → Entries A

pub data Error : Type 0 where
  no_room : Error
  expected_string unterminated_string unterminated_escape too_large : Error
  control_character invalid_escape : ℕ → Error
  expected_hex lone_high_surrogate expected_low_surrogate lone_low_surrogate : Error
  invalid_number leading_zero : Error
  expected_in_array unterminated_array : Error
  expected_key expected_colon unable_to_grow expected_in_object unterminated_object : Error
  too_deep invalid_value trailing_content : Error
  out_of_fuel : Error

pub data Result {ℓ} (A : Type ℓ) : Type ℓ where
  ok : A → Result A
  err : Error → Result A

infixl 5 ◌>>=◌
abbrev pub ◌>>=◌ {ℓ κ} : {A : Type ℓ} {B : Type κ} → Result A → (A → Result B) → Result B
ok a >>= f = f a
err e >>= f = err e
