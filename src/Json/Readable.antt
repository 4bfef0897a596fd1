-- ===== src/Json/Readable.antt =====
-- The values that src/object.c reads back from their JSON text, and what it reads.
use arksh.Base.{
  same_text, ℕ, suc, ◌≤◌, ◌<◌, ◌≡◌, true, false, ◌||◌, ◌∷◌, ◌++◌, ◌==◌, if◌then◌else◌, length,
  Bytes, max_output,
}
use Prim.Native.Nat.{max}
use arksh.Json.{
  Numbers, Value, Items, Entries, empty, string, number, integer, float, double, imaginary, boolean,
  object, block, class, instance_of, list, map, dict, nil, cons, end, entry,
}
use arksh.Json.Print.{imaginary_text, label}
use arksh.Json.Parse.{at_delimiter, is_digit, has_leading_zero}
use arksh.Json.Strings.{IsText}

module _ (n : Numbers) where
  -- The text of a number: it starts as a JSON number does, it fits, and `strtod` reads the number
  -- back where a delimiter follows.
  pub record Numeral (text : Bytes) (x : n.Number) : Type 0 where
    pub first : ℕ
    pub more : Bytes
    pub split : text ≡ first ∷ more
    pub begins : (first == b'-' || is_digit first) ≡ true
    pub no_leading_zero : (s : Bytes) → at_delimiter s ≡ true → has_leading_zero (text ++ s) ≡ false
    pub fits : length text < max_output
    pub reads : (s : Bytes) → at_delimiter s ≡ true → n.strtod (text ++ s) ≡ (x, s)

  -- What stands in the JSON text: the kinds that JSON does not have become strings and numbers.
  unfoldable mutual
    pub as_read : Value n.Number → Value n.Number
    as_read empty = empty
    as_read (string text) = string text
    as_read (number x) = if n.is_special x then empty else number x
    as_read (integer x) = number x
    as_read (float x) = number x
    as_read (double x) = number x
    as_read (imaginary x) = string (imaginary_text n x)
    as_read (boolean b) = boolean b
    as_read (object path) = string path
    as_read (block source) = string source
    as_read (class name) = string name
    as_read (instance_of name id) = string (label n name id)
    as_read (list items) = list (items_as_read items)
    as_read (map entries) = map (entries_as_read entries)
    as_read (dict entries) = map (entries_as_read entries)

    pub items_as_read : Items n.Number → Items n.Number
    items_as_read nil = nil
    items_as_read (cons item items) = cons (as_read item) (items_as_read items)

    pub entries_as_read : Entries n.Number → Entries n.Number
    entries_as_read end = end
    entries_as_read (entry key item entries) = entry key (as_read item) (entries_as_read entries)

  -- How many levels the parser goes down.
  unfoldable mutual
    pub depth : Value n.Number → ℕ
    depth (list items) = suc (items_depth items)
    depth (map entries) = suc (entries_depth entries)
    depth (dict entries) = suc (entries_depth entries)
    depth v = 1

    pub items_depth : Items n.Number → ℕ
    items_depth nil = 0
    items_depth (cons item items) = max (depth item) (items_depth items)

    pub entries_depth : Entries n.Number → ℕ
    entries_depth end = 0
    entries_depth (entry key item entries) = max (depth item) (entries_depth entries)

  abbrev pub NotKey : Bytes → Entries n.Number → Type 0
  NotKey key end = Unit
  NotKey key (entry k item entries) = (same_text key k ≡ false) × NotKey key entries

  -- Texts are C strings, keys are not empty, fit the key buffer and differ, numbers are read back.
  unfoldable mutual
    pub IsReadable : Value n.Number → Type 0
    IsReadable empty = Unit
    IsReadable (string text) = IsText text
    IsReadable (number x) = n.is_special x ≡ false → Numeral (n.format_double x) x
    IsReadable (integer x) = Numeral (n.format_integer x) x
    IsReadable (float x) = Numeral (n.format_float x) x
    IsReadable (double x) = Numeral (n.format_double x) x
    IsReadable (imaginary x) = IsText (imaginary_text n x)
    IsReadable (boolean b) = Unit
    IsReadable (object path) = IsText path
    IsReadable (block source) = IsText source
    IsReadable (class name) = IsText name
    IsReadable (instance_of name id) = IsText (label n name id)
    IsReadable (list items) = AreReadable items
    IsReadable (map entries) = IsReadableMap entries
    IsReadable (dict entries) = IsReadableMap entries

    pub AreReadable : Items n.Number → Type 0
    AreReadable nil = Unit
    AreReadable (cons item items) = IsReadable item × AreReadable items

    pub IsReadableMap : Entries n.Number → Type 0
    IsReadableMap end = Unit
    IsReadableMap (entry key item entries) =
        (1 ≤ length key)
        × (length key < 128)
        × IsText key
        × NotKey key entries
        × IsReadable item
        × IsReadableMap entries
