-- ===== src/Json/Prints.antt =====
-- `value_to_json_text` of src/object.c prints what is written, or reports that there is no room.
use arksh.Base.{
  ℕ, ◌≡◌, refl, sym, ap, subst, ◌∙◌, Bool, true, false, [], ◌∷◌, ◌++◌, append_assoc, append-nil,
  arith, Bytes, max_output,
}
use arksh.Json.{
  Numbers, Value, Items, Entries, empty, string, number, integer, float, double, imaginary, boolean,
  object, block, class, instance_of, list, map, dict, nil, cons, end, entry, Result, ◌>>=◌,
}
use arksh.Json.Text.{append_char, append_text, append_json_escaped_string}
use arksh.Json.Print.{
  separate, format_number_json, imaginary_text, label, json_text, items_text, entries_text,
}
use arksh.Json.Written.{
  Gives, bind-Gives, Holds, append_char-Holds, append_text-Holds, append_json_escaped_string-Holds,
  quoted, comma, written, written_items, written_entries, separate-Holds, copied,
}

regroup :
    (before comma_text key_json key item_json item rest : Bytes)
    → key_json ≡ key
    → item_json ≡ item
    → ((((before ++ comma_text) ++ key_json) ++ b':' ∷ []) ++ item_json) ++ rest
      ≡ before ++ (comma_text ++ (key ++ (b':' ∷ (item ++ rest))))
regroup before comma_text key_json key item_json item rest e f =
    ap (λ t. ((((before ++ comma_text) ++ t) ++ b':' ∷ []) ++ item_json) ++ rest) e
    ∙ ap (λ t. ((((before ++ comma_text) ++ key) ++ b':' ∷ []) ++ t) ++ rest) f
    ∙ append_assoc (((before ++ comma_text) ++ key) ++ b':' ∷ []) item rest
    ∙ append_assoc ((before ++ comma_text) ++ key) (b':' ∷ []) (item ++ rest)
    ∙ append_assoc (before ++ comma_text) key (b':' ∷ (item ++ rest))
    ∙ append_assoc before comma_text (key ++ (b':' ∷ (item ++ rest)))

module _ (n : Numbers) where
  -- Braces or brackets around what a loop appends.
  enclosed :
      (o c : ℕ) (body : Bytes) (loop : Bytes → Result Bytes)
      → ((opened : Bytes)
          → Holds max_output (o ∷ []) opened
          → Gives (Holds max_output (o ∷ body)) (loop opened))
      → Gives (Holds max_output (o ∷ (body ++ c ∷ []))) (
          append_char max_output [] o >>= λ opened.
          loop opened >>= λ filled. append_char max_output filled c)
  enclosed o c body loop h =
      bind-Gives (Holds max_output (o ∷ [])) _ (append_char max_output [] o) _
        (append_char-Holds max_output [] [] o refl)
        (λ opened k.
          bind-Gives (Holds max_output (o ∷ body)) _ (loop opened) _ (h opened k)
            (λ filled m. append_char-Holds max_output (o ∷ body) filled c m.0))

  mutual
    unfolding json_text written

    pub json_text-Holds :
        (v : Value n.Number) → Gives (Holds max_output (written n v)) (json_text n max_output v)
    json_text-Holds empty = (refl, omega arith)
    json_text-Holds (string text) = append_json_escaped_string-Holds max_output text
    json_text-Holds (number x) = copied n (format_number_json n x)
    json_text-Holds (integer x) = copied n (n.format_integer x)
    json_text-Holds (float x) = copied n (n.format_float x)
    json_text-Holds (double x) = copied n (n.format_double x)
    json_text-Holds (imaginary x) = append_json_escaped_string-Holds max_output (imaginary_text n x)
    json_text-Holds (boolean true) = (refl, omega arith)
    json_text-Holds (boolean false) = (refl, omega arith)
    json_text-Holds (object path) = append_json_escaped_string-Holds max_output path
    json_text-Holds (block source) = append_json_escaped_string-Holds max_output source
    json_text-Holds (class name) = append_json_escaped_string-Holds max_output name
    json_text-Holds (instance_of name id) =
        append_json_escaped_string-Holds max_output (label n name id)
    json_text-Holds (list items) =
        enclosed b'[' b']' (written_items n true items)
          (λ opened. items_text n max_output true opened items)
          (λ opened k. items_text-Holds true (b'[' ∷ []) opened items k)
    json_text-Holds (map entries) =
        enclosed b'{' b'}' (written_entries n true entries)
          (λ opened. entries_text n max_output true opened entries)
          (λ opened k. entries_text-Holds true (b'{' ∷ []) opened entries k)
    json_text-Holds (dict entries) =
        enclosed b'{' b'}' (written_entries n true entries)
          (λ opened. entries_text n max_output true opened entries)
          (λ opened k. entries_text-Holds true (b'{' ∷ []) opened entries k)

    items_text-Holds :
        (first : Bool) (before out : Bytes) (items : Items n.Number)
        → Holds max_output before out
        → Gives
            (Holds max_output (before ++ written_items n first items))
            (items_text n max_output first out items)
    items_text-Holds first before out nil (e, short) = (e ∙ sym (append-nil before), short)
    items_text-Holds first before out (cons item items) h =
        bind-Gives (Holds max_output (written n item)) _ (json_text n max_output item) _
          (json_text-Holds item)
          (λ item_json p.
            bind-Gives (Holds max_output (before ++ comma first)) _ (separate max_output first out)
              _ (separate-Holds n max_output first before out h)
              (λ separated q.
                bind-Gives (Holds max_output ((before ++ comma first) ++ item_json)) _
                  (append_text max_output separated item_json) _
                  (append_text-Holds max_output (before ++ comma first) separated item_json q.0)
                  (λ longer r.
                    subst
                      (λ t. Gives (Holds max_output t) (items_text n max_output false longer items))
                      (ap (λ t. ((before ++ comma first) ++ t) ++ written_items n false items) p.0
                        ∙ append_assoc (before ++ comma first) (written n item)
                            (written_items n false items)
                        ∙ append_assoc before (comma first)
                            (written n item ++ written_items n false items))
                      (items_text-Holds false ((before ++ comma first) ++ item_json) longer items
                        r))))

    entries_text-Holds :
        (first : Bool) (before out : Bytes) (entries : Entries n.Number)
        → Holds max_output before out
        → Gives
            (Holds max_output (before ++ written_entries n first entries))
            (entries_text n max_output first out entries)
    entries_text-Holds first before out end (e, short) = (e ∙ sym (append-nil before), short)
    entries_text-Holds first before out (entry key item entries) h =
        let start = before ++ comma first in
        bind-Gives (Holds max_output (quoted key)) _ (append_json_escaped_string max_output key) _
          (append_json_escaped_string-Holds max_output key)
          (λ key_json j.
            bind-Gives (Holds max_output (written n item)) _ (json_text n max_output item) _
              (json_text-Holds item)
              (λ item_json p.
                bind-Gives (Holds max_output start) _ (separate max_output first out) _
                  (separate-Holds n max_output first before out h)
                  (λ separated q.
                    bind-Gives (Holds max_output (start ++ key_json)) _
                      (append_text max_output separated key_json) _
                      (append_text-Holds max_output start separated key_json q.0)
                      (λ with_key r.
                        bind-Gives (Holds max_output ((start ++ key_json) ++ b':' ∷ [])) _
                          (append_char max_output with_key b':') _
                          (append_char-Holds max_output (start ++ key_json) with_key b':' r.0)
                          (λ with_colon t.
                            bind-Gives
                              (Holds max_output (((start ++ key_json) ++ b':' ∷ []) ++ item_json)) _
                              (append_text max_output with_colon item_json) _
                              (append_text-Holds max_output ((start ++ key_json) ++ b':' ∷ [])
                                with_colon item_json t.0)
                              (λ longer w.
                                subst
                                  (λ u.
                                    Gives (Holds max_output u)
                                      (entries_text n max_output false longer entries))
                                  (regroup before (comma first) key_json (quoted key) item_json
                                    (written n item) (written_entries n false entries) j.0 p.0)
                                  (entries_text-Holds false
                                    (((start ++ key_json) ++ b':' ∷ []) ++ item_json) longer entries
                                    w)))))))
