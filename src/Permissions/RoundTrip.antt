-- ===== src/Permissions/RoundTrip.antt =====
-- What the formatters print, the parsers read back, for every `unsigned int`.
use arksh.Base.{
  ℕ, ◌<◌, ◌≡◌, refl, Bool, true, false, Option, none, some, arith, ◌==◌, ==_iff, all_below,
  all_below_sound,
}
use arksh.Base.Bits.{bit_and_mask}
use arksh.Permissions.{
  masked, format_permission_octal, format_permission_rwx, parse_permissions_spec,
}

-- The parse gives back the value `v`.
abbrev gives : Option ℕ → ℕ → Bool
gives none v = false
gives (some w) v = w == v

gives-some : (o : Option ℕ) (v : ℕ) → gives o v ≡ true → o ≡ some v
gives-some none v h = cc
gives-some (some w) v h = ground (arith, ==_iff w v)

octal_table :
    all_below 4096 (λ v. gives (parse_permissions_spec (format_permission_octal v)) v) ≡ true
unfolding all_below parse_permissions_spec format_permission_octal
octal_table = refl

rwx_table : all_below 4096 (λ v. gives (parse_permissions_spec (format_permission_rwx v)) v) ≡ true
unfolding all_below parse_permissions_spec format_permission_rwx
rwx_table = refl

masked-lt : (p : ℕ) → masked p < 4096
masked-lt p = omega (arith, bit_and_mask 12 p)

masked-masked : (p : ℕ) → masked (masked p) ≡ masked p
masked-masked p = omega (arith, bit_and_mask 12 p, bit_and_mask 12 (masked p))

format_permission_octal-masked :
    (p : ℕ) → format_permission_octal (masked p) ≡ format_permission_octal p
unfolding format_permission_octal
format_permission_octal-masked p = rw (masked-masked p)

format_permission_rwx-masked : (p : ℕ) → format_permission_rwx (masked p) ≡ format_permission_rwx p
unfolding format_permission_rwx
format_permission_rwx-masked p = rw (masked-masked p)

-- `parse_permissions_spec` reads back the octal form of any permissions, set-id and sticky bits
-- included, as their low twelve bits.
pub parse-format_permission_octal :
    (p : ℕ) → parse_permissions_spec (format_permission_octal p) ≡ some (masked p)
parse-format_permission_octal p =
    rw (← format_permission_octal-masked p)
      (gives-some _ _ (all_below_sound 4096 _ (masked p) octal_table (masked-lt p)))

-- `parse_permissions_spec` reads back the `rwx` form of any permissions, set-id and sticky bits
-- included, as their low twelve bits.
pub parse-format_permission_rwx :
    (p : ℕ) → parse_permissions_spec (format_permission_rwx p) ≡ some (masked p)
parse-format_permission_rwx p =
    rw (← format_permission_rwx-masked p)
      (gives-some _ _ (all_below_sound 4096 _ (masked p) rwx_table (masked-lt p)))
