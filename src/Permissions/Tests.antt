-- ===== src/Permissions/Tests.antt =====
-- Runs of the formatters and parsers, and the theorems at inputs where they apply.
use arksh.Base.{◌<◌, ◌≡◌, refl, some, none, codes}
use arksh.Permissions.{
  masked, format_permission_octal, format_permission_rwx, parse_rwx_permissions,
  parse_permissions_spec,
}
use arksh.Permissions.RoundTrip.{parse-format_permission_octal, parse-format_permission_rwx}
use arksh.Permissions.Accepts.{format-parse_rwx_permissions}

format_runs :
    (format_permission_octal 0o644 ≡ codes "644")
    × (format_permission_octal 0o4755 ≡ codes "4755")
    × (format_permission_rwx 0o4754 ≡ codes "rwsr-xr--")
unfolding format_permission_octal format_permission_rwx
format_runs = (refl, refl, refl)

parse_runs :
    (parse_permissions_spec (codes "0644") ≡ some 0o644)
    × (parse_permissions_spec (codes "rwsr-xr-T") ≡ some 0o5754)
    × (parse_permissions_spec (codes "64") ≡ none)
    × (parse_permissions_spec (codes "00644") ≡ none)
    × (parse_permissions_spec (codes "rwxr-xr-s") ≡ none)
unfolding parse_permissions_spec
parse_runs = (refl, refl, refl, refl, refl)

parse_rwx : parse_rwx_permissions (codes "rwsr-xr--") ≡ some 0o4754
unfolding parse_rwx_permissions
parse_rwx = refl

parse-format_permission_octal_example :
    parse_permissions_spec (format_permission_octal 0o104755) ≡ some (masked 0o104755)
parse-format_permission_octal_example = parse-format_permission_octal 0o104755

parse-format_permission_rwx_example :
    parse_permissions_spec (format_permission_rwx 0o104755) ≡ some (masked 0o104755)
parse-format_permission_rwx_example = parse-format_permission_rwx 0o104755

format-parse_rwx_permissions_example :
    (format_permission_rwx 0o4754 ≡ codes "rwsr-xr--") × (0o4754 < 4096)
format-parse_rwx_permissions_example = format-parse_rwx_permissions (codes "rwsr-xr--") parse_rwx
