-- ===== src/Version/RoundTrip.antt =====
-- Printing a version and reading it back.
use proxmox_api_go.Base.{
  ◌≡◌, refl, ap, ◌∙◌, arith, some, [], ◌∷◌, str, lookup, string_eq, split_on, split_on-append,
  split_on_of_Lacks, itoa, itoa-IsDigits, IsDigits-Lacks, parse_digits-itoa,
}
use proxmox_api_go.Version.{Version, FitsBytes, print, map_to_sdk}

-- The printed version falls into its three numbers.
split_on-print :
    (v : Version) → split_on b'.' (print v) ≡ itoa v.major ∷ itoa v.minor ∷ itoa v.patch ∷ []
unfolding print
split_on-print v =
    split_on-append b'.' _ _
      (IsDigits-Lacks b'.' (itoa v.major) (omega arith) (itoa-IsDigits v.major))
    ∙ ap (λ r. itoa v.major ∷ r)
        (split_on-append b'.' _ _
            (IsDigits-Lacks b'.' (itoa v.minor) (omega arith) (itoa-IsDigits v.minor))
          ∙ ap (λ r. itoa v.minor ∷ r)
              (split_on_of_Lacks b'.' _
                (IsDigits-Lacks b'.' (itoa v.patch) (omega arith) (itoa-IsDigits v.patch))))

-- A version with fields of a byte, printed and sent as the parameter `version`, is read back.
map_to_sdk-print :
    (v : Version) → FitsBytes v → map_to_sdk (("version", str (print v)) ∷ []) ≡ some v
unfolding map_to_sdk lookup
map_to_sdk-print v f = rw (split_on-print v) (
    rw
      (
        parse_digits-itoa 255 v.major (omega arith),
        parse_digits-itoa 255 v.minor (omega arith),
        parse_digits-itoa 255 v.patch (omega arith),
      )
      refl)
