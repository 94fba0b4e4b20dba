-- ===== src/Version/Tests.antt =====
-- Runs of the versions, and the theorems at concrete ones.
use proxmox_api_go.Base.{
  ◌≡◌, refl, some, arith, [], ◌∷◌, codes, str, lookup, string_eq, true, false, split_on, itoa,
  parse_digits,
}
use proxmox_api_go.Version.{Version, smaller, greater, print, map_to_sdk, max}
use proxmox_api_go.Version.Order.{smaller_iff}
use proxmox_api_go.Version.RoundTrip.{}

abbrev v7 : Version
v7 = record { major = 7; minor = 255; patch = 255 }

abbrev v8 : Version
v8 = record { major = 8; minor = 0; patch = 4 }

order_runs :
    (smaller v7 v8 ≡ true)
    × (greater v7 v8 ≡ false)
    × (max v8 ≡ record { major = 8; minor = 255; patch = 4 })
unfolding smaller greater max
order_runs = (refl, refl, refl)

print_run : print v8 ≡ codes "8.0.4"
unfolding print itoa
print_run = refl

-- Parts that are no number of a byte become 0, or 255 where they are too great.
read_run :
    map_to_sdk (("version", str (codes "8.x.999-1")) ∷ [])
    ≡ some (record { major = 8; minor = 0; patch = 0 })
unfolding map_to_sdk lookup split_on parse_digits
read_run = refl

smaller_iff_example : smaller v7 v8 ≡ true
smaller_iff_example = (smaller_iff v7 v8 (omega arith) (omega arith)).1 (omega arith)
