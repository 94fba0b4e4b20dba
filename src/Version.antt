-- ===== src/Version.antt =====
-- The version of the server: the type `Version` of proxmox/client.go.
-- The proofs are in `Version.Order` and `Version.RoundTrip`.
pub mod Order
pub mod RoundTrip
mod Tests
use proxmox_api_go.Base.{
  ℕ, ◌+◌, ◌*◌, ◌%◌, ◌^◌, ◌<◌, Bool, ltb, nat_eqb, if◌then◌else◌, Option, none, some, List, [], ◌∷◌,
  ◌++◌, Text, Params, str, lookup, string_eq, split_on, itoa, parse_digits,
}

pub record Version : Type 0 where
  pub major : ℕ
  pub minor : ℕ
  pub patch : ℕ

-- The fields are uint8.
pub record FitsBytes (v : Version) : Type 0 where
  pub major_fits : v.major < 256
  pub minor_fits : v.minor < 256
  pub patch_fits : v.patch < 256

-- The sum is of type uint32.
abbrev pub weight : Version → ℕ
weight v = (v.major * 256 * 256 + v.minor * 256 + v.patch) % 2 ^ 32

unfoldable pub greater : Version → Version → Bool
greater v other = ltb (weight other) (weight v)

unfoldable pub smaller : Version → Version → Bool
smaller v other = ltb (weight v) (weight other)

-- A field that is 0 is open, and becomes the greatest.
unfoldable pub max : Version → Version
max version = record {
  major = if nat_eqb version.major 0 then 255 else version.major;
  minor = if nat_eqb version.minor 0 then 255 else version.minor;
  patch = if nat_eqb version.patch 0 then 255 else version.patch;
}

-- `String`
unfoldable pub print : Version → Text
print v = itoa v.major ++ b'.' ∷ (itoa v.minor ++ b'.' ∷ itoa v.patch)

-- `rawVersion[i]` as `ParseUint(…, 10, 8)` leaves it, and 0 where there is no such part.
part : List Text → ℕ → ℕ
part [] i = 0
part (raw ∷ rest) ℕ.zero = parse_digits 255 raw
part (raw ∷ rest) (ℕ.suc i) = part rest i

version_of : Text → Version
unfolding part
version_of s = record {
  major = part (split_on b'.' s) 0;
  minor = part (split_on b'.' s) 1;
  patch = part (split_on b'.' s) 2;
}

-- `mapToSDK`; `none` is the panic of the type assertion.
unfoldable pub map_to_sdk : Params → Option Version
unfolding version_of
map_to_sdk params = elim (lookup "version" params) [
  | none ↦ some (record { major = 0; minor = 0; patch = 0 })
  | some v ↦ elim v [ str s ↦ some (version_of s) | _ ↦ none ]
]
