-- ===== src/Tag/Tests.antt =====
-- Runs of the tags, and the theorems at concrete ones.
use proxmox_api_go.Base.{◌≡◌, refl, none, List, [], ◌∷◌, All, Text, codes, split_on}
use proxmox_api_go.Tag.{validate, map_to_api, map_to_sdk}
use proxmox_api_go.Tag.Validation.{IsTag, IsDistinct, tags_validate_iff}
use proxmox_api_go.Tag.RoundTrip.{tags_round_trip}

abbrev two_tags : List Text
two_tags = codes "prod" ∷ codes "web-1" ∷ []

two_tags_run : map_to_api two_tags ≡ codes "prod;web-1"
unfolding map_to_api
two_tags_run = refl

no_tags_run : map_to_sdk (map_to_api []) ≡ [] ∷ []
unfolding map_to_api map_to_sdk split_on
no_tags_run = refl

two_tags_valid : validate two_tags ≡ none
unfolding validate
two_tags_valid = refl

tags_validate_iff_example : All IsTag two_tags × IsDistinct two_tags
tags_validate_iff_example = (tags_validate_iff two_tags).0 two_tags_valid

tags_round_trip_example : map_to_sdk (map_to_api two_tags) ≡ two_tags
tags_round_trip_example = tags_round_trip two_tags (λ e. cc) two_tags_valid
