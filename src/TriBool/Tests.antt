-- ===== src/TriBool/Tests.antt =====
-- Runs of `TriBool`, and the theorems at concrete values.
use proxmox_api_go.Base.{◌≡◌, refl, none, some, codes, ◌∷◌, []}
use proxmox_api_go.TriBool.{tri_true, tri_false, tri_none, unmarshal_json}

spellings :
    (unmarshal_json (codes "\"On\"") ≡ some tri_true)
    × (unmarshal_json (codes "NO") ≡ some tri_false)
    × (unmarshal_json (codes "\"\"") ≡ some tri_none)
    × (unmarshal_json (codes "1") ≡ none)
    × (unmarshal_json (b'y' ∷ b'e' ∷ 0xC5 ∷ 0xBF ∷ []) ≡ some tri_true)
unfolding unmarshal_json
spellings = (refl, refl, refl, refl, refl)
