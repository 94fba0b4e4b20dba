-- ===== src/TriBool/Json.antt =====
-- Writing a `TriBool` as JSON and reading it back.
use proxmox_api_go.Base.{◌≡◌, ◌≢◌, ◌↔◌, refl, none, some, Text, arith}
use proxmox_api_go.TriBool.{
  TriBool, tri_true, tri_false, tri_none, tri_other, validate, marshal_json, unmarshal_json,
}

-- A valid value is written, and read back as itself; writing fails exactly for the values that
-- `Validate` refuses.
unmarshal_json-marshal_json :
    (b : TriBool)
    → (validate b ≡ none → (s : Text) × (marshal_json b ≡ some s) × (unmarshal_json s ≡ some b))
      × ((marshal_json b ≡ none) ↔ (validate b ≢ none))
unfolding validate marshal_json unmarshal_json
unmarshal_json-marshal_json tri_true = (λ _. (_, refl, refl), ground arith)
unmarshal_json-marshal_json tri_false = (λ _. (_, refl, refl), ground arith)
unmarshal_json-marshal_json tri_none = (λ _. (_, refl, refl), ground arith)
unmarshal_json-marshal_json (tri_other n) = (λ h. absurd (cc), ground arith)

-- What is read is always a valid value.
unmarshal_json-IsValid :
    (bytes : Text) {b : TriBool} → unmarshal_json bytes ≡ some b → validate b ≡ none
unfolding unmarshal_json validate
unmarshal_json-IsValid bytes h = ground arith
