-- ===== src/Tpm/Tests.antt =====
-- Runs of the TPM, and the theorems at concrete ones.
use proxmox_api_go.Base.{
  put_settings, split_string_of_settings, ◌≡◌, refl, false, arith, none, some, [], ◌∷◌, Text, codes,
  str, lookup, insert, text_eq, split_on, split_first,
}
use proxmox_api_go.Tpm.{
  TpmState, version_map_to_api, map_to_api, map_to_sdk, mark_changes, validate,
}
use proxmox_api_go.Tpm.Changes.{short_spelling_replaces}
use proxmox_api_go.Tpm.Creation.{create_then_unchanged}

abbrev local_tpm : TpmState
local_tpm = record { delete = false; storage = codes "local"; version = some (codes "2") }

abbrev listed : Text
listed = codes "local:vm-100-disk-1,size=4M,version=v2.0"

listed_run :
    map_to_sdk listed
    ≡ record { delete = false; storage = codes "local"; version = some (codes "v2.0") }
unfolding map_to_sdk split_string_of_settings put_settings split_on split_first lookup insert
listed_run = refl

local_tpm_valid : validate local_tpm none ≡ none
unfolding validate version_map_to_api
local_tpm_valid = refl

abbrev old_tpm : TpmState
old_tpm = record { delete = false; storage = codes "local"; version = some (codes "v1.2") }

abbrev moved_tpm : TpmState
moved_tpm = record { delete = false; storage = codes "fast"; version = some (codes "v1.2") }

abbrev short_tpm : TpmState
short_tpm = record { delete = false; storage = codes "local"; version = some (codes "1.2") }

create_then_unchanged_example :
    (text : Text) × (map_to_api local_tpm [] none ≡ some (("tpmstate0", str text) ∷ [], []))
    × ((map_to_sdk text).storage ≡ codes "local")
    × (mark_changes local_tpm (map_to_sdk text) ≡ some ([], none))
create_then_unchanged_example =
    create_then_unchanged local_tpm refl local_tpm_valid (ground arith) (ground arith)

short_spelling_replaces_example :
    (validate short_tpm none ≡ none)
    × (validate short_tpm (some old_tpm) ≡ none)
    × (mark_changes short_tpm old_tpm ≡ some (codes "tpmstate0", none))
short_spelling_replaces_example = short_spelling_replaces short_tpm old_tpm refl (λ e. cc) refl refl
