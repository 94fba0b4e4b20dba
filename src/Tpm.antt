-- ===== src/Tpm.antt =====
-- proxmox/config_qemu_tpm.go: the TPM of a virtual machine. `Tpm.Creation` is about a TPM that is created
-- and read back, and `Tpm.Changes` about `Validate` and `markChanges`.
pub mod Creation
pub mod Changes
mod Tests
use proxmox_api_go.Base.{
  split_string_of_settings, Bool, true, false, ◌||◌, not, if◌then◌else◌, Option, none, some, List,
  [], ◌∷◌, ◌++◌, String, string_eq, Text, codes, text_eqb, text_eq, Dict, lookup, insert, Params,
  Value, str, split_on, split_first,
}

pub record TpmState : Type 0 where
  pub delete : Bool
  pub storage : Text
  pub version : Option Text

pub data TpmError : Type 0 where
  storage_required : TpmError
  version_required : TpmError
  version_invalid : TpmError

-- `TpmVersion.mapToApi`
unfoldable pub version_map_to_api : Text → Text
version_map_to_api t =
    if text_eqb t (codes "v1.2") || text_eqb t (codes "1.2")
    then t
    else if text_eqb t (codes "v2.0")
        || text_eqb t (codes "v2")
        || text_eqb t (codes "2.0")
        || text_eqb t (codes "2")
    then codes "v2.0"
    else []

-- `TpmVersion.Validate`
unfoldable pub validate_version : Text → Option TpmError
validate_version t = if text_eqb (version_map_to_api t) [] then some version_invalid else none

-- What `mapToApi` returns: the params, and the key to delete. `none` is the panic of a nil version.
unfoldable pub map_to_api : TpmState → Params → Option TpmState → Option (Params × Text)
map_to_api t params current = if t.delete then some (params, codes "tpmstate0") else elim current [
  | some _ ↦ some (params, [])
  | none ↦ elim t.version [
    | none ↦ none
    | some version ↦ some (
      insert "tpmstate0" (str (t.storage ++ (codes ":1,version=" ++ version_map_to_api version)))
          params,
      [],
    )
  ]
]

-- `if len(splitString) > 1 { tmp.Storage = splitString[0] }`
abbrev pub storage_of : List Text → Text
storage_of (storage ∷ _ ∷ _) = storage
storage_of _ = []

unfoldable pub map_to_sdk : Text → TpmState
map_to_sdk param = record {
  delete = false;
  storage = storage_of (split_on b':' param);
  version = lookup (codes "version") (split_string_of_settings param);
}

-- `qemuDiskMove`, as far as it is filled in here.
pub record DiskMove : Type 0 where
  pub storage : Text
  pub id : Text

-- The move to another storage, where that differs.
abbrev pub moved : TpmState → TpmState → Option DiskMove
moved t current =
    if text_eqb t.storage current.storage
    then none
    else some (record { storage = t.storage; id = codes "tpmstate0" })

-- `markChanges`: the key to delete, and the move. `none` is the panic on a nil version.
unfoldable pub mark_changes : TpmState → TpmState → Option (Text × Option DiskMove)
mark_changes t current = if t.delete then some ([], none) else elim t.version [
  | none ↦ some ([], moved t current)
  | some version ↦ elim current.version [
    | none ↦ none
    | some now ↦
        if text_eqb (version_map_to_api version) now
        then some ([], moved t current)
        else some (codes "tpmstate0", none)
  ]
]

-- `Validate`
unfoldable pub validate : TpmState → Option TpmState → Option TpmError
unfolding validate_version
validate t current = if text_eqb t.storage [] then some storage_required else elim t.version [
  | some version ↦ validate_version version
  | none ↦ elim current [ none ↦ some version_required | some _ ↦ none ]
]
