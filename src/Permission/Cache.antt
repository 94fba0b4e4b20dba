-- ===== src/Permission/Cache.antt =====
-- proxmox/client.go: the client's cache of permissions, and `CheckPermissions`. The proofs are in
-- `Permission.Cache.Agreement`. The mutex is left out: each method holds it while it reads or writes
-- the cache, and the model runs one method at a time.
pub mod Agreement
mod Tests
use proxmox_api_go.Base.{
  if◌then◌else◌, Option, none, some, List, [], ◌∷◌, Text, codes, text_eqb, text_eq, Dict, lookup,
  insert, Value, obj, fields,
}
use proxmox_api_go.Permission.{
  Permission, PermissionError, Permissions, validate, check, build_path_list,
}
use proxmox_api_go.Permission.PrivilegeSet
use proxmox_api_go.Permission.PrivilegeSet.{Granted}

-- The fields of `Client` that these methods use; a nil map is `none`.
pub record Client : Type 0 where
  pub username : Text
  pub permissions : Option Permissions

pub data ClientError : Type 0 where
  client_nil : ClientError
  api_error : ClientError
  permission : PermissionError → ClientError
  -- A type assertion panics on an answer of another shape.
  panic : ClientError

-- `NewClient`, which makes an empty map; `username` is what `Login` stores in the client.
unfoldable pub new_client : Text → Client
new_client username = record { username = username; permissions = some [] }

-- What a call returns: a value, or an error.
pub data Result {ℓ} (A : Type ℓ) : Type ℓ where
  ok : A → Result A
  err : ClientError → Result A

-- `permissionPath.mapToSDK`, over an object by its paths.
unfoldable pub map_to_sdk : Dict Text Value → Result Permissions
map_to_sdk [] = ok []
map_to_sdk ((key, obj privileges) ∷ params) = elim (map_to_sdk params) [
  | err e ↦ err e
  | ok permissions ↦ ok ((key, PrivilegeSet.map_to_sdk (fields privileges)) ∷ permissions)
]
map_to_sdk (_ ∷ params) = err panic

-- `getPermissions`, with the answer of the server to `/access/permissions`.
unfoldable pub get_permissions : Result (Dict Text Value) → Result Permissions
get_permissions (err e) = err e
get_permissions (ok raw) = map_to_sdk raw

abbrev pub put_found : Text → Option Granted → Permissions → Permissions
put_found path (some granted) extracted = insert path granted extracted
put_found path none extracted = extracted

-- The loop of `cachedPermissions` over the paths.
unfoldable pub extract : Permissions → List Text → Permissions → Permissions
extract cache [] extracted = extracted
extract cache (path ∷ paths) extracted =
    extract cache paths (put_found path (lookup path cache) extracted)

-- `cachedPermissions`, by the client's map: the permissions are fetched only where it is nil.
unfoldable pub extract_from :
    Result (Dict Text Value) → Client → List Text → Option Permissions → Client × Result Permissions
extract_from answer c paths (some cache) = (c, ok (extract cache paths []))
extract_from answer c paths none = elim (get_permissions answer) [
  | err e ↦ (c, err e)
  | ok cache ↦ (record c { permissions = some cache }, ok (extract cache paths []))
]

unfoldable pub cached_permissions :
    Result (Dict Text Value) → Client → List Text → Client × Result Permissions
cached_permissions answer c paths = extract_from answer c paths c.permissions

-- `RefreshPermissions`
unfoldable pub refresh_permissions :
    Result (Dict Text Value) → Option Client → Option Client × Option ClientError
refresh_permissions answer none = (none, some client_nil)
refresh_permissions answer (some c) = elim (get_permissions answer) [
  | err e ↦ (some c, some e)
  | ok permissions ↦ (some (record c { permissions = some permissions }), none)
]

-- `if err != nil { return err }`, in a loop.
abbrev pub or_next : Option PermissionError → Option ClientError → Option ClientError
or_next (some e) next = some (permission e)
or_next none next = next

unfoldable pub check_all : List Permission → Permissions → Option ClientError
check_all [] permissions = none
check_all (perm ∷ perms) permissions =
    or_next (check perm permissions) (check_all perms permissions)

check_extracted : List Permission → Client × Result Permissions → Option Client × Option ClientError
check_extracted perms (c, err e) = (some c, some e)
check_extracted perms (c, ok permissions) = (some c, check_all perms permissions)

-- `checkPermissions`
unfoldable pub check_valid_permissions :
    Result (Dict Text Value) → Option Client → List Permission → Option Client × Option ClientError
unfolding check_extracted
check_valid_permissions answer none perms = (none, some client_nil)
check_valid_permissions answer (some c) perms =
    if text_eqb c.username (codes "root@pam")
    then (some c, none)
    else check_extracted perms (cached_permissions answer c (build_path_list perms))

unfoldable pub validate_all : List Permission → Option ClientError
validate_all [] = none
validate_all (perm ∷ perms) = or_next (validate perm) (validate_all perms)

-- `CheckPermissions`
unfoldable pub check_permissions :
    Result (Dict Text Value) → Option Client → List Permission → Option Client × Option ClientError
check_permissions answer c perms = elim (validate_all perms) [
  | some e ↦ (c, some e)
  | none ↦ check_valid_permissions answer c perms
]
