-- ===== src/Permission.antt =====
-- proxmox/permission.go: permissions, the paths that they stand at, and the check of what is granted.
-- `Permission.PrivilegeSet` models the two structs of privileges; the proofs about this module are in
-- `Permission.Check` and `Permission.Paths`.
pub mod PrivilegeSet
pub mod Check
pub mod Paths
pub mod Cache
mod Tests
use proxmox_api_go.Base.{
  Bool, true, false, not, nat_eqb, if◌then◌else◌, Option, none, some, List, [], ◌∷◌, ◌++◌, String,
  Text, codes, text_eq, text_eqb, Dict, lookup, contains, Params, Value, obj, fields,
}
use proxmox_api_go.Permission.PrivilegeSet.{
  Privileges, Granted, includes, print, map_to_sdk, privilege_true, privilege_propagate,
}

-- Categories, items and paths are texts.
pub record Permission : Type 0 where
  pub category : Text
  pub item : Text
  pub privileges : Privileges

-- `enumArray`
abbrev pub enum_array : List Text
enum_array =
    codes "root"
    ∷ codes "access"
    ∷ codes "group"
    ∷ codes "realm"
    ∷ codes "node"
    ∷ codes "guest"
    ∷ codes "pool"
    ∷ codes "storage"
    ∷ codes "zone"
    ∷ []

-- The paths of the switch of `path`.
abbrev pub category_paths : Dict Text Text
category_paths =
    (codes "access", codes "/access")
    ∷ (codes "group", codes "/access/groups")
    ∷ (codes "guest", codes "/vms")
    ∷ (codes "node", codes "/nodes")
    ∷ (codes "pool", codes "/pool")
    ∷ (codes "realm", codes "/access/realm")
    ∷ (codes "root", codes "/")
    ∷ (codes "storage", codes "/storage")
    ∷ (codes "zone", codes "/sdn/zones")
    ∷ []

switch_path : Text → Text
switch_path c = elim (lookup c category_paths) [ some path ↦ path | none ↦ [] ]

-- `path`: a raw path stays as it is.
unfoldable pub path : Text → Text
unfolding switch_path lookup
path [] = switch_path []
path (c ∷ s) = if nat_eqb c b'/' then c ∷ s else switch_path (c ∷ s)

-- `append`
unfoldable pub append : Text → Text → Text
append p [] = p
append p (c ∷ item) = if text_eqb p (codes "/") then p ++ (c ∷ item) else p ++ b'/' ∷ c ∷ item

pub data PermissionError : Type 0 where
  category_invalid : List Text → PermissionError
  permission_error : Text → PermissionError

-- `error`: the message.
unfoldable pub error_of : Permission → PermissionError
error_of p = permission_error (
    codes "permission error:"
    ++ (codes " the following privileges ("
        ++ (print p.privileges
            ++ (codes ") are missing from path ("
                ++ (append (path p.category) p.item ++ codes ")")))))

-- `PermissionCategory.Validate` and `Permission.Validate`.
unfoldable pub validate_category : Text → Option PermissionError
validate_category c = if contains enum_array c then none else some (category_invalid enum_array)

unfoldable pub validate : Permission → Option PermissionError
unfolding validate_category
validate p = validate_category p.category

-- What is granted, by path.
abbrev pub Permissions : Type 0
Permissions = Dict Text Granted

-- One of the two lookups of `check`: a path that is not listed is not held against the caller.
unfoldable pub check_at :
    Permission → Permissions → Text → Bool → Option PermissionError → Option PermissionError
check_at p permissions at propagates rest = elim (lookup at permissions) [
  | none ↦ rest
  | some granted ↦
      if includes granted p.privileges (if propagates then privilege_propagate else privilege_true)
      then rest
      else some (error_of p)
]

unfoldable pub check : Permission → Permissions → Option PermissionError
check p permissions =
    let category = check_at p permissions (path p.category) true none in
    if text_eqb p.item []
    then category
    else check_at p permissions (append (path p.category) p.item) false category

-- One permission of the loop of `buildPathList`.
unfoldable pub add_category : List Text → Text → List Text
add_category paths category_path =
    if contains paths category_path then paths else paths ++ category_path ∷ []

unfoldable pub add_paths : List Text → Permission → List Text
add_paths paths perm =
    let added = add_category paths (path perm.category) in
    if text_eqb perm.item [] then added else added ++ append (path perm.category) perm.item ∷ []

unfoldable pub build_paths : List Text → List Permission → List Text
build_paths paths [] = paths
build_paths paths (perm ∷ perms) = build_paths (add_paths paths perm) perms

-- `buildPathList`
unfoldable pub build_path_list : List Permission → List Text
build_path_list perms = build_paths [] perms
