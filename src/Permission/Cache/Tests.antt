-- ===== src/Permission/Cache/Tests.antt =====
-- Runs of the cache, and the theorems at concrete clients.
use proxmox_api_go.Base.{◌≡◌, refl, none, some, [], ◌∷◌, codes, true, false}
use proxmox_api_go.Permission.{Permission, validate}
use proxmox_api_go.Permission.PrivilegeSet.{Privileges, Granted, vm_audit, privilege_false}
use proxmox_api_go.Permission.Cache.{
  Client, api_error, err, new_client, check_all, validate_all, check_permissions,
}
use proxmox_api_go.Permission.Cache.Agreement.{check_permissions-agrees, new_client_unchecked}

abbrev allocate : Privileges
allocate vm_audit = true
allocate key = false

abbrev wanted : Permission
wanted = record { category = codes "pool"; item = codes "prod"; privileges = allocate }

abbrev nothing : Granted
nothing key = privilege_false

abbrev reader : Client
reader = record { username = codes "bob@pve"; permissions = some ((codes "/pool", nothing) ∷ []) }

wanted_valid : validate_all (wanted ∷ []) ≡ none
unfolding validate_all validate
wanted_valid = refl

check_permissions-agrees_example :
    check_permissions (err api_error) (some reader) (wanted ∷ [])
    ≡ (some reader, check_all (wanted ∷ []) ((codes "/pool", nothing) ∷ []))
check_permissions-agrees_example =
    check_permissions-agrees (err api_error) reader ((codes "/pool", nothing) ∷ []) (wanted ∷ [])
      refl (λ e. cc) wanted_valid

new_client_unchecked_example :
    (check_permissions (err api_error) (some (new_client (codes "bob@pve"))) (wanted ∷ [])).1 ≡ none
new_client_unchecked_example =
    new_client_unchecked (err api_error) (codes "bob@pve") (wanted ∷ []) wanted_valid
