-- ===== src/Permission/Tests.antt =====
-- Runs of the permissions, and the theorems at concrete ones.
use proxmox_api_go.Base.{
  ◌≡◌, ◌≢◌, ◌≤◌, refl, none, [], ◌∷◌, codes, true, false, Params, flt, lookup, text_eq,
}
use proxmox_api_go.Permission.{
  Permission, Permissions, path, append, check, check_at, build_path_list, build_paths, add_paths,
  add_category,
}
use proxmox_api_go.Permission.PrivilegeSet.{
  Privileges, Granted, vm_audit, sys_power_mgmt, privilege_propagate, privilege_true,
  privilege_false, includes, map_to_sdk, key_name, extract,
}
use proxmox_api_go.Permission.PrivilegeSet.Inclusion.{includes_iff}
use proxmox_api_go.Permission.Check.{HeldAt, check_iff, sys_power_mgmt_refused}

abbrev audit : Privileges
audit vm_audit = true
audit key = false

abbrev power : Privileges
power sys_power_mgmt = true
power key = false

abbrev guest : Permission
guest = record { category = codes "guest"; item = codes "100"; privileges = audit }

abbrev node : Permission
node = record { category = codes "node"; item = []; privileges = power }

abbrev sent : Params
sent =
    ("VM.Audit", flt (record { negative = false; whole = 1; fraction = false }))
    ∷ ("Sys.PowerMgmt", flt (record { negative = false; whole = 1; fraction = false }))
    ∷ []

read_run :
    (map_to_sdk sent vm_audit ≡ privilege_propagate)
    × (map_to_sdk sent sys_power_mgmt ≡ privilege_false)
unfolding map_to_sdk lookup extract key_name
read_run = (refl, refl)

abbrev auditor : Granted
auditor vm_audit = privilege_true
auditor key = privilege_false

abbrev granted_at_guest : Permissions
granted_at_guest = (codes "/vms/100", auditor) ∷ []

paths_run :
    build_path_list (guest ∷ guest ∷ []) ≡ codes "/vms" ∷ codes "/vms/100" ∷ codes "/vms/100" ∷ []
unfolding build_path_list build_paths add_paths add_category path append lookup
paths_run = refl

check_run : check guest granted_at_guest ≡ none
unfolding check check_at path append lookup includes
check_run = refl

includes_iff_example : privilege_true ≤ auditor vm_audit
unfolding includes
includes_iff_example = (includes_iff auditor audit privilege_true).0 refl vm_audit refl

check_iff_example :
    (guest.item ≢ []
      → HeldAt
          (lookup (append (path guest.category) guest.item) granted_at_guest)
          audit
          privilege_true)
    × HeldAt (lookup (path guest.category) granted_at_guest) audit privilege_propagate
check_iff_example = (check_iff guest granted_at_guest).0 check_run

sys_power_mgmt_refused_example : check node ((codes "/nodes", map_to_sdk sent) ∷ []) ≢ none
unfolding path lookup
sys_power_mgmt_refused_example =
    sys_power_mgmt_refused node ((codes "/nodes", map_to_sdk sent) ∷ []) sent refl refl
