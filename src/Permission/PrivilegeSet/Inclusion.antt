-- ===== src/Permission/PrivilegeSet/Inclusion.antt =====
-- Which privileges are included in what is granted.
use proxmox_api_go.Base.{
  ℕ, ◌≤◌, ◌≡◌, ◌≢◌, ◌↔◌, refl, arith, true, ◌&&◌, ltb, List, [], ◌∷◌, All, All-intro, Bool-cases,
  inl, inr, string_eq, lookup, Params,
}
use proxmox_api_go.Permission.PrivilegeSet.{
  datastore_allocate, datastore_allocate_space, datastore_allocate_template, datastore_audit,
  group_allocate, permissions_modify, pool_allocate, pool_audit, realm_allocate,
  realm_allocate_user, sdn_allocate, sdn_audit, sys_audit, sys_console, sys_incoming, sys_modify,
  sys_power_mgmt, sys_syslog, user_modify, vm_allocate, vm_audit, vm_backup, vm_clone,
  vm_config_cdrom, vm_config_cpu, vm_config_cloudinit, vm_config_disk, vm_config_hw_type,
  vm_config_memory, vm_config_network, vm_config_options, vm_console, vm_migrate, vm_monitor,
  vm_power_mgmt, vm_snapshot, vm_snapshot_rollback, PrivilegeKey, privilege_keys, Privileges,
  Granted, includes_all, includes, map_to_sdk, extract_if_set, key_name,
}

All-privilege_keys :
    (P : PrivilegeKey → Type 0) → All P privilege_keys → (key : PrivilegeKey) → P key
All-privilege_keys P h datastore_allocate = h.0
All-privilege_keys P h datastore_allocate_space = h.1.0
All-privilege_keys P h datastore_allocate_template = h.1.1.0
All-privilege_keys P h datastore_audit = h.1.1.1.0
All-privilege_keys P h group_allocate = h.1.1.1.1.0
All-privilege_keys P h permissions_modify = h.1.1.1.1.1.0
All-privilege_keys P h pool_allocate = h.1.1.1.1.1.1.0
All-privilege_keys P h pool_audit = h.1.1.1.1.1.1.1.0
All-privilege_keys P h realm_allocate = h.1.1.1.1.1.1.1.1.0
All-privilege_keys P h realm_allocate_user = h.1.1.1.1.1.1.1.1.1.0
All-privilege_keys P h sdn_allocate = h.1.1.1.1.1.1.1.1.1.1.0
All-privilege_keys P h sdn_audit = h.1.1.1.1.1.1.1.1.1.1.1.0
All-privilege_keys P h sys_audit = h.1.1.1.1.1.1.1.1.1.1.1.1.0
All-privilege_keys P h sys_console = h.1.1.1.1.1.1.1.1.1.1.1.1.1.0
All-privilege_keys P h sys_incoming = h.1.1.1.1.1.1.1.1.1.1.1.1.1.1.0
All-privilege_keys P h sys_modify = h.1.1.1.1.1.1.1.1.1.1.1.1.1.1.1.0
All-privilege_keys P h sys_power_mgmt = h.1.1.1.1.1.1.1.1.1.1.1.1.1.1.1.1.0
All-privilege_keys P h sys_syslog = h.1.1.1.1.1.1.1.1.1.1.1.1.1.1.1.1.1.0
All-privilege_keys P h user_modify = h.1.1.1.1.1.1.1.1.1.1.1.1.1.1.1.1.1.1.0
All-privilege_keys P h vm_allocate = h.1.1.1.1.1.1.1.1.1.1.1.1.1.1.1.1.1.1.1.0
All-privilege_keys P h vm_audit = h.1.1.1.1.1.1.1.1.1.1.1.1.1.1.1.1.1.1.1.1.0
All-privilege_keys P h vm_backup = h.1.1.1.1.1.1.1.1.1.1.1.1.1.1.1.1.1.1.1.1.1.0
All-privilege_keys P h vm_clone = h.1.1.1.1.1.1.1.1.1.1.1.1.1.1.1.1.1.1.1.1.1.1.0
All-privilege_keys P h vm_config_cdrom = h.1.1.1.1.1.1.1.1.1.1.1.1.1.1.1.1.1.1.1.1.1.1.1.0
All-privilege_keys P h vm_config_cpu = h.1.1.1.1.1.1.1.1.1.1.1.1.1.1.1.1.1.1.1.1.1.1.1.1.0
All-privilege_keys P h vm_config_cloudinit = h.1.1.1.1.1.1.1.1.1.1.1.1.1.1.1.1.1.1.1.1.1.1.1.1.1.0
All-privilege_keys P h vm_config_disk = h.1.1.1.1.1.1.1.1.1.1.1.1.1.1.1.1.1.1.1.1.1.1.1.1.1.1.0
All-privilege_keys P h vm_config_hw_type = h.1.1.1.1.1.1.1.1.1.1.1.1.1.1.1.1.1.1.1.1.1.1.1.1.1.1.1.0
All-privilege_keys P h vm_config_memory =
    h.1.1.1.1.1.1.1.1.1.1.1.1.1.1.1.1.1.1.1.1.1.1.1.1.1.1.1.1.0
All-privilege_keys P h vm_config_network =
    h.1.1.1.1.1.1.1.1.1.1.1.1.1.1.1.1.1.1.1.1.1.1.1.1.1.1.1.1.1.0
All-privilege_keys P h vm_config_options =
    h.1.1.1.1.1.1.1.1.1.1.1.1.1.1.1.1.1.1.1.1.1.1.1.1.1.1.1.1.1.1.0
All-privilege_keys P h vm_console =
    h.1.1.1.1.1.1.1.1.1.1.1.1.1.1.1.1.1.1.1.1.1.1.1.1.1.1.1.1.1.1.1.0
All-privilege_keys P h vm_migrate =
    h.1.1.1.1.1.1.1.1.1.1.1.1.1.1.1.1.1.1.1.1.1.1.1.1.1.1.1.1.1.1.1.1.0
All-privilege_keys P h vm_monitor =
    h.1.1.1.1.1.1.1.1.1.1.1.1.1.1.1.1.1.1.1.1.1.1.1.1.1.1.1.1.1.1.1.1.1.0
All-privilege_keys P h vm_power_mgmt =
    h.1.1.1.1.1.1.1.1.1.1.1.1.1.1.1.1.1.1.1.1.1.1.1.1.1.1.1.1.1.1.1.1.1.1.0
All-privilege_keys P h vm_snapshot =
    h.1.1.1.1.1.1.1.1.1.1.1.1.1.1.1.1.1.1.1.1.1.1.1.1.1.1.1.1.1.1.1.1.1.1.1.0
All-privilege_keys P h vm_snapshot_rollback =
    h.1.1.1.1.1.1.1.1.1.1.1.1.1.1.1.1.1.1.1.1.1.1.1.1.1.1.1.1.1.1.1.1.1.1.1.1.0

-- One test of the chain.
abbrev IsCovered : Granted → Privileges → ℕ → PrivilegeKey → Type 0
IsCovered granted needed number key = needed key ≡ true → number ≤ granted key

lacking :
    (granted : Granted) (needed : Privileges) (number : ℕ) (key : PrivilegeKey)
    → (needed key && ltb (granted key) number) ≡ true
    → ¬ IsCovered granted needed number key
lacking granted needed number key short covered =
    let enough : number ≤ granted key = covered (ground arith) in ground arith

includes_all_iff :
    (granted : Granted) (needed : Privileges) (number : ℕ) (keys : List PrivilegeKey)
    → (includes_all keys granted needed number ≡ true) ↔ All (IsCovered granted needed number) keys
unfolding includes_all
includes_all_iff granted needed number [] = (λ _. tt, λ _. refl)
includes_all_iff granted needed number (key ∷ rest) =
    elim (Bool-cases (needed key && ltb (granted key) number)) [
      | inl short ↦
          rw short (λ h. absurd (cc), λ h. absurd (lacking granted needed number key short h.0))
      | inr fine ↦ rw fine (
        λ h. (λ n. ground arith, (includes_all_iff granted needed number rest).0 h),
        λ h. (includes_all_iff granted needed number rest).1 h.1,
      )
    ]

-- What is granted includes what is needed exactly when each needed privilege is granted at the level
-- that is asked for, or above.
pub includes_iff :
    (granted : Granted) (needed : Privileges) (number : ℕ)
    → (includes granted needed number ≡ true)
      ↔ ((key : PrivilegeKey) → needed key ≡ true → number ≤ granted key)
unfolding includes
includes_iff granted needed number = (
  λ h.
      All-privilege_keys (IsCovered granted needed number)
        ((includes_all_iff granted needed number privilege_keys).0 h),
  λ h.
      (includes_all_iff granted needed number privilege_keys).1
        (All-intro (IsCovered granted needed number) h privilege_keys),
)

-- Each privilege but one is read as the server sends it.
pub map_to_sdk_lem :
    (params : Params) (key : PrivilegeKey)
    → key ≢ sys_power_mgmt
    → map_to_sdk params key ≡ extract_if_set (lookup (key_name key) params)
unfolding map_to_sdk
map_to_sdk_lem params datastore_allocate ne = refl
map_to_sdk_lem params datastore_allocate_space ne = refl
map_to_sdk_lem params datastore_allocate_template ne = refl
map_to_sdk_lem params datastore_audit ne = refl
map_to_sdk_lem params group_allocate ne = refl
map_to_sdk_lem params permissions_modify ne = refl
map_to_sdk_lem params pool_allocate ne = refl
map_to_sdk_lem params pool_audit ne = refl
map_to_sdk_lem params realm_allocate ne = refl
map_to_sdk_lem params realm_allocate_user ne = refl
map_to_sdk_lem params sdn_allocate ne = refl
map_to_sdk_lem params sdn_audit ne = refl
map_to_sdk_lem params sys_audit ne = refl
map_to_sdk_lem params sys_console ne = refl
map_to_sdk_lem params sys_incoming ne = refl
map_to_sdk_lem params sys_modify ne = refl
map_to_sdk_lem params sys_power_mgmt ne = absurd (ne refl)
map_to_sdk_lem params sys_syslog ne = refl
map_to_sdk_lem params user_modify ne = refl
map_to_sdk_lem params vm_allocate ne = refl
map_to_sdk_lem params vm_audit ne = refl
map_to_sdk_lem params vm_backup ne = refl
map_to_sdk_lem params vm_clone ne = refl
map_to_sdk_lem params vm_config_cdrom ne = refl
map_to_sdk_lem params vm_config_cpu ne = refl
map_to_sdk_lem params vm_config_cloudinit ne = refl
map_to_sdk_lem params vm_config_disk ne = refl
map_to_sdk_lem params vm_config_hw_type ne = refl
map_to_sdk_lem params vm_config_memory ne = refl
map_to_sdk_lem params vm_config_network ne = refl
map_to_sdk_lem params vm_config_options ne = refl
map_to_sdk_lem params vm_console ne = refl
map_to_sdk_lem params vm_migrate ne = refl
map_to_sdk_lem params vm_monitor ne = refl
map_to_sdk_lem params vm_power_mgmt ne = refl
map_to_sdk_lem params vm_snapshot ne = refl
map_to_sdk_lem params vm_snapshot_rollback ne = refl
