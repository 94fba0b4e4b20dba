-- ===== src/Permission/PrivilegeSet.antt =====
-- The privileges: the 37 like fields of `Privileges` and of `privileges`. Each struct is a function
-- from its fields; `privilege_keys` lists them in the order in which the source goes through them.
pub mod Inclusion
use proxmox_api_go.Base.{
  ℕ, ◌+◌, ◌-◌, ◌&&◌, Bool, true, false, not, ltb, nat_eqb, if◌then◌else◌, Option, none, some, List,
  [], ◌∷◌, ◌++◌, String, string_eq, Text, codes, length, Params, Value, flt, str, int, arr, obj,
  Float, lookup,
}

pub data PrivilegeKey : Type 0 where
  datastore_allocate datastore_allocate_space datastore_allocate_template : PrivilegeKey
  datastore_audit group_allocate permissions_modify pool_allocate pool_audit : PrivilegeKey
  realm_allocate realm_allocate_user sdn_allocate sdn_audit sys_audit sys_console : PrivilegeKey
  sys_incoming sys_modify sys_power_mgmt sys_syslog user_modify vm_allocate : PrivilegeKey
  vm_audit vm_backup vm_clone vm_config_cdrom vm_config_cpu vm_config_cloudinit : PrivilegeKey
  vm_config_disk vm_config_hw_type vm_config_memory vm_config_network : PrivilegeKey
  vm_config_options vm_console vm_migrate vm_monitor vm_power_mgmt vm_snapshot : PrivilegeKey
  vm_snapshot_rollback : PrivilegeKey

abbrev pub privilege_keys : List PrivilegeKey
privilege_keys =
    datastore_allocate ∷ datastore_allocate_space ∷ datastore_allocate_template ∷ datastore_audit
    ∷ group_allocate ∷ permissions_modify ∷ pool_allocate ∷ pool_audit ∷ realm_allocate
    ∷ realm_allocate_user ∷ sdn_allocate ∷ sdn_audit ∷ sys_audit ∷ sys_console ∷ sys_incoming
    ∷ sys_modify ∷ sys_power_mgmt ∷ sys_syslog ∷ user_modify ∷ vm_allocate ∷ vm_audit ∷ vm_backup
    ∷ vm_clone ∷ vm_config_cdrom ∷ vm_config_cpu ∷ vm_config_cloudinit ∷ vm_config_disk
    ∷ vm_config_hw_type ∷ vm_config_memory ∷ vm_config_network ∷ vm_config_options ∷ vm_console
    ∷ vm_migrate ∷ vm_monitor ∷ vm_power_mgmt ∷ vm_snapshot ∷ vm_snapshot_rollback ∷ []

-- `key_Privileges_…`
unfoldable pub key_name : PrivilegeKey → String
key_name datastore_allocate = "Datastore.Allocate"
key_name datastore_allocate_space = "Datastore.AllocateSpace"
key_name datastore_allocate_template = "Datastore.AllocateTemplate"
key_name datastore_audit = "Datastore.Audit"
key_name group_allocate = "Group.Allocate"
key_name permissions_modify = "Permissions.Modify"
key_name pool_allocate = "Pool.Allocate"
key_name pool_audit = "Pool.Audit"
key_name realm_allocate = "Realm.Allocate"
key_name realm_allocate_user = "Realm.AllocateUser"
key_name sdn_allocate = "SDN.Allocate"
key_name sdn_audit = "SDN.Audit"
key_name sys_audit = "Sys.Audit"
key_name sys_console = "Sys.Console"
key_name sys_incoming = "Sys.Incoming"
key_name sys_modify = "Sys.Modify"
key_name sys_power_mgmt = "Sys.PowerMgmt"
key_name sys_syslog = "Sys.Syslog"
key_name user_modify = "User.Modify"
key_name vm_allocate = "VM.Allocate"
key_name vm_audit = "VM.Audit"
key_name vm_backup = "VM.Backup"
key_name vm_clone = "VM.Clone"
key_name vm_config_cdrom = "VM.Config.CDROM"
key_name vm_config_cpu = "VM.Config.CPU"
key_name vm_config_cloudinit = "VM.Config.Cloudinit"
key_name vm_config_disk = "VM.Config.Disk"
key_name vm_config_hw_type = "VM.Config.HWType"
key_name vm_config_memory = "VM.Config.Memory"
key_name vm_config_network = "VM.Config.Network"
key_name vm_config_options = "VM.Config.Options"
key_name vm_console = "VM.Console"
key_name vm_migrate = "VM.Migrate"
key_name vm_monitor = "VM.Monitor"
key_name vm_power_mgmt = "VM.PowerMgmt"
key_name vm_snapshot = "VM.Snapshot"
key_name vm_snapshot_rollback = "VM.Snapshot.Rollback"

abbrev pub Privileges : Type 0
Privileges = PrivilegeKey → Bool

-- What is granted at a path: not, there, or there and below.
abbrev pub privilege_false : ℕ
privilege_false = 0

abbrev pub privilege_true : ℕ
privilege_true = 1

abbrev pub privilege_propagate : ℕ
privilege_propagate = 2

abbrev pub Granted : Type 0
Granted = PrivilegeKey → ℕ

-- The chain of tests of `includes`.
unfoldable pub includes_all : List PrivilegeKey → Granted → Privileges → ℕ → Bool
includes_all [] granted needed number = true
includes_all (key ∷ rest) granted needed number =
    let others = includes_all rest granted needed number in
    if needed key && ltb (granted key) number then false else others

unfoldable pub includes : Granted → Privileges → ℕ → Bool
unfolding includes_all
includes granted needed number = includes_all privilege_keys granted needed number

-- `extract`: the number that the server sends says whether the privilege propagates.
unfoldable pub extract : Value → ℕ
extract (flt f) =
    if not f.negative && nat_eqb f.whole 1 then privilege_propagate else privilege_true
extract _ = privilege_false

-- One `if` of `mapToSDK`.
abbrev pub extract_if_set : Option Value → ℕ
extract_if_set none = privilege_false
extract_if_set (some v) = extract v

-- `mapToSDK`. For `SysPowerMgmt` the source drops the value that `extract` returns.
unfoldable pub map_to_sdk : Params → Granted
map_to_sdk params sys_power_mgmt = privilege_false
map_to_sdk params key = extract_if_set (lookup (key_name key) params)

-- The loop of `String` over the privileges that are set.
unfoldable pub names_of : List PrivilegeKey → Privileges → Text → Text
names_of [] p privileges = privileges
names_of (key ∷ rest) p privileges =
    names_of rest p
      (if p key then privileges ++ (codes (key_name key) ++ codes ", ") else privileges)

-- `s[:len(s)-n]`
take_first : ℕ → Text → Text
take_first ℕ.zero s = []
take_first (ℕ.suc n) [] = []
take_first (ℕ.suc n) (c ∷ s) = c ∷ take_first n s

unfoldable pub drop_last : ℕ → Text → Text
unfolding take_first
drop_last n s = take_first (length s - n) s

-- `String`
unfoldable pub print : Privileges → Text
print p = elim (names_of privilege_keys p []) [ [] ↦ [] | c ∷ s ↦ drop_last 2 (c ∷ s) ]
