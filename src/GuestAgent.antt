-- ===== src/GuestAgent.antt =====
-- proxmox/config_qemu_guestagent.go: the guest agent of a virtual machine, one text of settings.
pub mod Update
mod Tests
use proxmox_api_go.Base.{
  split_string_of_settings, Bool, true, false, ◌||◌, if◌then◌else◌, Option, none, some, List, [],
  ◌∷◌, ◌++◌, Text, codes, text_eqb, text_eq, contains, Dict, lookup,
}
use proxmox_api_go.Cpu.Kind.Spelling.{to_lower}

pub record QemuGuestAgent : Type 0 where
  pub enable : Option Bool
  pub kind : Option Text
  pub freeze : Option Bool
  pub fs_trim : Option Bool

pub data AgentError : Type 0 where
  invalid_kind : AgentError

-- `boolToIntString`
abbrev pub bool_to_int_string : Bool → Text
bool_to_int_string true = codes "1"
bool_to_int_string false = codes "0"

-- A setting of the new settings, or else of the current ones, which may be nil.
abbrev pub or_current {ℓ} : {A : Type ℓ} → Option A → Option A → Option A
or_current (some a) current = some a
or_current none current = current

abbrev pub current_of {ℓ} :
    {A : Type ℓ} → (QemuGuestAgent → Option A) → Option QemuGuestAgent → Option A
current_of field none = none
current_of field (some current) = field current

abbrev pub write_enable : Option Bool → Text
write_enable (some true) = codes "1"
write_enable _ = codes "0"

abbrev pub write_flag : Text → Option Bool → Text
write_flag key none = []
write_flag key (some b) = b',' ∷ (key ++ b'=' ∷ bool_to_int_string b)

-- An empty type is left out only where it is given anew.
abbrev pub write_kind : Option Text → Option Text → Text
write_kind (some []) current = []
write_kind (some (c ∷ s)) current = codes ",type=" ++ to_lower (c ∷ s)
write_kind none (some s) = codes ",type=" ++ to_lower s
write_kind none none = []

-- `mapToAPI`
unfoldable pub map_to_api : QemuGuestAgent → Option QemuGuestAgent → Text
map_to_api new current =
    write_enable (or_current new.enable (current_of (λ c. c.enable) current))
    ++ ((write_flag (codes "freeze-fs-on-backup")
            (or_current new.freeze (current_of (λ c. c.freeze) current))
          ++ write_flag (codes "fstrim_cloned_disks")
              (or_current new.fs_trim (current_of (λ c. c.fs_trim) current)))
        ++ write_kind new.kind (current_of (λ c. c.kind) current))

-- `strconv.ParseBool`, where an error leaves false.
unfoldable pub parse_bool : Text → Bool
parse_bool s =
    contains (codes "1" ∷ codes "t" ∷ codes "T" ∷ codes "TRUE" ∷ codes "true" ∷ codes "True" ∷ []) s

abbrev pub read_flag : Option Text → Option Bool
read_flag none = none
read_flag (some v) = some (parse_bool v)

-- `mapToSDK`; `none` is the panic of `params[0:1]` on an empty text.
unfoldable pub map_to_sdk : Text → Option QemuGuestAgent
map_to_sdk [] = none
map_to_sdk (c ∷ s) =
    let settings = split_string_of_settings (c ∷ s) in
    some (record {
      enable = some (parse_bool (c ∷ []));
      kind = lookup (codes "type") settings;
      freeze = read_flag (lookup (codes "freeze-fs-on-backup") settings);
      fs_trim = read_flag (lookup (codes "fstrim_cloned_disks") settings);
    })

-- `QemuGuestAgentType.Validate` and `QemuGuestAgent.Validate`.
unfoldable pub validate_kind : Text → Option AgentError
validate_kind [] = none
validate_kind (c ∷ s) =
    let kind = to_lower (c ∷ s) in
    if text_eqb kind (codes "isa") || text_eqb kind (codes "virtio")
    then none
    else some invalid_kind

unfoldable pub validate : QemuGuestAgent → Option AgentError
unfolding validate_kind
validate setting = elim setting.kind [ none ↦ none | some kind ↦ validate_kind kind ]
