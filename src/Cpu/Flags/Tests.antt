-- ===== src/Cpu/Flags/Tests.antt =====
-- Runs of the flags, and the theorems at concrete ones.
use proxmox_api_go.Base.{◌≡◌, refl, some, none, codes, split_on, true}
use proxmox_api_go.TriBool.{tri_true, tri_false, tri_none}
use proxmox_api_go.Cpu.Flags.{CpuFlags, aes, pcid, ssbd, map_to_api, map_to_sdk, flag_name}
use proxmox_api_go.Cpu.Flags.RoundTrip.{effective, settled, map_to_sdk-map_to_api}

abbrev now : CpuFlags
now aes = some tri_false
now pcid = some tri_true
now flag = none

abbrev change : CpuFlags
change aes = some tri_true
change ssbd = some tri_none
change flag = none

written : map_to_api change (some now) ≡ (codes ";+aes;+pcid", true)
unfolding map_to_api flag_name
written = refl

map_to_sdk-map_to_api_example :
    map_to_sdk (split_on b';' (codes "+aes;+pcid")) ≡ some (settled (effective change now))
unfolding map_to_api flag_name
map_to_sdk-map_to_api_example = map_to_sdk-map_to_api change (some now) (codes "+aes;+pcid") refl
